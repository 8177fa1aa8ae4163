-- ===== src/Net/Fragments/Header.antt =====
-- The fragment sub-header on the wire.
use stalker_mp.Base.{◌+◌, ◌<◌, ◌≤◌, ◌^◌, ◌≡◌, refl, [], ◌++◌, length, ok, ErrorCode, arith}
use stalker_mp.Base.State.{return}
use stalker_mp.Net.Bytes.{ByteWriter}
use stalker_mp.Net.Bytes.Laws.{le16, write_u16_fits}
use stalker_mp.Net.Bytes.Codec.{Writes, then-Writes, Reads, bind-Reads, Holds-after, read_u16-Reads}
use stalker_mp.Net.Fragments.{Fragment, serialize_fragment_header, deserialize_fragment_header}

header-Writes :
    (f : Fragment)
    → Writes (serialize_fragment_header f) (le16 f.message_id ++ le16 f.index ++ le16 f.count)
unfolding serialize_fragment_header
header-Writes f =
    then-Writes _ _ (le16 f.message_id) (le16 f.index ++ le16 f.count) (write_u16_fits f.message_id)
      (then-Writes _ _ (le16 f.index) (le16 f.count) (write_u16_fits f.index)
        (write_u16_fits f.count))

return-Reads : {A : Type 0} (a : A) → Reads {E = ErrorCode} (return a) [] (ok a)
return-Reads a r h = ground arith

-- Reading back a fragment header that was written where there was room gives its three fields, and no
-- bytes; the reader stands behind the 6 bytes.
pub deserialize-serialize_fragment_header :
    (f : Fragment) (w : ByteWriter)
    → f.message_id < 2 ^ 16
    → f.index < 2 ^ 16
    → f.count < 2 ^ 16
    → w.position + 6 ≤ length w.buffer
    → let (out, w') = serialize_fragment_header f w in
      (out ≡ ok tt)
      × (deserialize_fragment_header (record { bytes = w'.buffer; offset = w.position })
          ≡ (ok (record f { bytes = [] }), record { bytes = w'.buffer; offset = w.position + 6 }))
unfolding deserialize_fragment_header
deserialize-serialize_fragment_header f w hm hi hc fits = rw (header-Writes f w fits) (
  refl,
  bind-Reads _ _ f.message_id _ (le16 f.message_id) (le16 f.index ++ le16 f.count ++ [])
      (read_u16-Reads f.message_id hm)
      (bind-Reads _ _ f.index _ (le16 f.index) (le16 f.count ++ []) (read_u16-Reads f.index hi) (
        bind-Reads _ _ f.count _ (le16 f.count) [] (read_u16-Reads f.count hc)
          (return-Reads (record f { bytes = [] }))))
      _ (Holds-after w (le16 f.message_id ++ le16 f.index ++ le16 f.count) fits),
)
