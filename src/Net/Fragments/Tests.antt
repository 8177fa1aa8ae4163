-- ===== src/Net/Fragments/Tests.antt =====
-- A payload of three fragments, and what the theorems say of them.
use stalker_mp.Base.{
  ℕ, ◌+◌, ◌≡◌, true, List, [], ◌∷◌, none, some, length, keep, leb, replicate, arith, u64, ok,
}
use stalker_mp.Net.Fragments.{
  Fragment, Fragmentation, Reassembly, pending_key, prune_expired, validate_consistency,
  serialize_fragment_header, deserialize_fragment_header,
}
use stalker_mp.Net.Bytes.{ByteWriter}
use stalker_mp.Net.Fragments.Pruning.{prune_expired_lem}
use stalker_mp.Net.Fragments.Header.{deserialize-serialize_fragment_header}

abbrev seven : List ℕ
seven = 1 ∷ 2 ∷ 3 ∷ 4 ∷ 5 ∷ 6 ∷ 7 ∷ []

-- The first and the last fragment of the payload have come.
abbrev two_parts : Reassembly
two_parts = record {
  count = 3;
  first_tick = 4;
  have = 2;
  parts = some (1 ∷ 2 ∷ 3 ∷ []) ∷ none ∷ some (7 ∷ []) ∷ [];
}

abbrev waiting : Fragmentation
waiting = record {
  max_fragment_payload = 3;
  budget_ticks = 10;
  dropped_incomplete = 0;
  pending = (pending_key 2 300, two_parts) ∷ [];
}

prune_expired_lem_example :
    let t : Fragmentation = waiting in
    let tick : ℕ = 15 in
    let (dropped, t') = prune_expired t tick in
    (t'.pending ≡ keep (λ entry. leb tick (entry.1.first_tick + t.budget_ticks)) t.pending)
    × (validate_consistency t' tick ≡ true)
    × (dropped + length t'.pending ≡ length t.pending)
    × (t'.dropped_incomplete ≡ u64 (t.dropped_incomplete + dropped))
prune_expired_lem_example = prune_expired_lem waiting 15

deserialize-serialize_fragment_header_example :
    let f : Fragment = record { message_id = 300; index = 2; count = 3; bytes = [] } in
    let w : ByteWriter = record { buffer = replicate 8 0; position = 1 } in
    let (out, w') = serialize_fragment_header f w in
    (out ≡ ok tt)
    × (deserialize_fragment_header (record { bytes = w'.buffer; offset = w.position })
        ≡ (ok (record f { bytes = [] }), record { bytes = w'.buffer; offset = w.position + 6 }))
deserialize-serialize_fragment_header_example =
    deserialize-serialize_fragment_header
      (record { message_id = 300; index = 2; count = 3; bytes = [] })
      (record { buffer = replicate 8 0; position = 1 }) (omega arith) (omega arith) (omega arith)
      (omega arith)
