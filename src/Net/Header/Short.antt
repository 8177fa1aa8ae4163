-- ===== src/Net/Header/Short.antt =====
-- The header codec on short buffers.

use stalker_mp.Base.{
  ℕ, ◌+◌, ◌<◌, ◌≡◌, refl, ◌⊎◌, length, arith, ltb, Bool-cases, lt→ltb, inl, inr, ok, err,
}
use stalker_mp.Base.State.{Op, ◌>>=◌}
use stalker_mp.Net.Bytes.{ByteReader, read_u8, read_u16, read_u32}
use stalker_mp.Net.Bytes.Codec.{advance}
use stalker_mp.Net.Header.{HeaderError, deserialize_header, packet_header_wire_size, or_truncated}

-- An operation fails as truncated where fewer bytes are left.
abbrev Short : {A : Type 0} → Op ByteReader HeaderError A → ℕ → Type 0
Short op n = (r : ByteReader) → length r.bytes < r.offset + n → (op r).0 ≡ err HeaderError.truncated

-- An operation goes past its bytes or fails as truncated.
abbrev Consumes : {A : Type 0} → Op ByteReader HeaderError A → ℕ → Type 0
Consumes {A} op n =
    (r : ByteReader)
    → ((a : A) × (op r ≡ (ok a, advance n r))) ⊎ (op r ≡ (err HeaderError.truncated, r))

bind-Short :
    {A B : Type 0} (op : Op ByteReader HeaderError A) (k : A → Op ByteReader HeaderError B)
    (m n : ℕ)
    → Consumes op m
    → ((a : A) → Short (k a) n)
    → Short (op >>= k) (m + n)
bind-Short op k m n c f r h = elim (c r) [
  | inl (a, e) ↦ rw e (f a (advance m r) (omega arith))
  | inr e ↦ rw e
]

last-Short :
    {A B : Type 0} (op : Op ByteReader HeaderError A) (k : A → Op ByteReader HeaderError B) (n : ℕ)
    → ((r : ByteReader) → length r.bytes < r.offset + n → op r ≡ (err HeaderError.truncated, r))
    → Short (op >>= k) n
last-Short op k n f r h = rw (f r h)

u8-Consumes : Consumes (or_truncated read_u8) 1
unfolding read_u8
u8-Consumes r = elim (Bool-cases (ltb (length r.bytes) (r.offset + 1))) [
  | inl e ↦ rw e (inr refl)
  | inr e ↦ rw e (inl (_, refl))
]

u16-Consumes : Consumes (or_truncated read_u16) 2
unfolding read_u16
u16-Consumes r = elim (Bool-cases (ltb (length r.bytes) (r.offset + 2))) [
  | inl e ↦ rw e (inr refl)
  | inr e ↦ rw e (inl (_, refl))
]

u16_short :
    (r : ByteReader)
    → length r.bytes < r.offset + 2
    → or_truncated read_u16 r ≡ (err HeaderError.truncated, r)
unfolding read_u16
u16_short r h = rw (lt→ltb _ _ h)

u32-Consumes : Consumes (or_truncated read_u32) 4
unfolding read_u32
u32-Consumes r = elim (Bool-cases (ltb (length r.bytes) (r.offset + 4))) [
  | inl e ↦ rw e (inr refl)
  | inr e ↦ rw e (inl (_, refl))
]

-- A buffer with fewer than 18 bytes left is reported as truncated, whatever the bytes are.
pub deserialize_truncated :
    (r : ByteReader)
    → length r.bytes < r.offset + packet_header_wire_size
    → (deserialize_header r).0 ≡ err HeaderError.truncated
unfolding deserialize_header
deserialize_truncated = bind-Short _ _ 2 16 u16-Consumes (λ _.
    bind-Short _ _ 2 14 u16-Consumes (λ _. bind-Short _ _ 1 13 u8-Consumes (λ _.
      bind-Short _ _ 1 12 u8-Consumes (λ _. bind-Short _ _ 2 10 u16-Consumes (λ _.
        bind-Short _ _ 2 8 u16-Consumes (λ _. bind-Short _ _ 4 4 u32-Consumes (λ _.
          bind-Short _ _ 2 2 u16-Consumes
            (λ _. last-Short (or_truncated read_u16) _ 2 u16_short))))))))
