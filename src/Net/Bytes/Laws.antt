-- ===== src/Net/Bytes/Laws.antt =====
-- A write is one overlay of the buffer, and a read looks at the bytes of the last overlay.
use Prim.Native.Nat.{bit_or}
use stalker_mp.Base.{
  ℕ, zero, suc, ◌+◌, ◌*◌, ◌/◌, ◌^◌, ◌≤◌, ◌<◌, ◌≡◌, ◌≢◌, refl, ap, ◌∙◌, List, [], ◌∷◌, ◌++◌, length,
  get_or, set, ok, u8, arith, length-set,
}
use stalker_mp.Base.Bits.{bit_or_fields}
use stalker_mp.Net.Bytes.{ByteWriter, write_u8, write_u16, write_u32}

-- The bytes of a number, the lowest first.
abbrev pub le16 : ℕ → List ℕ
le16 v = u8 v ∷ u8 (v / 2 ^ 8) ∷ []

abbrev pub le32 : ℕ → List ℕ
le32 v = u8 v ∷ u8 (v / 2 ^ 8) ∷ u8 (v / 2 ^ 16) ∷ u8 (v / 2 ^ 24) ∷ []

unfoldable pub overlay : ℕ → List ℕ → List ℕ → List ℕ
overlay p [] buf = buf
overlay p (b ∷ bs) buf = overlay (p + 1) bs (set buf p b)

pub length-overlay : (p : ℕ) (bs buf : List ℕ) → length (overlay p bs buf) ≡ length buf
unfolding overlay
length-overlay p [] buf = refl
length-overlay p (b ∷ bs) buf = length-overlay (p + 1) bs (set buf p b) ∙ length-set buf p b

pub overlay-append :
    (p : ℕ) (cs bs buf : List ℕ)
    → overlay (p + length cs) bs (overlay p cs buf) ≡ overlay p (cs ++ bs) buf
unfolding overlay
overlay-append p [] bs buf = ap (λ q. overlay q bs buf) (omega arith)
overlay-append p (a ∷ cs) bs buf =
    ap (λ q. overlay q bs (overlay (p + 1) cs (set buf p a))) (omega arith)
    ∙ overlay-append (p + 1) cs bs (set buf p a)

get_or-set_self : (xs : List ℕ) (i v : ℕ) → i < length xs → get_or (set xs i v) i 0 ≡ v
get_or-set_self [] i v h = absurd (omega arith)
get_or-set_self (x ∷ xs) zero v h = refl
get_or-set_self (x ∷ xs) (suc i) v h = get_or-set_self xs i v (omega arith)

get_or-set_ne : (xs : List ℕ) (i j v : ℕ) → i ≢ j → get_or (set xs i v) j 0 ≡ get_or xs j 0
get_or-set_ne [] i j v h = refl
get_or-set_ne (x ∷ xs) zero zero v h = absurd (h refl)
get_or-set_ne (x ∷ xs) zero (suc j) v h = refl
get_or-set_ne (x ∷ xs) (suc i) zero v h = refl
get_or-set_ne (x ∷ xs) (suc i) (suc j) v h = get_or-set_ne xs i j v (λ e. h (ap suc e))

get_or-overlay_before :
    (p q : ℕ) (bs buf : List ℕ) → q < p → get_or (overlay p bs buf) q 0 ≡ get_or buf q 0
unfolding overlay
get_or-overlay_before p q [] buf h = refl
get_or-overlay_before p q (b ∷ bs) buf h =
    get_or-overlay_before (p + 1) q bs (set buf p b) (omega arith)
    ∙ get_or-set_ne buf p q b (omega arith)

pub get_or-overlay :
    (p i : ℕ) (bs buf : List ℕ)
    → p + length bs ≤ length buf
    → i < length bs
    → get_or (overlay p bs buf) (p + i) 0 ≡ get_or bs i 0
unfolding overlay
get_or-overlay p i [] buf h k = absurd (omega arith)
get_or-overlay p zero (b ∷ bs) buf h k =
    let e : p + 0 ≡ p = omega arith in
    rw e (
      get_or-overlay_before (p + 1) p bs (set buf p b) (omega arith)
      ∙ get_or-set_self buf p b (omega arith))
get_or-overlay p (suc i) (b ∷ bs) buf h k =
    let e : p + suc i ≡ p + 1 + i = omega arith in
    rw e
      (get_or-overlay (p + 1) i bs (set buf p b) (omega (arith, length-set buf p b)) (omega arith))

-- A writer after the bytes.
abbrev pub after : List ℕ → ByteWriter → ByteWriter
after bs w = record { buffer = overlay w.position bs w.buffer; position = w.position + length bs }

pub write_u8_fits :
    (v : ℕ) (w : ByteWriter)
    → w.position + 1 ≤ length w.buffer
    → write_u8 v w ≡ (ok tt, after (v ∷ []) w)
unfolding write_u8 overlay
write_u8_fits v w h = ground arith

pub write_u16_fits :
    (v : ℕ) (w : ByteWriter)
    → w.position + 2 ≤ length w.buffer
    → write_u16 v w ≡ (ok tt, after (le16 v) w)
unfolding write_u16 overlay
write_u16_fits v w h = ground arith

pub write_u32_fits :
    (v : ℕ) (w : ByteWriter)
    → w.position + 4 ≤ length w.buffer
    → write_u32 v w ≡ (ok tt, after (le32 v) w)
unfolding write_u32 overlay
write_u32_fits v w h = ground arith

pub le16_join : (v : ℕ) → v < 2 ^ 16 → bit_or (u8 v) (u8 (v / 2 ^ 8) * 2 ^ 8) ≡ v
le16_join v h = omega (arith, bit_or_fields 8 (u8 v) (u8 (v / 2 ^ 8)) (omega arith))

pub le32_join :
    (v : ℕ)
    → v < 2 ^ 32
    → bit_or
        (bit_or (bit_or (u8 v) (u8 (v / 2 ^ 8) * 2 ^ 8)) (u8 (v / 2 ^ 16) * 2 ^ 16))
        (u8 (v / 2 ^ 24) * 2 ^ 24)
      ≡ v
le32_join v h = rw (bit_or_fields 8 (u8 v) (u8 (v / 2 ^ 8)) (omega arith)) (
    rw (bit_or_fields 16 (u8 v + u8 (v / 2 ^ 8) * 2 ^ 8) (u8 (v / 2 ^ 16)) (omega arith)) (
      rw
        (bit_or_fields 24 (u8 v + u8 (v / 2 ^ 8) * 2 ^ 8 + u8 (v / 2 ^ 16) * 2 ^ 16)
          (u8 (v / 2 ^ 24)) (omega arith))
        (omega arith)))
