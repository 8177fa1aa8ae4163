-- ===== src/Net/Bytes/Codec.antt =====
-- Codecs as sequences: what a writer leaves, and what a reader makes of it.

use stalker_mp.Base.{
  ℕ, zero, suc, ◌+◌, ◌^◌, ◌≤◌, ◌<◌, ◌≡◌, refl, ap, ◌∙◌, List, [], ◌∷◌, ◌++◌, length, get_or,
  ErrorCode, Result, ok, arith, length-append,
}
use stalker_mp.Base.State.{Op, ◌>>=◌, ◌>>◌}
use stalker_mp.Net.Bytes.{ByteWriter, ByteReader, byte_at, read_u8, read_u16, read_u32}
use stalker_mp.Net.Bytes.Laws.{
  le16, le32, overlay-append, length-overlay, get_or-overlay, after, le16_join, le32_join,
}

-- Where there is room, the operation writes exactly these bytes.
abbrev pub Writes : Op ByteWriter ErrorCode (Unit {0}) → List ℕ → Type 0
Writes op bs =
    (w : ByteWriter) → w.position + length bs ≤ length w.buffer → op w ≡ (ok tt, after bs w)

after-append : (bs cs : List ℕ) (w : ByteWriter) → after cs (after bs w) ≡ after (bs ++ cs) w
after-append bs cs w = ground (arith, overlay-append w.position bs cs w.buffer, length-append bs cs)

pub then-Writes :
    (op k : Op ByteWriter ErrorCode (Unit {0})) (bs cs : List ℕ)
    → Writes op bs
    → Writes k cs
    → Writes (op >> k) (bs ++ cs)
then-Writes op k bs cs f g w h = rw (f w (omega (arith, length-append bs cs))) (
    g (after bs w) (omega (arith, length-append bs cs, length-overlay w.position bs w.buffer))
    ∙ ap (λ v. (ok tt, v)) (after-append bs cs w))

-- The bytes stand at the reader's position.
abbrev pub Holds : ByteReader → List ℕ → Type 0
Holds r bs =
    ((i : ℕ) → i < length bs → byte_at r i ≡ get_or bs i 0)
    × (r.offset + length bs ≤ length r.bytes)

abbrev pub advance : ℕ → ByteReader → ByteReader
advance n r = record r { offset = r.offset + n }

-- From these bytes the operation has this result, and goes past them.
abbrev pub Reads : {E A : Type 0} → Op ByteReader E A → List ℕ → Result E A → Type 0
Reads op bs out = (r : ByteReader) → Holds r bs → op r ≡ (out, advance (length bs) r)

get_or-append_left :
    (bs cs : List ℕ) (i : ℕ) → i < length bs → get_or (bs ++ cs) i 0 ≡ get_or bs i 0
get_or-append_left [] cs i h = absurd (omega arith)
get_or-append_left (b ∷ bs) cs zero h = refl
get_or-append_left (b ∷ bs) cs (suc i) h = get_or-append_left bs cs i (omega arith)

get_or-append_right : (bs cs : List ℕ) (i : ℕ) → get_or (bs ++ cs) (length bs + i) 0 ≡ get_or cs i 0
get_or-append_right [] cs i = ap (λ k. get_or cs k 0) (omega arith)
get_or-append_right (b ∷ bs) cs i =
    let e : suc (length bs) + i ≡ suc (length bs + i) = omega arith in
    rw e (get_or-append_right bs cs i)

Holds-left : (r : ByteReader) (bs cs : List ℕ) → Holds r (bs ++ cs) → Holds r bs
Holds-left r bs cs (h, fits) = (
  (λ i k. h i (omega (arith, length-append bs cs)) ∙ get_or-append_left bs cs i k),
  omega (arith, length-append bs cs),
)

Holds-right :
    (r : ByteReader) (bs cs : List ℕ) → Holds r (bs ++ cs) → Holds (advance (length bs) r) cs
Holds-right r bs cs (h, fits) = (
  (λ i k.
      ap (λ n. get_or r.bytes n 0) (omega arith)
      ∙ h (length bs + i) (omega (arith, length-append bs cs))
      ∙ get_or-append_right bs cs i),
  omega (arith, length-append bs cs),
)

pub bind-Reads :
    {E : Type 0} {A B : Type 0} (op : Op ByteReader E A) (k : A → Op ByteReader E B) (a : A)
    (b : Result E B) (bs cs : List ℕ)
    → Reads op bs (ok a)
    → Reads (k a) cs b
    → Reads (op >>= k) (bs ++ cs) b
bind-Reads op k a b bs cs f g r h = rw (f r (Holds-left r bs cs h)) (
    g (advance (length bs) r) (Holds-right r bs cs h)
    ∙ ap (λ n. (b, record r { offset = n })) (omega (arith, length-append bs cs)))

-- What a writer has just written is held at its old position.
pub Holds-after :
    (w : ByteWriter) (bs : List ℕ)
    → w.position + length bs ≤ length w.buffer
    → Holds (record { bytes = (after bs w).buffer; offset = w.position }) bs
Holds-after w bs h = (
  (λ i k. get_or-overlay w.position i bs w.buffer h k),
  omega (arith, length-overlay w.position bs w.buffer),
)

pub read_u8-Reads : (v : ℕ) → Reads read_u8 (v ∷ []) (ok v)
unfolding read_u8
read_u8-Reads v r (h, fits) = ground (arith, h 0 (omega arith))

pub read_u16-Reads : (v : ℕ) → v < 2 ^ 16 → Reads read_u16 (le16 v) (ok v)
unfolding read_u16
read_u16-Reads v b r (h, fits) = ground (arith, h 0 (omega arith), h 1 (omega arith), le16_join v b)

pub read_u32-Reads : (v : ℕ) → v < 2 ^ 32 → Reads read_u32 (le32 v) (ok v)
unfolding read_u32
read_u32-Reads v b r (h, fits) = ground (
  arith,
  h 0 (omega arith),
  h 1 (omega arith),
  h 2 (omega arith),
  h 3 (omega arith),
  le32_join v b,
)
