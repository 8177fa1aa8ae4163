-- ===== src/Net/Fragments/Parts.antt =====
-- The parts of a payload: which bytes a fragment has, and what the parts of a reassembly join to.
use mathlib.Core.Option.{some-injective}
use stalker_mp.Base.{
  ℕ, zero, suc, ◌+◌, ◌-◌, ◌*◌, ◌≤◌, ◌≡◌, refl, sym, ap, ap₂, subst, ◌∙◌, ◌⊎◌, inl, inr, List, [],
  ◌∷◌, ◌++◌, Option, none, some, length, get_elem?, set, take, drop, replicate, ltb, if◌then◌else◌,
  min, arith, length-drop,
}
use stalker_mp.Net.Fragments.{fragment_bytes, join_parts}

pub take_all : (n : ℕ) (xs : List ℕ) → length xs ≤ n → take n xs ≡ xs
take_all zero [] h = refl
take_all zero (x ∷ xs) h = absurd (omega arith)
take_all (suc n) [] h = refl
take_all (suc n) (x ∷ xs) h = ap (◌∷◌ x) (take_all n xs (omega arith))

drop_all : (n : ℕ) (xs : List ℕ) → length xs ≤ n → drop n xs ≡ []
drop_all zero [] h = refl
drop_all zero (x ∷ xs) h = absurd (omega arith)
drop_all (suc n) [] h = refl
drop_all (suc n) (x ∷ xs) h = drop_all n xs (omega arith)

take_nil : (n : ℕ) → take {A = ℕ} n [] ≡ []
take_nil zero = refl
take_nil (suc n) = refl

drop_nil : (n : ℕ) → drop {A = ℕ} n [] ≡ []
drop_nil zero = refl
drop_nil (suc n) = refl

-- What is taken first and what is taken after it.
take_split : (m k : ℕ) (xs : List ℕ) → take m xs ++ take k (drop m xs) ≡ take (m + k) xs
take_split zero k xs = ap (λ n. take n xs) (omega arith)
take_split (suc m) k [] = take_nil k ∙ sym (take_nil (suc m + k))
take_split (suc m) k (x ∷ xs) =
    ap (◌∷◌ x) (take_split m k xs) ∙ ap (λ n. take n (x ∷ xs)) (suc_out m k)
  where
    suc_out : (m k : ℕ) → suc (m + k) ≡ suc m + k
    suc_out m k = omega arith

drop-drop : (b m : ℕ) (xs : List ℕ) → drop m (drop b xs) ≡ drop (b + m) xs
drop-drop zero m xs = ap (λ n. drop n xs) (omega arith)
drop-drop (suc b) m [] = drop_nil m ∙ sym (drop_nil (suc b + m))
drop-drop (suc b) m (x ∷ xs) = drop-drop b m xs ∙ ap (λ n. drop n (x ∷ xs)) (suc_out b m)
  where
    suc_out : (b m : ℕ) → suc (b + m) ≡ suc b + m
    suc_out b m = omega arith

-- A fragment has the payload's bytes at its place.
pub fragment_bytes-take :
    (max : ℕ) (payload : List ℕ) (i : ℕ)
    → fragment_bytes max payload i ≡ take max (drop (i * max) payload)
fragment_bytes-take max payload i = at (i * max)
  where
    at :
        (begin : ℕ)
        → (if ltb begin (min (begin + max) (length payload))
            then take (min (begin + max) (length payload) - begin) (drop begin payload)
            else [])
          ≡ take max (drop begin payload)
    at begin = ground (
      arith,
      length-drop begin payload,
      take_all (length payload - begin) (drop begin payload),
      take_all max (drop begin payload),
      λ (h : length payload ≤ begin). drop_all begin payload h,
      take_nil max,
    )

-- The parts that are there.
abbrev pub filled : List (Option (List ℕ)) → ℕ
filled [] = 0
filled (none ∷ ps) = filled ps
filled (some bytes ∷ ps) = suc (filled ps)

pub filled-le : (ps : List (Option (List ℕ))) → filled ps ≤ length ps
filled-le [] = omega arith
filled-le (none ∷ ps) = omega (arith, filled-le ps)
filled-le (some bytes ∷ ps) = omega (arith, filled-le ps)

-- Each part from the i-th on is absent or has the bytes of its fragment.
abbrev pub Matches : ℕ → List ℕ → ℕ → List (Option (List ℕ)) → Type 0
Matches max payload i [] = Unit
Matches max payload i (p ∷ ps) =
    (p ≡ none ⊎ p ≡ some (fragment_bytes max payload i)) × Matches max payload (i + 1) ps

pub Matches-get :
    (max : ℕ) (payload : List ℕ) (k i : ℕ) (ps : List (Option (List ℕ))) {bytes : List ℕ}
    → Matches max payload k ps
    → get_elem? ps i ≡ some (some bytes)
    → some bytes ≡ some (fragment_bytes max payload (k + i))
Matches-get max payload k i [] m e = cc
Matches-get max payload k zero (p ∷ ps) m e = elim m.0 [
  | inl q ↦ ground arith
  | inr q ↦
      sym (some-injective _ _ e) ∙ q ∙ ap (λ n. some (fragment_bytes max payload n)) (omega arith)
]
Matches-get max payload k (suc i) (p ∷ ps) m e =
    Matches-get max payload (k + 1) i ps m.1 e
    ∙ ap (λ n. some (fragment_bytes max payload n)) (omega arith)

pub Matches-set :
    (max : ℕ) (payload : List ℕ) (k i : ℕ) (ps : List (Option (List ℕ)))
    → Matches max payload k ps
    → Matches max payload k (set ps i (some (fragment_bytes max payload (k + i))))
Matches-set max payload k i [] m = tt
Matches-set max payload k zero (p ∷ ps) m =
    (inr (ap (λ n. some (fragment_bytes max payload n)) (omega arith)), m.1)
Matches-set max payload k (suc i) (p ∷ ps) m = (
  m.0,
  subst (λ n. Matches max payload (k + 1) (set ps i (some (fragment_bytes max payload n))))
      (omega arith) (Matches-set max payload (k + 1) i ps m.1),
)

pub Matches-replicate :
    (max : ℕ) (payload : List ℕ) (k n : ℕ) → Matches max payload k (replicate n none)
Matches-replicate max payload k zero = tt
Matches-replicate max payload k (suc n) = (inl refl, Matches-replicate max payload (k + 1) n)

pub filled-replicate : (n : ℕ) → filled (replicate n none) ≡ 0
filled-replicate zero = refl
filled-replicate (suc n) = filled-replicate n

pub filled-set :
    (ps : List (Option (List ℕ))) (i : ℕ) (bytes : List ℕ)
    → get_elem? ps i ≡ some none
    → filled (set ps i (some bytes)) ≡ filled ps + 1
filled-set [] i bytes e = cc
filled-set (none ∷ ps) zero bytes e = omega arith
filled-set (some b ∷ ps) zero bytes e = cc
filled-set (none ∷ ps) (suc i) bytes e = filled-set ps i bytes e
filled-set (some b ∷ ps) (suc i) bytes e = omega (arith, filled-set ps i bytes e)

pub set_same :
    (ps : List (Option (List ℕ))) (i : ℕ) {v : Option (List ℕ)}
    → get_elem? ps i ≡ some v
    → set ps i v ≡ ps
set_same [] i e = refl
set_same (p ∷ ps) zero e = ap (λ q. q ∷ ps) (some-injective _ _ (sym e))
set_same (p ∷ ps) (suc i) e = ap (◌∷◌ p) (set_same ps i e)

zero_mul : (max : ℕ) → 0 ≡ 0 * max
zero_mul max = omega arith

next_place : (k max : ℕ) → (k + 1) * max ≡ k * max + max
next_place k max = grind arith

one_more : (n max : ℕ) → max + n * max ≡ suc n * max
one_more n max = grind arith

-- All parts together have the bytes of the payload from the place of the first.
pub join_parts-Matches :
    (max : ℕ) (payload : List ℕ) (k : ℕ) (ps : List (Option (List ℕ)))
    → Matches max payload k ps
    → filled ps ≡ length ps
    → join_parts ps ≡ take (length ps * max) (drop (k * max) payload)
unfolding join_parts
join_parts-Matches max payload k [] m e = ap (λ n. take n (drop (k * max) payload)) (zero_mul max)
join_parts-Matches max payload k (none ∷ ps) m e = absurd (omega (arith, filled-le ps))
join_parts-Matches max payload k (some bytes ∷ ps) m e =
    ap₂ (λ x y. x ++ y) (head m.0)
      (join_parts-Matches max payload (k + 1) ps m.1 (omega arith)
        ∙ ap (take (length ps * max))
            (ap (λ n. drop n payload) (next_place k max) ∙ sym (drop-drop (k * max) max payload)))
    ∙ take_split max (length ps * max) (drop (k * max) payload)
    ∙ ap (λ n. take n (drop (k * max) payload)) (one_more (length ps) max)
  where
    head :
        (some bytes ≡ none ⊎ some bytes ≡ some (fragment_bytes max payload k))
        → bytes ≡ take max (drop (k * max) payload)
    head (inl q) = cc
    head (inr q) = some-injective _ _ q ∙ fragment_bytes-take max payload k
