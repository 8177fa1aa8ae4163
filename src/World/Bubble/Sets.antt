-- ===== src/World/Bubble/Sets.antt =====
-- Ascending lists of ids as sets: `std::binary_search` and `std::set_difference`.
use stalker_mp.Base.{
  ℕ, ◌≤◌, ◌≡◌, refl, ◌∙◌, true, false, not, ◌&&◌, List, [], ◌∷◌, is_some, has, arith,
}
use stalker_mp.Keyed.Laws.{Above, Ascending, Above-mono, Above-Ascending, lookup}
use stalker_mp.Keyed.Ascending.{is_at-Ascending}
use stalker_mp.World.Bubble.{
  self, binary_search, skip_below, starts_with, set_difference, is_sorted, has_adjacent_equal,
}

pub is_some-lookup : (ids : List ℕ) (v : ℕ) → is_some (lookup self ids v) ≡ has ids v
unfolding lookup
is_some-lookup [] v = refl
is_some-lookup (x ∷ xs) v = ground (arith, is_some-lookup xs v)

pub binary_search-has :
    (ids : List ℕ) (v : ℕ) → Ascending self ids → binary_search ids v ≡ has ids v
binary_search-has ids v a = is_at-Ascending self v ids a ∙ is_some-lookup ids v

pub has_below : (p v : ℕ) (xs : List ℕ) → Above self p xs → v ≤ p → has xs v ≡ false
has_below p v [] a h = refl
has_below p v (x ∷ xs) a h = ground (arith, has_below x v xs a.1)

skip_below-Ascending : (x : ℕ) (ys : List ℕ) → Ascending self ys → Ascending self (skip_below x ys)
unfolding skip_below
skip_below-Ascending x [] a = tt
skip_below-Ascending x (y ∷ ys) a =
    ground (arith, skip_below-Ascending x ys (Above-Ascending self y ys a))

has-skip_below :
    (x v : ℕ) (ys : List ℕ) → Ascending self ys → x ≤ v → has (skip_below x ys) v ≡ has ys v
unfolding skip_below
has-skip_below x v [] a h = refl
has-skip_below x v (y ∷ ys) a h =
    ground (arith, has-skip_below x v ys (Above-Ascending self y ys a))

starts_with-skip_below :
    (x : ℕ) (ys : List ℕ) → Ascending self ys → starts_with x (skip_below x ys) ≡ has ys x
unfolding skip_below
starts_with-skip_below x [] a = refl
starts_with-skip_below x (y ∷ ys) a =
    ground (arith, starts_with-skip_below x ys (Above-Ascending self y ys a), has_below y x ys a)

pub set_difference-Above :
    (p : ℕ) (xs ys : List ℕ) → Above self p xs → Above self p (set_difference xs ys)
unfolding set_difference
set_difference-Above p [] ys a = tt
set_difference-Above p (x ∷ xs) ys a =
    let rest = set_difference xs (skip_below x ys) in
    let above = set_difference-Above x xs (skip_below x ys) a.1 in
    ground (arith, above, Above-mono self p x rest)

pub set_difference-Ascending :
    (xs ys : List ℕ) → Ascending self xs → Ascending self (set_difference xs ys)
unfolding set_difference
set_difference-Ascending [] ys a = tt
set_difference-Ascending (x ∷ xs) ys a =
    let rest = set_difference xs (skip_below x ys) in
    let above = set_difference-Above x xs (skip_below x ys) a in
    ground (arith, above, Above-Ascending self x rest)

-- The difference of two ascending lists has the ids of the first that the second lacks.
pub has-set_difference :
    (xs ys : List ℕ) (v : ℕ)
    → Ascending self xs
    → Ascending self ys
    → has (set_difference xs ys) v ≡ (has xs v && not (has ys v))
unfolding set_difference
has-set_difference [] ys v a b = refl
has-set_difference (x ∷ xs) ys v a b =
    let ys' = skip_below x ys in
    ground (
      arith,
      has-set_difference xs ys' v (Above-Ascending self x xs a) (skip_below-Ascending x ys b),
      starts_with-skip_below x ys b,
      has-skip_below x v ys b,
      has_below x v xs a,
    )

pub is_sorted-Ascending : (xs : List ℕ) → Ascending self xs → is_sorted xs ≡ true
unfolding is_sorted
is_sorted-Ascending [] a = refl
is_sorted-Ascending (x ∷ []) a = refl
is_sorted-Ascending (x ∷ y ∷ ys) a = ground (arith, is_sorted-Ascending (y ∷ ys) a.1)

pub has_adjacent_equal-Ascending : (xs : List ℕ) → Ascending self xs → has_adjacent_equal xs ≡ false
unfolding has_adjacent_equal
has_adjacent_equal-Ascending [] a = refl
has_adjacent_equal-Ascending (x ∷ []) a = refl
has_adjacent_equal-Ascending (x ∷ y ∷ ys) a =
    ground (arith, has_adjacent_equal-Ascending (y ∷ ys) a.1)
