-- ===== src/Keyed/Canonical.antt =====
-- The vector is a canonical form of the finite map that it stores.
use stalker_mp.Base.{ℕ, ◌≡◌, refl, ap, ap₂, List, [], ◌∷◌, arith}
use stalker_mp.Keyed.Laws.{Above, Ascending, Above-Ascending, lookup, lookup_below}

module _ {A : Type 0} (key : A → ℕ) where
  head-eq :
      (x y : A) (xs ys : List A)
      → Above key (key x) xs
      → Above key (key y) ys
      → ((v : ℕ) → lookup key (x ∷ xs) v ≡ lookup key (y ∷ ys) v)
      → x ≡ y
  unfolding lookup
  head-eq x y xs ys a b h = ground (
    arith,
    h (key x),
    h (key y),
    lookup_below key (key x) (key y) xs a,
    lookup_below key (key y) (key x) ys b,
  )

  tails :
      (x y : A) (xs ys : List A)
      → Above key (key x) xs
      → Above key (key y) ys
      → x ≡ y
      → ((v : ℕ) → lookup key (x ∷ xs) v ≡ lookup key (y ∷ ys) v)
      → (v : ℕ) → lookup key xs v ≡ lookup key ys v
  unfolding lookup
  tails x y xs ys a b same h v =
      let same_key : key x ≡ key y = ap key same in
      ground (arith, h v, lookup_below key (key x) v xs a, lookup_below key (key y) v ys b)

  pub lookup-injective :
      (xs ys : List A)
      → Ascending key xs
      → Ascending key ys
      → ((v : ℕ) → lookup key xs v ≡ lookup key ys v)
      → xs ≡ ys
  unfolding lookup
  lookup-injective [] [] a b h = refl
  lookup-injective [] (y ∷ ys) a b h = absurd (ground (arith, h (key y)))
  lookup-injective (x ∷ xs) [] a b h = absurd (ground (arith, h (key x)))
  lookup-injective (x ∷ xs) (y ∷ ys) a b h =
      let same = head-eq x y xs ys a b h in
      ap₂ (λ z zs. z ∷ zs) same
        (lookup-injective xs ys (Above-Ascending key (key x) xs a)
          (Above-Ascending key (key y) ys b) (tails x y xs ys a b same h))
