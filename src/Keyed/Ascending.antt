-- ===== src/Keyed/Ascending.antt =====
-- The laws of the sorted vector for ascending keys with no bound below the first.

use stalker_mp.Base.{
  ℕ, zero, suc, ◌≡◌, refl, inl, inr, List, [], ◌∷◌, none, some, insert_at, erase_at, arith, ◌==◌,
  if◌then◌else◌, Bool-cases, is_some, ==_iff,
}
use stalker_mp.Keyed.{lower_bound, is_at}
use stalker_mp.Keyed.Laws.{
  Above, Ascending, Above-Ascending, lookup, lookup_below, index_of, index_of-shift,
  is_at-lower_bound, insert-Above, lookup-insert, erase-Above, lookup-erase,
}

-- The same for ascending keys with no bound below.
module _ {ℓ} {A : Type ℓ} (key : A → ℕ) where
  pub is_at-Ascending :
      (v : ℕ) (xs : List A)
      → Ascending key xs
      → is_at key xs (lower_bound key xs v) v ≡ is_some (lookup key xs v)
  unfolding lookup lower_bound
  is_at-Ascending v [] a = refl
  is_at-Ascending v (x ∷ xs) a =
      ground (arith, is_at-lower_bound key (key x) v xs a, lookup_below key (key x) v xs a)

  pub insert-Ascending :
      (xs : List A) (e : A)
      → Ascending key xs
      → lookup key xs (key e) ≡ none
      → Ascending key (insert_at xs (lower_bound key xs (key e)) e)
  unfolding lookup lower_bound
  insert-Ascending [] e a n = tt
  insert-Ascending (x ∷ xs) e a n = ground (arith, insert-Above key (key x) xs e a)

  pub lookup-insert_Ascending :
      (j : ℕ) (xs : List A) (e : A)
      → Ascending key xs
      → lookup key xs (key e) ≡ none
      → lookup key (insert_at xs (lower_bound key xs (key e)) e) j
        ≡ (if key e == j then some e else lookup key xs j)
  unfolding lookup lower_bound
  lookup-insert_Ascending j [] e a n = refl
  lookup-insert_Ascending j (x ∷ xs) e a n = ground (arith, lookup-insert key (key x) j xs e a)

  pub erase-Ascending : (i : ℕ) (xs : List A) → Ascending key xs → Ascending key (erase_at xs i)
  erase-Ascending i [] a = tt
  erase-Ascending zero (x ∷ xs) a = Above-Ascending key (key x) xs a
  erase-Ascending (suc i) (x ∷ xs) a = erase-Above key (key x) i xs a

  lookup_other :
      (j : ℕ) (x : A) (xs : List A)
      → Above key (key x) xs
      → lookup key xs j
        ≡ (if key x == j then none else if key x == j then some x else lookup key xs j)
  lookup_other j x xs a = elim (Bool-cases (key x == j)) [
    | inl e ↦ rw e (lookup_below key (key x) j xs a (omega (arith, (==_iff (key x) j).0 e)))
    | inr e ↦ rw e
  ]

  pub lookup-erase_Ascending :
      (v j : ℕ) (xs : List A) {i : ℕ}
      → Ascending key xs
      → index_of key 0 xs v ≡ some i
      → lookup key (erase_at xs i) j ≡ (if v == j then none else lookup key xs j)
  unfolding lookup
  lookup-erase_Ascending v j [] a h = cc
  lookup-erase_Ascending v j (x ∷ xs) {i = zero} a h = elim (Bool-cases (key x == v)) [
    | inl e ↦ rw (← (==_iff (key x) v).0 e) (lookup_other j x xs a)
    | inr e ↦ ground (arith, index_of-shift key 0 v xs)
  ]
  lookup-erase_Ascending v j (x ∷ xs) {i = suc i} a h =
      ground (arith, index_of-shift key 0 v xs, lookup-erase key (key x) v j xs {i = i} a)
