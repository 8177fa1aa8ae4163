-- ===== src/Keyed/Sorting.antt =====
-- `std::sort` by a strict order, as insertion sort: where the elements have distinct keys and the order
-- compares the keys, the result is the only ascending one, whatever algorithm the library takes.
use mathlib.Core.Option.{none-ne-some}
use stalker_mp.Base.{
  ℕ, ◌<◌, ◌≡◌, ◌≢◌, refl, sym, ◌∙◌, inl, inr, Bool, List, [], ◌∷◌, ◌++◌, none, some, arith, ◌==◌,
  ltb, if◌then◌else◌, Bool-cases,
}
use stalker_mp.Keyed.Laws.{Above, Ascending, lookup}

module _ {ℓ} {A : Type ℓ} (lt : A → A → Bool) where
  unfoldable pub insert_sorted : A → List A → List A
  insert_sorted a [] = a ∷ []
  insert_sorted a (x ∷ xs) =
      let rest = insert_sorted a xs in if lt a x then a ∷ x ∷ xs else x ∷ rest

  unfoldable pub sort : List A → List A
  unfolding insert_sorted
  sort [] = []
  sort (x ∷ xs) = insert_sorted x (sort xs)

module _ {ℓ} {A : Type ℓ} (key : A → ℕ) where
  -- No key stands twice.
  abbrev pub Distinct : List A → Type ℓ
  Distinct [] = Unit
  Distinct (x ∷ xs) = (lookup key xs (key x) ≡ none) × Distinct xs

  abbrev pub ByKey : (A → A → Bool) → Type ℓ
  ByKey lt = (x y : A) → key x ≢ key y → lt x y ≡ ltb (key x) (key y)

  pub lookup-cons :
      (x : A) (xs : List A) (v : ℕ)
      → lookup key (x ∷ xs) v ≡ none
      → (key x ≢ v) × (lookup key xs v ≡ none)
  unfolding lookup
  lookup-cons x xs v n = elim (Bool-cases (key x == v)) [
    | inl e ↦ absurd (none-ne-some x (sym (rw e at n)))
    | inr e ↦ (ground arith, rw e at n)
  ]

  pub lookup-append_end :
      (xs : List A) (a : A) (v : ℕ)
      → lookup key (xs ++ a ∷ []) v
        ≡ elim (lookup key xs v) [ none ↦ if key a == v then some a else none | some x ↦ some x ]
  unfolding lookup
  lookup-append_end [] a v = refl
  lookup-append_end (x ∷ xs) a v = ground (arith, lookup-append_end xs a v)

  lookup-append_other :
      (xs : List A) (a : A) (v : ℕ) → key a ≢ v → lookup key (xs ++ a ∷ []) v ≡ lookup key xs v
  lookup-append_other xs a v h = ground (arith, lookup-append_end xs a v)

  insert_sorted-Above :
      (lt : A → A → Bool) (o : ByKey lt) (p : ℕ) (a : A) (xs : List A)
      → lookup key xs (key a) ≡ none
      → p < key a
      → Above key p xs
      → Above key p (insert_sorted lt a xs)
  unfolding insert_sorted lookup
  insert_sorted-Above lt o p a [] n h above = (h, tt)
  insert_sorted-Above lt o p a (x ∷ xs) n h above =
      let absent = lookup-cons x xs (key a) n in
      ground (
        arith,
        o a x (λ e. absent.0 (sym e)),
        absent.1,
        insert_sorted-Above lt o (key x) a xs absent.1,
        absent.0,
      )

  insert_sorted-Ascending :
      (lt : A → A → Bool) (o : ByKey lt) (a : A) (xs : List A)
      → lookup key xs (key a) ≡ none
      → Ascending key xs
      → Ascending key (insert_sorted lt a xs)
  unfolding insert_sorted
  insert_sorted-Ascending lt o a [] n ascends = tt
  insert_sorted-Ascending lt o a (x ∷ xs) n ascends =
      let absent = lookup-cons x xs (key a) n in
      ground (
        arith,
        o a x (λ e. absent.0 (sym e)),
        insert_sorted-Above lt o (key x) a xs absent.1,
        absent.0,
      )

  lookup-insert_sorted :
      (lt : A → A → Bool) (a : A) (xs : List A) (v : ℕ)
      → lookup key xs (key a) ≡ none
      → lookup key (insert_sorted lt a xs) v ≡ (if key a == v then some a else lookup key xs v)
  unfolding insert_sorted lookup
  lookup-insert_sorted lt a [] v n = refl
  lookup-insert_sorted lt a (x ∷ xs) v n =
      let absent = lookup-cons x xs (key a) n in
      ground (arith, absent.0, lookup-insert_sorted lt a xs v absent.1)

  pub lookup-sort :
      (lt : A → A → Bool) (xs : List A) (v : ℕ)
      → Distinct xs
      → lookup key (sort lt xs) v ≡ lookup key xs v
  unfolding sort lookup
  lookup-sort lt [] v d = refl
  lookup-sort lt (x ∷ xs) v d =
      lookup-insert_sorted lt x (sort lt xs) v (lookup-sort lt xs (key x) d.1 ∙ d.0)
      ∙ rw (lookup-sort lt xs v d.1)

  pub sort-Ascending :
      (lt : A → A → Bool) → ByKey lt → (xs : List A) → Distinct xs → Ascending key (sort lt xs)
  unfolding sort
  sort-Ascending lt o [] d = tt
  sort-Ascending lt o (x ∷ xs) d =
      insert_sorted-Ascending lt o x (sort lt xs) (lookup-sort lt xs (key x) d.1 ∙ d.0)
        (sort-Ascending lt o xs d.1)

  pub Distinct-append :
      (xs : List A) (a : A) → Distinct xs → lookup key xs (key a) ≡ none → Distinct (xs ++ a ∷ [])
  unfolding lookup
  Distinct-append [] a d n = (refl, tt)
  Distinct-append (x ∷ xs) a d n =
      let absent = lookup-cons x xs (key a) n in
      (
        lookup-append_other xs a (key x) (λ e. absent.0 (sym e)) ∙ d.0,
        Distinct-append xs a d.1 absent.1,
      )
