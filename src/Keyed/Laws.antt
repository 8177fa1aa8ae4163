-- ===== src/Keyed/Laws.antt =====
-- The sorted vector and its index as a finite map from keys to records.
use mathlib.Core.Option.{some-injective}
use stalker_mp.Base.{
  sym, ℕ, zero, suc, ◌+◌, ◌≤◌, ◌<◌, ◌≡◌, refl, ◌∙◌, inl, inr, ap, List, [], ◌∷◌, ◌++◌, Option, none,
  some, length, get_elem?, insert_at, erase_at, arith, ◌==◌, if◌then◌else◌, Bool-cases, is_some,
  ==_iff,
}
use stalker_mp.Keyed.{
  Index, find_index, emplace, lower_bound, is_at, rebuild_from, rebuild_accelerator, find_entry,
}

pub find_index-emplace :
    (j k i : ℕ) (m : Index)
    → find_index j (emplace k i m)
      ≡ elim (find_index j m) [ none ↦ if k == j then some i else none | some w ↦ some w ]
find_index-emplace j k i m = ground arith

module _ {ℓ} {A : Type ℓ} (key : A → ℕ) where
  -- The abstract view: the first record with a key.
  unfoldable pub lookup : List A → ℕ → Option A
  lookup [] v = none
  lookup (x ∷ xs) v = if key x == v then some x else lookup xs v

  -- Its position.
  abbrev pub index_of : ℕ → List A → ℕ → Option ℕ
  index_of i [] v = none
  index_of i (x ∷ xs) v = if key x == v then some i else index_of (i + 1) xs v

  -- Keys above a bound, each above the one before.
  abbrev pub Above : ℕ → List A → Type 0
  Above p [] = Unit
  Above p (x ∷ xs) = (p < key x) × Above (key x) xs

  abbrev pub Ascending : List A → Type 0
  Ascending [] = Unit
  Ascending (x ∷ xs) = Above (key x) xs

  pub Above-mono : (p q : ℕ) (xs : List A) → p ≤ q → Above q xs → Above p xs
  Above-mono p q [] h a = tt
  Above-mono p q (x ∷ xs) h a = (omega arith, a.1)

  pub Above-Ascending : (p : ℕ) (xs : List A) → Above p xs → Ascending xs
  Above-Ascending p [] a = tt
  Above-Ascending p (x ∷ xs) a = a.1

  pub lookup_below : (p v : ℕ) (xs : List A) → Above p xs → v ≤ p → lookup xs v ≡ none
  unfolding lookup
  lookup_below p v [] a h = refl
  lookup_below p v (x ∷ xs) a h = ground (arith, lookup_below (key x) v xs a.1)

  -- The index after `RebuildAccelerator` gives the position of the first record with the key.
  pub find_index-rebuild_from :
      (v i : ℕ) (xs : List A) (m : Index)
      → find_index v (rebuild_from key i xs m)
        ≡ elim (find_index v m) [ none ↦ index_of i xs v | some w ↦ some w ]
  unfolding rebuild_from
  find_index-rebuild_from v i [] m = ground arith
  find_index-rebuild_from v i (x ∷ xs) m = ground (
    arith,
    find_index-rebuild_from v (i + 1) xs (emplace (key x) i m),
    find_index-emplace v (key x) i m,
  )

  pub find_index-rebuild :
      (v : ℕ) (xs : List A) → find_index v (rebuild_accelerator key xs) ≡ index_of 0 xs v
  unfolding rebuild_accelerator
  find_index-rebuild v xs = find_index-rebuild_from v 0 xs []

  pub index_of-shift :
      (i v : ℕ) (xs : List A)
      → index_of (i + 1) xs v ≡ elim (index_of i xs v) [ none ↦ none | some j ↦ some (j + 1) ]
  index_of-shift i v [] = refl
  index_of-shift i v (x ∷ xs) = ground (arith, index_of-shift (i + 1) v xs)

  -- Searching through the index is searching the vector.
  pub get_elem?-index_of :
      (v : ℕ) (xs : List A)
      → elim (index_of 0 xs v) [ none ↦ none | some i ↦ get_elem? xs i ] ≡ lookup xs v
  unfolding lookup
  get_elem?-index_of v [] = refl
  get_elem?-index_of v (x ∷ xs) = ground (arith, index_of-shift 0 v xs, get_elem?-index_of v xs)

  pub find_entry-rebuild :
      (v : ℕ) (xs : List A) → find_entry key xs (rebuild_accelerator key xs) v ≡ lookup xs v
  unfolding find_entry
  find_entry-rebuild v xs = rw (find_entry, find_index-rebuild v xs) (get_elem?-index_of v xs)

  -- At the lower bound stands the record with the key, if there is one.
  pub is_at-lower_bound :
      (p v : ℕ) (xs : List A)
      → Above p xs
      → is_at key xs (lower_bound key xs v) v ≡ is_some (lookup xs v)
  unfolding lookup lower_bound
  is_at-lower_bound p v [] a = refl
  is_at-lower_bound p v (x ∷ xs) a =
      ground (arith, is_at-lower_bound (key x) v xs a.1, lookup_below (key x) v xs a.1)

  pub insert-Above :
      (p : ℕ) (xs : List A) (e : A)
      → Above p xs
      → p < key e
      → lookup xs (key e) ≡ none
      → Above p (insert_at xs (lower_bound key xs (key e)) e)
  unfolding lookup lower_bound
  insert-Above p [] e a h n = (h, tt)
  insert-Above p (x ∷ xs) e a h n = ground (arith, insert-Above (key x) xs e a.1)

  pub lookup-insert :
      (p j : ℕ) (xs : List A) (e : A)
      → Above p xs
      → lookup xs (key e) ≡ none
      → lookup (insert_at xs (lower_bound key xs (key e)) e) j
        ≡ (if key e == j then some e else lookup xs j)
  unfolding lookup lower_bound
  lookup-insert p j [] e a n = refl
  lookup-insert p j (x ∷ xs) e a n = ground (arith, lookup-insert (key x) j xs e a.1)

  pub index_of-lookup : (v : ℕ) (xs : List A) → is_some (index_of 0 xs v) ≡ is_some (lookup xs v)
  unfolding lookup
  index_of-lookup v [] = refl
  index_of-lookup v (x ∷ xs) = ground (arith, index_of-shift 0 v xs, index_of-lookup v xs)

  -- Erasing at the position of a key.
  pub erase-Above : (p i : ℕ) (xs : List A) → Above p xs → Above p (erase_at xs i)
  erase-Above p i [] a = a
  erase-Above p zero (x ∷ xs) a = Above-mono p (key x) xs (omega arith) a.1
  erase-Above p (suc i) (x ∷ xs) a = (a.0, erase-Above (key x) i xs a.1)

  pub lookup-erase :
      (p v j : ℕ) (xs : List A) {i : ℕ}
      → Above p xs
      → index_of 0 xs v ≡ some i
      → lookup (erase_at xs i) j ≡ (if v == j then none else lookup xs j)
  unfolding lookup
  lookup-erase p v j [] a h = cc
  lookup-erase p v j (x ∷ xs) {i = zero} a h =
      ground (arith, index_of-shift 0 v xs, lookup_below (key x) v xs a.1)
  lookup-erase p v j (x ∷ xs) {i = suc i} a h =
      ground (arith, index_of-shift 0 v xs, lookup-erase (key x) v j xs {i = i} a.1)

  -- All keys are below a bound.
  abbrev pub Under : ℕ → List A → Type 0
  Under b [] = Unit
  Under b (x ∷ xs) = (key x < b) × Under b xs

  pub Under-mono : (b c : ℕ) (xs : List A) → b ≤ c → Under b xs → Under c xs
  Under-mono b c [] h u = tt
  Under-mono b c (x ∷ xs) h u = (omega arith, Under-mono b c xs h u.1)

  pub Under-erase : (b : ℕ) (i : ℕ) (xs : List A) → Under b xs → Under b (erase_at xs i)
  Under-erase b i [] u = u
  Under-erase b zero (x ∷ xs) u = u.1
  Under-erase b (suc i) (x ∷ xs) u = (u.0, Under-erase b i xs u.1)

  pub Under-append : (b : ℕ) (xs : List A) (e : A) → Under b xs → key e < b → Under b (xs ++ e ∷ [])
  Under-append b [] e u h = (h, tt)
  Under-append b (x ∷ xs) e u h = (u.0, Under-append b xs e u.1 h)

  pub lookup-Under : (v : ℕ) (xs : List A) → Under v xs → lookup xs v ≡ none
  unfolding lookup
  lookup-Under v [] u = refl
  lookup-Under v (x ∷ xs) u = ground (arith, lookup-Under v xs u.1)

  -- A record with a key above all others goes to the end.
  pub append-Above :
      (p : ℕ) (xs : List A) (e : A)
      → Above p xs
      → p < key e
      → Under (key e) xs
      → Above p (xs ++ e ∷ [])
  append-Above p [] e a h u = (h, tt)
  append-Above p (x ∷ xs) e a h u = (a.0, append-Above (key x) xs e a.1 u.0 u.1)

  pub lookup-append :
      (j : ℕ) (xs : List A) (e : A)
      → Under (key e) xs
      → lookup (xs ++ e ∷ []) j ≡ (if key e == j then some e else lookup xs j)
  unfolding lookup
  lookup-append j [] e u = refl
  lookup-append j (x ∷ xs) e u = ground (arith, lookup-append j xs e u.1)

  rebuild_from-append :
      (i : ℕ) (xs : List A) (e : A) (m : Index)
      → rebuild_from key i (xs ++ e ∷ []) m
        ≡ emplace (key e) (i + length xs) (rebuild_from key i xs m)
  unfolding rebuild_from
  rebuild_from-append i [] e m = ap (λ k. emplace (key e) k m) (omega arith)
  rebuild_from-append i (x ∷ xs) e m =
      rebuild_from-append (i + 1) xs e (emplace (key x) i m)
      ∙ ap (λ k. emplace (key e) k (rebuild_from key (i + 1) xs (emplace (key x) i m)))
          (omega arith)

  -- `push_back` and one `emplace` leave the index that a rebuild would give.
  pub rebuild-append :
      (xs : List A) (e : A)
      → rebuild_accelerator key (xs ++ e ∷ [])
        ≡ emplace (key e) (length xs) (rebuild_accelerator key xs)
  unfolding rebuild_accelerator
  rebuild-append xs e =
      rebuild_from-append 0 xs e []
      ∙ ap (λ k. emplace (key e) k (rebuild_from key 0 xs [])) (omega arith)

module _ {ℓ} {A : Type ℓ} (key : A → ℕ) where
  -- What `find` gives in a rebuilt index, and what stands there.
  pub find-rebuild-none :
      (v : ℕ) (xs : List A)
      → find_index v (rebuild_accelerator key xs) ≡ none
      → lookup key xs v ≡ none
  find-rebuild-none v xs h =
      ground (arith, find_index-rebuild key v xs, get_elem?-index_of key v xs)

  pub find-rebuild-some :
      (v : ℕ) (xs : List A) {i : ℕ}
      → find_index v (rebuild_accelerator key xs) ≡ some i
      → (index_of key 0 xs v ≡ some i) × (get_elem? xs i ≡ lookup key xs v)
  find-rebuild-some v xs {i = i} h = (
    ground (arith, find_index-rebuild key v xs),
    ground (arith, find_index-rebuild key v xs, get_elem?-index_of key v xs),
  )

  -- What is found under a key has that key.
  pub lookup-key : (v : ℕ) (xs : List A) {c : A} → lookup key xs v ≡ some c → key c ≡ v
  unfolding lookup
  lookup-key v [] h = cc
  lookup-key v (x ∷ xs) {c} h = elim (Bool-cases (key x == v)) [
    | inl e ↦ sym (ap key (some-injective _ _ (rw e at h))) ∙ (==_iff (key x) v).0 e
    | inr e ↦ lookup-key v xs (rw e at h)
  ]
