-- ===== src/Keyed/Replace.antt =====
-- Replacing a record by one with the same key, as a write through a found pointer does.
use mathlib.Core.Option.{some-injective}
use stalker_mp.Base.{
  set, sym, subst, ℕ, zero, suc, ◌+◌, ◌<◌, ◌≡◌, refl, ◌∙◌, inl, inr, ap, List, [], ◌∷◌, some,
  get_elem?, arith, ◌==◌, if◌then◌else◌, Bool-cases, ==_iff,
}
use stalker_mp.Keyed.{Index, emplace, rebuild_from}
use stalker_mp.Keyed.Laws.{Above, Ascending, Under, lookup, index_of, index_of-shift}

module _ {ℓ} {A : Type ℓ} (key : A → ℕ) where
  pub rebuild_from-set :
      (i k : ℕ) (xs : List A) (m : Index) {c : A} (y : A)
      → get_elem? xs k ≡ some c
      → key y ≡ key c
      → rebuild_from key i (set xs k y) m ≡ rebuild_from key i xs m
  unfolding rebuild_from
  rebuild_from-set i k [] m y h e = refl
  rebuild_from-set i zero (x ∷ xs) m y h e =
      ap (λ n. rebuild_from key (i + 1) xs (emplace n i m))
        (e ∙ ap key (some-injective _ _ (sym h)))
  rebuild_from-set i (suc k) (x ∷ xs) m y h e =
      rebuild_from-set (i + 1) k xs (emplace (key x) i m) y h e

  pub Above-set :
      (p k : ℕ) (xs : List A) {c : A} (y : A)
      → Above key p xs
      → get_elem? xs k ≡ some c
      → key y ≡ key c
      → Above key p (set xs k y)
  Above-set p k [] y a h e = tt
  Above-set p zero (x ∷ xs) y a h e =
      let q : key x ≡ key y = ap key (some-injective _ _ h) ∙ sym e in
      (subst (λ n. p < n) q a.0, subst (λ n. Above key n xs) q a.1)
  Above-set p (suc k) (x ∷ xs) y a h e = (a.0, Above-set (key x) k xs y a.1 h e)

  pub Ascending-set :
      (k : ℕ) (xs : List A) {c : A} (y : A)
      → Ascending key xs
      → get_elem? xs k ≡ some c
      → key y ≡ key c
      → Ascending key (set xs k y)
  Ascending-set k [] y a h e = tt
  Ascending-set zero (x ∷ xs) y a h e =
      subst (λ n. Above key n xs) (ap key (some-injective _ _ h) ∙ sym e) a
  Ascending-set (suc k) (x ∷ xs) y a h e = Above-set (key x) k xs y a h e

  pub Under-set :
      (b k : ℕ) (xs : List A) {c : A} (y : A)
      → Under key b xs
      → get_elem? xs k ≡ some c
      → key y ≡ key c
      → Under key b (set xs k y)
  Under-set b k [] y u h e = tt
  Under-set b zero (x ∷ xs) y u h e =
      (subst (λ n. n < b) (ap key (some-injective _ _ h) ∙ sym e) u.0, u.1)
  Under-set b (suc k) (x ∷ xs) y u h e = (u.0, Under-set b k xs y u.1 h e)

  pub lookup-set :
      (k v j : ℕ) (xs : List A) (y : A)
      → index_of key 0 xs v ≡ some k
      → key y ≡ v
      → lookup key (set xs k y) j ≡ (if v == j then some y else lookup key xs j)
  unfolding lookup
  lookup-set k v j [] y h e = cc
  lookup-set zero v j (x ∷ xs) y h e = elim (Bool-cases (key x == v)) [
    | inl q ↦ rw (e, (==_iff (key x) v).0 q) (set_head j)
    | inr q ↦ ground (arith, index_of-shift key 0 v xs)
  ]
    where
      set_head :
          (j : ℕ)
          → (if v == j then some y else lookup key xs j)
            ≡ (if v == j then some y else if v == j then some x else lookup key xs j)
      set_head j = elim (Bool-cases (v == j)) [ inl t ↦ rw t | inr t ↦ rw t ]
  lookup-set (suc k) v j (x ∷ xs) y h e =
      ground (arith, index_of-shift key 0 v xs, lookup-set k v j xs y)
