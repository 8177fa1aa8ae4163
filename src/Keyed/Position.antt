-- ===== src/Keyed/Position.antt =====
-- What stands at the lower bound of a key in ascending order.
use stalker_mp.Base.{ℕ, ◌≡◌, List, [], ◌∷◌, some, get_elem?, arith, is_some, true, All}
use stalker_mp.Keyed.{lower_bound}
use stalker_mp.Keyed.Laws.{
  Ascending, Above-Ascending, lookup, lookup_below, index_of, index_of-shift,
}

module _ {ℓ} {A : Type ℓ} (key : A → ℕ) where
  pub lower_bound-index_of :
      (v : ℕ) (xs : List A)
      → Ascending key xs
      → is_some (lookup key xs v) ≡ true
      → index_of key 0 xs v ≡ some (lower_bound key xs v)
  unfolding lookup lower_bound
  lower_bound-index_of v [] a h = cc
  lower_bound-index_of v (x ∷ xs) a h = ground (
    arith,
    index_of-shift key 0 v xs,
    lookup_below key (key x) v xs a,
    lower_bound-index_of v xs (Above-Ascending key (key x) xs a),
  )

  pub get_elem?-lower_bound :
      (v : ℕ) (xs : List A)
      → Ascending key xs
      → is_some (lookup key xs v) ≡ true
      → get_elem? xs (lower_bound key xs v) ≡ lookup key xs v
  unfolding lookup lower_bound
  get_elem?-lower_bound v [] a h = cc
  get_elem?-lower_bound v (x ∷ xs) a h = ground (
    arith,
    lookup_below key (key x) v xs a,
    get_elem?-lower_bound v xs (Above-Ascending key (key x) xs a),
  )

  -- What holds of every record that a key finds holds of all records.
  pub All-lookup {κ} :
      (P : A → Type κ) (xs : List A)
      → Ascending key xs
      → ((v : ℕ) (e : A) → lookup key xs v ≡ some e → P e)
      → All P xs
  unfolding lookup
  All-lookup P [] a h = tt
  All-lookup P (x ∷ xs) a h = (
    h (key x) x (ground arith),
    All-lookup P xs (Above-Ascending key (key x) xs a)
        (λ v e q. h v e (ground (arith, lookup_below key (key x) v xs a))),
  )
