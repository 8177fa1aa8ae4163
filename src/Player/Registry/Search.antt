-- ===== src/Player/Registry/Search.antt =====
-- `PlayerRegistry::LowerBoundIndex` is `std::lower_bound` on records in ascending order.
use stalker_mp.Base.{
  ℕ, zero, suc, ◌+◌, ◌-◌, ◌/◌, ◌≤◌, ◌<◌, ◌≡◌, refl, inl, inr, ap, none, false, List, [], ◌∷◌, some,
  length, get_elem?, ltb, Bool-cases, arith,
}
use stalker_mp.Keyed.{lower_bound}
use stalker_mp.Keyed.Laws.{Above, Ascending, Above-Ascending}
use stalker_mp.Player.Types.{PlayerRecord, player_key}
use stalker_mp.Player.Registry.{search, lower_bound_index}

module _ {A : Type 0} (key : A → ℕ) where
  Above-get_elem? :
      (p : ℕ) (xs : List A) (i : ℕ) {r : A} → Above key p xs → get_elem? xs i ≡ some r → p < key r
  Above-get_elem? p [] i a h = absurd (ground (arith, h))
  Above-get_elem? p (x ∷ xs) zero a h = ground (arith, h, a.0)
  Above-get_elem? p (x ∷ xs) (suc i) {r} a h =
      let later = Above-get_elem? (key x) xs i a.1 h in omega (arith, a.0, later)

  -- The elements below the lower bound are those with a smaller key.
  ltb-lower_bound :
      (v : ℕ) (xs : List A) (i : ℕ) {r : A}
      → Ascending key xs
      → get_elem? xs i ≡ some r
      → ltb (key r) v ≡ ltb i (lower_bound key xs v)
  unfolding lower_bound
  ltb-lower_bound v [] i a h = absurd (ground (arith, h))
  ltb-lower_bound v (x ∷ xs) zero a h = ground (arith, h)
  ltb-lower_bound v (x ∷ xs) (suc i) {r} a h = ground (
    arith,
    ltb-lower_bound v xs i {r = r} (Above-Ascending key (key x) xs a) h,
    Above-get_elem? (key x) xs i {r = r} a h,
  )

  lower_bound-le : (v : ℕ) (xs : List A) → lower_bound key xs v ≤ length xs
  unfolding lower_bound
  lower_bound-le v [] = omega arith
  lower_bound-le v (x ∷ xs) = ground (arith, lower_bound-le v xs)

get_elem?-lt {ℓ} :
    {A : Type ℓ} (xs : List A) (i : ℕ) → i < length xs → (a : A) × (get_elem? xs i ≡ some a)
get_elem?-lt [] i h = absurd (omega arith)
get_elem?-lt (x ∷ xs) zero h = (x, refl)
get_elem?-lt (x ∷ xs) (suc i) h = get_elem?-lt xs i (omega arith)

module _ {V : Type 0} (xs : List (PlayerRecord V)) (id : ℕ)
    (ascends : Ascending player_key xs) where
  -- The range always holds the lower bound.
  search_lem :
      (n lo hi : ℕ)
      → lo ≤ lower_bound player_key xs id
      → lower_bound player_key xs id ≤ hi
      → hi ≤ length xs
      → hi < lo + n
      → search xs id n lo hi ≡ some (lower_bound player_key xs id)
  unfolding search
  search_lem zero lo hi low high inside rounds = absurd (omega arith)
  search_lem (suc n) lo hi low high inside rounds = elim (Bool-cases (ltb lo hi)) [
    | inr e ↦
        let found : lo ≡ lower_bound player_key xs id = omega (arith, ltb→lt_converse lo hi e) in
        rw (search, e) (ap some found)
    | inl e ↦
        let mid = lo + (hi - lo) / 2 in
        let lt : lo < hi = ground (arith, e) in
        let (r, here) = get_elem?-lt xs mid (omega arith) in
        let side = ltb-lower_bound player_key id xs mid ascends here in
        elim (Bool-cases (ltb r.id id)) [
          | inl f ↦
              let right : mid < lower_bound player_key xs id = ground (arith, side, f) in
              rw (search, e, here, f)
                (search_lem n (mid + 1) hi (omega arith) high inside (omega arith))
          | inr f ↦
              let left : lower_bound player_key xs id ≤ mid = ground (arith, side, f) in
              rw (search, e, here, f) (search_lem n lo mid low left (omega arith) (omega arith))
        ]
  ]
    where
      ltb→lt_converse : (a b : ℕ) → ltb a b ≡ false → b ≤ a
      ltb→lt_converse a b h = ground (arith, h)

-- On records in ascending order of their ids the binary search ends, and reads no position behind them: with
-- more rounds than there are records it gives a result, the first position whose id is not below the one
-- that it looks for. That is the answer of `LowerBoundIndex`.
pub lower_bound_index_lem :
    {V : Type 0} (xs : List (PlayerRecord V)) (id n : ℕ)
    → Ascending player_key xs
    → length xs < n
    → (search xs id n 0 (length xs) ≡ some (lower_bound player_key xs id))
      × (lower_bound_index xs id ≡ lower_bound player_key xs id)
unfolding lower_bound_index
lower_bound_index_lem xs id n a more =
    let ends : (n : ℕ)
        → length xs < n
        → search xs id n 0 (length xs) ≡ some (lower_bound player_key xs id) =
      λ n more.
        search_lem xs id a n 0 (length xs) (omega arith) (lower_bound-le player_key id xs)
          (omega arith) (omega arith) in
    (
      ends n more,
      ap (λ o. elim o as (λ x. ℕ) [ none ↦ 0 | some i ↦ i ]) (ends (length xs + 1) (omega arith)),
    )
