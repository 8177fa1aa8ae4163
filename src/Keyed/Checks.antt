-- ===== src/Keyed/Checks.antt =====
-- What the scans of `ValidateConsistency` decide.
use stalker_mp.Base.{
  ℕ, ◌+◌, ◌≤◌, ◌<◌, ◌≡◌, refl, ◌↔◌, true, List, [], ◌∷◌, none, some, length, All, arith,
}
use stalker_mp.Keyed.{
  Index, find_index, emplace, rebuild_from, rebuild_accelerator, ascending_after, check_sorted,
  check_no_zero, check_positions, check_accelerator,
}
use stalker_mp.Keyed.Laws.{
  Above, Ascending, Above-Ascending, find_index-rebuild_from, find_index-emplace,
}

module _ {ℓ} {A : Type ℓ} (key : A → ℕ) where
  ascending_after_iff : (p : ℕ) (xs : List A) → (ascending_after key p xs ≡ true) ↔ Above key p xs
  ascending_after_iff p [] = ((λ h. tt), (λ h. refl))
  ascending_after_iff p (x ∷ xs) = (
    (λ h. (ground arith, (ascending_after_iff (key x) xs).0 (ground arith))),
    (λ h. ground (arith, (ascending_after_iff (key x) xs).1 h.1)),
  )

  -- The scan for strictly ascending keys decides the order.
  pub check_sorted_iff : (xs : List A) → (check_sorted key xs ≡ true) ↔ Ascending key xs
  unfolding check_sorted
  check_sorted_iff [] = ((λ h. tt), (λ h. refl))
  check_sorted_iff (x ∷ xs) = ascending_after_iff (key x) xs

  -- The scan for zero keys.
  pub check_no_zero_iff : (xs : List A) → (check_no_zero key xs ≡ true) ↔ All (λ x. 0 < key x) xs
  unfolding check_no_zero
  check_no_zero_iff [] = ((λ h. tt), (λ h. refl))
  check_no_zero_iff (x ∷ xs) = (
    (λ h. (ground arith, (check_no_zero_iff xs).0 (ground arith))),
    (λ h. ground (arith, (check_no_zero_iff xs).1 h.1)),
  )

  -- Keys of the index built so far stay below what comes.
  Fresh : List A → Index → Type 0
  Fresh [] m = Unit
  Fresh (x ∷ xs) m = (find_index (key x) m ≡ none) × Fresh xs m

  Fresh-emplace :
      (p k i : ℕ) (xs : List A) (m : Index)
      → Above key p xs
      → k ≤ p
      → Fresh xs m
      → Fresh xs (emplace k i m)
  unfolding Fresh
  Fresh-emplace p k i [] m a h f = tt
  Fresh-emplace p k i (x ∷ xs) m a h f = (
    ground (arith, find_index-emplace (key x) k i m),
    Fresh-emplace (key x) k i xs m a.1 (omega arith) f.1,
  )

  length-rebuild_from :
      (i : ℕ) (xs : List A) (m : Index)
      → Ascending key xs
      → Fresh xs m
      → length (rebuild_from key i xs m) ≡ length xs + length m
  unfolding rebuild_from Fresh
  length-rebuild_from i [] m a f = omega arith
  length-rebuild_from i (x ∷ xs) m a f = ground (
    arith,
    length-rebuild_from (i + 1) xs (emplace (key x) i m) (Above-Ascending key (key x) xs a)
        (Fresh-emplace (key x) (key x) i xs m a (omega arith) f.1),
  )

  Fresh-nil : (xs : List A) → Fresh xs []
  unfolding Fresh
  Fresh-nil [] = tt
  Fresh-nil (x ∷ xs) = (refl, Fresh-nil xs)

  pub length-rebuild :
      (xs : List A) → Ascending key xs → length (rebuild_accelerator key xs) ≡ length xs
  unfolding rebuild_accelerator
  length-rebuild xs a = omega (arith, length-rebuild_from 0 xs [] a (Fresh-nil xs))

  -- Each key stands in the index at its position.
  abbrev Placed : ℕ → List A → Index → Type 0
  Placed i [] m = Unit
  Placed i (x ∷ xs) m = (find_index (key x) m ≡ some i) × Placed (i + 1) xs m

  check_positions_iff :
      (i : ℕ) (xs : List A) (m : Index) → (check_positions key i xs m ≡ true) ↔ Placed i xs m
  unfolding check_positions
  check_positions_iff i [] m = ((λ h. tt), (λ h. refl))
  check_positions_iff i (x ∷ xs) m = (
    (λ h. (ground arith, (check_positions_iff (i + 1) xs m).0 (ground arith))),
    (λ h. ground (arith, (check_positions_iff (i + 1) xs m).1 h.1)),
  )

  Placed-rebuild_from :
      (i : ℕ) (xs : List A) (m : Index)
      → Ascending key xs
      → Fresh xs m
      → Placed i xs (rebuild_from key i xs m)
  unfolding rebuild_from Fresh
  Placed-rebuild_from i [] m a f = tt
  Placed-rebuild_from i (x ∷ xs) m a f = (
    ground (
      arith,
      find_index-rebuild_from key (key x) (i + 1) xs (emplace (key x) i m),
      find_index-emplace (key x) (key x) i m,
    ),
    Placed-rebuild_from (i + 1) xs (emplace (key x) i m) (Above-Ascending key (key x) xs a)
        (Fresh-emplace (key x) (key x) i xs m a (omega arith) f.1),
  )

  -- An index that was rebuilt from ascending records passes the scan.
  pub check_accelerator-rebuild :
      (xs : List A)
      → Ascending key xs
      → check_accelerator key xs (rebuild_accelerator key xs) ≡ true
  unfolding check_accelerator rebuild_accelerator
  check_accelerator-rebuild xs a = ground (
    arith,
    length-rebuild_from 0 xs [] a (Fresh-nil xs),
    (check_positions_iff 0 xs (rebuild_from key 0 xs [])).1
        (Placed-rebuild_from 0 xs [] a (Fresh-nil xs)),
  )

  -- What passes the scan finds each record of the vector at its place.
  pub check_accelerator_sound :
      (xs : List A) (m : Index)
      → check_accelerator key xs m ≡ true
      → Placed 0 xs m × (length m ≡ length xs)
  unfolding check_accelerator
  check_accelerator_sound xs m h = ((check_positions_iff 0 xs m).0 (ground arith), ground arith)
