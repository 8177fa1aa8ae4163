-- ===== src/Keyed.antt =====
-- The canonical container of the framework: a vector of records in ascending key order, with a hash
-- index from the key to the position. net/Session.cpp, net/ConnectionTable.cpp,
-- net/MessageRegistry.cpp, world/TransitionIntentStore.h and world/EntityRegistry.cpp each keep one.
-- `std::lower_bound` is the first position whose key is not below the value; an `unordered_map` is an
-- association list, in which `emplace` leaves a present key alone.
pub mod Laws
pub mod Ascending
pub mod Replace
pub mod Checks
pub mod Position
pub mod Sorting
pub mod Canonical
pub mod Keep
use stalker_mp.Base.{
  ℕ, zero, suc, ◌+◌, ◌<◌, Bool, true, false, ◌&&◌, List, [], ◌∷◌, Option, none, some, length,
  get_elem?, ltb, ◌==◌, if◌then◌else◌,
}

abbrev pub Index : Type 0
Index = List (ℕ × ℕ)

abbrev pub find_index : ℕ → Index → Option ℕ
find_index k [] = none
find_index k ((j, i) ∷ m) = if j == k then some i else find_index k m

abbrev pub emplace : ℕ → ℕ → Index → Index
emplace k i m = elim (find_index k m) [ none ↦ (k, i) ∷ m | some j ↦ m ]

module _ {ℓ} {A : Type ℓ} (key : A → ℕ) where
  unfoldable pub lower_bound : List A → ℕ → ℕ
  lower_bound [] v = 0
  lower_bound (x ∷ xs) v = if ltb (key x) v then suc (lower_bound xs v) else 0

  -- `pos != end() && pos->id == v`.
  abbrev pub is_at : List A → ℕ → ℕ → Bool
  is_at xs pos v = elim (get_elem? xs pos) [ none ↦ false | some x ↦ key x == v ]

  -- `RebuildAccelerator`: clear, then emplace (id, i) for each i.
  unfoldable pub rebuild_from : ℕ → List A → Index → Index
  rebuild_from i [] m = m
  rebuild_from i (x ∷ xs) m = rebuild_from (i + 1) xs (emplace (key x) i m)

  unfoldable pub rebuild_accelerator : List A → Index
  unfolding rebuild_from
  rebuild_accelerator xs = rebuild_from 0 xs []

  -- `it = m_index.find(v)`, then `m_entries[it->second]`.
  unfoldable pub find_entry : List A → Index → ℕ → Option A
  find_entry xs m v = elim (find_index v m) [ none ↦ none | some i ↦ get_elem? xs i ]

  -- The check of `ValidateConsistency` that each key is above the one before it.
  abbrev pub ascending_after : ℕ → List A → Bool
  ascending_after p [] = true
  ascending_after p (x ∷ xs) = ltb p (key x) && ascending_after (key x) xs

  unfoldable pub check_sorted : List A → Bool
  check_sorted [] = true
  check_sorted (x ∷ xs) = ascending_after (key x) xs

  -- The check that no key is 0.
  unfoldable pub check_no_zero : List A → Bool
  check_no_zero [] = true
  check_no_zero (x ∷ xs) = if key x == 0 then false else check_no_zero xs

  -- The check that the index holds each key at its position, and nothing more.
  unfoldable pub check_positions : ℕ → List A → Index → Bool
  check_positions i [] m = true
  check_positions i (x ∷ xs) m =
      let rest = check_positions (i + 1) xs m in
      elim (find_index (key x) m) [ none ↦ false | some j ↦ if j == i then rest else false ]

  unfoldable pub check_accelerator : List A → Index → Bool
  unfolding check_positions
  check_accelerator xs m = if length m == length xs then check_positions 0 xs m else false
