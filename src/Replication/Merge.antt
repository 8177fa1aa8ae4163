-- ===== src/Replication/Merge.antt =====
-- The two-pointer merge over a baseline and a current list, both by ascending id, that each function of
-- replication/DeltaEncoder.cpp writes out: what it does with an element of one list or with a pair is a
-- parameter. The loop goes on from the smaller id; what is left of either list follows.
pub mod Laws
pub mod Order
use stalker_mp.Base.{ℕ, List, [], ◌∷◌, ltb, if◌then◌else◌}

module _ {A R : Type 0} (key : A → ℕ) (nil : R) (added : A → R → R) (removed : A → R → R)
    (both : A → A → R → R) where
  unfoldable pub add_all : List A → R
  add_all [] = nil
  add_all (c ∷ cs) = added c (add_all cs)

  -- The loop while the baseline stands at one element; `rest` goes on after it.
  unfoldable pub merge_against : (List A → R) → A → List A → R
  merge_against rest b [] = removed b (rest [])
  merge_against rest b (c ∷ cs) =
      let before = merge_against rest b cs in
      if ltb (key c) (key b)
      then added c before
      else if ltb (key b) (key c)
      then removed b (rest (c ∷ cs))
      else both b c (rest cs)

  unfoldable pub merge : List A → List A → R
  unfolding add_all merge_against
  merge [] cs = add_all cs
  merge (b ∷ bs) cs = merge_against (merge bs) b cs
