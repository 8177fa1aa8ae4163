-- ===== src/Replication/Merge/Laws.antt =====
-- The merge, observed at one id, and the order of its result.
use stalker_mp.Base.{ℕ, ◌≡◌, ◌≢◌, List, [], ◌∷◌, Option, none, some, arith}
use stalker_mp.Keyed.Laws.{Ascending, Above-Ascending, lookup, lookup_below}
use stalker_mp.Replication.Merge.{add_all, merge_against, merge}

module _ {A X : Type 0} where
  -- What the two lists have under an id.
  abbrev pub expected : X → (A → X) → (A → X) → (A → A → X) → Option A → Option A → X
  expected n0 fa fr fb none none = n0
  expected n0 fa fr fb none (some c) = fa c
  expected n0 fa fr fb (some b) none = fr b
  expected n0 fa fr fb (some b) (some c) = fb b c

module _ {A R X : Type 0} (key : A → ℕ) (nil : R) (added : A → R → R) (removed : A → R → R)
    (both : A → A → R → R) where
  -- A view of the result at an id, and how the three actions change it.
  pub record View (observe : R → X) (v : ℕ) (n0 : X) (fa : A → X) (fr : A → X) (fb : A → A → X)
      : Type 0 where
    pub of_nil : observe nil ≡ n0
    pub of_added : (c : A) (r : R) → key c ≡ v → observe r ≡ n0 → observe (added c r) ≡ fa c
    pub past_added : (c : A) (r : R) → key c ≢ v → observe (added c r) ≡ observe r
    pub of_removed : (b : A) (r : R) → key b ≡ v → observe r ≡ n0 → observe (removed b r) ≡ fr b
    pub past_removed : (b : A) (r : R) → key b ≢ v → observe (removed b r) ≡ observe r
    pub of_both :
        (b c : A) (r : R)
        → key b ≡ key c
        → key b ≡ v
        → observe r ≡ n0
        → observe (both b c r) ≡ fb b c
    pub past_both : (b c : A) (r : R) → key b ≡ key c → key b ≢ v → observe (both b c r) ≡ observe r

  module _ (observe : R → X) (v : ℕ) (n0 : X) (fa : A → X) (fr : A → X) (fb : A → A → X)
      (view : View observe v n0 fa fr fb) where
    Observed : List A → List A → R → Type 0
    Observed bs cs r = observe r ≡ expected n0 fa fr fb (lookup key bs v) (lookup key cs v)

    add_all-Observed :
        (cs : List A) → Ascending key cs → Observed [] cs (add_all key nil added removed both cs)
    unfolding add_all lookup Observed
    add_all-Observed [] a = view.of_nil
    add_all-Observed (c ∷ cs) a =
        let r = add_all key nil added removed both cs in
        let rest = add_all-Observed cs (Above-Ascending key (key c) cs a) in
        ground
          (arith, rest, view.of_added c r, view.past_added c r, lookup_below key (key c) v cs a)

    merge_against-Observed :
        (b : A) (bs cs : List A)
        → Ascending key (b ∷ bs)
        → Ascending key cs
        → ((ds : List A)
            → Ascending key ds
            → Observed bs ds (merge key nil added removed both bs ds))
        → Observed (b ∷ bs) cs (merge key nil added removed both (b ∷ bs) cs)
    unfolding merge_against merge lookup Observed
    merge_against-Observed b bs [] a d rest =
        let r = merge key nil added removed both bs [] in
        ground (
          arith,
          rest [] tt,
          view.of_removed b r,
          view.past_removed b r,
          lookup_below key (key b) v bs a,
        )
    merge_against-Observed b bs (c ∷ cs) a d rest =
        let r = merge key nil added removed both bs cs in
        let r' = merge key nil added removed both bs (c ∷ cs) in
        let before = merge key nil added removed both (b ∷ bs) cs in
        ground (
          arith,
          rest cs (Above-Ascending key (key c) cs d),
          rest (c ∷ cs) d,
          merge_against-Observed b bs cs a (Above-Ascending key (key c) cs d) rest,
          view.of_added c before,
          view.past_added c before,
          view.of_removed b r',
          view.past_removed b r',
          view.of_both b c r,
          view.past_both b c r,
          lookup_below key (key b) v bs a,
          lookup_below key (key c) v cs d,
        )

    -- What the merge of two ascending lists shows at an id depends on what the two lists have under it.
    pub merge-observed :
        (bs cs : List A)
        → Ascending key bs
        → Ascending key cs
        → observe (merge key nil added removed both bs cs)
          ≡ expected n0 fa fr fb (lookup key bs v) (lookup key cs v)
    unfolding merge Observed
    merge-observed [] cs a d = add_all-Observed cs d
    merge-observed (b ∷ bs) cs a d =
        merge_against-Observed b bs cs a d
          (λ ds e. merge-observed bs ds (Above-Ascending key (key b) bs a) e)
