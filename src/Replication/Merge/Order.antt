-- ===== src/Replication/Merge/Order.antt =====
-- The order of what a merge of two ascending lists gives.
use stalker_mp.Base.{subst, ℕ, ◌<◌, ◌≡◌, sym, inl, inr, List, [], ◌∷◌, ltb, Bool-cases, arith}
use stalker_mp.Keyed.Laws.{Above}
use stalker_mp.Replication.Merge.{add_all, merge_against, merge}

module _ {A R : Type 0} (key : A → ℕ) (nil : R) (added : A → R → R) (removed : A → R → R)
    (both : A → A → R → R) where
  -- A bound below every id of the result, and how the three actions keep it.
  pub record Order (Bound : ℕ → R → Type 0) : Type 0 where
    pub nil_bound : (p : ℕ) → Bound p nil
    pub added_bound : (p : ℕ) (c : A) (r : R) → p < key c → Bound (key c) r → Bound p (added c r)
    pub removed_bound :
        (p : ℕ) (b : A) (r : R) → p < key b → Bound (key b) r → Bound p (removed b r)
    pub both_bound :
        (p : ℕ) (b c : A) (r : R)
        → p < key b
        → key b ≡ key c
        → Bound (key b) r
        → Bound p (both b c r)

  module _ (Bound : ℕ → R → Type 0) (order : Order Bound) where
    add_all-Bound :
        (p : ℕ) (cs : List A) → Above key p cs → Bound p (add_all key nil added removed both cs)
    unfolding add_all
    add_all-Bound p [] a = order.nil_bound p
    add_all-Bound p (c ∷ cs) a =
        order.added_bound p c (add_all key nil added removed both cs) a.0
          (add_all-Bound (key c) cs a.1)

    merge_against-Bound :
        (b : A) (bs cs : List A) (p : ℕ)
        → Above key p (b ∷ bs)
        → Above key p cs
        → ((q : ℕ) (ds : List A)
            → Above key q bs
            → Above key q ds
            → Bound q (merge key nil added removed both bs ds))
        → Bound p (merge key nil added removed both (b ∷ bs) cs)
    unfolding merge_against merge
    merge_against-Bound b bs [] p a d rest =
        order.removed_bound p b (merge key nil added removed both bs []) a.0
          (rest (key b) [] a.1 tt)
    merge_against-Bound b bs (c ∷ cs) p a d rest = elim (Bool-cases (ltb (key c) (key b))) [
      | inl e ↦
          rw (merge_against, e)
            (order.added_bound p c (merge key nil added removed both (b ∷ bs) cs) d.0
              (merge_against-Bound b bs cs (key c) (ground (arith, e), a.1) d.1 rest))
      | inr e ↦ elim (Bool-cases (ltb (key b) (key c))) [
        | inl f ↦
            rw (merge_against, e, f)
              (order.removed_bound p b (merge key nil added removed both bs (c ∷ cs)) a.0
                (rest (key b) (c ∷ cs) a.1 (ground (arith, f), d.1)))
        | inr f ↦
            let same : key b ≡ key c = ground (arith, e, f) in
            rw (merge_against, e, f)
              (order.both_bound p b c (merge key nil added removed both bs cs) a.0 same
                (rest (key b) cs a.1 (subst (λ q. Above key q cs) (sym same) d.1)))
      ]
    ]

    pub merge-Bound :
        (bs cs : List A) (p : ℕ)
        → Above key p bs
        → Above key p cs
        → Bound p (merge key nil added removed both bs cs)
    unfolding merge
    merge-Bound [] cs p a d = add_all-Bound p cs d
    merge-Bound (b ∷ bs) cs p a d =
        merge_against-Bound b bs cs p a d (λ q ds x y. merge-Bound bs ds q x y)
