-- ===== src/Replication/Queues/Laws.antt =====
-- One of the replication queues against a bounded list.
use stalker_mp.Base.{
  ℕ, zero, suc, ◌+◌, ◌-◌, ◌%◌, ◌<◌, ◌≤◌, ◌≡◌, refl, sym, ap, ◌∙◌, false, List, [], ◌∷◌, ◌++◌, none,
  some, length, take, leb, ◌==◌, if◌then◌else◌, arith, Bool-cases, inl, inr, length-append,
  length-set,
}
use mathlib.Core.List.{append-nil, append_assoc}
use stalker_mp.Ring.{Ring, capacity}
use stalker_mp.Ring.Laws.{Holds, push_back-Holds, pop_front-Holds, front-Holds}
use stalker_mp.Replication.Queues.{ReplicationOutcome, first_failure, enqueue_fixed, dequeue_fixed}

-- What a bounded queue of n places with xs in it takes of bs, in order, and what it answers.
module _ {A : Type 0} where
  abbrev pub fill_to : ℕ → List A → List A → List A
  fill_to n xs bs = xs ++ take (n - length xs) bs

  abbrev pub verdict : ℕ → List A → List A → ReplicationOutcome
  verdict n xs bs =
      if leb (length bs) (n - length xs) then ReplicationOutcome.ok else ReplicationOutcome.overflow

  take-nil : (n : ℕ) → take {A = A} n [] ≡ []
  take-nil zero = refl
  take-nil (suc n) = refl

  pub fill_to-nil : (n : ℕ) (xs : List A) → fill_to n xs [] ≡ xs
  fill_to-nil n xs = ap (λ ys. xs ++ ys) (take-nil (n - length xs)) ∙ append-nil xs

  pub fill_to-full : (n : ℕ) (xs bs : List A) → n ≤ length xs → fill_to n xs bs ≡ xs
  fill_to-full n xs bs h =
      let none_left : n - length xs ≡ 0 = omega (arith, h) in
      ap (λ k. xs ++ take k bs) none_left ∙ append-nil xs

  pub fill_to-room :
      (n : ℕ) (xs : List A) (a : A) (bs : List A)
      → length xs < n
      → fill_to n xs (a ∷ bs) ≡ fill_to n (xs ++ a ∷ []) bs
  fill_to-room n xs a bs h =
      let one_more : n - length xs ≡ suc (n - length (xs ++ a ∷ [])) =
        omega (arith, h, length-append xs (a ∷ [])) in
      ap (λ k. xs ++ take k (a ∷ bs)) one_more
      ∙ sym (append_assoc xs (a ∷ []) (take (n - length (xs ++ a ∷ [])) bs))

  pub verdict-room :
      (n : ℕ) (xs : List A) (a : A) (bs : List A)
      → length xs < n
      → verdict n (xs ++ a ∷ []) bs ≡ verdict n xs (a ∷ bs)
  verdict-room n xs a bs h = ground (arith, length-append xs (a ∷ []))

  pub verdict-full :
      (n : ℕ) (xs : List A) (a : A) (bs : List A)
      → n ≤ length xs
      → verdict n xs (a ∷ bs) ≡ ReplicationOutcome.overflow
  verdict-full n xs a bs h = ground arith

  -- Filling in two parts is filling at once.
  pub fill_to-append :
      (n : ℕ) (xs bs cs : List A)
      → length xs ≤ n
      → (fill_to n (fill_to n xs bs) cs ≡ fill_to n xs (bs ++ cs))
        × (first_failure (verdict n xs bs) (verdict n (fill_to n xs bs) cs)
            ≡ verdict n xs (bs ++ cs))
  fill_to-append n xs [] cs h =
      let fits : verdict n xs [] ≡ ReplicationOutcome.ok = ground arith in
      rw (fill_to-nil n xs, fits) (refl, refl)
  fill_to-append n xs (b ∷ bs) cs h = elim (Bool-cases (leb n (length xs))) [
    | inl e ↦
        let full : n ≤ length xs = ground (arith, e) in
        rw
          (
            fill_to-full n xs (b ∷ bs) full,
            fill_to-full n xs (b ∷ (bs ++ cs)) full,
            fill_to-full n xs cs full,
            verdict-full n xs b bs full,
            verdict-full n xs b (bs ++ cs) full,
          )
          (refl, refl)
    | inr e ↦
        let room : length xs < n = ground (arith, e) in
        rw
          (
            fill_to-room n xs b bs room,
            fill_to-room n xs b (bs ++ cs) room,
            sym (verdict-room n xs b bs room),
            sym (verdict-room n xs b (bs ++ cs) room),
          )
          (fill_to-append n (xs ++ b ∷ []) bs cs (omega (arith, length-append xs (b ∷ []))))
  ]

  -- A ring of n places holds a list.
  pub record Filled (n : ℕ) (r : Ring A) (xs : List A) : Type 0 where
    pub holds : Holds r xs
    pub sized : capacity r ≡ n

  pub Filled-bounded : (n : ℕ) (r : Ring A) (xs : List A) → Filled n r xs → length xs ≤ n
  Filled-bounded n r xs f = omega (arith, f.sized, f.holds.bounded)

  pub enqueue_fixed-Filled :
      (n : ℕ) (r : Ring A) (xs : List A) (a : A)
      → Filled n r xs
      → ((enqueue_fixed r a).0 ≡ verdict n xs (a ∷ []))
        × Filled n (enqueue_fixed r a).1 (fill_to n xs (a ∷ []))
  unfolding enqueue_fixed
  enqueue_fixed-Filled n r xs a f =
      let full : leb (capacity r) r.count ≡ leb n (length xs) =
        rw (f.sized, f.holds.counted) refl in
      elim (Bool-cases (leb n (length xs))) [
        | inl e ↦
            let no_room : n ≤ length xs = ground (arith, e) in
            rw (enqueue_fixed, full, e, fill_to-full n xs (a ∷ []) no_room)
              (sym (verdict-full n xs a [] no_room), f)
        | inr e ↦
            let room : length xs < n = ground (arith, e) in
            rw (enqueue_fixed, full, e, fill_to-room n xs a [] room, fill_to-nil n (xs ++ a ∷ []))
              (
                ground (arith, room),
                record {
                  holds = push_back-Holds r xs a f.holds (omega (arith, room, f.sized));
                  sized = length-set r.buffer ((r.head + r.count) % capacity r) a ∙ f.sized;
                },
              )
      ]

  pub dequeue_fixed-Filled-none : (n : ℕ) (r : Ring A) → Filled n r [] → dequeue_fixed r ≡ (none, r)
  unfolding dequeue_fixed
  dequeue_fixed-Filled-none n r f = rw (dequeue_fixed, f.holds.counted) refl

  pub dequeue_fixed-Filled-some :
      (n : ℕ) (r : Ring A) (x : A) (xs : List A)
      → Filled n r (x ∷ xs)
      → ((dequeue_fixed r).0 ≡ some x) × Filled n (dequeue_fixed r).1 xs
  unfolding dequeue_fixed
  dequeue_fixed-Filled-some n r x xs f =
      let nonzero : (r.count == 0) ≡ false = ground (arith, f.holds.counted) in
      rw (dequeue_fixed, nonzero)
        (
          front-Holds r x xs f.holds,
          record { holds = pop_front-Holds r x xs f.holds; sized = f.sized },
        )
