-- ===== src/Ring/Laws.antt =====
-- The ring as the list of its elements.
use native.Mathlib.Nat.{mod-add-mod, mod-eq_of_lt, mod-eq-sub-mod}
use stalker_mp.Base.{
  ℕ, zero, suc, ◌+◌, ◌-◌, ◌%◌, ◌≤◌, ◌<◌, ◌≡◌, ◌≢◌, refl, sym, ap, ◌∙◌, List, [], ◌∷◌, ◌++◌, none,
  some, length, get_elem?, ltb, leb, if◌then◌else◌, arith, length-set, length-append,
  length-replicate, get_elem?-set_self, get_elem?-set_ne, dec_lt,
}
use stalker_mp.Ring.{Ring, capacity, new_ring, element, push_back, pop_front, window, contents}

wrap : (h i n : ℕ) → h < n → i ≤ n → (h + i) % n ≡ (if ltb (h + i) n then h + i else h + i - n)
wrap h i n a b = elim (dec_lt (h + i) n) [
  | yes p ↦ ground (arith, mod-eq_of_lt p)
  | no p ↦ ground (
    arith,
    mod-eq-sub-mod {n = h + i} {m = n} (omega arith),
    mod-eq_of_lt {n = h + i - n} {m = n} (omega arith),
  )
]

wrap_ne : (h i j n : ℕ) → h < n → i < j → j < n → (h + i) % n ≢ (h + j) % n
wrap_ne h i j n a b c = ground (arith, wrap h i n a, wrap h j n a)

wrap_suc : (h i n : ℕ) → h < n → i + 1 < n + 1 → ((h + 1) % n + i) % n ≡ (h + (i + 1)) % n
wrap_suc h i n a b = rw mod-add-mod (ap (λ k. k % n) (omega arith))

wrap_zero : (h n : ℕ) → h < n → (h + 0) % n ≡ h
wrap_zero h n a = ground (arith, wrap h 0 n a)

wrap_lt : (h i n : ℕ) → h < n → (h + i) % n < n
wrap_lt h i n a = grind arith

module _ {A : Type 0} where
  -- The ring holds a list, from the oldest element to the newest.
  pub record Holds (r : Ring A) (xs : List A) : Type 0 where
    pub counted : r.count ≡ length xs
    pub in_range : r.head < capacity r
    pub bounded : length xs ≤ capacity r
    pub stored : (i : ℕ) → i < length xs → element r i ≡ get_elem? xs i

  get_elem?-append :
      (xs : List A) (a : A) (i : ℕ)
      → get_elem? (xs ++ a ∷ []) i
        ≡ (if ltb i (length xs) then get_elem? xs i else if leb i (length xs) then some a else none)
  get_elem?-append [] a zero = refl
  get_elem?-append [] a (suc i) = ground arith
  get_elem?-append (x ∷ xs) a zero = ground arith
  get_elem?-append (x ∷ xs) a (suc i) = ground (arith, get_elem?-append xs a i)

  pub new_ring-Holds : (blank : A) (n : ℕ) → 0 < n → Holds (new_ring blank n) []
  new_ring-Holds blank n h = record {
    counted = refl;
    in_range = omega (arith, length-replicate n blank);
    bounded = omega arith;
    stored = λ i k. absurd (omega arith);
  }

  stored_after :
      (r : Ring A) (xs : List A) (a : A)
      → Holds r xs
      → length xs < capacity r
      → (i : ℕ) → i < length (xs ++ a ∷ [])
      → element (push_back r a) i ≡ get_elem? (xs ++ a ∷ []) i
  stored_after r xs a h room i k =
      let tail = (r.head + r.count) % capacity r in
      let at = (r.head + i) % capacity r in
      let size : capacity (push_back r a) ≡ capacity r = length-set r.buffer tail a in
      elim (dec_lt i (length xs)) [
        | yes p ↦
            rw (size, get_elem?-append xs a i)
              (get_elem?-set_ne r.buffer a (λ e.
                  wrap_ne r.head i r.count (capacity r) h.in_range (omega (arith, h.counted))
                    (omega (arith, h.counted)) (sym e))
                ∙ h.stored i p
                ∙ ground (arith, p))
        | no p ↦
            let same : at ≡ tail =
              ap (λ j. (r.head + j) % capacity r)
                (omega (arith, h.counted, length-append xs (a ∷ []))) in
            rw (size, get_elem?-append xs a i, same)
              (get_elem?-set_self r.buffer tail a (wrap_lt r.head r.count (capacity r) h.in_range)
                ∙ ground (arith, p, length-append xs (a ∷ [])))
      ]

  pub push_back-Holds :
      (r : Ring A) (xs : List A) (a : A)
      → Holds r xs
      → length xs < capacity r
      → Holds (push_back r a) (xs ++ a ∷ [])
  push_back-Holds r xs a h room =
      let tail = (r.head + r.count) % capacity r in
      record {
        counted = omega (arith, h.counted, length-append xs (a ∷ []));
        in_range = omega (arith, h.in_range, length-set r.buffer tail a);
        bounded = omega (arith, length-set r.buffer tail a, length-append xs (a ∷ []));
        stored = stored_after r xs a h room;
      }

  pub front-Holds :
      (r : Ring A) (x : A) (xs : List A) → Holds r (x ∷ xs) → get_elem? r.buffer r.head ≡ some x
  front-Holds r x xs h =
      ap (get_elem? r.buffer) (sym (wrap_zero r.head (capacity r) h.in_range))
      ∙ h.stored 0 (omega arith)

  pub pop_front-Holds :
      (r : Ring A) (x : A) (xs : List A) → Holds r (x ∷ xs) → Holds (pop_front r) xs
  pop_front-Holds r x xs h = record {
    counted = omega (arith, h.counted);
    in_range = wrap_lt r.head 1 (capacity r) h.in_range;
    bounded = omega (arith, h.bounded);
    stored = λ i k.
        ap (get_elem? r.buffer)
          (wrap_suc r.head i (capacity r) h.in_range (omega (arith, h.bounded)))
        ∙ ap (λ j. get_elem? r.buffer ((r.head + j) % capacity r)) (omega arith)
        ∙ h.stored (suc i) (omega arith);
  }

  window-Holds :
      (r : Ring A) (ys : List A) (i : ℕ)
      → ((j : ℕ) → j < length ys → element r (i + j) ≡ get_elem? ys j)
      → window r i (length ys) ≡ ys
  unfolding window
  window-Holds r [] i h = refl
  window-Holds r (y ∷ ys) i h =
      let here : element r i ≡ some y = ap (element r) (omega arith) ∙ h 0 (omega arith) in
      let later : (j : ℕ) → j < length ys → element r (i + 1 + j) ≡ get_elem? ys j =
        λ j k. ap (element r) (omega arith) ∙ h (suc j) (omega arith) in
      rw (window, here, window-Holds r ys (i + 1) later)

  pub contents-Holds : (r : Ring A) (xs : List A) → Holds r xs → contents r ≡ xs
  unfolding contents
  contents-Holds r xs h =
      let stored : (j : ℕ) → j < length xs → element r (0 + j) ≡ get_elem? xs j =
        λ j k. ap (element r) (omega arith) ∙ h.stored j k in
      ap (window r 0) h.counted ∙ window-Holds r xs 0 stored
