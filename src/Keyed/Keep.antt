-- ===== src/Keyed/Keep.antt =====
-- The laws of the elements above a bound, and of appending the largest, for ascending keys.
use stalker_mp.Base.{ℕ, ◌≡◌, refl, List, [], ◌∷◌, ◌++◌, keep, ltb, arith}
use stalker_mp.Keyed.Laws.{Above, Ascending, Above-Ascending, Above-mono, Under, append-Above}

module _ {A : Type 0} (key : A → ℕ) where
  pub keep-Above : (s : ℕ) (xs : List A) → Above key s xs → keep (λ c. ltb s (key c)) xs ≡ xs
  keep-Above s [] a = refl
  keep-Above s (x ∷ xs) a =
      ground (arith, keep-Above s xs (Above-mono key s (key x) xs (omega arith) a.1))

  pub Above-keep :
      (s p : ℕ) (xs : List A) → Above key p xs → Above key p (keep (λ c. ltb s (key c)) xs)
  Above-keep s p [] a = tt
  Above-keep s p (x ∷ xs) a =
      let kept = keep (λ c. ltb s (key c)) xs in
      ground (arith, Above-keep s (key x) xs a.1, Above-mono key p (key x) kept)

  pub Ascending-keep :
      (s : ℕ) (xs : List A) → Ascending key xs → Ascending key (keep (λ c. ltb s (key c)) xs)
  Ascending-keep s [] a = tt
  Ascending-keep s (x ∷ xs) a =
      let kept = keep (λ c. ltb s (key c)) xs in
      let above = Above-keep s (key x) xs a in
      ground (arith, above, Above-Ascending key (key x) kept)

  pub Under-keep :
      (b s : ℕ) (xs : List A) → Under key b xs → Under key b (keep (λ c. ltb s (key c)) xs)
  Under-keep b s [] u = tt
  Under-keep b s (x ∷ xs) u = ground (arith, Under-keep b s xs u.1)

  pub append-Ascending :
      (xs : List A) (c : A) → Ascending key xs → Under key (key c) xs → Ascending key (xs ++ c ∷ [])
  append-Ascending [] c a u = tt
  append-Ascending (x ∷ xs) c a u = append-Above key (key x) xs c a u.0 u.1
