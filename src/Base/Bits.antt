-- ===== src/Base/Bits.antt =====
-- Bitwise operations: the law for the lowest digit of `|`, and that `|` of fields that do not overlap
-- is their sum; and which bit `& (1 << i)` tests. A property of bytes is decided by evaluating it at all 256.
use Prim.Native.Nat.{
  ℕ, zero, suc, ◌+◌, ◌*◌, ◌/◌, ◌%◌, ◌^◌, ◌≤◌, ◌<◌, max, min, bit_or, bit_and, digits,
  bit_or-bitwise, bit_and-bitwise,
}
use mathlib.Core.Path.{◌≡◌, refl, ap}
use mathlib.Core.Bool.{Bool, true, not, ◌&&◌}
use native.Mathlib.Omega.{arith}
use native.Mathlib.Nat.{pow-suc}
use stalker_mp.Base.Tests.{◌==◌}

-- More rounds than the first number has digits change nothing.
module _ (rest : ℕ → ℕ) (digit : ℕ → ℕ → ℕ) where
  digits-fuel : (n m a b : ℕ) → a ≤ n → a ≤ m → digits rest digit n a b ≡ digits rest digit m a b
  digits-fuel zero zero a b p q = refl
  digits-fuel zero (suc m) zero b p q = refl
  digits-fuel zero (suc m) (suc a) b p q = absurd (omega arith)
  digits-fuel (suc n) zero zero b p q = refl
  digits-fuel (suc n) zero (suc a) b p q = absurd (omega arith)
  digits-fuel (suc n) (suc m) zero b p q = refl
  digits-fuel (suc n) (suc m) (suc a) b p q =
      omega (arith, digits-fuel n m (suc a / 2) (b / 2) (omega arith) (omega arith))

zero-bit_or : (b : ℕ) → bit_or 0 b ≡ b
zero-bit_or b = bit_or-bitwise 0 b

bit_or_step : (a b : ℕ) → bit_or a b ≡ bit_or (a / 2) (b / 2) * 2 + max (a % 2) (b % 2)
bit_or_step zero b = omega (arith, zero-bit_or b, zero-bit_or (b / 2))
bit_or_step (suc a) b = omega (
  arith,
  bit_or-bitwise (suc a) b,
  bit_or-bitwise (suc a / 2) (b / 2),
  digits-fuel (λ b. b) max a (suc a / 2) (suc a / 2) (b / 2) (omega arith) (omega arith),
)

-- A field below bit k joined with one from bit k on.
pub bit_or_fields : (k lo hi : ℕ) → lo < 2 ^ k → bit_or lo (hi * 2 ^ k) ≡ lo + hi * 2 ^ k
bit_or_fields zero lo hi h =
    let e : lo ≡ 0 = omega arith in rw e (omega (arith, zero-bit_or (hi * 1)))
bit_or_fields (suc k) lo hi h =
    let double : hi * 2 ^ suc k ≡ hi * 2 ^ k * 2 = rw pow-suc (omega arith) in
    let small : lo / 2 < 2 ^ k = omega (arith, pow-suc 2 k) in
    let half : hi * 2 ^ k * 2 / 2 ≡ hi * 2 ^ k = omega arith in
    rw double (
      omega (
        arith,
        bit_or_step lo (hi * 2 ^ k * 2),
        ap (bit_or (lo / 2)) half,
        bit_or_fields k (lo / 2) hi small,
      ))

-- The i-th binary digit, counted from the lowest, is 1.
abbrev pub binary_digit : ℕ → ℕ → Bool
binary_digit n zero = n % 2 == 1
binary_digit n (suc i) = binary_digit (n / 2) i

zero-bit_and : (b : ℕ) → bit_and 0 b ≡ 0
zero-bit_and b = bit_and-bitwise 0 b

-- The law for the lowest digit of `&`.
halve-bit_and : (a b : ℕ) → bit_and a b ≡ bit_and (a / 2) (b / 2) * 2 + min (a % 2) (b % 2)
halve-bit_and zero b = omega (arith, zero-bit_and b, zero-bit_and (b / 2))
halve-bit_and (suc a) b = omega (
  arith,
  bit_and-bitwise (suc a) b,
  bit_and-bitwise (suc a / 2) (b / 2),
  digits-fuel (λ b. zero) min a (suc a / 2) (suc a / 2) (b / 2) (omega arith) (omega arith),
)

none-bit_and : (n a : ℕ) → a ≤ n → bit_and a 0 ≡ 0
none-bit_and zero a h = rw (the_zero a h) (zero-bit_and 0)
  where
    the_zero : (a : ℕ) → a ≤ 0 → a ≡ 0
    the_zero a h = omega arith
none-bit_and (suc n) zero h = zero-bit_and 0
none-bit_and (suc n) (suc a) h =
    omega (arith, halve-bit_and (suc a) 0, none-bit_and n (suc a / 2) (omega arith))

-- `a & (1 << i)` is not 0 exactly if the i-th digit of a is 1.
pub bit_and-power : (a i : ℕ) → not (bit_and a (2 ^ i) == 0) ≡ binary_digit a i
bit_and-power a zero = ground (arith, halve-bit_and a 1, none-bit_and (a / 2) (a / 2) (omega arith))
bit_and-power a (suc i) =
    let double : 2 ^ suc i ≡ 2 ^ i * 2 = rw pow-suc (omega arith) in
    let half : 2 ^ i * 2 / 2 ≡ 2 ^ i = omega arith in
    let step : bit_and a (2 ^ i * 2) ≡ bit_and (a / 2) (2 ^ i) * 2 =
      omega (arith, halve-bit_and a (2 ^ i * 2), ap (bit_and (a / 2)) half) in
    rw (double, step, ← bit_and-power (a / 2) i) (ground arith)

abbrev all_below : ℕ → (ℕ → Bool) → Bool
all_below zero p = true
all_below (suc n) p = p n && all_below n p

pub all_below_sound : (n : ℕ) (p : ℕ → Bool) (x : ℕ) → all_below n p ≡ true → x < n → p x ≡ true
all_below_sound zero p x h lt = absurd (omega arith)
all_below_sound (suc n) p x h lt = ground (arith, all_below_sound n p x)
