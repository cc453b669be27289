-- ===== src/Base/Bits.antt =====
-- The bit operations against powers of two, for numbers of any width. The native operations mean
-- a recursion over binary digits with a bound; here are the equations with the bound dropped.
use Prim.Native.Nat.{
  digits, bit_and-bitwise, bit_or-bitwise, bit_xor-bitwise, differ, bit_xor, min, max,
}
use Prim.Native.Nat.{ℕ, zero, suc, ◌+◌, ◌-◌, ◌*◌, ◌/◌, ◌%◌, ◌^◌, ◌≤◌, ◌<◌, bit_and, bit_or}
use mathlib.Core.Path.{◌≡◌, refl, sym, ap, ap₂, ◌∙◌}
use native.Mathlib.Nat.{
  pow-suc, pow-succ', div-div-eq-div-mul, mul_assoc, mod-eq-sub-div-mul, div-mul-le_self,
  one-le-pow,
}
use native.Mathlib.Omega.{arith}

module _ (z : ℕ → ℕ) (f : ℕ → ℕ → ℕ) where
  -- Two bounds that are large enough give one result.
  bound_free : (j k x y : ℕ) → x ≤ j → x ≤ k → digits z f j x y ≡ digits z f k x y
  bound_free zero zero x y hj hk = refl
  bound_free (suc j) zero zero y hj hk = refl
  bound_free (suc j) zero (suc x) y hj hk = absurd (omega arith)
  bound_free zero (suc k) zero y hj hk = refl
  bound_free zero (suc k) (suc x) y hj hk = absurd (omega arith)
  bound_free (suc j) (suc k) zero y hj hk = refl
  bound_free (suc j) (suc k) (suc x) y hj hk =
      ap (λ t. t * 2 + f (suc x % 2) (y % 2))
        (bound_free j k (suc x / 2) (y / 2) (omega arith) (omega arith))

pub bit_and_low : (x y : ℕ) → bit_and x y ≡ bit_and (x / 2) (y / 2) * 2 + min (x % 2) (y % 2)
bit_and_low zero y = omega (arith, bit_and-bitwise 0 y, bit_and-bitwise 0 (y / 2))
bit_and_low (suc x) y = omega (
  arith,
  bound_free (λ _. zero) min x (suc x / 2) (suc x / 2) (y / 2) (omega arith) (omega arith),
  bit_and-bitwise (suc x / 2) (y / 2),
  bit_and-bitwise (suc x) y,
)

pub bit_or_low : (x y : ℕ) → bit_or x y ≡ bit_or (x / 2) (y / 2) * 2 + max (x % 2) (y % 2)
bit_or_low zero y = omega (arith, bit_or-bitwise 0 y, bit_or-bitwise 0 (y / 2))
bit_or_low (suc x) y = omega (
  arith,
  bound_free (λ b. b) max x (suc x / 2) (suc x / 2) (y / 2) (omega arith) (omega arith),
  bit_or-bitwise (suc x / 2) (y / 2),
  bit_or-bitwise (suc x) y,
)

bit_and-zero_below : (n x : ℕ) → x ≤ n → bit_and x 0 ≡ 0
bit_and-zero_below zero zero h = refl
bit_and-zero_below zero (suc x) h = absurd (omega arith)
bit_and-zero_below (suc n) x h =
    omega (arith, bit_and_low x 0, bit_and-zero_below n (x / 2) (omega arith))

pub bit_and-zero : (x : ℕ) → bit_and x 0 ≡ 0
bit_and-zero x = bit_and-zero_below x x (omega arith)

bit_or-zero_below : (n x : ℕ) → x ≤ n → bit_or x 0 ≡ x
bit_or-zero_below zero zero h = refl
bit_or-zero_below zero (suc x) h = absurd (omega arith)
bit_or-zero_below (suc n) x h =
    omega (arith, bit_or_low x 0, bit_or-zero_below n (x / 2) (omega arith))

pub bit_or-zero : (x : ℕ) → bit_or x 0 ≡ x
bit_or-zero x = bit_or-zero_below x x (omega arith)

pub zero-bit_or : (x : ℕ) → bit_or 0 x ≡ x
zero-bit_or x = bit_or-bitwise 0 x

bit_and_even : (x q : ℕ) → bit_and x (2 * q) ≡ bit_and (x / 2) q * 2
bit_and_even x q =
    omega (arith, bit_and_low x (2 * q), ap (bit_and (x / 2)) {x = 2 * q / 2} {y = q} (omega arith))

bit_and_odd : (x q : ℕ) → bit_and x (2 * q + 1) ≡ bit_and (x / 2) q * 2 + x % 2
bit_and_odd x q = omega (
  arith,
  bit_and_low x (2 * q + 1),
  ap (bit_and (x / 2)) {x = (2 * q + 1) / 2} {y = q} (omega arith),
)

bit_or_even : (x q : ℕ) → bit_or x (2 * q) ≡ bit_or (x / 2) q * 2 + x % 2
bit_or_even x q =
    omega (arith, bit_or_low x (2 * q), ap (bit_or (x / 2)) {x = 2 * q / 2} {y = q} (omega arith))

pub div_pow_suc : (x k : ℕ) → x / 2 ^ suc k ≡ x / 2 / 2 ^ k
div_pow_suc x k = ap (λ t. x / t) (pow-succ' 2 k) ∙ sym (div-div-eq-div-mul x 2 (2 ^ k))

pow_shift : (m k : ℕ) → m * 2 ^ suc k ≡ 2 * (m * 2 ^ k)
pow_shift m k = omega (arith, ap (λ (t : ℕ). m * t) (pow-succ' 2 k))

-- The remainders by two neighbouring powers: by the lowest digit, and by the highest.
pub mod_pow_suc : (x k : ℕ) → x % 2 ^ suc k ≡ x / 2 % 2 ^ k * 2 + x % 2
mod_pow_suc x k = omega (
  arith,
  mod-eq-sub-div-mul x (2 ^ suc k),
  mod-eq-sub-div-mul (x / 2) (2 ^ k),
  div_pow_suc x k,
  pow_shift (x / 2 / 2 ^ k) k,
  ap (λ (t : ℕ). t * 2 ^ suc k) (div_pow_suc x k),
  div-mul-le_self (x / 2) (2 ^ k),
)

pub mod_pow_top : (k x : ℕ) → x % 2 ^ suc k ≡ x % 2 ^ k + x / 2 ^ k % 2 * 2 ^ k
mod_pow_top zero x = omega arith
mod_pow_top (suc k) x = omega (
  arith,
  mod_pow_suc x (suc k),
  mod_pow_suc x k,
  mod_pow_top k (x / 2),
  ap (λ (t : ℕ). t % 2 * 2 ^ suc k) (div_pow_suc x k),
  pow_shift (x / 2 / 2 ^ k % 2) k,
)

-- `x & (1 << k)` is the digit of `x` at place `k`, in its place.
pub bit_and_pow : (k x : ℕ) → bit_and x (2 ^ k) ≡ x / 2 ^ k % 2 * 2 ^ k
bit_and_pow zero x = omega (arith, bit_and_odd x 0, bit_and-zero (x / 2))
bit_and_pow (suc k) x =
    ap (bit_and x) (pow-succ' 2 k)
    ∙ bit_and_even x (2 ^ k)
    ∙ ap (λ t. t * 2) (bit_and_pow k (x / 2))
    ∙ mul_assoc (x / 2 / 2 ^ k % 2) (2 ^ k) 2
    ∙ ap₂ (λ d p. d % 2 * p) (sym (div_pow_suc x k)) (sym (pow-suc 2 k))

-- `x | (1 << k)` adds the place if its digit is 0.
pub bit_or_pow : (k x : ℕ) → x / 2 ^ k % 2 ≡ 0 → bit_or x (2 ^ k) ≡ x + 2 ^ k
bit_or_pow zero x h = omega (arith, bit_or_low x 1, bit_or-zero (x / 2))
bit_or_pow (suc k) x h = omega (
  arith,
  ap (bit_or x) (pow-succ' 2 k),
  bit_or_even x (2 ^ k),
  bit_or_pow k (x / 2) (ap (λ t. t % 2) (sym (div_pow_suc x k)) ∙ h),
  pow-succ' 2 k,
)

-- `x | (m << k)` is a sum if `x` has only `k` digits.
pub bit_or_above : (k m x : ℕ) → x < 2 ^ k → bit_or x (m * 2 ^ k) ≡ x + m * 2 ^ k
bit_or_above zero m x h =
    ap₂ bit_or {x = x} {y = 0} {u = m * 1} {v = m} (omega arith) (omega arith)
    ∙ omega (arith, zero-bit_or m)
bit_or_above (suc k) m x h = omega (
  arith,
  ap (bit_or x) {x = m * 2 ^ suc k} {y = 2 * (m * 2 ^ k)} (pow_shift m k),
  bit_or_even x (m * 2 ^ k),
  bit_or_above k m (x / 2) (omega (arith, pow-succ' 2 k)),
  pow_shift m k,
)

-- `x & ((1 << k) - 1)` is the remainder.
differ-lt : (a b : ℕ) → a < 2 → b < 2 → differ a b < 2
differ-lt zero b ha hb = hb
differ-lt (suc zero) zero ha hb = ha
differ-lt (suc zero) (suc zero) ha hb = omega arith
differ-lt (suc zero) (suc (suc b)) ha hb = absurd (omega arith)
differ-lt (suc (suc a)) b ha hb = absurd (omega arith)

bit_xor_low : (x y : ℕ) → bit_xor x y ≡ bit_xor (x / 2) (y / 2) * 2 + differ (x % 2) (y % 2)
bit_xor_low zero y = omega (arith, bit_xor-bitwise 0 y, bit_xor-bitwise 0 (y / 2))
bit_xor_low (suc x) y = omega (
  arith,
  bound_free (λ b. b) differ x (suc x / 2) (suc x / 2) (y / 2) (omega arith) (omega arith),
  bit_xor-bitwise (suc x / 2) (y / 2),
  bit_xor-bitwise (suc x) y,
)

-- The exclusive or of numbers of `k` bits has `k` bits.
pub bit_xor-lt : (k x y : ℕ) → x < 2 ^ k → y < 2 ^ k → bit_xor x y < 2 ^ k
bit_xor-lt zero zero zero hx hy = omega (arith, bit_xor-bitwise 0 0)
bit_xor-lt zero (suc x) y hx hy = absurd (omega arith)
bit_xor-lt zero zero (suc y) hx hy = absurd (omega arith)
bit_xor-lt (suc k) x y hx hy = omega (
  arith,
  bit_xor_low x y,
  bit_xor-lt k (x / 2) (y / 2) (omega (arith, pow-succ' 2 k)) (omega (arith, pow-succ' 2 k)),
  differ-lt (x % 2) (y % 2) (omega arith) (omega arith),
  pow-succ' 2 k,
)

pub bit_and_ones : (k x : ℕ) → bit_and x (2 ^ k - 1) ≡ x % 2 ^ k
bit_and_ones zero x = omega (arith, bit_and-zero x)
bit_and_ones (suc k) x = omega (
  arith,
  ap (bit_and x) {x = 2 ^ suc k - 1} {y = 2 * (2 ^ k - 1) + 1}
      (omega (arith, pow-succ' 2 k, one-le-pow k 2)),
  bit_and_odd x (2 ^ k - 1),
  bit_and_ones k (x / 2),
  mod_pow_suc x k,
)
