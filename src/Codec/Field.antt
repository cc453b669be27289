-- ===== src/Codec/Field.antt =====
-- `extractRaw` and `insertRaw` (core/signal_codec.cpp) on one field: what is inserted is what is
-- extracted, and no other bit of the frame changes.
pub mod Intel
pub mod Motorola
use signal_scope_api.Base.{
  ℕ, zero, suc, ◌+◌, ◌-◌, ◌*◌, ◌/◌, ◌%◌, ◌^◌, ◌<◌, ◌≤◌, ◌≡◌, ◌⊎◌, refl, sym, ap, ◌∙◌, Bool, true,
  false, not, inl, inr, arith, ◌==◌, if◌then◌else◌, bit_and, bit_or, Bool-cases,
}
use signal_scope_api.Base.Bits.{bit_and_pow, bit_or_pow, mod_pow_top}
use native.Mathlib.Nat.{one-le-pow, mod-lt, div-eq_of_lt, mul-div_left, pow-succ'}
use signal_scope_api.Codec.{raw_bit, gather}

nonzero_digit :
    (t p b : ℕ)
    → t < 2
    → 0 < p
    → b ≡ t * p
    → ((not (b == 0) ≡ true) × (t ≡ 1)) ⊎ ((not (b == 0) ≡ false) × (t ≡ 0))
nonzero_digit zero p b h k e = inr (ground arith, refl)
nonzero_digit (suc zero) p b h k e = inl (ground arith, refl)
nonzero_digit (suc (suc t)) p b h k e = absurd (omega arith)

pub raw_bit_digit :
    (raw i : ℕ)
    → ((raw_bit raw i ≡ true) × (raw / 2 ^ i % 2 ≡ 1))
      ⊎ ((raw_bit raw i ≡ false) × (raw / 2 ^ i % 2 ≡ 0))
unfolding raw_bit
raw_bit_digit raw i =
    nonzero_digit (raw / 2 ^ i % 2) (2 ^ i) (bit_and raw (2 ^ i)) (omega arith)
      (one-le-pow i 2 (omega arith)) (bit_and_pow i raw)

-- One round of the Intel loop: the digits below `i` become those below `i + 1`.
pub gather_low : (raw i : ℕ) → gather (raw_bit raw i) i (raw % 2 ^ i) ≡ raw % 2 ^ suc i
gather_low raw i = elim (raw_bit_digit raw i) [
  | inl (set, one) ↦ rw set (
      omega (
        arith,
        bit_or_pow i (raw % 2 ^ i)
            (ap (λ t. t % 2) (div-eq_of_lt (mod-lt raw (one-le-pow i 2 (omega arith))))),
        mod_pow_top i raw,
        ap (λ (t : ℕ). t * 2 ^ i) one,
      ))
  | inr (clear, none') ↦
      rw clear (omega (arith, mod_pow_top i raw, ap (λ (t : ℕ). t * 2 ^ i) none'))
]

shifted : (m n : ℕ) → m * 2 ^ suc n ≡ 2 * m * 2 ^ n
shifted m n = omega (arith, ap (λ (t : ℕ). m * t) (pow-succ' 2 n))

even_top : (m n : ℕ) → m * 2 ^ suc n / 2 ^ n % 2 ≡ 0
even_top m n =
    ap (λ t. t / 2 ^ n % 2) (shifted m n)
    ∙ ap (λ t. t % 2) (mul-div_left (2 * m) (one-le-pow n 2 (omega arith)))
    ∙ omega arith

-- One round of the Motorola loop: the digits from `n + 1` up become those from `n` up.
pub gather_high :
    (raw m n : ℕ) → gather (raw_bit raw n) n (m * 2 ^ suc n) ≡ (2 * m + raw / 2 ^ n % 2) * 2 ^ n
gather_high raw m n = elim (raw_bit_digit raw n) [
  | inl (set, one) ↦ rw set (
      omega (
        arith,
        bit_or_pow n (m * 2 ^ suc n) (even_top m n),
        shifted m n,
        ap (λ (t : ℕ). (2 * m + t) * 2 ^ n) one,
      ))
  | inr (clear, none') ↦
      rw clear (omega (arith, shifted m n, ap (λ (t : ℕ). (2 * m + t) * 2 ^ n) none'))
]
