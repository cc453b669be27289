-- ===== src/Mutation/Fields/Digits.antt =====
-- The bits of `&`, `|` and of a complement, one at a time.
use Prim.Native.Nat.{min, max}
use mathlib.Core.Path.{ap₂}
use signal_scope_api.Base.{
  ℕ, zero, suc, ◌-◌, ◌/◌, ◌%◌, ◌^◌, ◌<◌, ◌≡◌, refl, sym, ap, ◌∙◌, Bool, true, false, not, ◌&&◌,
  ◌||◌, arith, ◌==◌, bit_and, bit_or, every_below, every_below-at,
}
use signal_scope_api.Base.Bits.{bit_and_low, bit_or_low, bit_and_pow, div_pow_suc}
use signal_scope_api.Codec.{raw_bit}
use signal_scope_api.Codec.Field.{raw_bit_digit}

and_digit : (k x y : ℕ) → bit_and x y / 2 ^ k % 2 ≡ min (x / 2 ^ k % 2) (y / 2 ^ k % 2)
and_digit zero x y = omega (arith, bit_and_low x y)
and_digit (suc k) x y =
    ap (λ t. t % 2) (div_pow_suc (bit_and x y) k)
    ∙ ap (λ t. t / 2 ^ k % 2) {x = bit_and x y / 2} {y = bit_and (x / 2) (y / 2)}
        (omega (arith, bit_and_low x y))
    ∙ and_digit k (x / 2) (y / 2)
    ∙ ap₂ (λ a b. min (a % 2) (b % 2)) (sym (div_pow_suc x k)) (sym (div_pow_suc y k))

or_digit : (k x y : ℕ) → bit_or x y / 2 ^ k % 2 ≡ max (x / 2 ^ k % 2) (y / 2 ^ k % 2)
or_digit zero x y = omega (arith, bit_or_low x y)
or_digit (suc k) x y =
    ap (λ t. t % 2) (div_pow_suc (bit_or x y) k)
    ∙ ap (λ t. t / 2 ^ k % 2) {x = bit_or x y / 2} {y = bit_or (x / 2) (y / 2)}
        (omega (arith, bit_or_low x y))
    ∙ or_digit k (x / 2) (y / 2)
    ∙ ap₂ (λ a b. max (a % 2) (b % 2)) (sym (div_pow_suc x k)) (sym (div_pow_suc y k))

pub raw_bit-and : (x y k : ℕ) → raw_bit (bit_and x y) k ≡ (raw_bit x k && raw_bit y k)
raw_bit-and x y k =
    ground
      (arith, and_digit k x y, raw_bit_digit x k, raw_bit_digit y k, raw_bit_digit (bit_and x y) k)

pub raw_bit-or : (x y k : ℕ) → raw_bit (bit_or x y) k ≡ (raw_bit x k || raw_bit y k)
raw_bit-or x y k =
    ground
      (arith, or_digit k x y, raw_bit_digit x k, raw_bit_digit y k, raw_bit_digit (bit_or x y) k)

abbrev flips : ℕ → ℕ → Bool
flips m k = elim (raw_bit m k) [ true ↦ not (raw_bit (255 - m) k) | false ↦ raw_bit (255 - m) k ]

flips_table : every_below (λ m. every_below (flips m) 8) 256 ≡ true
unfolding every_below raw_bit
flips_table = refl

pub raw_bit-complement : (m k : ℕ) → m < 256 → k < 8 → raw_bit (255 - m) k ≡ not (raw_bit m k)
raw_bit-complement m k hm hk =
    ground (arith, every_below-at (flips m) 8 k hk (every_below-at _ 256 m hm flips_table))

pub shifted_digit : (raw i : ℕ) → not (bit_and (raw / 2 ^ i) 1 == 0) ≡ raw_bit raw i
unfolding raw_bit
shifted_digit raw i = ground (arith, bit_and_pow 0 (raw / 2 ^ i), raw_bit_digit raw i)
