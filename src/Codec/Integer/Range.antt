-- ===== src/Codec/Integer/Range.antt =====
-- The clamp of encodeSignalRaw, and the integer that is read back (core/signal_codec.cpp).
use signal_scope_api.Base.{
  ℕ, zero, suc, ◌-◌, ◌%◌, ◌^◌, ◌<◌, ◌≤◌, ◌≡◌, sym, ap, Bool, true, false, arith, if◌then◌else◌,
  ◌||◌, ◌==◌, inl, inr, Bool-cases, refl, ◌∙◌, if_false,
}
use signal_scope_api.Base.Int.{ℤ, pos, negsuc, pos_part, neg_part, ltb_ℤ, ◌≤ℤ◌}
use native.Mathlib.Decide.{dec_lt}
use mathlib.Core.Path.{subst}
use native.Mathlib.Nat.{pow-le-pow_right, one-le-pow}
use signal_scope_api.Codec.Integer.{field_value, max_value, min_value, clamp_integer, field_pattern}
use signal_scope_api.Codec.Integer.Patterns.{
  field_value-signed, field_value-unsigned, field_value-wide,
}

clamp_between :
    (lo hi v : ℤ)
    → lo ≤ℤ hi
    → let raised = if ltb_ℤ v lo then lo else v in
      let c = if ltb_ℤ hi raised then hi else raised in
      (lo ≤ℤ c) × (c ≤ℤ hi) × (c ≡ (if ltb_ℤ v lo then lo else if ltb_ℤ hi v then hi else v))
clamp_between lo hi v h = (ground arith, ground arith, ground arith)

range_proper :
    (length : ℕ) (is_signed : Bool) → min_value length is_signed ≤ℤ max_value length is_signed
range_proper length true = ground arith
range_proper length false = ground arith

inside_parts :
    (lo hi c : ℤ)
    → pos_part lo ≡ 0
    → neg_part hi ≡ 0
    → lo ≤ℤ c
    → c ≤ℤ hi
    → (pos_part c ≤ pos_part hi) × (neg_part c ≤ neg_part lo)
inside_parts lo hi (pos n) e e' h h' = (omega arith, omega arith)
inside_parts lo hi (negsuc n) e e' h h' = (omega arith, omega arith)

clamp_integer-between :
    (length : ℕ) (is_signed : Bool) (v : ℤ)
    → (min_value length is_signed ≤ℤ clamp_integer length is_signed v)
      × (clamp_integer length is_signed v ≤ℤ max_value length is_signed)
      × (clamp_integer length is_signed v ≡ (
          if ltb_ℤ v (min_value length is_signed)
          then min_value length is_signed
          else if ltb_ℤ (max_value length is_signed) v
          then max_value length is_signed
          else v))
unfolding clamp_integer
clamp_integer-between length is_signed v = clamp_between _ _ v (range_proper length is_signed)

-- How many bits of a field hold an amount: a signed field spends one on the sign, and encodeSignalRaw
-- keeps one free in every field of 64 bits.
abbrev pub amount_bits : ℕ → Bool → ℕ
amount_bits length is_signed = if is_signed || (length == 64) then length - 1 else length

-- In two's complement a signed amount goes one further down than up.
abbrev pub lowest : ℕ → Bool → ℤ
lowest length is_signed = if is_signed then negsuc (2 ^ amount_bits length is_signed - 1) else pos 0

abbrev pub highest : ℕ → Bool → ℤ
highest length is_signed = pos (2 ^ amount_bits length is_signed - 1)

lowest-min : (length : ℕ) (is_signed : Bool) → min_value length is_signed ≡ lowest length is_signed
lowest-min length true = elim (Bool-cases (length == 64)) [
  | inl wide ↦
      let e : length ≡ 64 = ground arith in
      subst (λ n. min_value n true ≡ lowest n true) (sym e) refl
  | inr other ↦ if_false (length == 64) _ _ other
]
lowest-min length false = refl

highest-wide : (b : Bool) → max_value 64 b ≡ highest 64 b
highest-wide true = refl
highest-wide false = refl

highest-short :
    (length : ℕ) (b : Bool)
    → (length == 64) ≡ false
    → (if b then pos (2 ^ (length - 1) - 1) else pos (2 ^ length - 1)) ≡ highest length b
highest-short length true other = refl
highest-short length false other =
    ap (λ n. pos (2 ^ n - 1)) (sym (if_false (length == 64) (length - 1) length other))

highest-max :
    (length : ℕ) (is_signed : Bool) → max_value length is_signed ≡ highest length is_signed
highest-max length b = elim (Bool-cases (length == 64)) [
  | inl wide ↦
      let e : length ≡ 64 = ground arith in
      subst (λ n. max_value n b ≡ highest n b) (sym e) (highest-wide b)
  | inr other ↦ if_false (length == 64) _ _ other ∙ highest-short length b other
]

-- The clamped integer lies between the lowest and the highest integer of the field, where a signed
-- field of n bits holds -2^(n-1) to 2^(n-1)-1 and another one 0 to 2^n-1, or to 2^63-1 if it has 64
-- bits. It is the integer itself if that lies there, and else the nearer end.
pub clamp_integer_lem :
    (length : ℕ) (is_signed : Bool) (v : ℤ)
    → let lo = lowest length is_signed in
      let hi = highest length is_signed in
      let c = clamp_integer length is_signed v in
      (lo ≤ℤ c) × (c ≤ℤ hi) × (c ≡ (if ltb_ℤ v lo then lo else if ltb_ℤ hi v then hi else v))
clamp_integer_lem length is_signed v =
    let c = clamp_integer length is_signed v in
    subst
      (λ lo.
        (lo ≤ℤ c)
        × (c ≤ℤ highest length is_signed)
        × (c ≡ (
            if ltb_ℤ v lo
            then lo
            else if ltb_ℤ (highest length is_signed) v
            then highest length is_signed
            else v)))
      (lowest-min length is_signed)
      (subst
        (λ hi.
          (min_value length is_signed ≤ℤ c)
          × (c ≤ℤ hi)
          × (c ≡ (
              if ltb_ℤ v (min_value length is_signed)
              then min_value length is_signed
              else if ltb_ℤ hi v
              then hi
              else v)))
        (highest-max length is_signed) (clamp_integer-between length is_signed v))

field_value-inside :
    (k : ℕ) (is_signed : Bool) (c : ℤ)
    → suc k ≤ 64
    → pos_part c ≤ pos_part (max_value (suc k) is_signed)
    → neg_part c ≤ neg_part (min_value (suc k) is_signed)
    → field_value (suc k) is_signed (field_pattern (suc k) is_signed c % 2 ^ suc k) ≡ c
field_value-inside k true c hi hp hn = elim (dec_lt k 63) [
  | yes short ↦
      let same : 2 ^ (suc k - 1) ≡ 2 ^ k = ap (λ t. 2 ^ t) (omega arith) in
      let some' = one-le-pow k 2 (omega arith) in
      field_value-signed k c short (ground arith) (ground arith)
  | no long ↦
      let e : k ≡ 63 = omega arith in
      subst (λ t. field_value (suc t) true (field_pattern (suc t) true c % 2 ^ suc t) ≡ c) (sym e)
        (field_value-wide c (ground arith) (ground arith))
]
field_value-inside k false (negsuc n) hi hp hn = absurd (omega arith)
field_value-inside k false (pos n) hi hp hn = elim (dec_lt k 63) [
  | yes short ↦
      let small = pow-le-pow_right {n = 2} (omega arith) {i = suc k} {j = 63} (omega arith) in
      let some' = one-le-pow (suc k) 2 (omega arith) in
      field_value-unsigned k n (ground arith) (ground arith)
  | no long ↦
      let whole : 2 ^ suc k ≡ 2 ^ 64 = ap (λ t. 2 ^ t) {x = suc k} {y = 64} (omega arith) in
      field_value-unsigned k n (ground arith) (ground arith)
]

-- For every field of 1 to 64 bits, signed or not: the value read from the low bits of the stored
-- pattern is the clamped integer.
pub field_value-clamp_integer :
    (length : ℕ) (is_signed : Bool) (v : ℤ)
    → 0 < length
    → length ≤ 64
    → field_value length is_signed
        (field_pattern length is_signed (clamp_integer length is_signed v) % 2 ^ length)
      ≡ clamp_integer length is_signed v
field_value-clamp_integer zero is_signed v lo hi = absurd (omega arith)
field_value-clamp_integer (suc k) is_signed v lo hi =
    let (above, below, _) = clamp_integer-between (suc k) is_signed v in
    let parts =
      inside_parts _ _ (clamp_integer (suc k) is_signed v) (ground arith) (ground arith) above
        below in
    field_value-inside k is_signed (clamp_integer (suc k) is_signed v) hi parts.0 parts.1
