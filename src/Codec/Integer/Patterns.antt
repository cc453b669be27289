-- ===== src/Codec/Integer/Patterns.antt =====
-- The pattern that encodeSignalRaw stores for an integer in the range of its field, read back as
-- decodeSignalRaw does (core/signal_codec.cpp).
use signal_scope_api.Base.{
  ℕ, zero, suc, ◌+◌, ◌-◌, ◌*◌, ◌%◌, ◌^◌, ◌<◌, ◌≤◌, ◌≡◌, ap, ◌∙◌, Bool, true, false, ◌&&◌, arith,
  if◌then◌else◌, inl, inr, ltb, bit_and, bit_or,
}
use signal_scope_api.Base.Int.{ℤ, pos, negsuc, pos_part, neg_part}
use signal_scope_api.Base.Bits.{bit_and_ones, bit_or_above, mod_pow_top}
use signal_scope_api.Frame.{u64}
use signal_scope_api.Codec.{raw_bit}
use signal_scope_api.Codec.Field.{raw_bit_digit}
use native.Mathlib.Nat.{
  div-eq_of_lt, mod-lt, mod-eq_of_lt, pow-le-pow_right, pow-succ', one-le-pow,
  add-mul-mod_self_right,
}
use signal_scope_api.Codec.Integer.{to_i64, of_i64, field_value, field_pattern}

raw_bit-low : (k x : ℕ) → x < 2 ^ k → raw_bit x k ≡ false
raw_bit-low k x h = elim (raw_bit_digit x k) [
  | inl (set, one) ↦ absurd (omega (arith, ap (λ t. t % 2) (div-eq_of_lt h)))
  | inr (clear, none') ↦ clear
]

raw_bit-high : (k x : ℕ) → 2 ^ k ≤ x → x < 2 ^ suc k → raw_bit x k ≡ true
raw_bit-high k x lo hi = elim (raw_bit_digit x k) [
  | inl (set, one) ↦ set
  | inr (clear, none') ↦ absurd (
      omega (
        arith,
        mod_pow_top k x,
        mod-eq_of_lt hi,
        mod-lt x (one-le-pow k 2 (omega arith)),
        ap (λ (t : ℕ). t * 2 ^ k) none',
      ))
]

pow_split : (m n : ℕ) → 2 ^ (m + n) ≡ 2 ^ m * 2 ^ n
pow_split zero n = ap (λ t. 2 ^ t) {x = 0 + n} {y = n} (omega arith) ∙ omega arith
pow_split (suc m) n =
    ap (λ t. 2 ^ t) {x = suc m + n} {y = suc (m + n)} (omega arith)
    ∙ omega (arith, pow-succ' 2 (m + n), pow_split m n, ap (λ (t : ℕ). t * 2 ^ n) (pow-succ' 2 m))

-- The words of 64 bits as a number of blocks of `suc k` bits.
word_split : (k : ℕ) → k < 63 → 2 ^ 64 ≡ 2 ^ (63 - k) * 2 ^ suc k
word_split k hk =
    ap (λ t. 2 ^ t) {x = 64} {y = 63 - k + suc k} (omega arith) ∙ pow_split (63 - k) (suc k)

one_block_less : (m p : ℕ) → 0 < m → m * p ≡ (m - 1) * p + p
one_block_less zero p h = absurd (omega arith)
one_block_less (suc m) p h =
    omega (arith, ap (λ (t : ℕ). t * p) {x = suc m - 1} {y = m} (omega arith))

-- The low digits of -(n + 1), as a 64-bit pattern.
negative_mod : (k n : ℕ) → k < 63 → n < 2 ^ k → (2 ^ 64 - 1 - n) % 2 ^ suc k ≡ 2 ^ suc k - 1 - n
negative_mod k n hk hn =
    let whole = word_split k hk in
    let blocks = one_block_less (2 ^ (63 - k)) (2 ^ suc k) (one-le-pow (63 - k) 2 (omega arith)) in
    let below : n < 2 ^ suc k = omega (arith, pow-succ' 2 k) in
    ap (λ t. t % 2 ^ suc k) {x = 2 ^ 64 - 1 - n}
      {y = 2 ^ suc k - 1 - n + (2 ^ (63 - k) - 1) * 2 ^ suc k} (omega arith)
    ∙ add-mul-mod_self_right (2 ^ suc k - 1 - n) (2 ^ (63 - k) - 1) (2 ^ suc k)
    ∙ mod-eq_of_lt (omega arith)

extend_digits :
    (k n : ℕ)
    → k < 63
    → n < 2 ^ k
    → bit_or (2 ^ suc k - 1 - n) (2 ^ 64 - 1 - (2 ^ suc k - 1)) ≡ 2 ^ 64 - 1 - n
extend_digits k n hk hn =
    let whole = word_split k hk in
    let blocks = one_block_less (2 ^ (63 - k)) (2 ^ suc k) (one-le-pow (63 - k) 2 (omega arith)) in
    let below : n < 2 ^ suc k = omega (arith, pow-succ' 2 k) in
    ap (bit_or (2 ^ suc k - 1 - n)) {y = (2 ^ (63 - k) - 1) * 2 ^ suc k} (omega arith)
    ∙ bit_or_above (suc k) (2 ^ (63 - k) - 1) (2 ^ suc k - 1 - n) (omega arith)
    ∙ omega arith

half_word : (k : ℕ) → k < 64 → 2 ^ k ≤ 2 ^ 63
half_word k hk = pow-le-pow_right {n = 2} (omega arith) {i = k} {j = 63} (omega arith)

signed_pattern-mod :
    (k : ℕ) (c : ℤ) → k < 63 → field_pattern (suc k) true c % 2 ^ suc k ≡ of_i64 c % 2 ^ suc k
unfolding field_pattern
signed_pattern-mod k c hk =
    ap (λ b. (if b then bit_and (of_i64 c) (2 ^ suc k - 1) else of_i64 c) % 2 ^ suc k)
      {x = true && ltb (suc k) 64} {y = true} (ground arith)
    ∙ ap (λ t. t % 2 ^ suc k) (bit_and_ones (suc k) (of_i64 c))
    ∙ mod-eq_of_lt (mod-lt (of_i64 c) (one-le-pow (suc k) 2 (omega arith)))

-- What a raw value of a short signed field means, by its sign bit.
signed_value :
    (k x : ℕ) (sign : Bool)
    → k < 63
    → raw_bit x k ≡ sign
    → field_value (suc k) true x
      ≡ (if sign then to_i64 (bit_or x (2 ^ 64 - 1 - (2 ^ suc k - 1))) else to_i64 x)
unfolding field_value
signed_value k x sign hk h =
    ap
      (λ b.
        if b
        then if raw_bit x (suc k - 1)
          then to_i64 (bit_or x (2 ^ 64 - 1 - (2 ^ suc k - 1)))
          else to_i64 x
        else to_i64 x)
      {x = true && ltb (suc k) 64} {y = true} (ground arith)
    ∙ ap (λ b. if b then to_i64 (bit_or x (2 ^ 64 - 1 - (2 ^ suc k - 1))) else to_i64 x)
        (ap (raw_bit x) {x = suc k - 1} {y = k} (omega arith) ∙ h)

to_i64-low : (x : ℕ) → x < 2 ^ 63 → to_i64 x ≡ pos x
to_i64-low x h = ground arith

to_i64-high : (x n : ℕ) → n < 2 ^ 63 → x ≡ 2 ^ 64 - 1 - n → to_i64 x ≡ negsuc n
to_i64-high x n h e = ground arith

-- An integer in the range of its field is read back from its pattern.
pub field_value-signed :
    (k : ℕ) (c : ℤ)
    → k < 63
    → pos_part c < 2 ^ k
    → neg_part c ≤ 2 ^ k
    → field_value (suc k) true (field_pattern (suc k) true c % 2 ^ suc k) ≡ c
unfolding field_value field_pattern
field_value-signed k (pos n) hk hp hn =
    let small = half_word k (omega arith) in
    let narrow : n < 2 ^ suc k = omega (arith, pow-succ' 2 k) in
    ap (field_value (suc k) true) (
      signed_pattern-mod k (pos n) hk
      ∙ ap (λ t. t % 2 ^ suc k) {x = u64 n} {y = n} (omega arith)
      ∙ mod-eq_of_lt narrow)
    ∙ signed_value k n false hk (raw_bit-low k n hp)
    ∙ to_i64-low n (omega arith)
field_value-signed k (negsuc n) hk hp hn =
    let small = half_word k (omega arith) in
    let double = pow-succ' 2 k in
    let x = 2 ^ suc k - 1 - n in
    ap (field_value (suc k) true) (
      signed_pattern-mod k (negsuc n) hk
      ∙ ap (λ t. t % 2 ^ suc k) {x = u64 (2 ^ 64 - 1 - n)} {y = 2 ^ 64 - 1 - n} (omega arith)
      ∙ negative_mod k n hk (omega arith))
    ∙ signed_value k x true hk (raw_bit-high k x (omega arith) (omega arith))
    ∙ to_i64-high _ n (omega arith) (extend_digits k n hk (omega arith))

pub field_value-unsigned :
    (k n : ℕ)
    → n < 2 ^ suc k
    → n < 2 ^ 63
    → field_value (suc k) false (field_pattern (suc k) false (pos n) % 2 ^ suc k) ≡ pos n
unfolding field_value field_pattern
field_value-unsigned k n h h' =
    ap (λ t. to_i64 (t % 2 ^ suc k)) {x = u64 n} {y = n} (omega arith)
    ∙ ap to_i64 (mod-eq_of_lt h)
    ∙ to_i64-low n h'

pub field_value-wide :
    (c : ℤ)
    → pos_part c < 2 ^ 63
    → neg_part c ≤ 2 ^ 63
    → field_value 64 true (field_pattern 64 true c % 2 ^ 64) ≡ c
unfolding field_value field_pattern
field_value-wide (pos n) hp hn = ground arith
field_value-wide (negsuc n) hp hn = ground arith
