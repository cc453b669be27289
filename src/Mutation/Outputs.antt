-- ===== src/Mutation/Outputs.antt =====
-- What rules with a checksum put on the bus (core/mutation_engine.cpp), against the checksum that a
-- receiver computes from the frame by the definition: the exclusive or of the bytes, and the remainder
-- of a division of polynomials over two elements.
use signal_scope_api.Base.{
  ℕ, zero, suc, ◌+◌, ◌-◌, ◌*◌, ◌/◌, ◌%◌, ◌^◌, ◌<◌, ◌≤◌, ◌≡◌, refl, sym, ap, ◌∙◌, Bool, true, false,
  not, ◌&&◌, arith, List, [], ◌∷◌, ◌++◌, ltb, leb, ◌==◌, if◌then◌else◌, if_true, if_false, store,
  bit_xor, bit_and, inl, inr, Bool-cases,
}
use mathlib.Core.Path.{ap₂, subst}
use signal_scope_api.Base.Bits.{bit_and_ones, bit_xor-lt}
use signal_scope_api.Frame.{Bytes}
use signal_scope_api.Codec.Bit.{IsBytes}
use signal_scope_api.Mutation.{CompiledRule, RuleStageRequest}
use signal_scope_api.Mutation.Apply.{
  xor_bytes, crc_bytes, crc_shifts, crc_update, xor_checksum, autosar_checksum,
  apply_xor_checksum_rule, apply_autosar_checksum_rule,
}

-- Bytes `i` to `i + left - 1` without byte `t`.
abbrev pub apart : ℕ → ℕ → ℕ → Bool
apart t left i = not (leb i t && ltb t (i + left))

-- The polynomial x^8 + x^5 + x^3 + x^2 + x + 1, a digit for each coefficient.
abbrev pub polynomial : ℕ
polynomial = 0x12F

-- Long division: whatever stands at x^(8+k) and above is taken off, from the top.
unfoldable pub divide : ℕ → ℕ → ℕ
divide zero r = r
divide (suc k) r = divide k (if r / 2 ^ (8 + k) % 2 == 1 then bit_xor r (polynomial * 2 ^ k) else r)

-- The remainder of x^8 times a polynomial below x^8.
unfoldable pub remainder : ℕ → ℕ
unfolding divide
remainder r = divide 8 (r * 2 ^ 8)

-- A receiver's register after bytes.
unfoldable pub register : ℕ → List ℕ → ℕ
unfolding remainder
register r [] = r
register r (b ∷ bs) = register (remainder (bit_xor r b)) bs

unfoldable pub xor_all : ℕ → List ℕ → ℕ
xor_all c [] = c
xor_all c (b ∷ bs) = xor_all (bit_xor c b) bs

-- `left` bytes from `i` on.
unfoldable pub slice : Bytes → ℕ → ℕ → List ℕ
slice bytes zero i = []
slice bytes (suc left) i = bytes i ∷ slice bytes left (i + 1)

-- The bytes a rule protects, and the two checksums by their definition.
abbrev pub protected : {F : Type 0} → RuleStageRequest F → Bytes → List ℕ
protected r bytes =
    slice bytes (r.checksum_end_byte + 1 - r.checksum_start_byte) r.checksum_start_byte

-- The data identifier is chosen by the low four bits of the counter's byte, and comes last.
abbrev pub received_crc : {F : Type 0} → RuleStageRequest F → Bytes → ℕ
received_crc r bytes =
    bit_xor
      (register 0xFF
        (protected r bytes ++ r.sequence_values (bytes r.checksum_counter_byte % 16) ∷ []))
      0xFF

-- A test that all numbers below a bound pass.
unfoldable all_below : (ℕ → Bool) → ℕ → Bool
all_below f zero = true
all_below f (suc n) = f n && all_below f n

all_below-at : (f : ℕ → Bool) (n i : ℕ) → all_below f n ≡ true → i < n → f i ≡ true
unfolding all_below
all_below-at f zero i h lt = absurd (omega arith)
all_below-at f (suc n) i h lt = elim (Bool-cases (i == n)) [
  | inl same ↦ subst (λ j. f j ≡ true) {x = n} {y = i} (ground arith) (ground arith)
  | inr other ↦ all_below-at f n i (ground arith) (ground arith)
]

-- For a byte, the eight shifts of the code are that remainder, a byte again.
abbrev divides : ℕ → Bool
divides x = (crc_shifts 8 x == remainder x) && ltb (remainder x) 256

all_divide : all_below divides 256 ≡ true
unfolding all_below crc_shifts remainder
all_divide = refl

shifts-remainder : (x : ℕ) → x < 256 → (crc_shifts 8 x ≡ remainder x) × (remainder x < 256)
shifts-remainder x h =
    let good = all_below-at divides 256 x all_divide h in (ground arith, ground arith)

crc_update-remainder :
    (c v : ℕ)
    → c < 256
    → v < 256
    → (crc_update c v ≡ remainder (bit_xor c v)) × (remainder (bit_xor c v) < 256)
unfolding crc_update
crc_update-remainder c v hc hv = shifts-remainder (bit_xor c v) (bit_xor-lt 8 c v hc hv)

crc_bytes-register :
    (bytes : Bytes) (left i c v : ℕ)
    → IsBytes bytes
    → i + left ≤ 8
    → c < 256
    → v < 256
    → crc_update (crc_bytes bytes left i c) v ≡ register c (slice bytes left i ++ v ∷ [])
unfolding crc_bytes register slice
crc_bytes-register bytes zero i c v h room hc hv = (crc_update-remainder c v hc hv).0
crc_bytes-register bytes (suc left) i c v h room hc hv =
    let (same, small) = crc_update-remainder c (bytes i) hc (h i (omega arith)) in
    ap (λ r. crc_update (crc_bytes bytes left (i + 1) r) v) same
    ∙ crc_bytes-register bytes left (i + 1) (remainder (bit_xor c (bytes i))) v h (omega arith)
        small hv

xor_bytes-xor_all :
    (bytes : Bytes) (left i c : ℕ) → xor_bytes bytes left i c ≡ xor_all c (slice bytes left i)
unfolding xor_bytes xor_all slice
xor_bytes-xor_all bytes zero i c = refl
xor_bytes-xor_all bytes (suc left) i c = xor_bytes-xor_all bytes left (i + 1) (bit_xor c (bytes i))

slice-store :
    (bytes : Bytes) (t x left i : ℕ)
    → apart t left i ≡ true
    → slice (store bytes t x) left i ≡ slice bytes left i
unfolding slice
slice-store bytes t x zero i h = refl
slice-store bytes t x (suc left) i h =
    ap₂ (λ b bs. b ∷ bs) (if_false (i == t) x (bytes i) (ground arith))
      (slice-store bytes t x left (i + 1) (ground arith))

here : (t : ℕ) → (t == t) ≡ true
here t = ground arith

-- `autosar_checksum` is the CRC-8 by its definition.
autosar_checksum-received :
    {F : Type 0} (r : RuleStageRequest F) (bytes : Bytes)
    → IsBytes bytes
    → r.checksum_start_byte ≤ r.checksum_end_byte
    → r.checksum_end_byte < 8
    → ((i : ℕ) → i < 16 → r.sequence_values i < 256)
    → autosar_checksum r bytes ≡ received_crc r bytes
unfolding autosar_checksum
autosar_checksum-received r bytes h order inside values =
    let left = r.checksum_end_byte + 1 - r.checksum_start_byte in
    let nibble : bit_and (bytes r.checksum_counter_byte) 0x0F ≡ bytes r.checksum_counter_byte % 16 =
      bit_and_ones 4 (bytes r.checksum_counter_byte) in
    ap
      (λ n.
        bit_xor (crc_update (crc_bytes bytes left r.checksum_start_byte 0xFF) (r.sequence_values n))
          0xFF)
      nibble
    ∙ ap (λ c. bit_xor c 0xFF)
        (crc_bytes-register bytes left r.checksum_start_byte 0xFF
          (r.sequence_values (bytes r.checksum_counter_byte % 16)) h (omega arith) (omega arith)
          (values _ (omega arith)))

module _ {F : Type 0} (rule : CompiledRule F) (bytes : Bytes) where
  -- A receiver that gets a frame of bytes from a checksum rule finds the checksum it computes itself,
  -- by the definition: the exclusive or of the seed and the protected bytes; and the complement of the
  -- register of CRC-8/AUTOSAR, begun at 0xFF, after the protected bytes and the data identifier that
  -- the counter's low four bits select, where a byte takes the register to the remainder of x^8 times
  -- their sum by x^8 + x^5 + x^3 + x^2 + x + 1. The protected bytes are some of the 8, the checksum
  -- lies outside them and, for the CRC, is not the counter's byte; a data identifier is a byte.
  pub checksums-received :
      IsBytes bytes
      → rule.source.checksum_start_byte ≤ rule.source.checksum_end_byte
      → rule.source.checksum_end_byte < 8
      → ((i : ℕ) → i < 16 → rule.source.sequence_values i < 256)
      → apart rule.source.checksum_target_byte
          (rule.source.checksum_end_byte + 1 - rule.source.checksum_start_byte)
          rule.source.checksum_start_byte
        ≡ true
      → (rule.source.checksum_counter_byte == rule.source.checksum_target_byte) ≡ false
      → (apply_xor_checksum_rule rule bytes rule.source.checksum_target_byte
          ≡ xor_all rule.source.checksum_seed
              (protected rule.source (apply_xor_checksum_rule rule bytes)))
        × (apply_autosar_checksum_rule rule bytes rule.source.checksum_target_byte
            ≡ received_crc rule.source (apply_autosar_checksum_rule rule bytes))
  unfolding apply_xor_checksum_rule apply_autosar_checksum_rule xor_checksum
  checksums-received h order inside values clear other =
      let r = rule.source in
      let t = r.checksum_target_byte in
      let left = r.checksum_end_byte + 1 - r.checksum_start_byte in
      let start = r.checksum_start_byte in
      let crc = autosar_checksum r bytes in
      (
        if_true (t == t) _ (bytes t) (here t)
            ∙ xor_bytes-xor_all bytes left start r.checksum_seed
            ∙ ap (xor_all r.checksum_seed)
                (sym (slice-store bytes t (xor_checksum r bytes) left start clear)),
        if_true (t == t) _ (bytes t) (here t)
            ∙ autosar_checksum-received r bytes h order inside values
            ∙ ap₂ (λ bs b. bit_xor (register 0xFF (bs ++ r.sequence_values (b % 16) ∷ [])) 0xFF)
                (sym (slice-store bytes t crc left start clear))
                (sym (
                  if_false (r.checksum_counter_byte == t) crc (bytes r.checksum_counter_byte)
                    other)),
      )
