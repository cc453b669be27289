-- ===== src/Mutation/Rules.antt =====
-- The helpers of MutationEngine on one rule request (core/mutation_engine.cpp): its bits in a
-- frame, whether it is accepted, and what its runtime value is.
use signal_scope_api.Base.{
  ℕ, zero, suc, ◌+◌, ◌-◌, ◌/◌, ◌%◌, ◌^◌, Bool, true, false, not, ◌&&◌, ◌||◌, ltb, leb, ◌==◌,
  if◌then◌else◌, Option, none, some, Array, store, bit_and, bit_or,
}
use signal_scope_api.Base.Int.{ℤ, pos, negsuc, ltb_ℤ}
use signal_scope_api.Frame.{Bytes, u16, u32, same_direction}
use signal_scope_api.Codec.{bit_mask}
use signal_scope_api.Codec.Integer.{of_i64}
use signal_scope_api.Codec.Physical.{Floats, SignalMutation}
use signal_scope_api.Mutation.{
  RuleKind, bit_range, raw_mask, counter, checksum_xor, sequence8, checksum_crc8_autosar,
  RuleStageRequest, StagedRule, same_kind, named,
}

abbrev pub make_bit_mask : ℕ → ℕ
make_bit_mask bit_length =
    if bit_length == 0 then 0 else if leb 64 bit_length then 2 ^ 64 - 1 else 2 ^ bit_length - 1

abbrev largest_raw : ℕ → Bool → ℤ
largest_raw length is_signed =
    if is_signed
    then if leb 64 length then pos (2 ^ 63 - 1) else pos (2 ^ (length - 1) - 1)
    else if leb 63 length
    then pos (2 ^ 63 - 1)
    else pos (2 ^ length - 1)

abbrev smallest_raw : ℕ → Bool → ℤ
smallest_raw length is_signed =
    if is_signed
    then if leb 64 length then negsuc (2 ^ 63 - 1) else negsuc (2 ^ (length - 1) - 1)
    else pos 0

-- The factor is the one of the mutation, or 1 for a factor of zero.
unfoldable pub convert_physical_to_raw :
    (floats : Floats) → SignalMutation floats.F32 → floats.F32 → ℕ
convert_physical_to_raw floats m physical_value =
    let length = m.layout.length in
    let is_signed = m.layout.is_signed in
    let factor =
      if floats.is_zero32 m.layout.factor
      then floats.of_integer (pos 1)
      else floats.widen m.layout.factor in
    let raw = floats.llround (
      floats.div64 (floats.sub64 (floats.widen physical_value) (floats.widen m.layout.offset))
        factor) in
    let raised =
      if ltb_ℤ raw (smallest_raw length is_signed) then smallest_raw length is_signed else raw in
    let capped =
      if ltb_ℤ (largest_raw length is_signed) raised
      then largest_raw length is_signed
      else raised in
    if (length == 0) || ltb 64 length then 0 else bit_and (of_i64 capped) (make_bit_mask length)

-- The mask of the field and its value in place: `out_mask` and `out_value`.
pub record MaskAndValue : Type 0 where
  pub mask : Bytes
  pub value : Bytes

-- `bytes[bit / 8] |= 1 << (bit % 8)`
abbrev pub or_bit : Bytes → ℕ → Bytes
or_bit bytes bit = store bytes (bit / 8) (bit_or (bytes (bit / 8)) (bit_mask (bit % 8)))

abbrev pub add_bit : MaskAndValue → ℕ → Bool → MaskAndValue
add_bit out bit set = record {
  mask = or_bit out.mask bit;
  value = if set then or_bit out.value bit else out.value;
}

-- `((raw_value >> i) & 1) != 0`
abbrev pub shifted_bit : ℕ → ℕ → Bool
shifted_bit raw i = not (bit_and (raw / 2 ^ i) 1 == 0)

unfoldable pub next_rule_bit : ℕ → ℕ
next_rule_bit current_bit =
    if current_bit % 8 == 0 then u16 (current_bit + 15) else u16 (current_bit - 1)

-- The loops of buildBitMaskAndValue, `left` rounds to go; `none` is a return of false, after which
-- no caller looks at the two arrays.
unfoldable pub mask_intel : ℕ → ℕ → ℕ → ℕ → MaskAndValue → Option MaskAndValue
mask_intel raw start_bit zero i out = some out
mask_intel raw start_bit (suc left) i out =
    let bit_index = u16 (start_bit + i) in
    let rest = mask_intel raw start_bit left (i + 1) (add_bit out bit_index (shifted_bit raw i)) in
    if ltb 63 bit_index then none else rest

unfoldable pub mask_motorola : ℕ → ℕ → ℕ → MaskAndValue → Option MaskAndValue
unfolding next_rule_bit
mask_motorola raw zero bit_index out = some out
mask_motorola raw (suc left) bit_index out =
    let rest =
      mask_motorola raw left (next_rule_bit bit_index)
        (add_bit out bit_index (shifted_bit raw left)) in
    if ltb 63 bit_index then none else rest

abbrev pub no_bits : MaskAndValue
no_bits = record { mask = λ i. 0; value = λ i. 0 }

unfoldable pub build_bit_mask_and_value : ℕ → ℕ → Bool → ℕ → Option MaskAndValue
unfolding mask_intel mask_motorola
build_bit_mask_and_value start_bit bit_length little_endian raw =
    if ltb bit_length 1 || ltb 64 bit_length || ltb 63 start_bit
    then none
    else if little_endian
    then mask_intel raw start_bit bit_length 0 no_bits
    else mask_motorola raw bit_length start_bit no_bits

-- The loops of buildDynamicBitPositions.
unfoldable pub positions_intel : ℕ → ℕ → ℕ → Array ℕ → Option (Array ℕ)
positions_intel start_bit zero bit out = some out
positions_intel start_bit (suc left) bit out =
    let frame_bit = u16 (start_bit + bit) in
    let rest = positions_intel start_bit left (bit + 1) (store out bit frame_bit) in
    if ltb 63 frame_bit then none else rest

unfoldable pub positions_motorola : ℕ → ℕ → Array ℕ → Option (Array ℕ)
unfolding next_rule_bit
positions_motorola zero frame_bit out = some out
positions_motorola (suc left) frame_bit out =
    let rest = positions_motorola left (next_rule_bit frame_bit) (store out left frame_bit) in
    if ltb 63 frame_bit then none else rest

unfoldable pub build_dynamic_bit_positions : ℕ → ℕ → Bool → Option (Array ℕ)
unfolding positions_intel positions_motorola
build_dynamic_bit_positions start_bit bit_length little_endian =
    if ltb bit_length 1 || ltb 32 bit_length || ltb 63 start_bit
    then none
    else if little_endian
    then positions_intel start_bit bit_length 0 (λ i. 0)
    else positions_motorola bit_length start_bit (λ i. 0)

abbrev is_some {ℓ} : {A : Type ℓ} → Option A → Bool
is_some none = false
is_some (some a) = true

abbrev fits_length : ℕ → ℕ → Bool
fits_length bit_length v =
    if (bit_length == 0) || ltb 32 bit_length
    then false
    else (bit_length == 32) || leb v (2 ^ bit_length - 1)

abbrev pub has_bits : RuleKind → Bool
has_bits k = same_kind k bit_range || same_kind k counter || same_kind k sequence8

module _ {F : Type 0} where
  unfoldable pub initial_runtime_value : RuleStageRequest F → ℕ
  initial_runtime_value rule =
      if same_kind rule.kind bit_range && rule.dynamic_value
      then u32 rule.replace_value
      else if same_kind rule.kind counter
      then rule.counter_initial
      else if same_kind rule.kind sequence8
      then rule.sequence_initial_index
      else 0

  unfoldable pub runtime_value_fits : RuleStageRequest F → ℕ → Bool
  runtime_value_fits rule v =
      if same_kind rule.kind bit_range && rule.dynamic_value
      then if named rule.value_source then false else fits_length rule.bit_length v
      else if same_kind rule.kind counter
      then fits_length rule.bit_length v
      else if same_kind rule.kind sequence8
      then ltb 0 rule.sequence_count && ltb v rule.sequence_count
      else false

  -- Whether normalizeRule accepts the rule; it changes nothing of it.
  unfoldable pub normalize_rule : RuleStageRequest F → Bool
  unfolding build_bit_mask_and_value
  normalize_rule rule =
      let length = rule.bit_length in
      if ltb 0x1FFFFFFF rule.can_id
      then false
      else if has_bits rule.kind
      then (if ltb length 1 || ltb 64 length
          then false
          else if ltb 63 rule.start_bit
          then false
          else if (rule.dynamic_value || same_kind rule.kind counter) && ltb 32 length
          then false
          else if same_kind rule.kind sequence8
              && ((rule.sequence_count == 0)
                  || ltb 16 rule.sequence_count
                  || ltb 8 length
                  || leb rule.sequence_count rule.sequence_initial_index)
          then false
          else if ltb 64 (rule.start_bit + length) && rule.little_endian
          then false
          else if same_kind rule.kind bit_range
              && ltb length 64
              && leb (2 ^ length) rule.replace_value
          then false
          else is_some (
              build_bit_mask_and_value rule.start_bit length rule.little_endian rule.replace_value))
      else elim (rule.kind) [
        | raw_mask ↦ true
        | checksum_xor ↦
            ltb rule.checksum_target_byte 8
            && ltb rule.checksum_start_byte 8
            && ltb rule.checksum_end_byte 8
            && leb rule.checksum_start_byte rule.checksum_end_byte
        | checksum_crc8_autosar ↦
            ltb rule.checksum_target_byte 8
            && ltb rule.checksum_counter_byte 8
            && ltb rule.checksum_start_byte 8
            && ltb rule.checksum_end_byte 8
            && leb rule.checksum_start_byte rule.checksum_end_byte
            && (rule.sequence_count == 16)
        | _ ↦ false
      ]

  abbrev same_layout : RuleStageRequest F → RuleStageRequest F → Bool
  same_layout existing request =
      (existing.start_bit == request.start_bit)
      && (existing.bit_length == request.bit_length)
      && (if existing.little_endian then request.little_endian else not request.little_endian)
      && (if existing.dynamic_value then request.dynamic_value else not request.dynamic_value)

  -- Whether a staged rule is the one that a request replaces: the tests of findStagedIdentity.
  unfoldable pub same_identity : RuleStageRequest F → StagedRule F → Bool
  same_identity request candidate =
      let existing = candidate.request in
      if not candidate.in_use
      then false
      else if not (same_kind existing.kind request.kind)
          || not (existing.can_id == request.can_id)
          || not (same_direction existing.direction request.direction)
      then false
      else if has_bits request.kind
      then same_layout existing request
      else if same_kind request.kind checksum_xor || same_kind request.kind checksum_crc8_autosar
      then existing.checksum_target_byte == request.checksum_target_byte
      else true
