-- ===== src/Mutation/Apply.antt =====
-- What a rule of each kind of MutationEngine does to the bytes (core/mutation_engine.cpp), and how
-- counters and sequences go on.
use signal_scope_api.Base.{
  ℕ, zero, suc, ◌+◌, ◌-◌, ◌*◌, ◌%◌, ◌^◌, not, ltb, leb, ◌==◌, if◌then◌else◌, Array, store, bit_and,
  bit_or, bit_xor,
}
use signal_scope_api.Frame.{Bytes, u8, u32}
use signal_scope_api.Mutation.{RuleStageRequest, CompiledRule}
use signal_scope_api.Mutation.Rules.{or_bit}

unfoldable pub apply_mask : Bytes → Bytes → Bytes → Bytes
apply_mask bytes clear_mask set_bits i =
    if ltb i 8 then bit_or (bit_and (bytes i) (clear_mask i)) (set_bits i) else bytes i

-- `dynamic_bit_count >= 32 ? 0xFFFFFFFF : (1 << dynamic_bit_count) - 1`
abbrev pub max_dynamic : ℕ → ℕ
max_dynamic count = if leb 32 count then 0xFFFFFFFF else 2 ^ count - 1

-- The loop of writeDynamicValue: `left` bits from `bit` on.
unfoldable pub set_dynamic_bits : Array ℕ → ℕ → ℕ → ℕ → Bytes → Bytes
set_dynamic_bits positions v zero bit bytes = bytes
set_dynamic_bits positions v (suc left) bit bytes =
    set_dynamic_bits positions v left (bit + 1)
      (if bit_and v (2 ^ bit) == 0 then bytes else or_bit bytes (positions bit))

-- The loop of applyXorChecksumRule: `left` bytes from `i` on.
unfoldable pub xor_bytes : Bytes → ℕ → ℕ → ℕ → ℕ
xor_bytes bytes zero i checksum = checksum
xor_bytes bytes (suc left) i checksum = xor_bytes bytes left (i + 1) (bit_xor checksum (bytes i))

-- One of the eight shifts of CRC-8/AUTOSAR.
abbrev pub crc_shift : ℕ → ℕ
crc_shift crc = if not (bit_and crc 0x80 == 0) then u8 (bit_xor (crc * 2) 0x2F) else u8 (crc * 2)

unfoldable pub crc_shifts : ℕ → ℕ → ℕ
crc_shifts zero crc = crc
crc_shifts (suc left) crc = crc_shifts left (crc_shift crc)

unfoldable pub crc_update : ℕ → ℕ → ℕ
unfolding crc_shifts
crc_update crc v = crc_shifts 8 (bit_xor crc v)

unfoldable pub crc_bytes : Bytes → ℕ → ℕ → ℕ → ℕ
unfolding crc_update
crc_bytes bytes zero i crc = crc
crc_bytes bytes (suc left) i crc = crc_bytes bytes left (i + 1) (crc_update crc (bytes i))

module _ {F : Type 0} where
  unfoldable pub apply_static_rule : CompiledRule F → Bytes → Bytes
  unfolding apply_mask
  apply_static_rule rule bytes = apply_mask bytes rule.clear_mask rule.static_set_bits

  unfoldable pub write_dynamic_value : CompiledRule F → Bytes → ℕ → Bytes
  unfolding set_dynamic_bits
  write_dynamic_value rule bytes v =
      let count = rule.dynamic_bit_count in
      let capped = if ltb (max_dynamic count) v then max_dynamic count else v in
      let cleared = λ (i : ℕ). if ltb i 8 then bit_and (bytes i) (rule.clear_mask i) else bytes i in
      set_dynamic_bits rule.dynamic_bit_positions capped count 0 cleared

  -- The checksum is taken over the bytes `checksum_start_byte` to `checksum_end_byte`.
  unfoldable pub xor_checksum : RuleStageRequest F → Bytes → ℕ
  unfolding xor_bytes
  xor_checksum r bytes =
      xor_bytes bytes (r.checksum_end_byte + 1 - r.checksum_start_byte) r.checksum_start_byte
        r.checksum_seed

  unfoldable pub apply_xor_checksum_rule : CompiledRule F → Bytes → Bytes
  unfolding xor_checksum
  apply_xor_checksum_rule rule bytes =
      store bytes rule.source.checksum_target_byte (xor_checksum rule.source bytes)

  unfoldable pub autosar_checksum : RuleStageRequest F → Bytes → ℕ
  unfolding crc_bytes crc_update
  autosar_checksum r bytes =
      let payload =
        crc_bytes bytes (r.checksum_end_byte + 1 - r.checksum_start_byte) r.checksum_start_byte
          0xFF in
      let counter_nibble = bit_and (bytes r.checksum_counter_byte) 0x0F in
      bit_xor (crc_update payload (r.sequence_values counter_nibble)) 0xFF

  unfoldable pub apply_autosar_checksum_rule : CompiledRule F → Bytes → Bytes
  unfolding autosar_checksum
  apply_autosar_checksum_rule rule bytes =
      store bytes rule.source.checksum_target_byte (autosar_checksum rule.source bytes)

  -- The value after `current` of a counter, a uint32_t.
  unfoldable pub next_count : RuleStageRequest F → ℕ → ℕ
  next_count r current =
      if leb r.counter_wrap_after current then r.counter_wrap_to else u32 (current + r.counter_step)

  -- The index that a sequence uses, and the one after it.
  unfoldable pub safe_index : RuleStageRequest F → ℕ → ℕ
  safe_index r index = u8 (index % r.sequence_count)

  unfoldable pub next_sequence_index : RuleStageRequest F → ℕ → ℕ
  unfolding safe_index
  next_sequence_index r index = (safe_index r index + 1) % r.sequence_count

-- The state that a rule may change: the bytes of the frame and the value of its slot.
pub record RuleWork : Type 0 where
  pub bytes : Bytes
  pub current_value : ℕ
