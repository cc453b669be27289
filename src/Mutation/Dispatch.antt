-- ===== src/Mutation/Dispatch.antt =====
-- The rules of MutationEngine that read application values (core/mutation_engine.cpp), and the
-- dispatch of applyFrameMutations on the kind of a rule. A compare-and-exchange loop is one step: a
-- write between its load and its exchange makes it load again.
use signal_scope_api.Base.{
  ℕ, ◌^◌, Bool, true, false, not, ◌&&◌, ◌||◌, ◌==◌, if◌then◌else◌, Option, none, some, bit_and,
}
use signal_scope_api.Base.Int.{pos}
use signal_scope_api.Frame.{u16}
use signal_scope_api.Mutation.{
  bit_range, raw_mask, counter, checksum_xor, sequence8, checksum_crc8_autosar, CompiledRule,
  MutationEngine, RuleFloats,
}
use signal_scope_api.Mutation.Registry.{read_value, lookup_first_at_least}
use signal_scope_api.Mutation.Apply.{
  max_dynamic, write_dynamic_value, next_count, safe_index, next_sequence_index, RuleWork,
  apply_xor_checksum_rule, apply_autosar_checksum_rule, apply_static_rule,
}

module _ (floats : RuleFloats) where
  abbrev F32 : Type 0
  F32 = floats.codec.F32

  abbrev F64 : Type 0
  F64 = floats.codec.F64

  abbrev Engine : Type 0
  Engine = MutationEngine F32

  -- `none` is a return of false.
  unfoldable pub encode_runtime_output : F64 → Bool → ℕ → Option ℕ
  encode_runtime_output transformed truncate maximum =
      let rounded =
        floats.floor64
          (if truncate then transformed else floats.codec.add64 transformed floats.half64) in
      if not (floats.isfinite64 transformed)
      then none
      else if floats.le64 transformed floats.zero64
      then some 0
      else if not (floats.isfinite64 rounded)
      then none
      else if floats.le64 (floats.codec.of_integer (pos maximum)) rounded
      then some maximum
      else some (floats.to_u32 rounded)

  abbrev read_source : Engine → Option ℕ → Option F32
  read_source e none = none
  read_source e (some i) = elim (e.runtime_values) [
    | none ↦ none
    | some entries ↦ read_value entries i
  ]

  -- Whether the selector lets the rule pass, and the selector.
  unfoldable pub selector_allows : Engine → CompiledRule F32 → Bool × ℕ
  selector_allows e rule = elim (rule.selector_index) [
    | none ↦ (true, 0)
    | some i ↦ elim (read_source e (some i)) [
      | none ↦ (false, 0)
      | some raw ↦
          if not (floats.isfinite32 raw)
            || floats.codec.lt32 raw floats.zero32
            || floats.codec.lt32 floats.fifteen32 raw
          then (false, 0)
          else let selector = floats.to_u8 (floats.codec.add32 raw floats.half32) in
            (not (bit_and rule.source.selector_active_mask (u16 (2 ^ selector)) == 0), selector)
    ]
  ]

  -- The two values of an override, where both can be read.
  abbrev override_of : Engine → CompiledRule F32 → Option (F32 × F32)
  override_of e rule = elim (read_source e rule.override_active_index) [
    | none ↦ none
    | some active ↦ elim (read_source e rule.override_value_index) [
      | none ↦ none
      | some v ↦ some (active, v)
    ]
  ]

  abbrev scaled : F64 → F32 → F32 → F64
  scaled x scale offset =
      floats.codec.add64 (floats.codec.mul64 x (floats.codec.widen scale))
        (floats.codec.widen offset)

  -- The affine part: the gain and offset of the rule, or an index of its table.
  abbrev affine_of : Engine → CompiledRule F32 → F32 → F64
  affine_of e rule source =
      let r = rule.source in
      let line = scaled (floats.codec.widen source) r.source_gain r.source_offset in
      let looked_up : Option ℕ = elim (rule.runtime_table_index) [
        | none ↦ none
        | some i ↦ elim (e.runtime_tables) [
          | none ↦ none
          | some tables ↦ lookup_first_at_least floats.le32 tables i source
        ]
      ] in
      let affine : F64 = elim looked_up [
        | none ↦ line
        | some index ↦ floats.codec.of_integer (pos index)
      ] in
      if r.truncate_affine then floats.floor64 affine else affine

  -- `value` of applyDynamicRule for a finite source; `none` where the rule returns without writing.
  unfoldable pub dynamic_output : Engine → CompiledRule F32 → ℕ → F32 → Option ℕ
  unfolding encode_runtime_output
  dynamic_output e rule selector source =
      let r = rule.source in
      let override = override_of e rule in
      let bad : Bool = elim override [
        | none ↦ false
        | some (active, v) ↦ not (floats.isfinite32 active) || not (floats.isfinite32 v)
      ] in
      let selector_direct : Bool = elim (rule.selector_index) [
        | none ↦ false
        | some i ↦ not (bit_and r.selector_direct_mask (u16 (2 ^ selector)) == 0)
      ] in
      let output_scale =
        if r.selector_maps_output then r.selector_output_scale selector else r.output_scale in
      let full_output =
        if r.selector_maps_output then r.selector_full_output selector else r.full_output in
      let maximum = max_dynamic rule.dynamic_bit_count in
      let encoded = λ (x : F64).
        encode_runtime_output (scaled x output_scale r.output_offset) r.truncate_output maximum in
      let from_source =
        if r.zero_override && floats.le32 source r.zero_threshold
        then some (r.zero_output)
        else if r.full_override && floats.le32 r.full_threshold source
        then some full_output
        else encoded (affine_of e rule source) in
      let plain : Option ℕ = elim override [
        | none ↦ from_source
        | some (active, v) ↦
            if floats.le32 floats.half32 active then encoded (floats.codec.widen v) else from_source
      ] in
      if bad
      then none
      else if selector_direct
      then some (r.selector_direct_output selector)
      else plain

  -- The value that applyDynamicRule writes: the one set by hand where no source can be read.
  abbrev dynamic_input : Engine → CompiledRule F32 → ℕ → ℕ → Option ℕ
  dynamic_input e rule selector set_value = elim (read_source e rule.runtime_value_index) [
    | none ↦ some set_value
    | some source ↦
        if not (floats.isfinite32 source) then none else dynamic_output e rule selector source
  ]

  unfoldable pub apply_dynamic_rule : Engine → CompiledRule F32 → RuleWork → RuleWork
  unfolding selector_allows dynamic_output write_dynamic_value
  apply_dynamic_rule e rule w =
      let (allowed, selector) = selector_allows e rule in
      if not allowed then w else elim (dynamic_input e rule selector w.current_value) [
        | none ↦ w
        | some v ↦ record w { bytes = write_dynamic_value rule w.bytes v }
      ]

  -- The counter goes on with every call, also where the selector keeps it from the frame.
  unfoldable pub apply_counter_rule : Engine → CompiledRule F32 → RuleWork → RuleWork
  unfolding selector_allows next_count write_dynamic_value
  apply_counter_rule e rule w = record {
    bytes =
        if (selector_allows e rule).0
        then write_dynamic_value rule w.bytes w.current_value
        else w.bytes;
    current_value = next_count rule.source w.current_value;
  }

  unfoldable pub apply_sequence_rule : Engine → CompiledRule F32 → RuleWork → RuleWork
  unfolding selector_allows safe_index next_sequence_index write_dynamic_value
  apply_sequence_rule e rule w =
      let index = safe_index rule.source w.current_value in
      record {
        bytes =
            if (selector_allows e rule).0
            then write_dynamic_value rule w.bytes (rule.source.sequence_values index)
            else w.bytes;
        current_value = next_sequence_index rule.source w.current_value;
      }

  -- The dispatch of applyFrameMutations on the kind of a rule.
  unfoldable pub apply_rule : Engine → CompiledRule F32 → RuleWork → RuleWork
  unfolding apply_counter_rule apply_sequence_rule apply_xor_checksum_rule
      apply_autosar_checksum_rule apply_dynamic_rule apply_static_rule
  apply_rule e rule w = elim (rule.source.kind) [
    | counter ↦ apply_counter_rule e rule w
    | sequence8 ↦ apply_sequence_rule e rule w
    | checksum_xor ↦ record w { bytes = apply_xor_checksum_rule rule w.bytes }
    | checksum_crc8_autosar ↦ record w { bytes = apply_autosar_checksum_rule rule w.bytes }
    | bit_range ↦
        if rule.source.dynamic_value
        then apply_dynamic_rule e rule w
        else record w { bytes = apply_static_rule rule w.bytes }
    | raw_mask ↦ record w { bytes = apply_static_rule rule w.bytes }
  ]
