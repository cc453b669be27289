-- ===== src/Mutation/Table.antt =====
-- The compiled rules of MutationEngine (core/mutation_engine.cpp): the groups of an active table
-- by identifier and direction, and the compilation of one rule.
use signal_scope_api.Base.{
  ℕ, zero, suc, ◌+◌, ◌-◌, ◌*◌, ◌/◌, ◌%◌, ◌^◌, Bool, not, ◌&&◌, ◌||◌, ltb, leb, ◌==◌, if◌then◌else◌,
  ◌>>=◌, Option, none, some, Array, store, bit_and, bit_xor,
}
use mathlib.Core.Option
use signal_scope_api.Frame.{direction_number, Direction, same_direction, u32}
use signal_scope_api.Mutation.{
  raw_mask, counter, checksum_xor, sequence8, checksum_crc8_autosar, RuleStageRequest, StagedRule,
  CompiledRule, RuleGroup, ActiveRuleTable, ValueEntry, TableEntry, same_kind, named, Name,
  max_rules, rule_buckets,
}
use signal_scope_api.Mutation.Registry.{find_value, find_table}
use signal_scope_api.Mutation.Rules.{
  MaskAndValue, build_bit_mask_and_value, build_dynamic_bit_positions,
}

unfoldable pub rule_hash : ℕ → Direction → ℕ
rule_hash can_id direction =
    let seed = bit_xor can_id (u32 (direction_number direction * 0x9E3779B9)) in
    bit_xor seed (seed / 2 ^ 16)

abbrev pub in_group : ℕ → Direction → RuleGroup → Bool
in_group can_id direction g = (g.can_id == can_id) && same_direction g.direction direction

-- The walk of findGroup and ensureGroup along a chain, with fuel.
unfoldable pub walk_groups : Array RuleGroup → ℕ → Direction → ℕ → Option ℕ → Option ℕ
walk_groups groups can_id direction zero index = none
walk_groups groups can_id direction (suc fuel) none = none
walk_groups groups can_id direction (suc fuel) (some i) =
    let rest = walk_groups groups can_id direction fuel (groups i).next in
    if in_group can_id direction (groups i) then some i else rest

-- An index of a registry that fits an int16_t; `none` is a return of false of compileRule.
abbrev small_index : Option ℕ → Option ℕ
small_index none = none
small_index (some i) = if ltb 0x7FFF i then none else some i

module _ {F : Type 0} where
  -- The entries of the arrays stay as they are.
  unfoldable pub clear_active_table : ActiveRuleTable F → ActiveRuleTable F
  clear_active_table t = record t { rule_count = 0; group_count = 0; bucket_head = λ b. none }

  -- The index of the group.
  unfoldable pub find_group : ActiveRuleTable F → ℕ → Direction → Option ℕ
  unfolding walk_groups rule_hash
  find_group t can_id direction =
      walk_groups t.groups can_id direction (t.group_count + 1)
        (t.bucket_head (rule_hash can_id direction % rule_buckets))

  -- The end of ensureGroup.
  unfoldable pub add_group : ActiveRuleTable F → ℕ → Direction → ActiveRuleTable F
  unfolding rule_hash
  add_group t can_id direction =
      let bucket = rule_hash can_id direction % rule_buckets in
      let group : RuleGroup = record {
        can_id = can_id;
        direction = direction;
        first_rule = 0;
        rule_count = 0;
        next = t.bucket_head bucket;
      } in
      record t {
        groups = store t.groups t.group_count group;
        bucket_head = store t.bucket_head bucket (some t.group_count);
        group_count = t.group_count + 1;
      }

  -- `none` for a null pointer, else the index of the group and the table.
  unfoldable pub ensure_group : ActiveRuleTable F → ℕ → Direction → Option (ℕ × ActiveRuleTable F)
  unfolding find_group add_group
  ensure_group t can_id direction = elim (find_group t can_id direction) [
    | some i ↦ some (i, t)
    | none ↦
        if leb max_rules t.group_count
        then none
        else some (t.group_count, add_group t can_id direction)
  ]

  -- The index a name stands for: no name no index, and `none` where there is a name and the
  -- registry is missing or has no such name.
  abbrev pub value_index : Option (Array (ValueEntry F)) → Name → Option (Option ℕ)
  value_index registry name = if not (named name) then some none else elim registry [
    | none ↦ none
    | some entries ↦ Option.map (λ i. some i) (small_index (find_value entries name))
  ]

  abbrev pub table_index : Option (Bool × Array (TableEntry F)) → Name → Option (Option ℕ)
  table_index registry name = if not (named name) then some none else elim registry [
    | none ↦ none
    | some entries ↦ Option.map (λ i. some i) (small_index (find_table entries name))
  ]

  -- The two names of an override come together.
  abbrev pub override_indices :
      Option (Array (ValueEntry F)) → Name → Name → Option (Option ℕ × Option ℕ)
  override_indices registry active v =
      if not (named active || named v)
      then some (none, none)
      else if not (named active && named v)
      then none
      else do a ← value_index registry active; b ← value_index registry v; some (a, b)

  -- A compiled rule as it is before its kind is looked at.
  abbrev pub blank_rule : StagedRule F → ℕ → Option ℕ → CompiledRule F
  blank_rule staged priority selector = record {
    rule_id = staged.rule_id;
    priority = priority;
    source = staged.request;
    clear_mask = λ i. 0xFF;
    static_set_bits = λ i. 0;
    dynamic_bit_count = 0;
    dynamic_bit_positions = λ i. 0;
    runtime_value_index = none;
    runtime_table_index = none;
    override_active_index = none;
    override_value_index = none;
    selector_index = selector;
  }

  -- `clear_mask` and `static_set_bits` for a mask and a value
  abbrev pub with_bits : CompiledRule F → MaskAndValue → CompiledRule F
  with_bits rule bits = record rule {
    clear_mask = λ i. 255 - bits.mask i;
    static_set_bits = λ i. bit_and (bits.value i) (bits.mask i);
  }

  abbrev pub runtime_bits : RuleStageRequest F → Bool
  runtime_bits r = r.dynamic_value || same_kind r.kind counter || same_kind r.kind sequence8

  -- A rule whose bits come at run time, with its inputs and the places of its bits.
  abbrev pub runtime_rule :
      CompiledRule F → Option ℕ → Option ℕ → Option ℕ × Option ℕ → Array ℕ → CompiledRule F
  runtime_rule rule v t override positions = record rule {
    runtime_value_index = v;
    runtime_table_index = t;
    override_active_index = override.0;
    override_value_index = override.1;
    dynamic_bit_count = rule.source.bit_length;
    dynamic_bit_positions = positions;
  }

  -- The end of compileRule, for a rule whose bits come at run time.
  unfoldable pub compile_runtime :
      Option (Array (ValueEntry F))
      → Option (Bool × Array (TableEntry F))
      → CompiledRule F
      → Option (CompiledRule F)
  unfolding build_dynamic_bit_positions
  compile_runtime values tables rule =
      let r = rule.source in
      do
        v ← value_index values r.value_source
        t ← table_index tables r.lookup_table
        override ← override_indices values r.override_active_source r.override_value_source
        positions ← build_dynamic_bit_positions r.start_bit r.bit_length r.little_endian
        some (runtime_rule rule v t override positions)

  -- compileRule after the selector.
  unfoldable pub compile_bits :
      Option (Array (ValueEntry F))
      → Option (Bool × Array (TableEntry F))
      → CompiledRule F
      → Option (CompiledRule F)
  unfolding compile_runtime build_bit_mask_and_value
  compile_bits values tables rule =
      let r = rule.source in
      if same_kind r.kind raw_mask
      then some (with_bits rule (record { mask = r.mask; value = r.value }))
      else if same_kind r.kind checksum_xor || same_kind r.kind checksum_crc8_autosar
      then some rule
      else do
        bits ←
            build_bit_mask_and_value r.start_bit r.bit_length r.little_endian
              (if runtime_bits r then 0 else r.replace_value)
        if runtime_bits r
            then compile_runtime values tables (with_bits rule bits)
            else some (with_bits rule bits)

  -- `none` is a return of false, after which no caller looks at the rule.
  unfoldable pub compile_rule :
      Option (Array (ValueEntry F))
      → Option (Bool × Array (TableEntry F))
      → StagedRule F
      → ℕ
      → Option (CompiledRule F)
  unfolding compile_bits
  compile_rule values tables staged priority = do
    selector ← value_index values staged.request.selector_source
    compile_bits values tables (blank_rule staged priority selector)
