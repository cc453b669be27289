-- ===== src/Mutation/Staging.antt =====
-- The candidate rules of MutationEngine (core/mutation_engine.cpp): init, and the calls that stage,
-- discard and restore rules.
use signal_scope_api.Base.{
  first_index, ℕ, zero, suc, ◌+◌, Bool, true, false, not, ◌||◌, leb, ◌==◌, if◌then◌else◌, Option,
  none, some, Array, store, bit_and,
}
use signal_scope_api.Frame.{Direction, pass_through, replace, u16, u32}
use signal_scope_api.Codec.Physical.{SignalMutation}
use signal_scope_api.Mutation.{
  RuleStageRequest, StagedRule, ValueEntry, TableEntry, MutationEngine, RuleFloats, empty_request,
  empty_staged, bit_range, max_rules,
}
use signal_scope_api.Mutation.Rules.{
  convert_physical_to_raw, normalize_rule, initial_runtime_value, same_identity,
}
use signal_scope_api.Mutation.Table.{clear_active_table}

-- The value that allocateSequence returns, and `next_sequence_` after it.
unfoldable pub allocate_sequence : ℕ → ℕ × ℕ
allocate_sequence next_sequence =
    let next = u32 (next_sequence + 1) in
    (bit_and next_sequence 0xFFFF, if next == 0 then 1 else next)

module _ {F : Type 0} where
  unfoldable pub set_runtime_value_registry :
      Option (Array (ValueEntry F)) → MutationEngine F → MutationEngine F
  set_runtime_value_registry registry e = record e { runtime_values = registry }

  unfoldable pub set_runtime_table_registry :
      Option (Bool × Array (TableEntry F)) → MutationEngine F → MutationEngine F
  set_runtime_table_registry registry e = record e { runtime_tables = registry }

  unfoldable pub advance_rule_epoch : MutationEngine F → MutationEngine F
  advance_rule_epoch e =
      let next_epoch = u32 (e.rule_epoch + 1) in
      record e { rule_epoch = if next_epoch == 0 then 1 else next_epoch }

  -- The slot of the first rule with the identity of the request.
  unfoldable pub find_staged_identity : Array (StagedRule F) → ℕ → RuleStageRequest F → Option ℕ
  unfolding first_index same_identity
  find_staged_identity staged count request =
      first_index (λ i. same_identity request (staged i)) count 0

  unfoldable pub allocate_rule_slot : Array (StagedRule F) → Option ℕ
  unfolding first_index
  allocate_rule_slot staged = first_index (λ i. not (staged i).in_use) max_rules 0

  -- What a slot holds after a request was staged in it.
  abbrev pub fill_slot : RuleStageRequest F → StagedRule F → StagedRule F
  fill_slot request r = record r {
    request = request;
    pending_runtime_value = initial_runtime_value request;
    pending_enabled = request.enabled;
    publish_runtime_on_commit = true;
  }

  abbrev pub restage_slot : RuleStageRequest F → ℕ → MutationEngine F → MutationEngine F
  restage_slot request slot e = record e {
    staged = store e.staged slot (fill_slot request (e.staged slot));
    staging_dirty = true;
  }

  -- A slot that was free gets its identity first.
  abbrev pub open_slot : ℕ → MutationEngine F → MutationEngine F
  open_slot slot e =
      let (sequence, next) = allocate_sequence e.next_sequence in
      let opened = record (e.staged slot) { in_use = true; rule_id = slot; sequence = sequence } in
      record e {
        staged = store e.staged slot opened;
        staged_count = u16 (e.staged_count + 1);
        next_sequence = next;
      }

  -- The end of stageRule: in a slot that was free, if there is one, and in the slot of the rule
  -- that the request replaces.
  abbrev pub stage_free :
      RuleStageRequest F → MutationEngine F → Option ℕ → Option ℕ × MutationEngine F
  stage_free request e none = (none, e)
  stage_free request e (some slot) =
      (some slot, restage_slot request slot (open_slot slot (advance_rule_epoch e)))

  abbrev pub stage_found :
      RuleStageRequest F → MutationEngine F → Option ℕ → Option ℕ × MutationEngine F
  stage_found request e none = stage_free request e (allocate_rule_slot e.staged)
  stage_found request e (some slot) = (some slot, restage_slot request slot (advance_rule_epoch e))

  -- The rule's slot, or `none` for a return of false.
  unfoldable pub stage_rule : RuleStageRequest F → MutationEngine F → Option ℕ × MutationEngine F
  unfolding find_staged_identity allocate_rule_slot advance_rule_epoch normalize_rule
      allocate_sequence initial_runtime_value
  stage_rule request e =
      if not e.staged_set || not e.shadow_set
      then (none, e)
      else if not (normalize_rule request)
      then (none, e)
      else stage_found request e (find_staged_identity e.staged max_rules request)

module _ (floats : RuleFloats) where
  abbrev F : Type 0
  F = floats.codec.F32

  -- The members of an engine before init.
  unfoldable pub new_engine : MutationEngine F
  new_engine = record {
    staged_set = false;
    shadow_set = false;
    table_set = λ i. false;
    staged = λ i. empty_staged floats;
    staged_count = 0;
    staging_dirty = false;
    committed_shadow = λ i. empty_staged floats;
    committed_count = 0;
    runtime_state = λ i. record { current_value = 0; enabled = false };
    tables = λ i. record {
      rule_count = 0;
      group_count = 0;
      rules = λ k. record {
        rule_id = 0xFFFF;
        priority = 0;
        source = empty_request floats;
        clear_mask = λ b. 0xFF;
        static_set_bits = λ b. 0;
        dynamic_bit_count = 0;
        dynamic_bit_positions = λ b. 0;
        runtime_value_index = none;
        runtime_table_index = none;
        override_active_index = none;
        override_value_index = none;
        selector_index = none;
      };
      groups = λ k. record {
        can_id = 0;
        direction = Direction.a_to_b;
        first_rule = 0;
        rule_count = 0;
        next = none;
      };
      bucket_head = λ b. none;
    };
    active_table = none;
    active_table_index = 0;
    active_count = 0;
    rule_epoch = 1;
    mutation_reads_enabled = false;
    runtime_values = none;
    runtime_tables = none;
    next_sequence = 1;
  }

  -- Whether the allocations for `staged_`, `committed_shadow_` and the two tables succeed.
  unfoldable pub init : Bool → Bool → Array Bool → MutationEngine F → MutationEngine F
  unfolding clear_active_table
  init staged shadow tables e =
      let staged_set = e.staged_set || staged in
      let shadow_set = e.shadow_set || shadow in
      let table_set = λ (i : ℕ). e.table_set i || tables i in
      let held = record e {
        staged_set = staged_set;
        shadow_set = shadow_set;
        table_set = table_set;
      } in
      if not staged_set || not shadow_set || not (table_set 0) || not (table_set 1)
      then record held { active_table = none }
      else record held {
        staged_count = 0;
        staging_dirty = false;
        committed_count = 0;
        next_sequence = 1;
        staged = λ i. empty_staged floats;
        committed_shadow = λ i. empty_staged floats;
        runtime_state = λ i. record { current_value = 0; enabled = false };
        tables = λ i. clear_active_table (e.tables i);
        active_table_index = 0;
        active_table = some 0;
        active_count = 0;
        rule_epoch = 1;
        mutation_reads_enabled = true;
      }

  -- The request of stageMutation, or `none` for an operation it rejects.
  unfoldable pub mutation_request : SignalMutation F → Option (RuleStageRequest F)
  unfolding convert_physical_to_raw
  mutation_request m =
      let request = record (empty_request floats) {
        kind = bit_range;
        can_id = m.can_id;
        direction = m.direction;
        start_bit = m.layout.start_bit;
        bit_length = m.layout.length;
        little_endian = m.layout.little_endian;
        dynamic_value = false;
        enabled = m.enabled;
      } in
      elim (m.operation) [
        | replace ↦
            some (record request {
              replace_value = convert_physical_to_raw floats.codec m m.op_value1;
            })
        | pass_through ↦ some (record request { replace_value = 0; enabled = false })
        | _ ↦ none
      ]

  unfoldable pub stage_mutation : SignalMutation F → MutationEngine F → Bool × MutationEngine F
  unfolding mutation_request stage_rule
  stage_mutation m e = elim (mutation_request m) [
    | none ↦ (false, e)
    | some request ↦
        let (slot, staged) = stage_rule request e in
        (elim slot [ none ↦ false | some i ↦ true ], staged)
  ]

  unfoldable pub clear_staging : MutationEngine F → MutationEngine F
  unfolding advance_rule_epoch
  clear_staging e =
      let advanced = advance_rule_epoch e in
      let dirty = not (e.active_count == 0) in
      if not e.staged_set
      then record advanced { staged_count = 0; staging_dirty = dirty }
      else record advanced {
        staged = λ i. empty_staged floats;
        staged_count = 0;
        staging_dirty = dirty;
      }

  -- The loop of revertStagingToActive: `left` rules of the shadow from `i` on.
  unfoldable pub restore_rules : ℕ → ℕ → MutationEngine F → MutationEngine F
  restore_rules zero i e = e
  restore_rules (suc left) i e =
      let src = e.committed_shadow i in
      let restored = record e {
        staged = store e.staged src.rule_id src;
        staged_count = u16 (e.staged_count + 1);
      } in
      restore_rules left (i + 1)
        (if not src.in_use || leb max_rules src.rule_id then e else restored)

  unfoldable pub revert_staging_to_active : MutationEngine F → MutationEngine F
  unfolding clear_staging restore_rules
  revert_staging_to_active e =
      let restored = restore_rules e.committed_count 0 (clear_staging e) in
      record restored { staging_dirty = false }
