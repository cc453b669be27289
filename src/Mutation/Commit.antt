-- ===== src/Mutation/Commit.antt =====
-- MutationEngine::applyCommit and the calls that end with it (core/mutation_engine.cpp). A commit
-- compiles the staged rules into the inactive table, publishes their runtime state and swaps.
use signal_scope_api.Base.{
  reversed_onto, ℕ, zero, suc, ◌+◌, Bool, true, false, not, ◌||◌, ltb, leb, ◌==◌, if◌then◌else◌,
  Option, none, some, List, [], ◌∷◌, length, Array, store,
}
use signal_scope_api.Frame.{Direction, u16}
use signal_scope_api.Mutation.{
  RuleKind, bit_range, raw_mask, counter, checksum_xor, sequence8, checksum_crc8_autosar,
  RuleStageRequest, StagedRule, RuntimeRuleState, CompiledRule, RuleGroup, ActiveRuleTable,
  ValueEntry, TableEntry, MutationEngine, RuleFloats, same_kind, empty_request, empty_staged,
  max_rules,
}
use signal_scope_api.Mutation.Table.{clear_active_table, ensure_group, compile_rule}
use signal_scope_api.Mutation.Staging.{stage_rule, clear_staging, advance_rule_epoch}

-- The next step of a computation on a state that stops at the first return of false, with the
-- state as it is then.
abbrev pub and_then {ℓ} : {A : Type ℓ} → Bool × A → (A → Bool × A) → Bool × A
and_then (true, a) f = f a
and_then (false, a) f = (false, a)

-- kCompileOrder
abbrev pub compile_order : List RuleKind
compile_order =
    bit_range ∷ raw_mask ∷ counter ∷ sequence8 ∷ checksum_xor ∷ checksum_crc8_autosar ∷ []

-- A table that is being filled: the index of each group's next rule, and the next priority.
pub record Filling (F : Type 0) : Type 0 where
  pub table : ActiveRuleTable F
  pub write_cursor : Array ℕ
  pub priority : ℕ

module _ {F : Type 0} where
  -- The slots in order, the last first: a slot goes before the first from the end whose sequence is
  -- not above its own.
  unfoldable pub insert_slot : Array (StagedRule F) → ℕ → List ℕ → List ℕ
  insert_slot staged slot [] = slot ∷ []
  insert_slot staged slot (x ∷ xs) =
      let rest = insert_slot staged slot xs in
      if ltb (staged slot).sequence (staged x).sequence then x ∷ rest else slot ∷ x ∷ xs

  -- The loop over the slots: `left` of them from `slot` on.
  unfoldable pub order_slots : Array (StagedRule F) → ℕ → ℕ → List ℕ → List ℕ
  unfolding insert_slot
  order_slots staged zero slot ordered = ordered
  order_slots staged (suc left) slot ordered =
      order_slots staged left (slot + 1)
        (if (staged slot).in_use then insert_slot staged slot ordered else ordered)

  -- `ordered_rule_ids` of applyCommit and of listStagedRules
  unfoldable pub ordered_rule_ids : Array (StagedRule F) → List ℕ
  unfolding order_slots
  ordered_rule_ids staged = reversed_onto (order_slots staged max_rules 0 []) []

  abbrev with_group : (RuleGroup → RuleGroup) → ℕ → ActiveRuleTable F → ActiveRuleTable F
  with_group f i t = record t { groups = store t.groups i (f (t.groups i)) }

  abbrev count_rule : ℕ → ActiveRuleTable F → ActiveRuleTable F
  count_rule = with_group (λ g. record g { rule_count = u16 (g.rule_count + 1) })

  -- The groups of the rules, and how many rules each has.
  unfoldable pub count_groups :
      Array (StagedRule F) → List ℕ → ActiveRuleTable F → Bool × ActiveRuleTable F
  unfolding ensure_group
  count_groups staged [] t = (true, t)
  count_groups staged (slot ∷ slots) t =
      let request = (staged slot).request in
      elim (ensure_group t request.can_id request.direction) [
        | none ↦ (false, t)
        | some (i, grouped) ↦ count_groups staged slots (count_rule i grouped)
      ]

  -- The ranges of the groups: `left` groups from `i` on, the first of them at `start`.
  unfoldable pub lay_out : ℕ → ℕ → ℕ → ActiveRuleTable F → ActiveRuleTable F
  lay_out zero i start t = t
  lay_out (suc left) i start t =
      lay_out left (i + 1) (u16 (start + (t.groups i).rule_count))
        (with_group (λ g. record g { first_rule = start; rule_count = 0 }) i t)

  abbrev write_rule : CompiledRule F → ℕ → Filling F → Filling F
  write_rule compiled group w =
      let at_index = w.write_cursor group in
      record {
        table = count_rule group (record w.table { rules = store w.table.rules at_index compiled });
        write_cursor = store w.write_cursor group (u16 (at_index + 1));
        priority = u16 (w.priority + 1);
      }

  module _ (values : Option (Array (ValueEntry F))) (tables : Option (Bool × Array (TableEntry F)))
      (staged : Array (StagedRule F)) where
    -- One rule of the compile loop.
    unfoldable pub place_rule : ℕ → Filling F → Bool × Filling F
    unfolding ensure_group compile_rule
    place_rule slot w =
        let request = (staged slot).request in
        elim (ensure_group w.table request.can_id request.direction) [
          | none ↦ (false, w)
          | some (group, t) ↦
              let grouped = record w { table = t } in
              if leb max_rules (w.write_cursor group)
              then (false, grouped)
              else elim (compile_rule values tables (staged slot) w.priority) [
                | none ↦ (false, grouped)
                | some compiled ↦ (true, write_rule compiled group grouped)
              ]
        ]

    -- The loop over the rules of one kind.
    unfoldable pub compile_kind : RuleKind → List ℕ → Filling F → Bool × Filling F
    unfolding place_rule
    compile_kind kind [] w = (true, w)
    compile_kind kind (slot ∷ slots) w =
        and_then
          (if not (same_kind (staged slot).request.kind kind) then (true, w) else place_rule slot w)
          (compile_kind kind slots)

    -- The loop over a list of kinds.
    unfoldable pub compile_kinds : List RuleKind → List ℕ → Filling F → Bool × Filling F
    unfolding compile_kind
    compile_kinds [] slots w = (true, w)
    compile_kinds (kind ∷ kinds) slots w =
        and_then (compile_kind kind slots w) (compile_kinds kinds slots)

    -- The start of the compile loop: the ranges are known, and no group has a rule.
    abbrev empty_filling : ActiveRuleTable F → Filling F
    empty_filling t =
        let laid = lay_out t.group_count 0 0 t in
        record { table = laid; write_cursor = λ i. (laid.groups i).first_rule; priority = 0 }

    abbrev filled : Bool × Filling F → Bool × ActiveRuleTable F
    filled (true, w) = (true, record (w.table) { rule_count = w.priority })
    filled (false, w) = (false, w.table)

    -- The fallible part of a commit, on a cleared table.
    unfoldable pub compile_table : List ℕ → ActiveRuleTable F → Bool × ActiveRuleTable F
    unfolding count_groups lay_out compile_kinds
    compile_table slots t =
        and_then (count_groups staged slots t)
          (λ counted. filled (compile_kinds compile_order slots (empty_filling counted)))

  -- The runtime state that a commit leaves for a slot.
  abbrev pub published : StagedRule F → RuntimeRuleState → RuntimeRuleState
  published r state =
      if not r.in_use
      then record { current_value = 0; enabled = false }
      else if r.publish_runtime_on_commit
      then record { current_value = r.pending_runtime_value; enabled = r.pending_enabled }
      else state

  abbrev pub after_publication : StagedRule F → StagedRule F
  after_publication r =
      if not r.in_use
      then r
      else if r.publish_runtime_on_commit
      then record r { publish_runtime_on_commit = false }
      else r

  abbrev pub element : StagedRule F → Array (StagedRule F) → List ℕ → ℕ → StagedRule F
  element absent staged [] i = absent
  element absent staged (x ∷ xs) zero = staged x
  element absent staged (x ∷ xs) (suc i) = element absent staged xs i

  abbrev pub inactive_index : MutationEngine F → ℕ
  inactive_index e = if e.active_table_index == 0 then 1 else 0

module _ (floats : RuleFloats) where
  abbrev Engine : Type 0
  Engine = MutationEngine floats.codec.F32

  -- The end of a commit whose rules are compiled to `t`.
  unfoldable pub publish : ActiveRuleTable floats.codec.F32 → List ℕ → Engine → Engine
  unfolding advance_rule_epoch
  publish t slots e =
      let staged = λ (i : ℕ). after_publication (e.staged i) in
      advance_rule_epoch (record e {
        staged = staged;
        runtime_state = λ i. published (e.staged i) (e.runtime_state i);
        committed_shadow = element (empty_staged floats) staged slots;
        committed_count = length slots;
        tables = store e.tables (inactive_index e) t;
        active_table_index = inactive_index e;
        active_table = some (inactive_index e);
        active_count = t.rule_count;
        staging_dirty = false;
        mutation_reads_enabled = true;
      })

  -- A commit that fails leaves what it has done so far in the inactive table.
  abbrev pub finish_commit :
      List ℕ → Engine → Bool × ActiveRuleTable floats.codec.F32 → Bool × Engine
  finish_commit slots e (true, t) = (true, publish t slots e)
  finish_commit slots e (false, t) =
      (false, record e { tables = store e.tables (inactive_index e) t })

  unfoldable pub apply_commit : Engine → Bool × Engine
  unfolding ordered_rule_ids compile_table clear_active_table publish
  apply_commit e =
      let slots = ordered_rule_ids e.staged in
      let cleared = clear_active_table (e.tables (inactive_index e)) in
      if not e.staged_set || not e.shadow_set || not (e.table_set (inactive_index e))
      then (false, e)
      else finish_commit slots e
          (compile_table e.runtime_values e.runtime_tables e.staged slots cleared)

  unfoldable pub clear_rules : Engine → Engine
  unfolding clear_staging apply_commit
  clear_rules e = (apply_commit (clear_staging floats e)).1

  -- The request of registerDynamicSignalRule.
  abbrev dynamic_request :
      ℕ → Direction → ℕ → ℕ → Bool → ℕ → Bool → RuleStageRequest floats.codec.F32
  dynamic_request can_id direction start_bit bit_length little_endian initial_value enabled =
      record (empty_request floats) {
        kind = bit_range;
        can_id = can_id;
        direction = direction;
        enabled = enabled;
        start_bit = start_bit;
        bit_length = bit_length;
        little_endian = little_endian;
        dynamic_value = true;
        replace_value = initial_value;
      }

  abbrev commit_slot : Option ℕ × Engine → Option ℕ × Engine
  commit_slot (none, e) = (none, e)
  commit_slot (some slot, e) =
      let (done, committed) = apply_commit e in (if done then some slot else none, committed)

  -- `none` for -1.
  unfoldable pub register_dynamic_signal_rule :
      ℕ → Direction → ℕ → ℕ → Bool → ℕ → Bool → Engine → Option ℕ × Engine
  unfolding stage_rule apply_commit
  register_dynamic_signal_rule can_id direction start_bit bit_length little_endian initial_value
        enabled e =
      commit_slot (
        stage_rule
          (dynamic_request can_id direction start_bit bit_length little_endian initial_value
            enabled)
          e)
