-- ===== src/Mutation/Frames.antt =====
-- hasRulesForFrame and applyFrameMutations (core/mutation_engine.cpp): the rules of the group of a
-- frame, in the order of the active table.
use signal_scope_api.Base.{
  ℕ, zero, suc, ◌+◌, Bool, true, false, not, ◌&&◌, ltb, leb, ◌==◌, if◌then◌else◌, Option, none,
  some, Array, store,
}
use signal_scope_api.Frame.{CanFrame, Direction}
use signal_scope_api.Mutation.{
  RuntimeRuleState, CompiledRule, ActiveRuleTable, RuleGroup, MutationEngine, RuleFloats, max_rules,
}
use signal_scope_api.Mutation.Table.{find_group}
use signal_scope_api.Mutation.Apply.{RuleWork}
use signal_scope_api.Mutation.Dispatch.{selector_allows, apply_rule}

module _ {F : Type 0} where
  -- beginMutationRead where no commit is under way; the interleavings are in `Mutation.Gate`.
  abbrev pub begin_mutation_read : MutationEngine F → Bool
  begin_mutation_read e = e.mutation_reads_enabled

  unfoldable pub active_rules : MutationEngine F → Option (ActiveRuleTable F)
  active_rules e = elim (e.active_table) [ none ↦ none | some i ↦ some (e.tables i) ]

  -- The group of a frame, where the table has rules and the group has some.
  abbrev pub group_in :
      ℕ → Direction → Option (ActiveRuleTable F) → Option (ActiveRuleTable F × RuleGroup)
  group_in can_id direction none = none
  group_in can_id direction (some t) =
      if t.rule_count == 0 then none else elim (find_group t can_id direction) [
        | none ↦ none
        | some g ↦ if (t.groups g).rule_count == 0 then none else some (t, t.groups g)
      ]

  unfoldable pub group_of :
      MutationEngine F → ℕ → Direction → Option (ActiveRuleTable F × RuleGroup)
  unfolding active_rules find_group
  group_of e can_id direction = group_in can_id direction (active_rules e)

  -- The loop of hasRulesForFrame: `left` rules from `i` on.
  unfoldable pub any_enabled : Array (CompiledRule F) → Array RuntimeRuleState → ℕ → ℕ → Bool
  any_enabled rules state zero i = false
  any_enabled rules state (suc left) i =
      let rest = any_enabled rules state left (i + 1) in
      let rule_id = (rules i).rule_id in
      if ltb rule_id max_rules && (state rule_id).enabled then true else rest

  abbrev pub group_enabled : MutationEngine F → Option (ActiveRuleTable F × RuleGroup) → Bool
  group_enabled e none = false
  group_enabled e (some (t, g)) = any_enabled t.rules e.runtime_state g.rule_count g.first_rule

  unfoldable pub has_rules_for_frame : ℕ → Direction → MutationEngine F → Bool
  unfolding group_of any_enabled
  has_rules_for_frame can_id direction e =
      if not (begin_mutation_read e) then false else group_enabled e (group_of e can_id direction)

-- The state of the loop of applyFrameMutations.
pub record Mutated (F : Type 0) : Type 0 where
  pub applied : ℕ
  pub frame : CanFrame
  pub engine : MutationEngine F

module _ (floats : RuleFloats) where
  abbrev F : Type 0
  F = floats.codec.F32

  -- A rule on the frame and the value of its slot.
  unfoldable pub work_rule : CompiledRule F → Mutated F → Mutated F
  unfolding apply_rule
  work_rule rule m =
      let slot = m.engine.runtime_state rule.rule_id in
      let work : RuleWork = record { bytes = m.frame.bytes; current_value = slot.current_value } in
      let done = apply_rule floats m.engine rule work in
      let state = m.engine.runtime_state in
      record {
        applied = m.applied + 1;
        frame = record m.frame { bytes = done.bytes };
        engine = record m.engine {
          runtime_state =
              store state rule.rule_id (record slot { current_value = done.current_value });
        };
      }

  -- One round of the loop.
  unfoldable pub visit_rule : CompiledRule F → Mutated F → Mutated F
  unfolding work_rule selector_allows
  visit_rule rule m =
      if leb max_rules rule.rule_id
      then m
      else if not (m.engine.runtime_state rule.rule_id).enabled
      then m
      else if not (selector_allows floats m.engine rule).0
      then m
      else work_rule rule m

  unfoldable pub visit_rules : Array (CompiledRule F) → ℕ → ℕ → Mutated F → Mutated F
  unfolding visit_rule
  visit_rules rules zero i m = m
  visit_rules rules (suc left) i m = visit_rules rules left (i + 1) (visit_rule (rules i) m)

  abbrev pub visit_group : Option (ActiveRuleTable F × RuleGroup) → Mutated F → Mutated F
  visit_group none m = m
  visit_group (some (t, g)) m = visit_rules t.rules g.rule_count g.first_rule m

  unfoldable pub apply_frame_mutations : CanFrame → MutationEngine F → Mutated F
  unfolding group_of visit_rules
  apply_frame_mutations frame e =
      let start : Mutated F = record { applied = 0; frame = frame; engine = e } in
      if not (begin_mutation_read e)
      then start
      else visit_group (group_of e frame.id frame.direction) start
