-- ===== src/Mutation/Failure.antt =====
-- A commit of MutationEngine that fails (core/mutation_engine.cpp, applyCommit) works on the
-- inactive table only, so that no frame is treated otherwise than before.
use signal_scope_api.Base.{
  ℕ, zero, suc, ◌+◌, ◌≡◌, refl, sym, ap, ◌∙◌, Bool, true, false, not, ◌||◌, arith, leb, ◌==◌,
  if◌then◌else◌, if_false, if_keeps, Option, none, some, List, Array, store,
}
use signal_scope_api.Frame.{CanFrame, Direction}
use signal_scope_api.Mutation.{
  CompiledRule, ActiveRuleTable, RuleGroup, MutationEngine, RuleFloats, max_rules,
}
use signal_scope_api.Mutation.Commit.{apply_commit, finish_commit, inactive_index}
use signal_scope_api.Mutation.Dispatch.{
  apply_rule, selector_allows, apply_counter_rule, apply_sequence_rule, apply_dynamic_rule,
  dynamic_output,
}
use signal_scope_api.Mutation.Frames.{
  Mutated, active_rules, group_of, group_in, group_enabled, has_rules_for_frame, visit_rule,
  visit_rules, visit_group, work_rule, apply_frame_mutations, begin_mutation_read,
}

module _ {ℓ κ} {A : Type ℓ} {B : Type κ} where
  if_map : (f : A → B) (b : Bool) (x y : A) → f (if b then x else y) ≡ (if b then f x else f y)
  if_map f true x y = refl
  if_map f false x y = refl

-- The pointer to the active table and its index agree.
abbrev pub InStep : {F : Type 0} → MutationEngine F → Type 0
InStep e = e.active_table ≡ some e.active_table_index

module _ (floats : RuleFloats) where
  abbrev F : Type 0
  F = floats.codec.F32

  -- The engine with other tables.
  abbrev with_tables : Array (ActiveRuleTable F) → MutationEngine F → MutationEngine F
  with_tables tables e = record e { tables = tables }

  abbrev retable : Array (ActiveRuleTable F) → Mutated F → Mutated F
  retable tables m = record m { engine = with_tables tables m.engine }

  -- A rule that is applied does not look at the tables.
  work_rule-retable :
      (tables : Array (ActiveRuleTable F)) (rule : CompiledRule F) (m : Mutated F)
      → work_rule floats rule (retable tables m) ≡ retable tables (work_rule floats rule m)
  unfolding work_rule apply_rule apply_counter_rule apply_sequence_rule apply_dynamic_rule
      selector_allows dynamic_output
  work_rule-retable tables rule m = refl

  visit_rule-retable :
      (tables : Array (ActiveRuleTable F)) (rule : CompiledRule F) (m : Mutated F)
      → visit_rule floats rule (retable tables m) ≡ retable tables (visit_rule floats rule m)
  unfolding visit_rule selector_allows
  visit_rule-retable tables rule m =
      let far = leb max_rules rule.rule_id in
      let off = not (m.engine.runtime_state rule.rule_id).enabled in
      let barred = not (selector_allows floats m.engine rule).0 in
      let done = work_rule floats rule m in
      ap
        (λ w.
          if far
          then retable tables m
          else if off
          then retable tables m
          else if barred
          then retable tables m
          else w)
        (work_rule-retable tables rule m)
      ∙ ap (λ w. if far then retable tables m else if off then retable tables m else w)
          (sym (if_map (retable tables) barred m done))
      ∙ ap (λ w. if far then retable tables m else w)
          (sym (if_map (retable tables) off m (if barred then m else done)))
      ∙ sym (if_map (retable tables) far m (if off then m else if barred then m else done))

  visit_rules-retable :
      (tables : Array (ActiveRuleTable F)) (rules : Array (CompiledRule F)) (left i : ℕ)
      (m : Mutated F)
      → visit_rules floats rules left i (retable tables m)
        ≡ retable tables (visit_rules floats rules left i m)
  unfolding visit_rules
  visit_rules-retable tables rules zero i m = refl
  visit_rules-retable tables rules (suc left) i m =
      ap (visit_rules floats rules left (i + 1)) (visit_rule-retable tables (rules i) m)
      ∙ visit_rules-retable tables rules left (i + 1) (visit_rule floats (rules i) m)

  visit_group-retable :
      (tables : Array (ActiveRuleTable F)) (g : Option (ActiveRuleTable F × RuleGroup))
      (m : Mutated F)
      → visit_group floats g (retable tables m) ≡ retable tables (visit_group floats g m)
  visit_group-retable tables none m = refl
  visit_group-retable tables (some (t, g)) m =
      visit_rules-retable tables t.rules g.rule_count g.first_rule m

  -- The engine goes on as before: all but its tables is as it was, every frame comes out with the
  -- same bytes, and hasRulesForFrame answers the same.
  pub record Unnoticed (e next : MutationEngine F) : Type 0 where
    pub rest : next ≡ with_tables next.tables e
    pub frames :
        (frame : CanFrame)
        → (apply_frame_mutations floats frame next).frame
          ≡ (apply_frame_mutations floats frame e).frame
    pub rules :
        (can_id : ℕ) (direction : Direction)
        → has_rules_for_frame can_id direction next ≡ has_rules_for_frame can_id direction e

  elsewhere : (i : ℕ) → (i == (if i == 0 then 1 else 0)) ≡ false
  elsewhere i = ground arith

  active_rules-store :
      (e : MutationEngine F) (t : ActiveRuleTable F)
      → InStep e
      → active_rules (with_tables (store e.tables (inactive_index e) t) e) ≡ active_rules e
  unfolding active_rules
  active_rules-store e t h =
      let stored = store e.tables (inactive_index e) t in
      ap
        (λ (o : Option ℕ). elim o as (λ x. Option (ActiveRuleTable F)) [
          | none ↦ none
          | some i ↦ some (stored i)
        ])
        h
      ∙ ap some (
          if_false (e.active_table_index == inactive_index e) t (e.tables e.active_table_index)
            (elsewhere e.active_table_index))
      ∙ sym (
          ap
            (λ (o : Option ℕ). elim o as (λ x. Option (ActiveRuleTable F)) [
              | none ↦ none
              | some i ↦ some (e.tables i)
            ])
            h)

  -- A write to the inactive table.
  store-Unnoticed :
      (e : MutationEngine F) (t : ActiveRuleTable F)
      → InStep e
      → Unnoticed e (with_tables (store e.tables (inactive_index e) t) e)
  unfolding apply_frame_mutations has_rules_for_frame group_of
  store-Unnoticed e t h =
      let stored = store e.tables (inactive_index e) t in
      let same = active_rules-store e t h in
      record {
        rest = refl;
        frames = λ frame.
            let begun : Mutated F = record { applied = 0; frame = frame; engine = e } in
            ap
              (λ g.
                (if not (begin_mutation_read e)
                  then retable stored begun
                  else visit_group floats (group_in frame.id frame.direction g)
                      (retable stored begun)).frame)
              same
            ∙ ap
                (λ (m : Mutated F).
                  (if not (begin_mutation_read e) then retable stored begun else m).frame)
                (visit_group-retable stored (group_of e frame.id frame.direction) begun)
            ∙ ap (λ (m : Mutated F). m.frame)
                (sym (
                  if_map (retable stored) (not (begin_mutation_read e)) begun
                    (visit_group floats (group_of e frame.id frame.direction) begun)));
        rules = λ can_id direction.
            ap
              (λ g.
                if not (begin_mutation_read e)
                then false
                else group_enabled e (group_in can_id direction g))
              same;
      }

  finish_commit-Unnoticed :
      (slots : List ℕ) (e : MutationEngine F) (r : Bool × ActiveRuleTable F)
      → InStep e
      → (finish_commit floats slots e r).0 ≡ false
      → Unnoticed e (finish_commit floats slots e r).1
  finish_commit-Unnoticed slots e (true, t) h failed = absurd (ground arith)
  finish_commit-Unnoticed slots e (false, t) h failed = store-Unnoticed e t h

  same-Unnoticed : (e : MutationEngine F) → Unnoticed e e
  same-Unnoticed e = record { rest = refl; frames = λ f. refl; rules = λ i d. refl }

  -- A commit that returns false leaves the traffic alone, wherever it failed: the frames that come
  -- after it get the bytes they would have got without it, and the staged rules, the runtime state,
  -- the shadow of the last commit and the epoch are as before. The condition is that the pointer to
  -- the active table and its index agree.
  pub apply_commit-Unnoticed :
      (e : MutationEngine F)
      → InStep e
      → (apply_commit floats e).0 ≡ false
      → Unnoticed e (apply_commit floats e).1
  unfolding apply_commit
  apply_commit-Unnoticed e h =
      if_keeps (λ (r : Bool × MutationEngine F). r.0 ≡ false → Unnoticed e r.1)
        (not e.staged_set || not e.shadow_set || not (e.table_set (inactive_index e)))
        (λ failed. same-Unnoticed e) (finish_commit-Unnoticed _ e _ h)
