-- ===== src/Mutation/Control.antt =====
-- The calls of MutationEngine that control a rule by its handle, a slot and an epoch, and the lists
-- of its rules (core/mutation_engine.cpp).
use signal_scope_api.Base.{
  first_index, ℕ, zero, suc, ◌+◌, Bool, true, false, not, ◌&&◌, ◌||◌, ltb, leb, ◌==◌, if◌then◌else◌,
  Option, none, some, List, [], ◌∷◌, take, Array, store,
}
use signal_scope_api.Frame.{u8}
use signal_scope_api.Mutation.{
  bit_range, counter, sequence8, RuleStageRequest, RuleListEntry, StagedRule, RuntimeRuleState,
  CompiledRule, MutationEngine, same_kind, max_rules,
}
use signal_scope_api.Mutation.Rules.{runtime_value_fits}
use signal_scope_api.Mutation.Commit.{ordered_rule_ids}
use signal_scope_api.Mutation.Frames.{begin_mutation_read, active_rules}

abbrev found {ℓ} : {A : Type ℓ} → Option A → Bool
found none = false
found (some a) = true

abbrev with_value : ℕ → RuntimeRuleState → RuntimeRuleState
with_value v state = record state { current_value = v }

abbrev with_enabled : Bool → RuntimeRuleState → RuntimeRuleState
with_enabled enabled state = record state { enabled = enabled }

module _ {F : Type 0} where
  abbrev is_staged : ℕ → MutationEngine F → Bool
  is_staged rule_id e = e.staged_set && (e.staged rule_id).in_use

  -- The first rule of the shadow with that slot, and the same for one in use.
  abbrev shadow_index : ℕ → MutationEngine F → Option ℕ
  shadow_index rule_id e =
      first_index (λ i. (e.committed_shadow i).rule_id == rule_id) e.committed_count 0

  abbrev committed_index : ℕ → MutationEngine F → Option ℕ
  committed_index rule_id e =
      first_index
        (λ i. (e.committed_shadow i).in_use && ((e.committed_shadow i).rule_id == rule_id))
        e.committed_count 0

  unfoldable pub rule_exists_for_control : ℕ → MutationEngine F → Bool
  unfolding first_index
  rule_exists_for_control rule_id e =
      if leb max_rules rule_id
      then false
      else if is_staged rule_id e
      then true
      else e.shadow_set && found (committed_index rule_id e)

  abbrev set_value : ℕ → StagedRule F → StagedRule F
  set_value v r = record r { pending_runtime_value = v }

  abbrev set_enabled : Bool → StagedRule F → StagedRule F
  set_enabled enabled r = record r {
    request = record (r.request) { enabled = enabled };
    pending_enabled = enabled;
  }

  abbrev on_staged : (StagedRule F → StagedRule F) → ℕ → MutationEngine F → MutationEngine F
  on_staged f slot e = record e { staged = store e.staged slot (f (e.staged slot)) }

  -- Every rule of the shadow with that slot; a count of the shadow's rules bounds the loop.
  abbrev on_shadow : (StagedRule F → StagedRule F) → ℕ → MutationEngine F → MutationEngine F
  on_shadow f rule_id e = record e {
    committed_shadow = λ i.
        if e.shadow_set && ltb i e.committed_count && ((e.committed_shadow i).rule_id == rule_id)
        then f (e.committed_shadow i)
        else e.committed_shadow i;
  }

  abbrev on_committed : (StagedRule F → StagedRule F) → ℕ → MutationEngine F → MutationEngine F
  on_committed f i e = record e {
    committed_shadow = store e.committed_shadow i (f (e.committed_shadow i));
  }

  abbrev on_state : (RuntimeRuleState → RuntimeRuleState) → ℕ → MutationEngine F → MutationEngine F
  on_state f rule_id e = record e {
    runtime_state = store e.runtime_state rule_id (f (e.runtime_state rule_id));
  }

  -- The request that setRuleValue checks a value against.
  abbrev controlled : ℕ → MutationEngine F → Option (RuleStageRequest F)
  controlled rule_id e =
      if is_staged rule_id e
      then some ((e.staged rule_id).request)
      else if not e.shadow_set
      then none
      else elim (shadow_index rule_id e) [
        | none ↦ none
        | some i ↦ some ((e.committed_shadow i).request)
      ]

  abbrev fits : Option (RuleStageRequest F) → ℕ → Bool
  fits none v = false
  fits (some request) v = runtime_value_fits request v

  -- A handle that the engine looks at: a slot in range, no commit under way, and the epoch of now.
  abbrev accepts : ℕ → ℕ → MutationEngine F → Bool
  accepts rule_id expected_epoch e =
      ltb rule_id max_rules && begin_mutation_read e && (expected_epoch == e.rule_epoch)

  unfoldable pub set_rule_value : ℕ → ℕ → ℕ → MutationEngine F → Bool × MutationEngine F
  unfolding rule_exists_for_control runtime_value_fits first_index
  set_rule_value rule_id v expected_epoch e =
      let staged = is_staged rule_id e in
      if not (accepts rule_id expected_epoch e) || not (rule_exists_for_control rule_id e)
      then (false, e)
      else if not (fits (controlled rule_id e) v)
      then (false, e)
      else if staged && (e.staged rule_id).publish_runtime_on_commit
      then (true, on_staged (set_value v) rule_id e)
      else let kept = if staged then on_staged (set_value v) rule_id e else e in
        (true, on_state (with_value v) rule_id (on_shadow (set_value v) rule_id kept))

  unfoldable pub enable_rule : ℕ → Bool → ℕ → MutationEngine F → Bool × MutationEngine F
  unfolding rule_exists_for_control
  enable_rule rule_id enabled expected_epoch e =
      let staged = is_staged rule_id e in
      let kept = if staged then on_staged (set_enabled enabled) rule_id e else e in
      if not (accepts rule_id expected_epoch e) || not (rule_exists_for_control rule_id e)
      then (false, e)
      else if staged && (e.staged rule_id).publish_runtime_on_commit
      then (true, kept)
      else (
        true,
        on_state (with_enabled enabled) rule_id (on_shadow (set_enabled enabled) rule_id kept),
      )

  -- The end of setActiveRuleValue and of setActiveRuleEnabled, for rule `i` of the shadow.
  abbrev set_active :
      (StagedRule F → StagedRule F)
      → (RuntimeRuleState → RuntimeRuleState)
      → ℕ
      → ℕ
      → MutationEngine F
      → MutationEngine F
  set_active f g rule_id i e =
      let committed = on_committed f i e in
      on_state g rule_id (
        if is_staged rule_id e && not (e.staged rule_id).publish_runtime_on_commit
        then on_staged f rule_id committed
        else committed)

  unfoldable pub set_active_rule_value : ℕ → ℕ → ℕ → MutationEngine F → Bool × MutationEngine F
  unfolding runtime_value_fits first_index
  set_active_rule_value rule_id v expected_epoch e =
      if not (accepts rule_id expected_epoch e) || not e.shadow_set
      then (false, e)
      else elim (committed_index rule_id e) [
        | none ↦ (false, e)
        | some i ↦
            if not (runtime_value_fits (e.committed_shadow i).request v)
            then (false, e)
            else (true, set_active (set_value v) (with_value v) rule_id i e)
      ]

  unfoldable pub set_active_rule_enabled : ℕ → Bool → ℕ → MutationEngine F → Bool × MutationEngine F
  unfolding first_index
  set_active_rule_enabled rule_id enabled expected_epoch e =
      if not (accepts rule_id expected_epoch e) || not e.shadow_set
      then (false, e)
      else elim (committed_index rule_id e) [
        | none ↦ (false, e)
        | some i ↦ (true, set_active (set_enabled enabled) (with_enabled enabled) rule_id i e)
      ]

  -- The end of setStagedRuleValue and of setStagedRuleEnabled.
  abbrev set_staged : (StagedRule F → StagedRule F) → ℕ → MutationEngine F → MutationEngine F
  set_staged f rule_id e =
      record (on_staged (λ r. record (f r) { publish_runtime_on_commit = true }) rule_id e) {
        staging_dirty = true;
      }

  unfoldable pub set_staged_rule_value : ℕ → ℕ → ℕ → MutationEngine F → Bool × MutationEngine F
  unfolding runtime_value_fits
  set_staged_rule_value rule_id v expected_epoch e =
      if not (accepts rule_id expected_epoch e) || not (is_staged rule_id e)
      then (false, e)
      else if not (runtime_value_fits (e.staged rule_id).request v)
      then (false, e)
      else (true, set_staged (set_value v) rule_id e)

  unfoldable pub set_staged_rule_enabled : ℕ → Bool → ℕ → MutationEngine F → Bool × MutationEngine F
  set_staged_rule_enabled rule_id enabled expected_epoch e =
      if not (accepts rule_id expected_epoch e) || not (is_staged rule_id e)
      then (false, e)
      else (true, set_staged (set_enabled enabled) rule_id e)

  -- A request with the runtime value in the field that shows it.
  abbrev with_runtime_value : ℕ → RuleStageRequest F → RuleStageRequest F
  with_runtime_value v r =
      if same_kind r.kind bit_range && r.dynamic_value
      then record r { replace_value = v }
      else if same_kind r.kind counter
      then record r { counter_initial = v }
      else if same_kind r.kind sequence8
      then record r { sequence_initial_index = u8 v }
      else r

  abbrev listed : MutationEngine F → CompiledRule F → RuleListEntry F
  listed e src = record {
    rule_id = src.rule_id;
    priority = src.priority;
    epoch = e.rule_epoch;
    request = with_runtime_value (e.runtime_state src.rule_id).current_value src.source;
    active = (e.runtime_state src.rule_id).enabled;
  }

  -- The first `left` rules of a table, from `i` on.
  abbrev listed_from : MutationEngine F → Array (CompiledRule F) → ℕ → ℕ → List (RuleListEntry F)
  listed_from e rules zero i = []
  listed_from e rules (suc left) i = listed e (rules i) ∷ listed_from e rules left (i + 1)

  -- A null array of entries is left out.
  unfoldable pub list_rules : ℕ → MutationEngine F → List (RuleListEntry F)
  unfolding active_rules
  list_rules capacity e =
      if (capacity == 0) || not (begin_mutation_read e) then [] else elim (active_rules e) [
        | none ↦ []
        | some t ↦
            listed_from e t.rules (if ltb t.rule_count capacity then t.rule_count else capacity) 0
      ]

  abbrev listed_staged : MutationEngine F → ℕ → StagedRule F → RuleListEntry F
  listed_staged e priority src =
      let runtime_value =
        if src.publish_runtime_on_commit
        then src.pending_runtime_value
        else (e.runtime_state src.rule_id).current_value in
      record {
        rule_id = src.rule_id;
        priority = priority;
        epoch = e.rule_epoch;
        request =
            with_runtime_value runtime_value
              (record (src.request) { enabled = src.pending_enabled });
        active = src.pending_enabled;
      }

  abbrev listed_slots : MutationEngine F → ℕ → List ℕ → List (RuleListEntry F)
  listed_slots e priority [] = []
  listed_slots e priority (slot ∷ slots) =
      listed_staged e priority (e.staged slot) ∷ listed_slots e (priority + 1) slots

  unfoldable pub list_staged_rules : ℕ → MutationEngine F → List (RuleListEntry F)
  unfolding ordered_rule_ids
  list_staged_rules capacity e =
      if (capacity == 0) || not e.staged_set
      then []
      else take capacity (listed_slots e 0 (ordered_rule_ids e.staged))
