-- ===== src/Mutation/Handles.antt =====
-- Stale handles of MutationEngine (core/mutation_engine.cpp): a handle is a slot and the epoch it
-- was issued at, and every call that reuses slots moves the epoch.
use signal_scope_api.Base.{
  ℕ, ◌^◌, ◌<◌, ◌≡◌, ◌≢◌, refl, ◌∙◌, Bool, true, false, not, ◌&&◌, ◌||◌, arith, ltb, ◌==◌, if_true,
  if_keeps, Option, none, some, List,
}
use signal_scope_api.Mutation.{
  RuleStageRequest, MutationEngine, RuleFloats, max_rules, ActiveRuleTable,
}
use signal_scope_api.Mutation.Rules.{normalize_rule}
use signal_scope_api.Mutation.Staging.{
  stage_rule, clear_staging, advance_rule_epoch, find_staged_identity, allocate_rule_slot,
  stage_found, stage_free,
}
use signal_scope_api.Mutation.Commit.{apply_commit, publish, finish_commit, inactive_index}
use signal_scope_api.Mutation.Control.{
  set_rule_value, enable_rule, set_active_rule_value, set_active_rule_enabled,
  set_staged_rule_value, set_staged_rule_enabled,
}

-- Every control call with a handle of that epoch returns false and changes nothing.
pub record Refused {F : Type 0} (epoch : ℕ) (e : MutationEngine F) : Type 0 where
  pub value_refused : (id v : ℕ) → set_rule_value id v epoch e ≡ (false, e)
  pub enable_refused : (id : ℕ) (on : Bool) → enable_rule id on epoch e ≡ (false, e)
  pub active_value_refused : (id v : ℕ) → set_active_rule_value id v epoch e ≡ (false, e)
  pub active_enable_refused :
      (id : ℕ) (on : Bool) → set_active_rule_enabled id on epoch e ≡ (false, e)
  pub staged_value_refused : (id v : ℕ) → set_staged_rule_value id v epoch e ≡ (false, e)
  pub staged_enable_refused :
      (id : ℕ) (on : Bool) → set_staged_rule_enabled id on epoch e ≡ (false, e)

-- The calls after which slots may hold other rules: a rule is staged, the staging area is cleared, a
-- commit succeeds.
pub data Reissues (floats : RuleFloats) (e : MutationEngine floats.codec.F32)
    : MutationEngine floats.codec.F32 → Type 0 where
  staged :
      (request : RuleStageRequest floats.codec.F32) (slot : ℕ)
      → (stage_rule request e).0 ≡ some slot
      → Reissues floats e (stage_rule request e).1
  cleared : Reissues floats e (clear_staging floats e)
  committed : (apply_commit floats e).0 ≡ true → Reissues floats e (apply_commit floats e).1

stale : (a b c : Bool) → c ≡ false → not (a && b && c) ≡ true
stale a b c h = ground arith

either : (a b : Bool) → a ≡ true → (a || b) ≡ true
either a b h = ground arith

module _ {F : Type 0} where
  other-Refused : (epoch : ℕ) (e : MutationEngine F) → epoch ≢ e.rule_epoch → Refused epoch e
  unfolding set_rule_value enable_rule set_active_rule_value set_active_rule_enabled
      set_staged_rule_value set_staged_rule_enabled
  other-Refused epoch e other =
      let old : (epoch == e.rule_epoch) ≡ false = ground arith in
      let out =
        λ (id : ℕ). stale (ltb id max_rules) e.mutation_reads_enabled (epoch == e.rule_epoch) old in
      record {
        value_refused = λ id v. if_true _ (false, e) _ (either _ _ (out id));
        enable_refused = λ id on. if_true _ (false, e) _ (either _ _ (out id));
        active_value_refused = λ id v. if_true _ (false, e) _ (either _ _ (out id));
        active_enable_refused = λ id on. if_true _ (false, e) _ (either _ _ (out id));
        staged_value_refused = λ id v. if_true _ (false, e) _ (either _ _ (out id));
        staged_enable_refused = λ id on. if_true _ (false, e) _ (either _ _ (out id));
      }

  advance_rule_epoch-new :
      (e : MutationEngine F)
      → e.rule_epoch < 2 ^ 32
      → e.rule_epoch ≢ (advance_rule_epoch e).rule_epoch
  unfolding advance_rule_epoch
  advance_rule_epoch-new e small same = absurd (ground arith)

  moved-Refused :
      (e next : MutationEngine F)
      → e.rule_epoch < 2 ^ 32
      → next.rule_epoch ≡ (advance_rule_epoch e).rule_epoch
      → Refused e.rule_epoch next
  moved-Refused e next small moved =
      other-Refused e.rule_epoch next
        (λ same. absurd (advance_rule_epoch-new e small (same ∙ moved)))

  -- A result with a slot has the next epoch of `e`.
  abbrev Staged : MutationEngine F → ℕ → Option ℕ × MutationEngine F → Type 0
  Staged e slot r = r.0 ≡ some slot → r.1.rule_epoch ≡ (advance_rule_epoch e).rule_epoch

  stage_free-Staged :
      (request : RuleStageRequest F) (e : MutationEngine F) (slot : ℕ) (free : Option ℕ)
      → Staged e slot (stage_free request e free)
  unfolding advance_rule_epoch
  stage_free-Staged request e slot none h = absurd (ground arith)
  stage_free-Staged request e slot (some i) h = refl

  stage_found-Staged :
      (request : RuleStageRequest F) (e : MutationEngine F) (slot : ℕ) (found : Option ℕ)
      → Staged e slot (stage_found request e found)
  unfolding advance_rule_epoch
  stage_found-Staged request e slot none h =
      stage_free-Staged request e slot (allocate_rule_slot e.staged) h
  stage_found-Staged request e slot (some i) h = refl

  stage_rule-Staged :
      (request : RuleStageRequest F) (e : MutationEngine F) (slot : ℕ)
      → Staged e slot (stage_rule request e)
  unfolding stage_rule
  stage_rule-Staged request e slot =
      let failed : Staged e slot (none, e) = λ h. absurd (ground arith) in
      if_keeps (Staged e slot) (not e.staged_set || not e.shadow_set) failed (
        if_keeps (Staged e slot) (not (normalize_rule request)) failed
          (stage_found-Staged request e slot (find_staged_identity e.staged max_rules request)))

module _ (floats : RuleFloats) where
  abbrev Engine : Type 0
  Engine = MutationEngine floats.codec.F32

  abbrev Committed : Engine → Bool × Engine → Type 0
  Committed e r = r.0 ≡ true → r.1.rule_epoch ≡ (advance_rule_epoch e).rule_epoch

  finish_commit-Committed :
      (slots : List ℕ) (e : Engine) (r : Bool × ActiveRuleTable floats.codec.F32)
      → Committed e (finish_commit floats slots e r)
  unfolding publish advance_rule_epoch
  finish_commit-Committed slots e (true, t) h = refl
  finish_commit-Committed slots e (false, t) h = absurd (ground arith)

  apply_commit-Committed : (e : Engine) → Committed e (apply_commit floats e)
  unfolding apply_commit
  apply_commit-Committed e =
      if_keeps (Committed e)
        (not e.staged_set || not e.shadow_set || not (e.table_set (inactive_index e)))
        (λ h. absurd (ground arith)) (finish_commit-Committed _ e _)

  clear_staging-epoch :
      (e : Engine) → (clear_staging floats e).rule_epoch ≡ (advance_rule_epoch e).rule_epoch
  unfolding clear_staging advance_rule_epoch
  clear_staging-epoch e =
      if_keeps (λ (t : Engine). t.rule_epoch ≡ (advance_rule_epoch e).rule_epoch) (not e.staged_set)
        refl refl

  -- After a rule was staged, the staging area cleared, or a commit made, every handle of the epoch
  -- before is dead: all six control calls return false for it and leave the engine as it is,
  -- whatever the slot, the value and the state of the engine. The epoch is a uint32_t.
  pub Reissues-Refused :
      (e next : Engine) → e.rule_epoch < 2 ^ 32 → Reissues floats e next → Refused e.rule_epoch next
  Reissues-Refused e next small (staged request slot done) =
      moved-Refused e _ small (stage_rule-Staged request e slot done)
  Reissues-Refused e next small cleared = moved-Refused e _ small (clear_staging-epoch e)
  Reissues-Refused e next small (committed done) =
      moved-Refused e _ small (apply_commit-Committed e done)
