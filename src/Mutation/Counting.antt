-- ===== src/Mutation/Counting.antt =====
-- The value of a rule of MutationEngine when a frame meets the rules of its group
-- (core/mutation_engine.cpp): what the loop of applyFrameMutations, with the selector and the state of
-- each rule, does to it.
pub mod Cycles
use signal_scope_api.Base.{
  ℕ, zero, suc, ◌+◌, ◌<◌, ◌≤◌, ◌≡◌, refl, ap, ◌∙◌, Bool, true, false, not, ◌&&◌, arith, leb, ◌==◌,
  if◌then◌else◌, if_true, if_false, if_keeps, Bool-cases, inl, inr, Option, none, some, Array,
}
use mathlib.Core.Path.{subst}
use signal_scope_api.Frame.{CanFrame}
use signal_scope_api.Mutation.{
  bit_range, raw_mask, counter, checksum_xor, sequence8, checksum_crc8_autosar, RuleStageRequest,
  CompiledRule, MutationEngine, RuleFloats, RuntimeRuleState, max_rules, RuleKind,
}
use signal_scope_api.Mutation.Apply.{RuleWork, next_count, next_sequence_index, write_dynamic_value}
use signal_scope_api.Mutation.Dispatch.{selector_allows, apply_rule, apply_dynamic_rule}
use signal_scope_api.Mutation.Frames.{Mutated, visit_rule, visit_rules, work_rule}
use signal_scope_api.Mutation.Identity.{BytesOnly, visit_rule-BytesOnly}

-- What holds of both cases holds of the case split.
option_keeps :
    {A B : Type 0} (P : A → Type 0) (o : Option B) (f : B → A) (x : A)
    → P x
    → ((b : B) → P (f b))
    → P (elim o [ none ↦ x | some b ↦ f b ])
option_keeps P none f x px pf = px
option_keeps P (some b) f x px pf = pf b

-- The value of a rule after it ran on one more frame.
abbrev pub next_of : {F : Type 0} → RuleKind → RuleStageRequest F → ℕ → ℕ
next_of counter r v = next_count r v
next_of sequence8 r v = next_sequence_index r v
next_of _ r v = v

module _ (floats : RuleFloats) where
  abbrev F32 : Type 0
  F32 = floats.codec.F32

  -- Whether applyFrameMutations runs a rule of the group: it is enabled and its selector allows it.
  abbrev pub runs : MutationEngine F32 → CompiledRule F32 → Bool
  runs e rule =
      not (leb max_rules rule.rule_id)
      && (e.runtime_state rule.rule_id).enabled
      && (selector_allows floats e rule).0

  dynamic-next :
      (e : MutationEngine F32) (rule : CompiledRule F32) (w : RuleWork)
      → (apply_dynamic_rule floats e rule w).current_value ≡ w.current_value
  unfolding apply_dynamic_rule
  dynamic-next e rule w =
      let (allowed, selector) = selector_allows floats e rule in
      if_keeps (λ (x : RuleWork). x.current_value ≡ w.current_value) (not allowed) refl
        (option_keeps (λ (x : RuleWork). x.current_value ≡ w.current_value) _
          (λ v. record w { bytes = write_dynamic_value rule w.bytes v }) w refl (λ v. refl))

  apply_rule-next :
      (e : MutationEngine F32) (rule : CompiledRule F32) (w : RuleWork) (kind : RuleKind)
      → rule.source.kind ≡ kind
      → (apply_rule floats e rule w).current_value ≡ next_of kind rule.source w.current_value
  unfolding apply_rule
  apply_rule-next e rule w counter same = rw same refl
  apply_rule-next e rule w sequence8 same = rw same refl
  apply_rule-next e rule w checksum_xor same = rw same refl
  apply_rule-next e rule w checksum_crc8_autosar same = rw same refl
  apply_rule-next e rule w raw_mask same = rw same refl
  apply_rule-next e rule w bit_range same = rw same (
      if_keeps (λ (x : RuleWork). x.current_value ≡ w.current_value) rule.source.dynamic_value
        (dynamic-next e rule w) refl)

-- A value behind the three guards of the loop.
guarded :
    {A : Type 0} (f : A → ℕ) (far enabled allowed on pass : Bool) (m w : A)
    → enabled ≡ on
    → allowed ≡ pass
    → f (if far then m else if not enabled then m else if not allowed then m else w)
      ≡ (if not far && on && pass then f w else f m)
guarded f true enabled allowed on pass m w e a = refl
guarded f false enabled allowed true true m w e a = rw (e, a) refl
guarded f false enabled allowed true false m w e a = rw (e, a) refl
guarded f false enabled allowed false pass m w e a = rw e refl

module _ (floats : RuleFloats) (frame : CanFrame) (e : MutationEngine floats.codec.F32) where
  abbrev Rule : Type 0
  Rule = CompiledRule floats.codec.F32

  abbrev Work : Type 0
  Work = Mutated floats.codec.F32

  abbrev value_at : ℕ → Work → ℕ
  value_at id m = (m.engine.runtime_state id).current_value

  -- From `m` to `n` a rule ran on one frame if it runs at all.
  abbrev Ran : Rule → Work → Work → Type 0
  Ran rule m n = value_at rule.rule_id n ≡ (
      if runs floats e rule
      then next_of rule.source.kind rule.source (value_at rule.rule_id m)
      else value_at rule.rule_id m)

  visit_rule-Ran :
      (rule : Rule) (m : Work) → BytesOnly frame e m → Ran rule m (visit_rule floats rule m)
  unfolding visit_rule work_rule selector_allows
  visit_rule-Ran rule m v =
      let id = rule.rule_id in
      let work : RuleWork = record {
        bytes = m.frame.bytes;
        current_value = (m.engine.runtime_state id).current_value;
      } in
      let worked : value_at id (work_rule floats rule m)
          ≡ next_of rule.source.kind rule.source (value_at id m) =
        ap (λ (s : RuntimeRuleState). s.current_value)
          (if_true (id == id) _ (m.engine.runtime_state id) (ground arith))
        ∙ apply_rule-next floats m.engine rule work rule.source.kind refl in
      guarded (value_at id) (leb max_rules id) (m.engine.runtime_state id).enabled
        (selector_allows floats m.engine rule).0 (e.runtime_state id).enabled
        (selector_allows floats e rule).0 m (work_rule floats rule m)
        (ap (λ (s : RuntimeRuleState). s.enabled) (v.slots_kept id))
        (ap (λ (x : MutationEngine floats.codec.F32). (selector_allows floats x rule).0)
          v.engine_kept)
      ∙ ap (λ n. if runs floats e rule then n else value_at id m) worked

  visit_rule-other :
      (rule : Rule) (m : Work) (id : ℕ)
      → (id == rule.rule_id) ≡ false
      → value_at id (visit_rule floats rule m) ≡ value_at id m
  unfolding visit_rule work_rule
  visit_rule-other rule m id other =
      let P = λ (n : Work). value_at id n ≡ value_at id m in
      let worked : P (work_rule floats rule m) =
        ap (λ (s : RuntimeRuleState). s.current_value)
          (if_false (id == rule.rule_id) _ (m.engine.runtime_state id) other) in
      if_keeps P (leb max_rules rule.rule_id) refl (
        if_keeps P (not (m.engine.runtime_state rule.rule_id).enabled) refl
          (if_keeps P (not (selector_allows floats m.engine rule).0) refl worked))

  visit_rules-others :
      (rules : Array Rule) (left i : ℕ) (m : Work) (id : ℕ)
      → ((j : ℕ) → i ≤ j → j < i + left → (id == (rules j).rule_id) ≡ false)
      → value_at id (visit_rules floats rules left i m) ≡ value_at id m
  unfolding visit_rules
  visit_rules-others rules zero i m id apart = refl
  visit_rules-others rules (suc left) i m id apart =
      visit_rules-others rules left (i + 1) (visit_rule floats (rules i) m) id
        (λ j lo hi. apart j (omega arith) (omega arith))
      ∙ visit_rule-other (rules i) m id (apart i (omega arith) (omega arith))

  -- No other rule of the range has the slot of rule `k`.
  abbrev pub Alone : Array Rule → ℕ → ℕ → ℕ → Type 0
  Alone rules left i k =
      (j : ℕ)
      → i ≤ j
      → j < i + left
      → (j == k) ≡ false
      → ((rules k).rule_id == (rules j).rule_id) ≡ false

  pub visit_rules-Ran :
      (rules : Array Rule) (left i k : ℕ) (m : Work)
      → BytesOnly frame e m
      → i ≤ k
      → k < i + left
      → Alone rules left i k
      → Ran (rules k) m (visit_rules floats rules left i m)
  unfolding visit_rules
  visit_rules-Ran rules zero i k m v lo hi alone = absurd (omega arith)
  visit_rules-Ran rules (suc left) i k m v lo hi alone = elim (Bool-cases (i == k)) [
    | inl same ↦
        let at : i ≡ k = ground arith in
        let next = visit_rule floats (rules i) m in
        visit_rules-others rules left (i + 1) next (rules k).rule_id
          (λ j from to. alone j (omega arith) (omega arith) (ground arith))
        ∙ subst (λ t. Ran (rules t) m next) at (visit_rule-Ran (rules i) m v)
    | inr other ↦
        let next = visit_rule floats (rules i) m in
        let here =
          visit_rule-other (rules i) m (rules k).rule_id
            (alone i (omega arith) (omega arith) other) in
        visit_rules-Ran rules left (i + 1) k next
          (visit_rule-BytesOnly floats frame e (rules i) m v) (ground arith) (omega arith)
          (λ j from to apart. alone j (omega arith) (omega arith) apart)
        ∙ ap
            (λ n.
              if runs floats e (rules k)
              then next_of (rules k).source.kind (rules k).source n
              else n)
            here
  ]
