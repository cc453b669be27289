-- ===== src/Mutation/Identity.antt =====
-- What applyFrameMutations (core/mutation_engine.cpp) may change of a frame and of the engine, and
-- the engine in the place where GatewayCore (core/gateway.cpp) calls it.
use signal_scope_api.Base.{
  ℕ, zero, suc, ◌+◌, ◌≡◌, refl, ap, not, leb, if_keeps, Option, none, some, Array, ◌==◌,
  if◌then◌else◌, store, Bool-cases, inl, inr, arith,
}
use mathlib.Core.Path.{subst}
use signal_scope_api.Frame.{CanFrame}
use signal_scope_api.Gateway.State.{Peers}
use signal_scope_api.Gateway.Forward.Steps.{KeepsIdentity}
use signal_scope_api.Mutation.{
  CompiledRule, ActiveRuleTable, RuleGroup, MutationEngine, RuleFloats, max_rules, RuntimeRuleState,
}
use signal_scope_api.Mutation.Frames.{
  Mutated, group_of, begin_mutation_read, has_rules_for_frame, visit_rule, visit_rules, work_rule,
  apply_frame_mutations, visit_group,
}
use signal_scope_api.Mutation.Dispatch.{selector_allows, apply_rule}

-- Of the frame only the bytes change, of the engine only the current values of the rules.
pub record BytesOnly {F : Type 0} (frame : CanFrame) (e : MutationEngine F) (m : Mutated F)
    : Type 0 where
  pub frame_kept : m.frame ≡ record frame { bytes = m.frame.bytes }
  pub engine_kept : m.engine ≡ record e { runtime_state = m.engine.runtime_state }
  pub slots_kept :
      (i : ℕ)
      → m.engine.runtime_state i
        ≡ record (e.runtime_state i) { current_value = (m.engine.runtime_state i).current_value }

-- A new value in slot `id` is all that a store into it changes.
slot_kept :
    (now before : Array RuntimeRuleState) (id i v : ℕ)
    → now i ≡ record (before i) { current_value = (now i).current_value }
    → store now id (record (now id) { current_value = v }) i ≡ record (before i) {
      current_value = (store now id (record (now id) { current_value = v }) i).current_value;
    }
slot_kept now before id i v h = elim (Bool-cases (i == id)) [
  | inl here ↦
      let same : i ≡ id = ground arith in
      subst
        (λ j.
          (if i == id then record (now j) { current_value = v } else now i) ≡ record (before i) {
            current_value =
                (if i == id then record (now j) { current_value = v } else now i).current_value;
          })
        same (rw here (ap (λ (s : RuntimeRuleState). record s { current_value = v }) h))
  | inr other ↦ rw other h
]

module _ (floats : RuleFloats) (frame : CanFrame) (e : MutationEngine floats.codec.F32) where
  pub visit_rule-BytesOnly :
      (rule : CompiledRule floats.codec.F32) (m : Mutated floats.codec.F32)
      → BytesOnly frame e m
      → BytesOnly frame e (visit_rule floats rule m)
  unfolding visit_rule work_rule
  visit_rule-BytesOnly rule m v =
      let worked : BytesOnly frame e (work_rule floats rule m) = record {
        frame_kept =
            ap (λ (f : CanFrame). record f { bytes = (work_rule floats rule m).frame.bytes })
              v.frame_kept;
        engine_kept =
            ap
              (λ (g : MutationEngine floats.codec.F32). record g {
                runtime_state = (work_rule floats rule m).engine.runtime_state;
              })
              v.engine_kept;
        slots_kept = λ i.
            slot_kept m.engine.runtime_state e.runtime_state rule.rule_id i
              (apply_rule floats m.engine rule (record {
                bytes = m.frame.bytes;
                current_value = (m.engine.runtime_state rule.rule_id).current_value;
              })).current_value
              (v.slots_kept i);
      } in
      if_keeps (BytesOnly frame e) (leb max_rules rule.rule_id) v (
        if_keeps (BytesOnly frame e) (not (m.engine.runtime_state rule.rule_id).enabled) v
          (if_keeps (BytesOnly frame e) (not (selector_allows floats m.engine rule).0) v worked))

  visit_rules-BytesOnly :
      (rules : Array (CompiledRule floats.codec.F32)) (left i : ℕ) (m : Mutated floats.codec.F32)
      → BytesOnly frame e m
      → BytesOnly frame e (visit_rules floats rules left i m)
  unfolding visit_rules
  visit_rules-BytesOnly rules zero i m v = v
  visit_rules-BytesOnly rules (suc left) i m v =
      visit_rules-BytesOnly rules left (i + 1) (visit_rule floats (rules i) m)
        (visit_rule-BytesOnly (rules i) m v)

  visit_group-BytesOnly :
      (g : Option (ActiveRuleTable floats.codec.F32 × RuleGroup)) (m : Mutated floats.codec.F32)
      → BytesOnly frame e m
      → BytesOnly frame e (visit_group floats g m)
  visit_group-BytesOnly none m v = v
  visit_group-BytesOnly (some (t, g)) m v =
      visit_rules-BytesOnly t.rules g.rule_count g.first_rule m v

-- Whatever rules a frame meets, applyFrameMutations changes nothing of the frame but its bytes, and
-- nothing of the engine but the current values of its rules: no table, no count, and of no rule
-- anything else, such as whether it is enabled.
pub apply_frame_mutations-BytesOnly :
    (floats : RuleFloats) (frame : CanFrame) (e : MutationEngine floats.codec.F32)
    → BytesOnly frame e (apply_frame_mutations floats frame e)
unfolding apply_frame_mutations
apply_frame_mutations-BytesOnly floats frame e =
    let same : BytesOnly frame e (record { applied = 0; frame = frame; engine = e }) = record {
      frame_kept = refl;
      engine_kept = refl;
      slots_kept = λ i. refl;
    } in
    if_keeps (BytesOnly frame e) (not (begin_mutation_read e)) same
      (visit_group-BytesOnly floats frame e (group_of e frame.id frame.direction) _ same)

-- The peers of a gateway with an engine in the world: the gateway's calls of hasRulesForFrame and
-- applyFrameMutations go to it, the others where they went.
abbrev pub engine_peers : RuleFloats → Peers → Peers
engine_peers floats peers = record {
  World = MutationEngine floats.codec.F32 × peers.World;
  tx_driver = λ d f w. let (done, v) = peers.tx_driver d f w.1 in (done, (w.0, v));
  micros = λ w. let (t, v) = peers.micros w.1 in (t, (w.0, v));
  millis = λ w. let (t, v) = peers.millis w.1 in (t, (w.0, v));
  has_rules_for_frame = λ i d w. has_rules_for_frame i d w.0;
  apply_frame_mutations =
      λ f w. let m = apply_frame_mutations floats f w.0 in (m.applied, m.frame, (m.engine, w.1));
  is_observed = λ i d w. peers.is_observed i d w.1;
  dbc_loaded = λ w. peers.dbc_loaded w.1;
  decode_observed_frame = λ f w. let (n, v) = peers.decode_observed_frame f w.1 in (n, (w.0, v));
  frame_cache_update = λ f t m i s w. (w.0, peers.frame_cache_update f t m i s w.1);
  frame_cache_update_passive = λ f t m w. (w.0, peers.frame_cache_update_passive f t m w.1);
  ingress_frame_cache_update = λ f t m w. (w.0, peers.ingress_frame_cache_update f t m w.1);
  trace_callback = λ i o m s w. (w.0, peers.trace_callback i o m s w.1);
}

-- The mutation engine does what the gateway relies on: whatever rules are active, a frame keeps its
-- identifier and its direction. So the gateway's theorems under that law hold with this engine.
pub engine_peers-KeepsIdentity :
    (floats : RuleFloats) (peers : Peers) → KeepsIdentity (engine_peers floats peers)
engine_peers-KeepsIdentity floats peers = record {
  id-apply =
      λ f w. ap (λ (t : CanFrame). t.id) (apply_frame_mutations-BytesOnly floats f w.0).frame_kept;
  direction-apply = λ f w.
      ap (λ (t : CanFrame). t.direction) (apply_frame_mutations-BytesOnly floats f w.0).frame_kept;
}
