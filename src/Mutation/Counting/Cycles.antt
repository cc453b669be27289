-- ===== src/Mutation/Counting/Cycles.antt =====
-- Counters and sequences of MutationEngine round their cycles, over many frames
-- (core/mutation_engine.cpp).
use signal_scope_api.Base.{
  ℕ, ◌+◌, ◌%◌, ◌^◌, ◌<◌, ◌≤◌, ◌≡◌, refl, sym, ap, ◌∙◌, Bool, true, false, not, ◌&&◌, arith, List,
  [], ◌∷◌, length, All, leb, ◌==◌, if◌then◌else◌, if_true, some,
}
use mathlib.Core.Path.{ap₂}
use native.Mathlib.Decide.{dec_lt}
use native.Mathlib.Nat.{mod-lt, mod-eq_of_lt, mod-add-mod, mod_self}
use signal_scope_api.Frame.{CanFrame, Direction, u8}
use signal_scope_api.Mutation.{
  counter, sequence8, RuleStageRequest, ActiveRuleTable, RuleGroup, MutationEngine, RuleFloats,
  RuntimeRuleState, max_rules,
}
use signal_scope_api.Mutation.Apply.{next_count, safe_index, next_sequence_index}
use signal_scope_api.Mutation.Dispatch.{selector_allows}
use signal_scope_api.Mutation.Frames.{
  Mutated, group_of, begin_mutation_read, apply_frame_mutations, visit_group,
}
use signal_scope_api.Mutation.Identity.{apply_frame_mutations-BytesOnly}
use signal_scope_api.Mutation.Counting.{next_of, runs, visit_rules-Ran}

-- The engine after frames that went through it one after another.
unfoldable pub after_traffic :
    (floats : RuleFloats)
    → List CanFrame
    → MutationEngine floats.codec.F32
    → MutationEngine floats.codec.F32
unfolding apply_frame_mutations
after_traffic floats [] e = e
after_traffic floats (f ∷ frames) e =
    after_traffic floats frames (apply_frame_mutations floats f e).engine

-- Rule `k` of the active table `t` stands in the group `g` of a frame, alone with its slot.
pub record InGroup {F : Type 0} (t : ActiveRuleTable F) (g : RuleGroup) (k : ℕ) : Type 0 where
  pub from : g.first_rule ≤ k
  pub to : k < g.first_rule + g.rule_count
  pub alone :
      (j : ℕ)
      → g.first_rule ≤ j
      → j < g.first_rule + g.rule_count
      → (j == k) ≡ false
      → ((t.rules k).rule_id == (t.rules j).rule_id) ≡ false

module _ (floats : RuleFloats) (t : ActiveRuleTable floats.codec.F32) (g : RuleGroup) (k : ℕ)
    (can_id : ℕ) (direction : Direction) where
  -- An engine that takes frames, with that group for an identifier and a direction, in which rule `k`
  -- runs or not, with value `v`.
  pub record Carries (on : Bool) (v : ℕ) (e : MutationEngine floats.codec.F32) : Type 0 where
    pub reading : begin_mutation_read e ≡ true
    pub group : group_of e can_id direction ≡ some (t, g)
    pub running : runs floats e (t.rules k) ≡ on
    pub value : (e.runtime_state (t.rules k).rule_id).current_value ≡ v

  abbrev next_value_of : Bool → ℕ → ℕ
  next_value_of on v = if on then next_of (t.rules k).source.kind (t.rules k).source v else v

  one_frame-Carries :
      (on : Bool) (v : ℕ) (f : CanFrame) (e : MutationEngine floats.codec.F32)
      → InGroup t g k
      → f.id ≡ can_id
      → f.direction ≡ direction
      → Carries on v e
      → Carries on (next_value_of on v) (apply_frame_mutations floats f e).engine
  unfolding apply_frame_mutations group_of selector_allows
  one_frame-Carries on v f e place same_id same_direction c =
      let m = apply_frame_mutations floats f e in
      let kept = apply_frame_mutations-BytesOnly floats f e in
      let id = (t.rules k).rule_id in
      let start : Mutated floats.codec.F32 = record { applied = 0; frame = f; engine = e } in
      let found : group_of e f.id f.direction ≡ some (t, g) =
        ap₂ (group_of e) same_id same_direction ∙ c.group in
      let slot : (m.engine.runtime_state id).enabled ≡ (e.runtime_state id).enabled =
        ap (λ (s : RuntimeRuleState). s.enabled) (kept.slots_kept id) in
      let allowed : (selector_allows floats m.engine (t.rules k)).0
          ≡ (selector_allows floats e (t.rules k)).0 =
        ap (λ (x : MutationEngine floats.codec.F32). (selector_allows floats x (t.rules k)).0)
          kept.engine_kept in
      record {
        reading = ap begin_mutation_read kept.engine_kept ∙ c.reading;
        group =
            ap (λ (x : MutationEngine floats.codec.F32). group_of x can_id direction)
              kept.engine_kept
            ∙ c.group;
        running = ap₂ (λ a b. not (leb max_rules id) && a && b) slot allowed ∙ c.running;
        value =
            ap
              (λ b.
                ((if not b
                    then start
                    else visit_group floats (group_of e f.id f.direction)
                        start).engine.runtime_state
                  id).current_value)
              c.reading
            ∙ ap (λ o. ((visit_group floats o start).engine.runtime_state id).current_value) found
            ∙ visit_rules-Ran floats f e t.rules g.rule_count g.first_rule k start
                (record { frame_kept = refl; engine_kept = refl; slots_kept = λ i. refl })
                place.from place.to place.alone
            ∙ ap₂ next_value_of c.running c.value;
      }

  -- A value below `m` that each frame moves on by one, round a cycle of `m`.
  after_traffic-cycle :
      (m : ℕ)
      → 0 < m
      → ((n : ℕ) → n < m → next_of (t.rules k).source.kind (t.rules k).source n ≡ (n + 1) % m)
      → InGroup t g k
      → (on : Bool) (v : ℕ) (frames : List CanFrame) (e : MutationEngine floats.codec.F32) → v < m
      → All (λ f. (f.id ≡ can_id) × (f.direction ≡ direction)) frames
      → Carries on v e
      → ((after_traffic floats frames e).runtime_state (t.rules k).rule_id).current_value
        ≡ (if on then (v + length frames) % m else v)
  unfolding after_traffic
  after_traffic-cycle m pos next place true v [] e h all c =
      c.value ∙ sym (mod-eq_of_lt h) ∙ ap (λ n. n % m) (omega arith)
  after_traffic-cycle m pos next place false v [] e h all c = c.value
  after_traffic-cycle m pos next place false v (f ∷ frames) e h ((i, d), all) c =
      after_traffic-cycle m pos next place false v frames _ h all
        (one_frame-Carries false v f e place i d c)
  after_traffic-cycle m pos next place true v (f ∷ frames) e h ((i, d), all) c =
      after_traffic-cycle m pos next place true
        (next_of (t.rules k).source.kind (t.rules k).source v) frames _
        (omega (arith, next v h, mod-lt (v + 1) pos)) all (one_frame-Carries true v f e place i d c)
      ∙ ap (λ n. (n + length frames) % m) (next v h)
      ∙ mod-add-mod (v + 1) m (length frames)
      ∙ ap (λ n. n % m) (omega arith)

next_count-cycle :
    {F : Type 0} (r : RuleStageRequest F) (v : ℕ)
    → r.counter_step ≡ 1
    → r.counter_wrap_to ≡ 0
    → r.counter_wrap_after < 2 ^ 32
    → v < r.counter_wrap_after + 1
    → next_count r v ≡ (v + 1) % (r.counter_wrap_after + 1)
unfolding next_count
next_count-cycle r v one zero' small h =
    let wrap = r.counter_wrap_after in
    elim (dec_lt v wrap) [
      | yes less ↦ ground (arith, mod-eq_of_lt {n = v + 1} {m = wrap + 1} (omega arith))
      | no full ↦
          if_true (leb wrap v) r.counter_wrap_to _ (ground arith)
          ∙ zero'
          ∙ sym (mod_self (wrap + 1))
          ∙ ap (λ t. t % (wrap + 1)) (omega arith)
    ]

next_sequence_index-cycle :
    {F : Type 0} (r : RuleStageRequest F) (v : ℕ)
    → r.sequence_count ≤ 16
    → v < r.sequence_count
    → next_sequence_index r v ≡ (v + 1) % r.sequence_count
unfolding next_sequence_index safe_index
next_sequence_index-cycle r v most h =
    ap (λ t. (u8 t + 1) % r.sequence_count) (mod-eq_of_lt h)
    ∙ ap (λ t. (t + 1) % r.sequence_count) (mod-eq_of_lt {n = v} {m = 256} (omega arith))

module _ (floats : RuleFloats) (t : ActiveRuleTable floats.codec.F32) (g : RuleGroup) (k : ℕ)
    (can_id : ℕ) (direction : Direction) where
  -- Frames of one identifier and direction go through applyFrameMutations, one after another. A
  -- counter of their group that steps by 1 and wraps to 0 has then gone on by one for each frame,
  -- modulo one more than the value it wraps after, if it is enabled and its selector allows it, and
  -- stands where it stood if not; the other rules of the group have other slots, and the application's
  -- values do not change meanwhile. The counter starts within its range, a uint32_t.
  pub after_traffic-counter :
      (on : Bool) (v : ℕ) (frames : List CanFrame) (e : MutationEngine floats.codec.F32)
      → InGroup t g k
      → (t.rules k).source.kind ≡ counter
      → (t.rules k).source.counter_step ≡ 1
      → (t.rules k).source.counter_wrap_to ≡ 0
      → (t.rules k).source.counter_wrap_after < 2 ^ 32
      → v ≤ (t.rules k).source.counter_wrap_after
      → All (λ f. (f.id ≡ can_id) × (f.direction ≡ direction)) frames
      → Carries floats t g k can_id direction on v e
      → ((after_traffic floats frames e).runtime_state (t.rules k).rule_id).current_value
        ≡ (if on then (v + length frames) % ((t.rules k).source.counter_wrap_after + 1) else v)
  after_traffic-counter on v frames e place kind one zero' small h all c =
      let r = (t.rules k).source in
      after_traffic-cycle floats t g k can_id direction (r.counter_wrap_after + 1) (omega arith)
        (λ n hn. ap (λ x. next_of x r n) kind ∙ next_count-cycle r n one zero' small hn) place on v
        frames e (omega arith) all c

  -- A sequence of at most 16 values goes round in the same way: its index goes on by one for each
  -- frame, modulo the number of its values, if it runs, and stands if not.
  pub after_traffic-sequence :
      (on : Bool) (v : ℕ) (frames : List CanFrame) (e : MutationEngine floats.codec.F32)
      → InGroup t g k
      → (t.rules k).source.kind ≡ sequence8
      → (t.rules k).source.sequence_count ≤ 16
      → v < (t.rules k).source.sequence_count
      → All (λ f. (f.id ≡ can_id) × (f.direction ≡ direction)) frames
      → Carries floats t g k can_id direction on v e
      → ((after_traffic floats frames e).runtime_state (t.rules k).rule_id).current_value
        ≡ (if on then (v + length frames) % (t.rules k).source.sequence_count else v)
  after_traffic-sequence on v frames e place kind most h all c =
      let r = (t.rules k).source in
      after_traffic-cycle floats t g k can_id direction r.sequence_count (omega arith)
        (λ n hn. ap (λ x. next_of x r n) kind ∙ next_sequence_index-cycle r n most hn) place on v
        frames e h all c
