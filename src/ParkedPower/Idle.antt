-- ===== src/ParkedPower/Idle.antt =====
-- The idle time of ParkedPowerController::tick (core/parked_power.cpp) along a run.
use mathlib.Core.Path.{subst}
use signal_scope_api.Base.{
  ℕ, ◌+◌, ◌-◌, ◌^◌, ◌<◌, ◌≤◌, ◌≡◌, refl, sym, ap, ◌∙◌, Bool, true, false, not, arith, ltb, List, [],
  ◌∷◌, All, if_keeps, if_true, lt→ltb,
}
use signal_scope_api.Frame.{sub_u32, u32}
use signal_scope_api.ParkedPower.{
  ParkedPowerDecision, stay_awake, ParkedPowerController, observe_primary_frame, observe_ignition,
  note_busy, tick, begin_sleep, defer_sleep, set_boot_probe_pending, active, power_on_grace_active,
  ignition_recently_on,
}
use signal_scope_api.ParkedPower.Runs.{
  Call, policy_updated, primary_seen, ignition_seen_at, busy_noted, probe_finished, ticked,
  sleep_begun, sleep_deferred, probe_pending_set, offset_of, step, decisions,
}

-- Neither a change of the policy nor the end of a boot probe.
abbrev pub IsOrdinary : Call → Type 0
IsOrdinary (policy_updated p d) = ⊥
IsOrdinary (probe_finished d) = ⊥
IsOrdinary _ = Unit

-- In the order of time, from `from` on and before `delay`.
abbrev pub InOrder : ℕ → ℕ → List Call → Type 0
InOrder from delay [] = Unit
InOrder from delay (k ∷ ks) =
    IsOrdinary k × (from ≤ offset_of k) × (offset_of k < delay) × InOrder (offset_of k) delay ks

-- The host was awake no later than `latest` after the start, and the delay is `delay`.
record IsIdle (start delay latest : ℕ) (c : ParkedPowerController) : Type 0 where
  at : ℕ
  at_in : at ≤ latest
  awake : c.last_awake_ms ≡ u32 (start + at)
  same_delay : c.sleep_delay_ms ≡ delay

idle_elapsed :
    (start at d : ℕ) → at ≤ d → d < 2 ^ 32 → sub_u32 (u32 (start + d)) (u32 (start + at)) ≡ d - at
idle_elapsed start at d h h' = ground arith

abbrev StaysIdle : ℕ → ℕ → ℕ → ParkedPowerDecision × ParkedPowerController → Type 0
StaysIdle start delay latest r = (r.0 ≡ stay_awake) × IsIdle start delay latest r.1

too_early :
    (start delay d : ℕ) (c : ParkedPowerController)
    → d < delay
    → delay ≤ 2 ^ 32
    → IsIdle start delay d c
    → ltb (sub_u32 (u32 (start + d)) c.last_awake_ms) c.sleep_delay_ms ≡ true
too_early start delay d c near h v =
    ap (λ t. ltb (sub_u32 (u32 (start + d)) t) c.sleep_delay_ms) v.awake
    ∙ ap (λ t. ltb t c.sleep_delay_ms) (idle_elapsed start v.at d v.at_in (omega arith))
    ∙ lt→ltb (d - v.at) c.sleep_delay_ms (omega (arith, v.same_delay))

now_awake :
    (start delay d : ℕ) (c : ParkedPowerController)
    → c.sleep_delay_ms ≡ delay
    → c.last_awake_ms ≡ u32 (start + d)
    → IsIdle start delay d c
now_awake start delay d c e e' = record { at = d; at_in = omega arith; awake = e'; same_delay = e }

tick-StaysIdle :
    (start delay d : ℕ) (busy : Bool) (c : ParkedPowerController)
    → d < delay
    → delay ≤ 2 ^ 32
    → IsIdle start delay d c
    → StaysIdle start delay d (tick (u32 (start + d)) busy c)
unfolding tick note_busy
tick-StaysIdle start delay d busy c near h v =
    let P = StaysIdle start delay d in
    if_keeps P c.entering_sleep (refl, v)
      (if_keeps P (not (active c)) (refl, now_awake start delay d _ v.same_delay refl)
        (if_keeps P (power_on_grace_active (u32 (start + d)) c) (refl, v)
          (if_keeps P busy (refl, now_awake start delay d _ v.same_delay refl)
            (if_keeps P (ignition_recently_on (u32 (start + d)) c) (refl, v)
              (subst P (sym (if_true _ _ _ (too_early start delay d c near h v))) (refl, v))))))

later :
    (start delay a b : ℕ) (c : ParkedPowerController)
    → a ≤ b
    → IsIdle start delay a c
    → IsIdle start delay b c
later start delay a b c h v = record {
  at = v.at;
  at_in = omega (arith, v.at_in);
  awake = v.awake;
  same_delay = v.same_delay;
}

ignition-IsIdle :
    (start delay d source : ℕ) (on : Bool) (c : ParkedPowerController)
    → IsIdle start delay d c
    → IsIdle start delay d (observe_ignition on source (u32 (start + d)) c)
unfolding observe_ignition
ignition-IsIdle start delay d source true c v = now_awake start delay d _ v.same_delay refl
ignition-IsIdle start delay d source false c v = record {
  at = v.at;
  at_in = v.at_in;
  awake = v.awake;
  same_delay = v.same_delay;
}

step-StaysIdle :
    (start delay : ℕ) (k : Call) (c : ParkedPowerController)
    → IsOrdinary k
    → offset_of k < delay
    → delay ≤ 2 ^ 32
    → IsIdle start delay (offset_of k) c
    → StaysIdle start delay (offset_of k) (step start k c)
unfolding step observe_primary_frame note_busy begin_sleep defer_sleep set_boot_probe_pending
step-StaysIdle start delay (policy_updated p d) c o near h v = absurd o
step-StaysIdle start delay (probe_finished d) c o near h v = absurd o
step-StaysIdle start delay (ticked busy d) c o near h v =
    tick-StaysIdle start delay d busy c near h v
step-StaysIdle start delay (ignition_seen_at on source d) c o near h v =
    (refl, ignition-IsIdle start delay d source on c v)
step-StaysIdle start delay (busy_noted d) c o near h v =
    (refl, now_awake start delay d _ v.same_delay refl)
step-StaysIdle start delay (sleep_deferred d) c o near h v =
    (refl, now_awake start delay d _ v.same_delay refl)
step-StaysIdle start delay (primary_seen d) c o near h v =
    (refl, record { at = v.at; at_in = v.at_in; awake = v.awake; same_delay = v.same_delay })
step-StaysIdle start delay (sleep_begun d) c o near h v =
    (refl, record { at = v.at; at_in = v.at_in; awake = v.awake; same_delay = v.same_delay })
step-StaysIdle start delay (probe_pending_set pending d) c o near h v =
    (refl, record { at = v.at; at_in = v.at_in; awake = v.awake; same_delay = v.same_delay })

run-StaysIdle :
    (start delay from : ℕ) (ks : List Call) (c : ParkedPowerController)
    → InOrder from delay ks
    → delay ≤ 2 ^ 32
    → IsIdle start delay from c
    → All (λ d. d ≡ stay_awake) (decisions start ks c)
unfolding decisions
run-StaysIdle start delay from [] c o h v = tt
run-StaysIdle start delay from (k ∷ ks) c (o, lo, hi, os) h v =
    let (stays, kept) =
      step-StaysIdle start delay k c o hi h (later start delay from (offset_of k) c lo v) in
    (stays, run-StaysIdle start delay (offset_of k) ks (step start k c).1 os h kept)

-- After the host was busy, no sequence of calls in the order of time decides to sleep before the sleep
-- delay is over, across the wrap of the clock too, unless the policy is changed or a boot probe ends.
pub note_busy-decisions :
    (start : ℕ) (c : ParkedPowerController) (calls : List Call)
    → c.sleep_delay_ms ≤ 2 ^ 32
    → InOrder 0 c.sleep_delay_ms calls
    → All (λ d. d ≡ stay_awake) (decisions start calls (note_busy (u32 start) c))
unfolding note_busy
note_busy-decisions start c calls h o = run-StaysIdle start c.sleep_delay_ms 0 calls _ o h (record {
  at = 0;
  at_in = omega arith;
  awake = ap u32 {x = start} {y = start + 0} (omega arith);
  same_delay = refl;
})
