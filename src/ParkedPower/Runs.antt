-- ===== src/ParkedPower/Runs.antt =====
-- Runs of ParkedPowerController (core/parked_power.cpp): calls in any order, and what they decide.
use signal_scope_api.Base.{
  ℕ, ◌+◌, ◌^◌, ◌<◌, ◌≤◌, ◌≡◌, refl, ap, ◌∙◌, Bool, true, false, not, ◌||◌, arith, ltb, List, [],
  ◌∷◌, All, if◌then◌else◌, if_keeps, if_true, lt→ltb, sym,
}
use mathlib.Core.Path.{subst}
use signal_scope_api.Frame.{sub_u32, u32}
use signal_scope_api.ParkedPower.{
  ParkedPowerPolicy, power_on_or_reset, ParkedPowerDecision, stay_awake, sleep_boot_probe,
  ParkedPowerController, clamp_value, is_power_on, store_policy, reset_ignition_state, initialize,
  update_policy, observe_primary_frame, observe_ignition, note_busy, finish_boot_probe, tick,
  begin_sleep, defer_sleep, set_boot_probe_pending, active, power_on_grace_active,
  ignition_recently_on,
}

-- A call, with the milliseconds since the start of the run at which it happens.
pub data Call : Type 0 where
  policy_updated : ParkedPowerPolicy → ℕ → Call
  primary_seen : ℕ → Call
  ignition_seen_at : Bool → ℕ → ℕ → Call
  busy_noted : ℕ → Call
  probe_finished : ℕ → Call
  ticked : Bool → ℕ → Call
  sleep_begun : ℕ → Call
  sleep_deferred : ℕ → Call
  probe_pending_set : Bool → ℕ → Call

abbrev pub offset_of : Call → ℕ
offset_of (policy_updated p d) = d
offset_of (primary_seen d) = d
offset_of (ignition_seen_at on source d) = d
offset_of (busy_noted d) = d
offset_of (probe_finished d) = d
offset_of (ticked busy d) = d
offset_of (sleep_begun d) = d
offset_of (sleep_deferred d) = d
offset_of (probe_pending_set pending d) = d

abbrev pub undecided : ParkedPowerController → ParkedPowerDecision × ParkedPowerController
undecided c = (stay_awake, c)

-- One call at `start + d`, as uint32_t; a call that decides nothing leaves the host awake.
unfoldable pub step : ℕ → Call → ParkedPowerController → ParkedPowerDecision × ParkedPowerController
step start (policy_updated p d) c = undecided (update_policy p (u32 (start + d)) c)
step start (primary_seen d) c = undecided (observe_primary_frame (u32 (start + d)) c)
step start (ignition_seen_at on source d) c =
    undecided (observe_ignition on source (u32 (start + d)) c)
step start (busy_noted d) c = undecided (note_busy (u32 (start + d)) c)
step start (probe_finished d) c = finish_boot_probe (u32 (start + d)) c
step start (ticked busy d) c = tick (u32 (start + d)) busy c
step start (sleep_begun d) c = undecided ((begin_sleep c).1)
step start (sleep_deferred d) c = undecided (defer_sleep (u32 (start + d)) c)
step start (probe_pending_set pending d) c = undecided (set_boot_probe_pending pending c)

-- The decisions of a run, in order.
unfoldable pub decisions : ℕ → List Call → ParkedPowerController → List ParkedPowerDecision
unfolding step
decisions start [] c = []
decisions start (k ∷ ks) c = (step start k c).0 ∷ decisions start ks (step start k c).1

-- Booted at `start` from power, with a grace of at least 30 seconds.
record InGrace (start : ℕ) (c : ParkedPowerController) : Type 0 where
  cause : c.wake_cause ≡ power_on_or_reset
  started : c.boot_started_ms ≡ start
  long : 30000 ≤ c.power_on_grace_ms

clamp_value-bounds :
    (v lo hi : ℕ) → lo ≤ hi → (lo ≤ clamp_value v lo hi) × (clamp_value v lo hi ≤ hi)
unfolding clamp_value
clamp_value-bounds v lo hi h = (ground arith, ground arith)

elapsed : (start d : ℕ) → start < 2 ^ 32 → d < 2 ^ 32 → sub_u32 (u32 (start + d)) start ≡ d
elapsed start d h h' = ground arith

grace_active :
    (start d : ℕ) (c : ParkedPowerController)
    → start < 2 ^ 32
    → d < 30000
    → InGrace start c
    → power_on_grace_active (u32 (start + d)) c ≡ true
unfolding power_on_grace_active
grace_active start d c h near g =
    ap
      (λ w.
        if not (is_power_on w)
        then false
        else ltb (sub_u32 (u32 (start + d)) c.boot_started_ms) c.power_on_grace_ms)
      g.cause
    ∙ ap (λ t. ltb (sub_u32 (u32 (start + d)) t) c.power_on_grace_ms) g.started
    ∙ ap (λ t. ltb t c.power_on_grace_ms) (elapsed start d h (omega arith))
    ∙ lt→ltb d c.power_on_grace_ms (omega (arith, g.long))

update_policy-InGrace :
    (start now_ms : ℕ) (p : ParkedPowerPolicy) (c : ParkedPowerController)
    → InGrace start c
    → InGrace start (update_policy p now_ms c)
unfolding update_policy store_policy reset_ignition_state
update_policy-InGrace start now_ms p c g = record {
  cause =
      if_keeps (λ (r : ParkedPowerController). r.wake_cause ≡ power_on_or_reset) _ g.cause g.cause;
  started =
      if_keeps (λ (r : ParkedPowerController). r.boot_started_ms ≡ start) _ g.started g.started;
  long =
      let bound = (clamp_value-bounds p.power_on_grace_ms 30000 600000 (omega arith)).0 in
      if_keeps (λ (r : ParkedPowerController). 30000 ≤ r.power_on_grace_ms) _ bound bound;
}

abbrev Awake : ℕ → ParkedPowerDecision × ParkedPowerController → Type 0
Awake start r = (r.0 ≡ stay_awake) × InGrace start r.1

tick-Awake :
    (start d : ℕ) (busy : Bool) (c : ParkedPowerController)
    → start < 2 ^ 32
    → d < 30000
    → InGrace start c
    → Awake start (tick (u32 (start + d)) busy c)
unfolding tick
tick-Awake start d busy c h near g =
    if_keeps (Awake start) c.entering_sleep (refl, g)
      (if_keeps (Awake start) (not (active c))
        (refl, record { cause = g.cause; started = g.started; long = g.long })
        (subst (Awake start)
          (sym (
            if_true (power_on_grace_active (u32 (start + d)) c) _ _
              (grace_active start d c h near g)))
          (refl, g)))

or_last : (a b c : Bool) → c ≡ true → (a || b || c) ≡ true
or_last a b c h = ground arith

finish_boot_probe-Awake :
    (start d : ℕ) (c : ParkedPowerController)
    → start < 2 ^ 32
    → d < 30000
    → InGrace start c
    → Awake start (finish_boot_probe (u32 (start + d)) c)
unfolding finish_boot_probe
finish_boot_probe-Awake start d c h near g =
    let c' : ParkedPowerController = record c { boot_probe_pending = false } in
    let g' : InGrace start c' = record { cause = g.cause; started = g.started; long = g.long } in
    (
      if_true
          (not (active c')
            || ignition_recently_on (u32 (start + d)) c'
            || power_on_grace_active (u32 (start + d)) c')
          _ sleep_boot_probe
          (or_last (not (active c')) (ignition_recently_on (u32 (start + d)) c') _
            (grace_active start d c' h near g')),
      g',
    )

step-InGrace :
    (start : ℕ) (k : Call) (c : ParkedPowerController)
    → start < 2 ^ 32
    → offset_of k < 30000
    → InGrace start c
    → ((step start k c).0 ≡ stay_awake) × InGrace start (step start k c).1
unfolding step observe_primary_frame observe_ignition note_busy begin_sleep defer_sleep
    set_boot_probe_pending
step-InGrace start (policy_updated p d) c h near g =
    (refl, update_policy-InGrace start (u32 (start + d)) p c g)
step-InGrace start (probe_finished d) c h near g = finish_boot_probe-Awake start d c h near g
step-InGrace start (ticked busy d) c h near g = tick-Awake start d busy c h near g
step-InGrace start (primary_seen d) c h near g =
    (refl, record { cause = g.cause; started = g.started; long = g.long })
step-InGrace start (ignition_seen_at on source d) c h near g =
    (refl, record { cause = g.cause; started = g.started; long = g.long })
step-InGrace start (busy_noted d) c h near g =
    (refl, record { cause = g.cause; started = g.started; long = g.long })
step-InGrace start (sleep_begun d) c h near g =
    (refl, record { cause = g.cause; started = g.started; long = g.long })
step-InGrace start (sleep_deferred d) c h near g =
    (refl, record { cause = g.cause; started = g.started; long = g.long })
step-InGrace start (probe_pending_set pending d) c h near g =
    (refl, record { cause = g.cause; started = g.started; long = g.long })

run-InGrace :
    (start : ℕ) (ks : List Call) (c : ParkedPowerController)
    → start < 2 ^ 32
    → All (λ k. offset_of k < 30000) ks
    → InGrace start c
    → All (λ d. d ≡ stay_awake) (decisions start ks c)
unfolding decisions
run-InGrace start [] c h near g = tt
run-InGrace start (k ∷ ks) c h near g =
    let (stays, kept) = step-InGrace start k c h near.0 g in
    (stays, run-InGrace start ks (step start k c).1 h near.1 kept)

initialize-InGrace :
    (policy : ParkedPowerPolicy) (override : Bool) (entries start : ℕ) (c : ParkedPowerController)
    → InGrace start (initialize policy override power_on_or_reset entries start c)
unfolding initialize update_policy store_policy reset_ignition_state
initialize-InGrace policy override entries start c =
    let bound = (clamp_value-bounds policy.power_on_grace_ms 30000 600000 (omega arith)).0 in
    record {
      cause =
          if_keeps (λ (r : ParkedPowerController). r.wake_cause ≡ power_on_or_reset) _ refl refl;
      started = if_keeps (λ (r : ParkedPowerController). r.boot_started_ms ≡ start) _ refl refl;
      long = if_keeps (λ (r : ParkedPowerController). 30000 ≤ r.power_on_grace_ms) _ bound bound;
    }

-- For the first 30 seconds after a start from power or reset, across the wrap of the clock too, no
-- sequence of calls decides to sleep, whatever policies are set on the way.
pub initialize-decisions :
    (policy : ParkedPowerPolicy) (override : Bool) (entries start : ℕ) (c : ParkedPowerController)
    (calls : List Call)
    → start < 2 ^ 32
    → All (λ k. offset_of k < 30000) calls
    → All
        (λ d. d ≡ stay_awake)
        (decisions start calls (initialize policy override power_on_or_reset entries start c))
initialize-decisions policy override entries start c calls h near =
    run-InGrace start calls _ h near (initialize-InGrace policy override entries start c)
