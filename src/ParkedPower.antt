-- ===== src/ParkedPower.antt =====
-- ParkedPowerController (core/parked_power.hpp, core/parked_power.cpp): when a parked host may go
-- to sleep. An atomic flag is a Bool, an atomic counter or time a number; one call is one step.
pub mod Runs
pub mod Idle
use signal_scope_api.Base.{
  ℕ, ◌-◌, ◌+◌, ◌%◌, ◌^◌, Bool, true, false, not, ◌&&◌, ◌||◌, ltb, leb, ◌==◌, if◌then◌else◌,
}
use signal_scope_api.Frame.{sub_u32, u32}

pub record ParkedPowerPolicy : Type 0 where
  pub available : Bool
  pub enabled : Bool
  pub sleep_delay_ms : ℕ
  pub wake_timer_seconds : ℕ
  pub boot_probe_ms : ℕ
  pub power_on_grace_ms : ℕ

pub data ParkedPowerWakeCause : Type 0 where
  power_on_or_reset can_rx timer gpio other : ParkedPowerWakeCause

pub data ParkedPowerDecision : Type 0 where
  stay_awake sleep_ignition_off sleep_ignition_unknown sleep_boot_probe : ParkedPowerDecision

pub record ParkedPowerController : Type 0 where
  pub available : Bool
  pub enabled : Bool
  pub maintenance_override : Bool
  pub ignition_seen : Bool
  pub ignition_raw_on : Bool
  pub ignition_source : ℕ
  pub boot_probe_pending : Bool
  pub entering_sleep : Bool
  pub wake_cause : ParkedPowerWakeCause
  pub sleep_delay_ms : ℕ
  pub wake_timer_seconds : ℕ
  pub boot_probe_ms : ℕ
  pub power_on_grace_ms : ℕ
  pub boot_started_ms : ℕ
  pub last_awake_ms : ℕ
  pub last_primary_ms : ℕ
  pub last_ignition_on_ms : ℕ
  pub last_ignition_off_ms : ℕ
  pub deep_sleep_entries : ℕ

unfoldable pub clamp_value : ℕ → ℕ → ℕ → ℕ
clamp_value value minimum maximum =
    if ltb value minimum then minimum else if ltb maximum value then maximum else value

unfoldable pub age_or_zero : ℕ → ℕ → ℕ
age_or_zero now_ms timestamp_ms = if timestamp_ms == 0 then 0 else sub_u32 now_ms timestamp_ms

unfoldable pub active : ParkedPowerController → Bool
active c = c.available && c.enabled && not c.maintenance_override

unfoldable pub reset_ignition_state : ParkedPowerController → ParkedPowerController
reset_ignition_state c = record c {
  ignition_seen = false;
  ignition_raw_on = false;
  ignition_source = 0;
  last_ignition_on_ms = 0;
  last_ignition_off_ms = 0;
}

-- `a != b`
abbrev pub differ : Bool → Bool → Bool
differ true b = not b
differ false b = b

-- The first half of updatePolicy: what it stores of the policy.
unfoldable pub store_policy : ParkedPowerPolicy → ParkedPowerController → ParkedPowerController
unfolding clamp_value
store_policy policy c = record c {
  sleep_delay_ms = clamp_value policy.sleep_delay_ms 5000 600000;
  wake_timer_seconds = clamp_value policy.wake_timer_seconds 30 86400;
  boot_probe_ms = clamp_value policy.boot_probe_ms 100 5000;
  power_on_grace_ms = clamp_value policy.power_on_grace_ms 30000 600000;
  available = policy.available;
  enabled = policy.available && policy.enabled;
}

unfoldable pub update_policy : ParkedPowerPolicy → ℕ → ParkedPowerController → ParkedPowerController
unfolding store_policy active reset_ignition_state
update_policy policy now_ms c =
    let s = store_policy policy c in
    let a = record s {
      last_awake_ms = if not (active s) || not (active c) then now_ms else s.last_awake_ms;
    } in
    let r =
      if differ c.available policy.available || differ (active c) (active s)
      then reset_ignition_state a
      else a in
    record r {
      entering_sleep = active s && r.entering_sleep;
      boot_probe_pending = active s && r.boot_probe_pending;
    }

unfoldable pub initialize :
    ParkedPowerPolicy
    → Bool
    → ParkedPowerWakeCause
    → ℕ
    → ℕ
    → ParkedPowerController
    → ParkedPowerController
unfolding update_policy
initialize policy maintenance_override wake_cause deep_sleep_entries now_ms c =
    update_policy policy now_ms (
      reset_ignition_state (record c {
        available = false;
        enabled = false;
        maintenance_override = maintenance_override;
        wake_cause = wake_cause;
        deep_sleep_entries = deep_sleep_entries;
        boot_probe_pending = false;
        entering_sleep = false;
        boot_started_ms = now_ms;
        last_awake_ms = now_ms;
        last_primary_ms = 0;
      }))

unfoldable pub observe_primary_frame : ℕ → ParkedPowerController → ParkedPowerController
observe_primary_frame now_ms c = record c { last_primary_ms = now_ms }

unfoldable pub observe_ignition : Bool → ℕ → ℕ → ParkedPowerController → ParkedPowerController
observe_ignition ignition_on source now_ms c = record c {
  ignition_seen = true;
  ignition_raw_on = ignition_on;
  ignition_source = source;
  last_ignition_on_ms = if ignition_on then now_ms else c.last_ignition_on_ms;
  last_awake_ms = if ignition_on then now_ms else c.last_awake_ms;
  last_ignition_off_ms = if ignition_on then c.last_ignition_off_ms else now_ms;
}

unfoldable pub note_busy : ℕ → ParkedPowerController → ParkedPowerController
note_busy now_ms c = record c { last_awake_ms = now_ms }

unfoldable pub boot_probe_required : ParkedPowerController → Bool
unfolding active
boot_probe_required c = active c && not c.entering_sleep

unfoldable pub ignition_recently_on : ℕ → ParkedPowerController → Bool
ignition_recently_on now_ms c =
    if not c.ignition_raw_on
    then false
    else if c.last_ignition_on_ms == 0
    then false
    else leb (sub_u32 now_ms c.last_ignition_on_ms) c.sleep_delay_ms

abbrev pub is_power_on : ParkedPowerWakeCause → Bool
is_power_on power_on_or_reset = true
is_power_on _ = false

unfoldable pub power_on_grace_active : ℕ → ParkedPowerController → Bool
power_on_grace_active now_ms c =
    if not (is_power_on c.wake_cause)
    then false
    else ltb (sub_u32 now_ms c.boot_started_ms) c.power_on_grace_ms

unfoldable pub finish_boot_probe :
    ℕ → ParkedPowerController → ParkedPowerDecision × ParkedPowerController
unfolding active ignition_recently_on power_on_grace_active
finish_boot_probe now_ms c =
    let c' = record c { boot_probe_pending = false } in
    (
      if not (active c') || ignition_recently_on now_ms c' || power_on_grace_active now_ms c'
          then stay_awake
          else sleep_boot_probe,
      c',
    )

unfoldable pub tick : ℕ → Bool → ParkedPowerController → ParkedPowerDecision × ParkedPowerController
unfolding active ignition_recently_on power_on_grace_active note_busy
tick now_ms busy c =
    if c.entering_sleep
    then (stay_awake, c)
    else if not (active c)
    then (stay_awake, record c { last_awake_ms = now_ms })
    else if power_on_grace_active now_ms c
    then (stay_awake, c)
    else if busy
    then (stay_awake, note_busy now_ms c)
    else if ignition_recently_on now_ms c
    then (stay_awake, c)
    else if ltb (sub_u32 now_ms c.last_awake_ms) c.sleep_delay_ms
    then (stay_awake, c)
    else (if c.ignition_seen then sleep_ignition_off else sleep_ignition_unknown, c)

-- A compare-and-exchange of the flag from 0 to 1.
unfoldable pub begin_sleep : ParkedPowerController → Bool × ParkedPowerController
begin_sleep c = (not c.entering_sleep, record c { entering_sleep = true })

unfoldable pub defer_sleep : ℕ → ParkedPowerController → ParkedPowerController
defer_sleep now_ms c = record c { last_awake_ms = now_ms; entering_sleep = false }

unfoldable pub set_boot_probe_pending : Bool → ParkedPowerController → ParkedPowerController
set_boot_probe_pending pending c = record c { boot_probe_pending = pending }

pub record ParkedPowerStatus : Type 0 where
  pub available : Bool
  pub enabled : Bool
  pub is_active : Bool
  pub maintenance_override : Bool
  pub ignition_seen : Bool
  pub ignition_on : Bool
  pub ignition_raw_on : Bool
  pub boot_probe_pending : Bool
  pub entering_sleep : Bool
  pub ignition_source : ℕ
  pub wake_cause : ParkedPowerWakeCause
  pub last_primary_age_ms : ℕ
  pub last_ignition_on_age_ms : ℕ
  pub last_ignition_off_age_ms : ℕ
  pub sleep_delay_ms : ℕ
  pub wake_timer_seconds : ℕ
  pub boot_probe_ms : ℕ
  pub deep_sleep_entries : ℕ

unfoldable pub snapshot : ℕ → ParkedPowerController → ParkedPowerStatus
unfolding active ignition_recently_on age_or_zero
snapshot now_ms c = record {
  available = c.available;
  enabled = c.enabled;
  is_active = active c;
  maintenance_override = c.maintenance_override;
  ignition_seen = c.ignition_seen;
  ignition_on = ignition_recently_on now_ms c;
  ignition_raw_on = c.ignition_raw_on;
  boot_probe_pending = c.boot_probe_pending;
  entering_sleep = c.entering_sleep;
  ignition_source = c.ignition_source;
  wake_cause = c.wake_cause;
  last_primary_age_ms = age_or_zero now_ms c.last_primary_ms;
  last_ignition_on_age_ms = age_or_zero now_ms c.last_ignition_on_ms;
  last_ignition_off_age_ms = age_or_zero now_ms c.last_ignition_off_ms;
  sleep_delay_ms = c.sleep_delay_ms;
  wake_timer_seconds = c.wake_timer_seconds;
  boot_probe_ms = c.boot_probe_ms;
  deep_sleep_entries = c.deep_sleep_entries;
}
