-- ===== src/Tests/Hosts.antt =====
-- The theorems about parked power and the trace queue at concrete values.
use signal_scope_api.Base.{some, ◌≡◌, refl, arith, true, false, List, [], ◌∷◌, All}
use signal_scope_api.Frame.{a_to_b, u32}
use signal_scope_api.ParkedPower.{
  ParkedPowerPolicy, ParkedPowerController, power_on_or_reset, can_rx, stay_awake, initialize,
  note_busy,
}
use signal_scope_api.ParkedPower.Runs.{
  Call, policy_updated, ticked, probe_finished, ignition_seen_at, decisions, initialize-decisions,
}
use signal_scope_api.ParkedPower.Idle.{note_busy-decisions}
use signal_scope_api.CanTrace.{CanTraceQueue, CanTraceEvent, event_of, transmitted, all, push, pop}
use signal_scope_api.CanTrace.Fifo.{
  waiting, IsQueue, Pushed, push-Pushed, first, rest_of, waiting-pop,
}
use mathlib.Core.Option
use signal_scope_api.Frame.{b_to_a}
use signal_scope_api.Observation.{ObservationKey, contains, build_table}
use signal_scope_api.Observation.Table.{contains-build_table}
use signal_scope_api.Tests.Samples.{frame_of}

abbrev sample_policy : ParkedPowerPolicy
sample_policy = record {
  available = true;
  enabled = true;
  sleep_delay_ms = 10;
  wake_timer_seconds = 300;
  boot_probe_ms = 1200;
  power_on_grace_ms = 0;
}

abbrev sample_controller : ParkedPowerController
sample_controller = record {
  available = true;
  enabled = true;
  maintenance_override = false;
  ignition_seen = true;
  ignition_raw_on = false;
  ignition_source = 1;
  boot_probe_pending = false;
  entering_sleep = false;
  wake_cause = can_rx;
  sleep_delay_ms = 5000;
  wake_timer_seconds = 300;
  boot_probe_ms = 1200;
  power_on_grace_ms = 30000;
  boot_started_ms = 0;
  last_awake_ms = 9;
  last_primary_ms = 0;
  last_ignition_on_ms = 0;
  last_ignition_off_ms = 0;
  deep_sleep_entries = 2;
}

abbrev boot_calls : List Call
boot_calls = probe_finished 1200 ∷ policy_updated sample_policy 2000 ∷ ticked false 29999 ∷ []

initialize-decisions_example :
    All
      (λ d. d ≡ stay_awake)
      (decisions 0xFFFFFFF0 boot_calls
        (initialize sample_policy false power_on_or_reset 3 0xFFFFFFF0 sample_controller))
initialize-decisions_example =
    initialize-decisions sample_policy false 3 0xFFFFFFF0 sample_controller boot_calls (omega arith)
      (omega arith, (omega arith, (omega arith, tt)))

abbrev idle_calls : List Call
idle_calls = ticked false 4000 ∷ ignition_seen_at false 2 4500 ∷ ticked false 4999 ∷ []

note_busy-decisions_example :
    All
      (λ d. d ≡ stay_awake)
      (decisions 0xFFFFFFF0 idle_calls (note_busy (u32 0xFFFFFFF0) sample_controller))
note_busy-decisions_example =
    note_busy-decisions 0xFFFFFFF0 sample_controller idle_calls (omega arith) (
      tt,
      omega arith,
      omega arith,
      (tt, omega arith, omega arith, (tt, omega arith, omega arith, tt)),
    )

abbrev sample_event : CanTraceEvent
sample_event = event_of (frame_of 0x123 a_to_b) transmitted 0

-- Two events wait across the wrap of the indices, and there is room for two more.
abbrev sample_queue : CanTraceQueue
sample_queue = record {
  allocated = true;
  events = λ i. record sample_event { sequence = i };
  capacity = 4;
  write_index = 1;
  read_index = 0xFFFFFFFF;
  next_sequence = 7;
  dropped = 0;
  produced = 7;
  producer_inflight = 0;
  scope = all;
  active = true;
}

sample_queue-IsQueue : IsQueue sample_queue
sample_queue-IsQueue = record {
  some_room = omega arith;
  capacity_in = omega arith;
  divides = omega arith;
  write_in = omega arith;
  read_in = omega arith;
  within = omega arith;
}

push-Pushed_example : Pushed sample_event sample_queue (push sample_event sample_queue)
push-Pushed_example = push-Pushed sample_event sample_queue refl sample_queue-IsQueue (omega arith)

waiting-pop_example :
    ((pop sample_queue).0 ≡ first (waiting sample_queue))
    × (waiting (pop sample_queue).1 ≡ rest_of (waiting sample_queue))
    × IsQueue (pop sample_queue).1
waiting-pop_example = waiting-pop sample_queue refl sample_queue-IsQueue

abbrev sample_keys : List ObservationKey
sample_keys =
    record { can_id = 0x101; direction = a_to_b }
    ∷ record { can_id = 0x141; direction = b_to_a }
    ∷ []

contains-build_table_example :
    Option.map
      (λ t. contains t (record { can_id = 0x141; direction = b_to_a }))
      (build_table sample_keys)
    ≡ some true
contains-build_table_example =
    contains-build_table sample_keys (record { can_id = 0x141; direction = b_to_a })
