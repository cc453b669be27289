-- ===== src/Gateway/State.antt =====
-- The fields of GatewayCore and of GatewayStats (core/gateway.hpp).
use signal_scope_api.Base.{ℕ, Bool, Array}
use signal_scope_api.Frame.{CanFrame, Direction, Lanes}

-- A pair of fields `x_a_to_b`, `x_b_to_a` of the source is one field `x` with two lanes.
pub record GatewayStats : Type 0 where
  pub forwarded_frames : ℕ
  pub tx_failures : Lanes ℕ
  pub replay_injected_frames : ℕ
  pub replay_dry_run_frames : ℕ
  pub mutation_applied_frames : ℕ
  pub passive_fast_path_frames : ℕ
  pub observed_decoded_frames : ℕ
  pub rx_drops_boot : ℕ
  pub rx_drops_run : ℕ
  pub rx_queue_depth : ℕ
  pub egress_deferred_frames : Lanes ℕ
  pub egress_retry_attempts : Lanes ℕ
  pub egress_full_stalls : Lanes ℕ
  pub stale_frames_purged : Lanes ℕ
  pub replay_refused_frames : ℕ
  pub egress_queue_depth : Lanes ℕ
  pub fast_path_latency_avg_us : ℕ
  pub active_path_latency_avg_us : ℕ
  pub fast_path_latency_samples : ℕ
  pub active_path_latency_samples : ℕ

pub record PreparedFrame : Type 0 where
  pub frame : CanFrame
  pub processing_start_us : ℕ
  pub active_path : Bool

pub record EgressQueue : Type 0 where
  pub frames : Array PreparedFrame
  pub head : ℕ
  pub tail : ℕ
  pub count : ℕ

pub record RawQueue : Type 0 where
  pub frames : Array CanFrame
  pub head : ℕ
  pub tail : ℕ

abbrev pub rx_queue_size : ℕ
rx_queue_size = 128

abbrev pub egress_queue_size : ℕ
egress_queue_size = 64

abbrev pub max_raw_frames_per_poll : ℕ
max_raw_frames_per_poll = 16

abbrev pub max_egress_frames_per_poll : ℕ
max_egress_frames_per_poll = 16

-- kStatsSnapshotCount
abbrev pub stats_snapshot_count : ℕ
stats_snapshot_count = 3

-- Which of the pointers to the other components are not null.
pub record Wiring : Type 0 where
  pub mutation_engine : Bool
  pub replay_engine : Bool
  pub tx_driver : Bool
  pub trace_callback : Bool
  pub frame_cache : Bool
  pub ingress_frame_cache : Bool
  pub signal_cache : Bool
  pub observation_manager : Bool
  pub dbc_active_ptr : Bool

pub record Gateway : Type 0 where
  pub raw : Lanes RawQueue
  pub next_raw_direction : Direction
  pub egress : Lanes EgressQueue
  pub next_egress_flush_direction : Direction
  pub wiring : Wiring
  pub signal_decode_enabled : Bool
  pub signal_decode_readers : ℕ
  pub active_can_writes_allowed : Bool
  pub mutation_direction_mask : ℕ
  pub ready_gate : Bool
  pub stats : GatewayStats
  pub published_stats : Array GatewayStats
  pub active_stats_snapshot : ℕ
  pub stats_snapshot_readers : Array ℕ

-- What the gateway calls. `World` is the state of the other components and of the hardware; each
-- operation takes it and returns it. The pointers' null tests stay in the gateway (`Wiring`).
pub record Peers : Type 1 where
  pub World : Type 0
  -- the TxDriver callback: whether the controller of that direction accepted the frame
  pub tx_driver : Direction → CanFrame → World → Bool × World
  -- the Arduino clock, a uint32_t
  pub micros : World → ℕ × World
  pub millis : World → ℕ × World
  -- MutationEngine::hasRulesForFrame, applyFrameMutations
  pub has_rules_for_frame : ℕ → Direction → World → Bool
  pub apply_frame_mutations : CanFrame → World → ℕ × CanFrame × World
  -- ObservationManager::isObserved
  pub is_observed : ℕ → Direction → World → Bool
  -- the database pointer is not null, and SignalCache::decodeObservedFrame with it
  pub dbc_loaded : World → Bool
  pub decode_observed_frame : CanFrame → World → ℕ × World
  -- FrameCache::update on either cache: frame, now_ms, mutated, input frame, synthetic
  pub frame_cache_update : CanFrame → ℕ → Bool → CanFrame → Bool → World → World
  pub frame_cache_update_passive : CanFrame → ℕ → Bool → World → World
  pub ingress_frame_cache_update : CanFrame → ℕ → Bool → World → World
  -- the TraceCallback: input, output, mutated, synthetic
  pub trace_callback : CanFrame → CanFrame → Bool → Bool → World → World
