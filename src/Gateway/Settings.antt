-- ===== src/Gateway/Settings.antt =====
-- `init`, the setters and the published statistics of GatewayCore (core/gateway.cpp).
use signal_scope_api.Base.{
  ℕ, ◌+◌, ◌%◌, ◌<◌, ◌≡◌, ◌≢◌, refl, Bool, true, false, not, ◌==◌, if◌then◌else◌, arith, store,
  bit_and, ◌⊎◌, ltb, ◌||◌,
}
use signal_scope_api.Frame.{
  Direction, a_to_b, b_to_a, lane, both_lanes, mutation_direction_both, u8,
}
use signal_scope_api.Gateway.State.{
  Gateway, GatewayStats, Wiring, RawQueue, EgressQueue, stats_snapshot_count,
}
use signal_scope_api.Gateway.Queues.{physical_backlog_pending}
use signal_scope_api.Gateway.Queues.Ingress.{IsIngress}
use signal_scope_api.Gateway.Queues.Egress.{IsEgress}
use signal_scope_api.Gateway.Forward.{mutation_direction_allowed}

abbrev pub no_stats : GatewayStats
no_stats = record {
  forwarded_frames = 0;
  tx_failures = both_lanes 0;
  replay_injected_frames = 0;
  replay_dry_run_frames = 0;
  mutation_applied_frames = 0;
  passive_fast_path_frames = 0;
  observed_decoded_frames = 0;
  rx_drops_boot = 0;
  rx_drops_run = 0;
  rx_queue_depth = 0;
  egress_deferred_frames = both_lanes 0;
  egress_retry_attempts = both_lanes 0;
  egress_full_stalls = both_lanes 0;
  stale_frames_purged = both_lanes 0;
  replay_refused_frames = 0;
  egress_queue_depth = both_lanes 0;
  fast_path_latency_avg_us = 0;
  active_path_latency_avg_us = 0;
  fast_path_latency_samples = 0;
  active_path_latency_samples = 0;
}

abbrev empty_raw : RawQueue → RawQueue
empty_raw q = record q { head = 0; tail = 0 }

abbrev empty_egress : EgressQueue → EgressQueue
empty_egress q = record q { head = 0; tail = 0; count = 0 }

unfoldable pub init : Gateway → Gateway
init g = record g {
  ready_gate = false;
  active_can_writes_allowed = false;
  mutation_direction_mask = mutation_direction_both;
  raw = record {
    lane_a_to_b = empty_raw g.raw.lane_a_to_b;
    lane_b_to_a = empty_raw g.raw.lane_b_to_a;
  };
  egress = record {
    lane_a_to_b = empty_egress g.egress.lane_a_to_b;
    lane_b_to_a = empty_egress g.egress.lane_b_to_a;
  };
  next_raw_direction = a_to_b;
  next_egress_flush_direction = a_to_b;
  stats = no_stats;
  published_stats = λ i. if ltb i stats_snapshot_count then no_stats else g.published_stats i;
  stats_snapshot_readers =
      λ i. if ltb i stats_snapshot_count then 0 else g.stats_snapshot_readers i;
  active_stats_snapshot = 0;
}

-- The setters of the pointers, of which the model keeps whether they are null.
unfoldable pub set_wiring : (Wiring → Wiring) → Gateway → Gateway
set_wiring f g = record g { wiring = f g.wiring }

unfoldable pub set_ready_gate : Bool → Gateway → Gateway
set_ready_gate ready g = record g { ready_gate = ready }

unfoldable pub pause_signal_decoding : Gateway → Gateway
pause_signal_decoding g = record g { signal_decode_enabled = false }

unfoldable pub resume_signal_decoding : Gateway → Gateway
resume_signal_decoding g = record g { signal_decode_enabled = true }

unfoldable pub signal_decoding_idle : Gateway → Bool
signal_decoding_idle g = g.signal_decode_readers == 0

unfoldable pub set_active_can_writes_allowed : Bool → Gateway → Gateway
set_active_can_writes_allowed allowed g = record g { active_can_writes_allowed = allowed }

unfoldable pub set_mutation_direction_mask : ℕ → Gateway → Gateway
set_mutation_direction_mask mask g = record g {
  mutation_direction_mask = u8 (bit_and mask mutation_direction_both);
}

abbrev publish_to : ℕ → Gateway → Gateway
publish_to candidate g = record g {
  published_stats = store g.published_stats candidate g.stats;
  active_stats_snapshot = candidate;
}

abbrev pub candidate : ℕ → Gateway → ℕ
candidate offset g = u8 ((g.active_stats_snapshot + offset) % stats_snapshot_count)

-- The loop over the two inactive buffers, written out.
unfoldable pub publish_stats : Gateway → Gateway
publish_stats g =
    if not (g.stats_snapshot_readers (candidate 1 g) == 0)
    then if not (g.stats_snapshot_readers (candidate 2 g) == 0)
      then g
      else publish_to (candidate 2 g) g
    else publish_to (candidate 1 g) g

-- After init every ring is empty and sound in both directions, no physical frame waits, active
-- writes are off, and no direction is barred from mutation.
pub init_lem :
    (g : Gateway)
    → ((d : Direction) → IsIngress d (lane d (init g).raw))
      × ((d : Direction) → IsEgress d (lane d (init g).egress))
      × (physical_backlog_pending (init g) ≡ false)
      × ((init g).active_can_writes_allowed ≡ false)
      × ((d : Direction) → mutation_direction_allowed d (init g) ≡ true)
unfolding init physical_backlog_pending mutation_direction_allowed
init_lem g = (
  elim [
    | a_to_b ↦ record { head_in = omega arith; tail_in = omega arith; directions = tt }
    | b_to_a ↦ record { head_in = omega arith; tail_in = omega arith; directions = tt }
  ],
  elim [
    | a_to_b ↦ record {
      tail_in = omega arith;
      count_in = omega arith;
      head_at = refl;
      directions = tt;
    }
    | b_to_a ↦ record {
      tail_in = omega arith;
      count_in = omega arith;
      head_at = refl;
      directions = tt;
    }
  ],
  refl,
  refl,
  elim [ a_to_b ↦ refl | b_to_a ↦ refl ],
)

candidate_lem : (k : ℕ) (g : Gateway) → candidate k g ≡ (g.active_stats_snapshot + k) % 3
candidate_lem k g = omega arith

-- Publishing never writes the active buffer nor one that a reader holds: a buffer that is active or
-- has a reader is as before. Afterwards the active buffer holds the current statistics if one of the
-- other two buffers had no reader, and what it held before if both had one. The index of the active
-- buffer is below 3.
pub publish_stats_lem :
    (g : Gateway) (i : ℕ)
    → g.active_stats_snapshot < 3
    → (i ≡ g.active_stats_snapshot) ⊎ (g.stats_snapshot_readers i ≢ 0)
    → ((publish_stats g).published_stats i ≡ g.published_stats i)
      × ((publish_stats g).published_stats (publish_stats g).active_stats_snapshot ≡ (
          if (g.stats_snapshot_readers ((g.active_stats_snapshot + 1) % 3) == 0)
            || (g.stats_snapshot_readers ((g.active_stats_snapshot + 2) % 3) == 0)
          then g.stats
          else g.published_stats g.active_stats_snapshot))
unfolding publish_stats
publish_stats_lem g i h held =
    let first : candidate 1 g ≡ (g.active_stats_snapshot + 1) % 3 = candidate_lem 1 g in
    let second : candidate 2 g ≡ (g.active_stats_snapshot + 2) % 3 = candidate_lem 2 g in
    (ground arith, ground arith)
