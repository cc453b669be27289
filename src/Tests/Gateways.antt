-- ===== src/Tests/Gateways.antt =====
-- The theorems about the gateway at a concrete system.
use signal_scope_api.Base.{
  List, ◌∷◌, ◌+◌, ◌≡◌, ◌≢◌, refl, ap, arith, length, not, ◌==◌, true, false, inr, [],
}
use signal_scope_api.Frame.{Direction, a_to_b, b_to_a, lane, micros_sample_age, u32}
use signal_scope_api.Frame.Age.{micros_sample_age_lem}
use signal_scope_api.Gateway.Latency.{update_running_average_latency}
use signal_scope_api.Gateway.Latency.Average.{
  update_running_average_latency_lem, update_running_average_latency-saturated,
}
use signal_scope_api.Gateway.Queues.{
  raw_depth, on_frame_received_from_isr, purge_direction, physical_backlog_pending,
}
use signal_scope_api.Gateway.Queues.Ingress.{ingress, IsIngress}
use signal_scope_api.Gateway.Queues.Egress.{egress, IsEgress}
use signal_scope_api.Gateway.Queues.Receive.{
  Received, on_frame_received_from_isr-Received, purge_direction_lem,
}
use signal_scope_api.Gateway.Forward.{inject_replay_frame, mutation_direction_allowed}
use signal_scope_api.Gateway.Forward.Replay.{
  LeavesRings, LeavesQueues, inject_replay_frame-LeavesRings, inject_replay_frame-dry,
  inject_replay_frame-refused,
}
use signal_scope_api.Gateway.Poll.{
  flush_egress_fair, flush_loop, start_flush, poll_rx, poll_loop, start_poll,
}
use signal_scope_api.Gateway.Poll.Order.{Moves}
use signal_scope_api.Gateway.Poll.Conserve.{flush_egress_fair-Moves, poll_rx-Moves}
use signal_scope_api.Gateway.Poll.Bounds.{poll_loop_enough, flush_loop_enough}
use signal_scope_api.Gateway.Settings.{init, init_lem, publish_stats, publish_stats_lem}
use signal_scope_api.Gateway.Settings.{no_stats}
use signal_scope_api.Gateway.Snapshots.{
  Board, Action, idle, outside, confirmed, reader_loads, publisher_starts, reader_counts,
  publisher_checks, reader_checks, publisher_copies, act, run,
}
use signal_scope_api.Gateway.Snapshots.Steps.{IsBoard, NotShared}
use signal_scope_api.Gateway.Snapshots.Whole.{run-NotShared}
use signal_scope_api.Tests.Samples.{
  frame_of, sample_peers, sample_peers-KeepsIdentity, sample_gateway, sample_system,
  sample-IsIngress, sample-IsSound,
}

poll_rx-Moves_example : Moves sample_system (poll_rx sample_peers 5000 5 sample_system)
poll_rx-Moves_example =
    poll_rx-Moves sample_peers sample_peers-KeepsIdentity 5000 5 sample_system sample-IsSound

flush_egress_fair-Moves_example : Moves sample_system (flush_egress_fair sample_peers sample_system)
flush_egress_fair-Moves_example = flush_egress_fair-Moves sample_peers sample_system sample-IsSound

poll_loop_enough_example :
    poll_loop sample_peers 5000 5 17 (start_poll sample_peers sample_system)
    ≡ poll_loop sample_peers 5000 5 40 (start_poll sample_peers sample_system)
unfolding start_poll
poll_loop_enough_example =
    poll_loop_enough sample_peers 5000 5 17 40 (start_poll sample_peers sample_system) (omega arith)
      (omega arith) (omega arith)

flush_loop_enough_example :
    flush_loop sample_peers 17 (start_flush sample_peers sample_system)
    ≡ flush_loop sample_peers 40 (start_flush sample_peers sample_system)
unfolding start_flush
flush_loop_enough_example =
    flush_loop_enough sample_peers 17 40 (start_flush sample_peers sample_system) (omega arith)
      (omega arith)

on_frame_received_from_isr-Received_example :
    Received
      (frame_of 0x300 a_to_b)
      (not (raw_depth a_to_b sample_gateway == 127))
      sample_gateway
      (on_frame_received_from_isr (frame_of 0x300 a_to_b) sample_gateway)
on_frame_received_from_isr-Received_example =
    on_frame_received_from_isr-Received (frame_of 0x300 a_to_b) sample_gateway sample-IsIngress

inject_replay_frame-LeavesRings_example :
    LeavesRings sample_system
      (inject_replay_frame sample_peers (frame_of 0x101 b_to_a) true sample_system).1
inject_replay_frame-LeavesRings_example =
    inject_replay_frame-LeavesRings sample_peers (frame_of 0x101 b_to_a) true sample_system

inject_replay_frame-dry_example :
    ((inject_replay_frame sample_peers (frame_of 0x101 b_to_a) true sample_system).0 ≡ true)
    × LeavesQueues sample_system
        (inject_replay_frame sample_peers (frame_of 0x101 b_to_a) true sample_system).1
inject_replay_frame-dry_example =
    inject_replay_frame-dry sample_peers (frame_of 0x101 b_to_a) sample_system

sample_waits : egress (lane a_to_b sample_system.core.egress) ≢ []
sample_waits empty =
    let two : length (egress (lane a_to_b sample_system.core.egress)) ≡ 2 = refl in
    absurd (omega (arith, ap length empty))

inject_replay_frame-refused_example :
    ((inject_replay_frame sample_peers (frame_of 0x101 b_to_a) false sample_system).0 ≡ false)
    × LeavesQueues sample_system
        (inject_replay_frame sample_peers (frame_of 0x101 b_to_a) false sample_system).1
    × ((inject_replay_frame sample_peers
          (frame_of 0x101 b_to_a)
          false
          sample_system).1.core.stats.replay_refused_frames
        ≡ 1)
inject_replay_frame-refused_example =
    inject_replay_frame-refused sample_peers (frame_of 0x101 b_to_a) false a_to_b sample_system
      (inr (refl, inr sample_waits))

purge_direction_lem_example :
    let h = purge_direction a_to_b sample_gateway in
    (ingress (lane a_to_b h.raw) ≡ [])
    × (egress (lane a_to_b h.egress) ≡ [])
    × IsIngress a_to_b (lane a_to_b h.raw)
    × IsEgress a_to_b (lane a_to_b h.egress)
    × ((on_frame_received_from_isr (frame_of 0x300 a_to_b) h).0 ≡ true)
    × (ingress (lane a_to_b (on_frame_received_from_isr (frame_of 0x300 a_to_b) h).1.raw)
        ≡ frame_of 0x300 a_to_b ∷ [])
    × (lane b_to_a h.raw ≡ lane b_to_a sample_gateway.raw)
    × (lane b_to_a h.egress ≡ lane b_to_a sample_gateway.egress)
    × (lane a_to_b h.stats.stale_frames_purged ≡ u32 (0 + (raw_depth a_to_b sample_gateway + 2)))
purge_direction_lem_example =
    purge_direction_lem (frame_of 0x300 a_to_b) a_to_b sample_gateway refl (sample-IsIngress b_to_a)

init_lem_example :
    ((d : Direction) → IsIngress d (lane d (init sample_gateway).raw))
    × ((d : Direction) → IsEgress d (lane d (init sample_gateway).egress))
    × (physical_backlog_pending (init sample_gateway) ≡ false)
    × ((init sample_gateway).active_can_writes_allowed ≡ false)
    × ((d : Direction) → mutation_direction_allowed d (init sample_gateway) ≡ true)
init_lem_example = init_lem sample_gateway

publish_stats_lem_example :
    ((publish_stats sample_gateway).published_stats 0 ≡ sample_gateway.published_stats 0)
    × ((publish_stats sample_gateway).published_stats
          (publish_stats sample_gateway).active_stats_snapshot
        ≡ sample_gateway.stats)
publish_stats_lem_example = publish_stats_lem sample_gateway 0 (omega arith) (inr (omega arith))

micros_sample_age_lem_example : micros_sample_age (u32 (0xFFFFFFFE + 5)) 0xFFFFFFFE ≡ 5
micros_sample_age_lem_example = micros_sample_age_lem 0xFFFFFFFE 5 (omega arith) (omega arith)

update_running_average_latency_lem_example : update_running_average_latency 10 40 2 ≡ (30, 3)
update_running_average_latency_lem_example =
    update_running_average_latency_lem 10 40 2 (omega arith) (omega arith) (omega arith)

update_running_average_latency-saturated_example :
    update_running_average_latency 50 10 0xFFFFFFFF ≡ (0xFFFFFFE2, 0xFFFFFFFF)
update_running_average_latency-saturated_example =
    update_running_average_latency-saturated 50 10 (omega arith) (omega arith)

abbrev sample_board : Board
sample_board = record {
  publisher = idle;
  reader = outside;
  stats = no_stats;
  published_stats = λ i. no_stats;
  active_stats_snapshot = 2;
  stats_snapshot_readers = λ i. 0;
  other_readers = λ i. 0;
}

sample_board-IsBoard : IsBoard sample_board
sample_board-IsBoard = record {
  active_in = omega arith;
  pinned = λ k. refl;
  apart = tt;
  not_shared = tt;
}

-- The reader confirms buffer 2 while the publisher starts to write another one.
abbrev sample_actions : List Action
sample_actions =
    reader_loads ∷ publisher_starts ∷ reader_counts ∷ publisher_checks ∷ reader_checks ∷ []

run-NotShared_example :
    NotShared (run sample_actions sample_board).publisher (confirmed 2)
    × ((act publisher_copies (run sample_actions sample_board)).published_stats 2
        ≡ (run sample_actions sample_board).published_stats 2)
unfolding run act
run-NotShared_example =
    run-NotShared sample_board sample_actions publisher_copies 2 sample_board-IsBoard refl
