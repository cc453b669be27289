-- ===== src/Gateway/Queues.antt =====
-- The ingress ring `RawQueue` and the egress ring `EgressQueue` of each direction
-- (core/gateway.cpp): their operations and the statistics that these keep.
pub mod Ingress
pub mod Egress
pub mod Receive
use signal_scope_api.Base.{
  ℕ, ◌+◌, ◌-◌, ◌%◌, Bool, true, false, not, ◌||◌, ltb, leb, ◌==◌, if◌then◌else◌, store,
}
use signal_scope_api.Frame.{
  CanFrame, Direction, a_to_b, b_to_a, lane, set_lane, bump_lane, u16, u32,
}
use signal_scope_api.Gateway.State.{
  Gateway, GatewayStats, RawQueue, EgressQueue, PreparedFrame, rx_queue_size, egress_queue_size,
}

-- nextIndex
abbrev pub next_index : ℕ → ℕ
next_index index = u16 ((index + 1) % rx_queue_size)

abbrev pub depth_of : RawQueue → ℕ
depth_of q =
    if leb q.tail q.head then u16 (q.head - q.tail) else u16 (rx_queue_size - q.tail + q.head)

unfoldable pub raw_depth : Direction → Gateway → ℕ
raw_depth d g = depth_of (lane d g.raw)

unfoldable pub raw_pending : Direction → Gateway → Bool
raw_pending d g = not ((lane d g.raw).tail == (lane d g.raw).head)

unfoldable pub egress_has_capacity : Direction → Gateway → Bool
egress_has_capacity d g = ltb (lane d g.egress).count egress_queue_size

unfoldable pub egress_pending : Direction → Gateway → Bool
egress_pending d g = not ((lane d g.egress).count == 0)

unfoldable pub physical_backlog_pending : Gateway → Bool
unfolding raw_pending
physical_backlog_pending g =
    raw_pending a_to_b g
    || raw_pending b_to_a g
    || not ((lane a_to_b g.egress).count == 0)
    || not ((lane b_to_a g.egress).count == 0)

-- `stats_ = f(stats_)`
abbrev pub with_stats : (GatewayStats → GatewayStats) → Gateway → Gateway
with_stats f g = record g { stats = f g.stats }

unfoldable pub update_raw_depth : Gateway → Gateway
unfolding raw_depth
update_raw_depth g = record g {
  stats = record (g.stats) { rx_queue_depth = u16 (raw_depth a_to_b g + raw_depth b_to_a g) };
}

unfoldable pub update_egress_depth : Direction → Gateway → Gateway
update_egress_depth d g = record g {
  stats = record (g.stats) {
    egress_queue_depth = set_lane d ((lane d g.egress).count) g.stats.egress_queue_depth;
  };
}

abbrev pub record_tx_failure : Direction → GatewayStats → GatewayStats
record_tx_failure d s = record s { tx_failures = bump_lane d s.tx_failures }

abbrev pub record_deferred : Direction → GatewayStats → GatewayStats
record_deferred d s = record s { egress_deferred_frames = bump_lane d s.egress_deferred_frames }

abbrev pub record_retry_attempt : Direction → GatewayStats → GatewayStats
record_retry_attempt d s = record s { egress_retry_attempts = bump_lane d s.egress_retry_attempts }

abbrev pub record_full_stall : Direction → GatewayStats → GatewayStats
record_full_stall d s = record s { egress_full_stalls = bump_lane d s.egress_full_stalls }

abbrev pub record_rx_drop : Bool → GatewayStats → GatewayStats
record_rx_drop ready s = record s {
  rx_drops_run = if ready then u32 (s.rx_drops_run + 1) else s.rx_drops_run;
  rx_drops_boot = if ready then s.rx_drops_boot else u32 (s.rx_drops_boot + 1);
}

-- onFrameReceivedFromIsr
unfoldable pub on_frame_received_from_isr : CanFrame → Gateway → Bool × Gateway
unfolding update_raw_depth
on_frame_received_from_isr frame g =
    let queue = lane frame.direction g.raw in
    if next_index queue.head == queue.tail
    then (false, with_stats (record_rx_drop g.ready_gate) g)
    else (
      true,
      update_raw_depth (record g {
        raw =
            set_lane frame.direction
              (record queue {
                frames = store queue.frames queue.head frame;
                head = next_index queue.head;
              })
              g.raw;
      }),
    )

-- The step of pollRx that takes the oldest frame: `frame = queue.frames[queue.tail]`,
-- `frame.timestamp_us = now_us`, `queue.tail = nextIndex(queue.tail)`.
unfoldable pub take_raw : Direction → ℕ → Gateway → CanFrame × Gateway
take_raw d now_us g =
    let queue = lane d g.raw in
    (
      record (queue.frames queue.tail) { timestamp_us = now_us },
      record g { raw = set_lane d (record queue { tail = next_index queue.tail }) g.raw },
    )

unfoldable pub enqueue_prepared : PreparedFrame → Gateway → Bool × Gateway
unfolding update_egress_depth
enqueue_prepared p g =
    let d = p.frame.direction in
    let queue = lane d g.egress in
    if leb egress_queue_size queue.count then (false, g) else (
      true,
      update_egress_depth d (record g {
        egress =
            set_lane d
              (record queue {
                frames = store queue.frames queue.head p;
                head = (queue.head + 1) % egress_queue_size;
                count = queue.count + 1;
              })
              g.egress;
      }),
    )

-- The end of flushOneEgress, once the driver accepted the oldest frame.
unfoldable pub drop_egress : Direction → Gateway → Gateway
unfolding update_egress_depth
drop_egress d g =
    let queue = lane d g.egress in
    update_egress_depth d (record g {
      egress =
          set_lane d
            (record queue { tail = (queue.tail + 1) % egress_queue_size; count = queue.count - 1 })
            g.egress;
    })

-- purgeDirection
unfoldable pub purge_direction : Direction → Gateway → Gateway
unfolding raw_depth update_raw_depth update_egress_depth
purge_direction d g =
    let purged = raw_depth d g + (lane d g.egress).count in
    update_egress_depth d (
      update_raw_depth (record g {
        raw = set_lane d (record (lane d g.raw) { head = 0; tail = 0 }) g.raw;
        egress = set_lane d (record (lane d g.egress) { head = 0; tail = 0; count = 0 }) g.egress;
        stats = record (g.stats) {
          stale_frames_purged =
              set_lane d (u32 (lane d g.stats.stale_frames_purged + purged))
                g.stats.stale_frames_purged;
        };
      }))
