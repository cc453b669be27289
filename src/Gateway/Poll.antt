-- ===== src/Gateway/Poll.antt =====
-- The loops of the CAN task (core/gateway.cpp): `flushOneEgress`, `flushEgressFair`, `pollRx`.
-- Each `while` takes fuel: one round more than its budget, since a round that goes on spends one.
pub mod Order
pub mod Conserve
pub mod Bounds
use signal_scope_api.Base.{
  ℕ, zero, suc, ◌+◌, ◌-◌, Bool, true, false, not, ◌&&◌, ◌||◌, ◌==◌, if◌then◌else◌, ltb,
}
use signal_scope_api.Frame.{
  CanFrame, Direction, a_to_b, b_to_a, Lanes, lane, set_lane, both_lanes, opposite,
}
use signal_scope_api.Gateway.State.{
  Peers, PreparedFrame, max_raw_frames_per_poll, max_egress_frames_per_poll,
}
use signal_scope_api.Gateway.Queues.{
  raw_pending, egress_pending, egress_has_capacity, with_stats, record_retry_attempt,
  record_full_stall, take_raw, drop_egress, update_raw_depth,
}
use signal_scope_api.Gateway.Forward.{System, dispatch_prepared, forward_frame}

-- The variables of flushEgressFair.
pub record Flush (World : Type 0) : Type 0 where
  pub system : System World
  pub blocked : Lanes Bool
  pub budget : ℕ
  pub attempted : Bool

-- The variables of pollRx.
pub record Poll (World : Type 0) : Type 0 where
  pub system : System World
  pub blocked : Lanes Bool
  pub processed : ℕ
  pub progressed : Bool

module _ (peers : Peers) where
  open peers use {World}

  -- `const PreparedFrame& = queue.frames[queue.tail]`
  abbrev oldest_egress : Direction → System World → PreparedFrame
  oldest_egress d s = (lane d s.core.egress).frames (lane d s.core.egress).tail

  unfoldable pub flush_one_egress : Direction → System World → Bool × System World
  flush_one_egress d s =
      let retried = record s { core = with_stats (record_retry_attempt d) s.core } in
      let (accepted, s') = dispatch_prepared peers (oldest_egress d s) false false retried in
      if (lane d s.core.egress).count == 0
      then (true, s)
      else if accepted
      then (true, record s' { core = drop_egress d s'.core })
      else (false, s')

  -- One turn of the inner loop of flushEgressFair.
  unfoldable pub flush_turn : Direction → Flush World → Flush World
  flush_turn d f =
      let (flushed, s) = flush_one_egress d f.system in
      if ltb 0 f.budget && not (lane d f.blocked || not (egress_pending d f.system.core))
      then record {
        system = s;
        blocked = set_lane d (lane d f.blocked || not flushed) f.blocked;
        budget = f.budget - 1;
        attempted = true;
      }
      else f

  -- One round of its outer loop, with the turn of the direction to start with next time.
  unfoldable pub flush_round : Flush World → Flush World
  unfolding flush_turn
  flush_round f =
      let first = f.system.core.next_egress_flush_direction in
      let g = flush_turn (opposite first) (flush_turn first (record f { attempted = false })) in
      record g {
        system = record (g.system) {
          core = record (g.system.core) { next_egress_flush_direction = opposite first };
        };
      }

  unfoldable pub flush_loop : ℕ → Flush World → Flush World
  flush_loop zero f = f
  flush_loop (suc fuel) f =
      let g = flush_round f in
      let rest = flush_loop fuel g in
      if ltb 0 f.budget
      then if not g.attempted || (lane a_to_b g.blocked && lane b_to_a g.blocked) then g else rest
      else f

  unfoldable pub start_flush : System World → Flush World
  start_flush s = record {
    system = s;
    blocked = both_lanes false;
    budget = max_egress_frames_per_poll;
    attempted = false;
  }

  unfoldable pub flush_egress_fair : System World → System World
  unfolding start_flush
  flush_egress_fair s = (flush_loop (max_egress_frames_per_poll + 1) (start_flush s)).system

  -- One turn of the inner loop of pollRx.
  unfoldable pub poll_turn : ℕ → ℕ → Direction → Poll World → Poll World
  poll_turn now_us now_ms d p =
      let s = p.system in
      let (frame, g) = take_raw d now_us s.core in
      if not (ltb p.processed max_raw_frames_per_poll)
      then p
      else if lane d p.blocked || not (raw_pending d s.core)
      then p
      else if not (egress_has_capacity d s.core)
      then record p {
        system = record s { core = with_stats (record_full_stall d) s.core };
        blocked = set_lane d true p.blocked;
      }
      else record p {
        system = (forward_frame peers frame false false now_ms (record s { core = g })).1;
        processed = p.processed + 1;
        progressed = true;
      }

  unfoldable pub poll_round : ℕ → ℕ → Poll World → Poll World
  unfolding poll_turn
  poll_round now_us now_ms p =
      let first = p.system.core.next_raw_direction in
      let q =
        poll_turn now_us now_ms (opposite first)
          (poll_turn now_us now_ms first (record p { progressed = false })) in
      record q {
        system = record (q.system) {
          core = record (q.system.core) { next_raw_direction = opposite first };
        };
      }

  unfoldable pub poll_loop : ℕ → ℕ → ℕ → Poll World → Poll World
  poll_loop now_us now_ms zero p = p
  poll_loop now_us now_ms (suc fuel) p =
      let q = poll_round now_us now_ms p in
      let rest = poll_loop now_us now_ms fuel q in
      if ltb p.processed max_raw_frames_per_poll
      then if not q.progressed || (lane a_to_b q.blocked && lane b_to_a q.blocked) then q else rest
      else p

  unfoldable pub start_poll : System World → Poll World
  start_poll s = record {
    system = s;
    blocked = both_lanes false;
    processed = 0;
    progressed = false;
  }

  unfoldable pub poll_rx : ℕ → ℕ → System World → System World
  unfolding start_poll
  poll_rx now_us now_ms s =
      let p =
        poll_loop now_us now_ms (max_raw_frames_per_poll + 1) (start_poll (flush_egress_fair s)) in
      record (p.system) { core = update_raw_depth p.system.core }
