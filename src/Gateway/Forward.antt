-- ===== src/Gateway/Forward.antt =====
-- The path of one frame (core/gateway.cpp): `forwardFrame`, `dispatchPrepared`,
-- `injectReplayFrame`. The flags that other tasks write are taken as constant during one call.
pub mod Steps
pub mod Replay
use signal_scope_api.Base.{
  ℕ, ◌+◌, Bool, true, false, not, ◌&&◌, ◌==◌, if◌then◌else◌, ltb, List, [], ◌∷◌, ◌++◌, bit_and,
}
use signal_scope_api.Frame.{
  CanFrame, Direction, Lanes, lane, set_lane, mutation_direction_bit, sub_u32, u32,
}
use signal_scope_api.Gateway.State.{Gateway, GatewayStats, PreparedFrame, Peers}
use signal_scope_api.Gateway.Latency.{update_running_average_latency}
use signal_scope_api.Gateway.Queues.{
  with_stats, physical_backlog_pending, egress_pending, enqueue_prepared, record_tx_failure,
  record_deferred,
}

-- The gateway, what it calls, and the frames that each driver has accepted so far, oldest first.
pub record System (World : Type 0) : Type 0 where
  pub core : Gateway
  pub world : World
  pub sent : Lanes (List CanFrame)

-- mutationDirectionAllowed
unfoldable pub mutation_direction_allowed : Direction → Gateway → Bool
mutation_direction_allowed d g =
    not (bit_and g.mutation_direction_mask (mutation_direction_bit d) == 0)

abbrev pub count_refused : GatewayStats → GatewayStats
count_refused s = record s { replay_refused_frames = u32 (s.replay_refused_frames + 1) }

-- What the first half of forwardFrame computes for a frame.
pub record Passage (World : Type 0) : Type 0 where
  pub prepared : PreparedFrame
  pub stats : GatewayStats
  pub world : World

module _ (peers : Peers) where
  open peers use {
    World, tx_driver, micros, millis, has_rules_for_frame, apply_frame_mutations, is_observed,
    dbc_loaded, decode_observed_frame, frame_cache_update, frame_cache_update_passive,
    ingress_frame_cache_update, trace_callback,
  }

  unfoldable pub has_rules : CanFrame → Gateway → World → Bool
  unfolding mutation_direction_allowed
  has_rules frame g w =
      g.active_can_writes_allowed
      && mutation_direction_allowed frame.direction g
      && g.wiring.mutation_engine
      && has_rules_for_frame frame.id frame.direction w

  unfoldable pub observed : CanFrame → Gateway → World → Bool
  observed frame g w = g.wiring.observation_manager && is_observed frame.id frame.direction w

  -- The decoding of an observed frame, behind its guards: the decoded count and the world.
  unfoldable pub decode : CanFrame → Bool → Gateway → World → ℕ × World
  decode received watched g w =
      if watched
        && g.wiring.signal_cache
        && g.wiring.dbc_active_ptr
        && g.signal_decode_enabled
        && dbc_loaded w
      then decode_observed_frame received w
      else (0, w)

  abbrev traced : CanFrame → CanFrame → Bool → Bool → Gateway → World → World
  traced received frame mutated from_replay g w =
      if g.wiring.trace_callback then trace_callback received frame mutated from_replay w else w

  -- The fast path: no rule and no observer.
  unfoldable pub pass_passive : CanFrame → ℕ → Bool → ℕ → Gateway → World → Passage World
  pass_passive frame start from_replay now_ms g w =
      let w' =
        if g.wiring.frame_cache then frame_cache_update_passive frame now_ms from_replay w else w in
      record {
        prepared = record { frame = frame; processing_start_us = start; active_path = false };
        stats = record (g.stats) {
          passive_fast_path_frames = u32 (g.stats.passive_fast_path_frames + 1);
        };
        world = traced frame frame false from_replay g w';
      }

  -- The frame after the rules, with their number.
  unfoldable pub mutate : Bool → CanFrame → World → ℕ × CanFrame × World
  mutate ruled frame w = if ruled then apply_frame_mutations frame w else (0, frame, w)

  unfoldable pub pass_active :
      Bool → Bool → CanFrame → ℕ → Bool → ℕ → Gateway → World → Passage World
  unfolding decode mutate
  pass_active ruled watched received start from_replay now_ms g w =
      let (applied, frame, w1) = mutate ruled received w in
      let (decoded, w2) = decode received watched g w1 in
      let w3 =
        if g.wiring.frame_cache
        then frame_cache_update frame now_ms (ltb 0 applied) received from_replay w2
        else w2 in
      record {
        prepared = record { frame = frame; processing_start_us = start; active_path = true };
        stats = record (g.stats) {
          mutation_applied_frames = u32 (g.stats.mutation_applied_frames + applied);
          observed_decoded_frames = u32 (g.stats.observed_decoded_frames + decoded);
        };
        world = traced received frame (ltb 0 applied) from_replay g w3;
      }

  -- forwardFrame up to the prepared frame.
  unfoldable pub pass : CanFrame → Bool → ℕ → Gateway → World → Passage World
  unfolding has_rules observed pass_passive pass_active
  pass frame from_replay now_ms g w =
      let (start, w0) = micros w in
      let w1 =
        if g.wiring.ingress_frame_cache
        then ingress_frame_cache_update frame now_ms from_replay w0
        else w0 in
      let ruled = has_rules frame g w1 in
      let watched = observed frame g w1 in
      if not ruled && not watched
      then pass_passive frame start from_replay now_ms g w1
      else pass_active ruled watched frame start from_replay now_ms g w1

  unfoldable pub prepare : CanFrame → Bool → ℕ → System World → PreparedFrame × System World
  unfolding pass
  prepare frame from_replay now_ms s =
      let p = pass frame from_replay now_ms s.core s.world in
      (p.prepared, record s { core = record (s.core) { stats = p.stats }; world = p.world })

  -- `tx_driver_ != nullptr && tx_driver_(direction, frame)`
  unfoldable pub transmit : CanFrame → System World → Bool × System World
  transmit frame s =
      let (accepted, w) = tx_driver frame.direction frame s.world in
      if s.core.wiring.tx_driver
      then (
        accepted,
        record s {
          world = w;
          sent =
              if accepted
              then set_lane frame.direction (lane frame.direction s.sent ++ frame ∷ []) s.sent
              else s.sent;
        },
      )
      else (false, s)

  -- The statistics of a dispatched frame, `latency_us` after its processing started.
  unfoldable pub record_dispatch : Bool → Bool → Bool → ℕ → GatewayStats → GatewayStats
  record_dispatch active from_replay dry_run latency_us s =
      let (active_avg, active_samples) =
        update_running_average_latency latency_us s.active_path_latency_avg_us
          s.active_path_latency_samples in
      let (fast_avg, fast_samples) =
        update_running_average_latency latency_us s.fast_path_latency_avg_us
          s.fast_path_latency_samples in
      record s {
        active_path_latency_avg_us = if active then active_avg else s.active_path_latency_avg_us;
        active_path_latency_samples =
            if active then active_samples else s.active_path_latency_samples;
        fast_path_latency_avg_us = if active then s.fast_path_latency_avg_us else fast_avg;
        fast_path_latency_samples = if active then s.fast_path_latency_samples else fast_samples;
        replay_dry_run_frames =
            if dry_run then u32 (s.replay_dry_run_frames + 1) else s.replay_dry_run_frames;
        forwarded_frames = if dry_run then s.forwarded_frames else u32 (s.forwarded_frames + 1);
        replay_injected_frames =
            if not dry_run && from_replay
            then u32 (s.replay_injected_frames + 1)
            else s.replay_injected_frames;
      }

  abbrev finish_dispatch : PreparedFrame → Bool → Bool → System World → System World
  finish_dispatch p from_replay dry_run s =
      let (now, w) = micros s.world in
      record s {
        core =
            with_stats
              (record_dispatch p.active_path from_replay dry_run
                (sub_u32 now p.processing_start_us))
              s.core;
        world = w;
      }

  unfoldable pub dispatch_prepared :
      PreparedFrame → Bool → Bool → System World → Bool × System World
  unfolding transmit
  dispatch_prepared p from_replay dry_run s =
      let (accepted, s') = transmit p.frame s in
      if dry_run
      then (true, finish_dispatch p from_replay dry_run s)
      else if accepted
      then (true, finish_dispatch p from_replay dry_run s')
      else (false, s')

  abbrev in_core : (Gateway → Gateway) → System World → System World
  in_core f s = record s { core = f s.core }

  -- The frame joins its egress ring, or is counted as a failure.
  unfoldable pub defer : PreparedFrame → System World → Bool × System World
  defer p s =
      let d = p.frame.direction in
      let (queued, g) = enqueue_prepared p s.core in
      if queued
      then (true, record s { core = with_stats (record_deferred d) g })
      else (false, record s { core = with_stats (record_tx_failure d) g })

  -- The end of forwardFrame for a replayed frame.
  unfoldable pub finish_replay : PreparedFrame → Bool → System World → Bool × System World
  finish_replay p dry_run s =
      let (accepted, s') = dispatch_prepared p true dry_run s in
      (accepted, if accepted then s' else in_core (with_stats count_refused) s')

  -- The end of forwardFrame for a physical frame.
  unfoldable pub finish_physical : PreparedFrame → System World → Bool × System World
  finish_physical p s =
      let (accepted, s') = dispatch_prepared p false false s in
      if egress_pending p.frame.direction s.core
      then defer p s
      else if accepted
      then (true, s')
      else defer p s'

  unfoldable pub forward_frame : CanFrame → Bool → Bool → ℕ → System World → Bool × System World
  forward_frame frame from_replay dry_run now_ms s =
      let (p, s') = prepare frame from_replay now_ms s in
      if from_replay && not dry_run && physical_backlog_pending s.core
      then (false, in_core (with_stats count_refused) s)
      else if from_replay
      then finish_replay p dry_run s'
      else finish_physical p s'

  unfoldable pub inject_replay_frame : CanFrame → Bool → System World → Bool × System World
  inject_replay_frame frame dry_run s =
      let (now_ms, w) = millis s.world in
      if not s.core.active_can_writes_allowed
      then (false, s)
      else if not dry_run && physical_backlog_pending s.core
      then (false, in_core (with_stats count_refused) s)
      else forward_frame frame true dry_run now_ms (record s { world = w })
