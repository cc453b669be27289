-- ===== src/Gateway/Forward/Replay.antt =====
-- Replayed frames (core/gateway.cpp): `injectReplayFrame` never touches the queues of physical
-- traffic, and what it may send is bounded by the gates.
use signal_scope_api.Base.{
  ◌+◌, ◌≡◌, ◌≢◌, ◌⊎◌, refl, ap, arith, ◌==◌, [], Bool, true, false, not, ◌&&◌, ◌||◌, inl, inr,
  if◌then◌else◌, Bool-cases, if_keeps,
}
use signal_scope_api.Base.Ring.{window}
use signal_scope_api.Frame.{CanFrame, Direction, a_to_b, b_to_a, lane, u32}
use signal_scope_api.Gateway.State.{
  PreparedFrame, Peers, Gateway, RawQueue, EgressQueue, rx_queue_size, egress_queue_size,
}
use signal_scope_api.Gateway.Queues.{physical_backlog_pending, raw_pending, depth_of}
use signal_scope_api.Gateway.Queues.Ingress.{ingress}
use signal_scope_api.Gateway.Queues.Egress.{egress}
use signal_scope_api.Gateway.Forward.{
  System, prepare, dispatch_prepared, transmit, finish_replay, forward_frame, inject_replay_frame,
}

-- Physical frames of direction `d` wait, in its ingress ring or in its egress ring.
abbrev pub Waits : Direction → Gateway → Type 0
Waits d g = (ingress (lane d g.raw) ≢ []) ⊎ (egress (lane d g.egress) ≢ [])

idle_ingress : (q : RawQueue) → not (q.tail == q.head) ≡ false → ingress q ≡ []
idle_ingress q idle =
    ap (window rx_queue_size q.frames q.tail) {x = depth_of q} {y = 0} (ground arith)

idle_egress : (q : EgressQueue) → not (q.count == 0) ≡ false → egress q ≡ []
idle_egress q idle =
    ap (window egress_queue_size q.frames q.tail) {x = q.count} {y = 0} (ground arith)

any_of :
    (a b c d : Bool)
    → a || b || c || d ≡ false
    → (a ≡ false) × (b ≡ false) × (c ≡ false) × (d ≡ false)
any_of a b c d h = (ground arith, ground arith, ground arith, ground arith)

nothing-Waits :
    (d : Direction) (g : Gateway)
    → raw_pending a_to_b g ≡ false
    → raw_pending b_to_a g ≡ false
    → not ((lane a_to_b g.egress).count == 0) ≡ false
    → not ((lane b_to_a g.egress).count == 0) ≡ false
    → ¬ Waits d g
unfolding raw_pending
nothing-Waits a_to_b g a b c e (inl some') = some' (idle_ingress g.raw.lane_a_to_b a)
nothing-Waits a_to_b g a b c e (inr some') = some' (idle_egress g.egress.lane_a_to_b c)
nothing-Waits b_to_a g a b c e (inl some') = some' (idle_ingress g.raw.lane_b_to_a b)
nothing-Waits b_to_a g a b c e (inr some') = some' (idle_egress g.egress.lane_b_to_a e)

-- A frame that waits in any of the four rings is seen.
Waits-pending : (d : Direction) (g : Gateway) → Waits d g → physical_backlog_pending g ≡ true
unfolding physical_backlog_pending raw_pending
Waits-pending d g waits = elim (Bool-cases (physical_backlog_pending g)) [
  | inl pending ↦ pending
  | inr none' ↦ let (a, b, c, e) = any_of _ _ _ _ none' in absurd (nothing-Waits d g a b c e waits)
]

-- The rings and the frames sent are as they were.
pub record LeavesQueues {W : Type 0} (s t : System W) : Type 0 where
  pub same_raw : t.core.raw ≡ s.core.raw
  pub same_egress : t.core.egress ≡ s.core.egress
  pub same_sent : t.sent ≡ s.sent

-- The rings of physical traffic are as they were.
pub record LeavesRings {W : Type 0} (s t : System W) : Type 0 where
  pub same_raw : t.core.raw ≡ s.core.raw
  pub same_egress : t.core.egress ≡ s.core.egress

module _ (peers : Peers) where
  open peers use {World}

  dispatch_prepared-LeavesRings :
      (p : PreparedFrame) (dry_run : Bool) (s : System World)
      → LeavesRings s (dispatch_prepared peers p true dry_run s).1
  unfolding dispatch_prepared transmit
  dispatch_prepared-LeavesRings p true s = record { same_raw = refl; same_egress = refl }
  dispatch_prepared-LeavesRings p false s = elim (Bool-cases s.core.wiring.tx_driver) [
    | inl on ↦ elim (Bool-cases (peers.tx_driver p.frame.direction p.frame s.world).0) [
      | inl yes' ↦ rw (on, yes') (record { same_raw = refl; same_egress = refl })
      | inr no' ↦ rw (on, no') (record { same_raw = refl; same_egress = refl })
    ]
    | inr off ↦ rw off (record { same_raw = refl; same_egress = refl })
  ]

  finish_replay-LeavesRings :
      (p : PreparedFrame) (dry_run : Bool) (s : System World)
      → LeavesRings s (finish_replay peers p dry_run s).1
  unfolding finish_replay
  finish_replay-LeavesRings p dry_run s =
      let m = dispatch_prepared-LeavesRings p dry_run s in
      if_keeps (LeavesRings s) (dispatch_prepared peers p true dry_run s).0 m
        (record { same_raw = m.same_raw; same_egress = m.same_egress })

  finish_rings :
      (frame : CanFrame) (dry_run : Bool) (s : System World)
      → let (now_ms, w) = peers.millis s.world in
        let (p, t) = prepare peers frame true now_ms (record s { world = w }) in
        LeavesRings s (finish_replay peers p dry_run t).1
  unfolding prepare
  finish_rings frame dry_run s =
      let (now_ms, w) = peers.millis s.world in
      let (p, t) = prepare peers frame true now_ms (record s { world = w }) in
      let m = finish_replay-LeavesRings p dry_run t in
      record { same_raw = m.same_raw; same_egress = m.same_egress }

  -- A replayed frame, physical or dry, leaves the ingress and egress rings of both directions as
  -- they are, on every branch.
  pub inject_replay_frame-LeavesRings :
      (frame : CanFrame) (dry_run : Bool) (s : System World)
      → LeavesRings s (inject_replay_frame peers frame dry_run s).1
  unfolding inject_replay_frame forward_frame prepare
  inject_replay_frame-LeavesRings frame dry_run s =
      let m =
        if_keeps (λ (r : Bool × System World). LeavesRings s r.1)
          (true && not dry_run && physical_backlog_pending s.core)
          (record { same_raw = refl; same_egress = refl }) (finish_rings frame dry_run s) in
      if_keeps (λ (r : Bool × System World). LeavesRings s r.1)
        (not s.core.active_can_writes_allowed) (record { same_raw = refl; same_egress = refl })
        (if_keeps (λ (r : Bool × System World). LeavesRings s r.1)
          (not dry_run && physical_backlog_pending s.core)
          (record { same_raw = refl; same_egress = refl }) m)

  -- A dry run reaches no driver: it accepts every frame unless active writes are off, sends nothing
  -- and leaves every ring as it is.
  pub inject_replay_frame-dry :
      (frame : CanFrame) (s : System World)
      → ((inject_replay_frame peers frame true s).0 ≡ s.core.active_can_writes_allowed)
        × LeavesQueues s (inject_replay_frame peers frame true s).1
  unfolding inject_replay_frame forward_frame prepare finish_replay dispatch_prepared
  inject_replay_frame-dry frame s = elim (Bool-cases s.core.active_can_writes_allowed) [
    | inl on ↦ rw on (refl, record { same_raw = refl; same_egress = refl; same_sent = refl })
    | inr off ↦ rw off (refl, record { same_raw = refl; same_egress = refl; same_sent = refl })
  ]

  -- While a frame waits in the ingress or the egress ring of either direction, a physical replay is
  -- refused, sends nothing and leaves every ring as it is; so is every replay while active writes
  -- are off. Refused for waiting frames, it is counted, as a uint32_t; with writes off it is not.
  pub inject_replay_frame-refused :
      (frame : CanFrame) (dry_run : Bool) (d : Direction) (s : System World)
      → (s.core.active_can_writes_allowed ≡ false) ⊎ ((dry_run ≡ false) × Waits d s.core)
      → let r = inject_replay_frame peers frame dry_run s in
        (r.0 ≡ false)
        × LeavesQueues s r.1
        × (r.1.core.stats.replay_refused_frames ≡ (
            if s.core.active_can_writes_allowed
            then u32 (s.core.stats.replay_refused_frames + 1)
            else s.core.stats.replay_refused_frames))
  unfolding inject_replay_frame
  inject_replay_frame-refused frame dry_run d s (inl off) =
      rw off (refl, record { same_raw = refl; same_egress = refl; same_sent = refl }, refl)
  inject_replay_frame-refused frame dry_run d s (inr (physical, waits)) =
      let pending = Waits-pending d s.core waits in
      elim (Bool-cases s.core.active_can_writes_allowed) [
        | inl on ↦
            rw (pending, physical, on)
              (refl, record { same_raw = refl; same_egress = refl; same_sent = refl }, refl)
        | inr off ↦
            rw off (refl, record { same_raw = refl; same_egress = refl; same_sent = refl }, refl)
      ]
