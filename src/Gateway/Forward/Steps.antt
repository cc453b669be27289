-- ===== src/Gateway/Forward/Steps.antt =====
-- What one call of the forwarding path does to the queues of GatewayCore.
use signal_scope_api.Base.{
  ℕ, ◌<◌, ◌≡◌, refl, Bool, true, false, inl, inr, arith, List, [], ◌∷◌, ◌++◌, Bool-cases, if_keeps,
  if◌then◌else◌, ◌==◌, ==_iff,
}
use mathlib.Core.Path.{subst₃}
use signal_scope_api.Frame.{CanFrame, Lanes, lane, set_lane}
use signal_scope_api.Gateway.State.{Gateway, PreparedFrame, EgressQueue, RawQueue, Peers}
use signal_scope_api.Gateway.Queues.{egress_pending, enqueue_prepared}
use signal_scope_api.Gateway.Queues.Egress.{queued}
use signal_scope_api.Gateway.Forward.{
  System, Passage, pass, prepare, transmit, dispatch_prepared, defer, finish_physical,
  forward_frame, mutate, pass_active, pass_passive,
}

-- What the gateway relies on of the mutation engine: rules rewrite payload bytes only.
pub record KeepsIdentity (peers : Peers) : Type 0 where
  pub id-apply :
      (frame : CanFrame) (w : peers.World) → (peers.apply_frame_mutations frame w).1.id ≡ frame.id
  pub direction-apply :
      (frame : CanFrame) (w : peers.World)
      → (peers.apply_frame_mutations frame w).1.direction ≡ frame.direction

-- From queues `raw`, `egress` and `sent`, the step to `t` keeps the ingress rings, and the frame
-- of `p` left by its driver or joined the egress ring of its direction.
pub data Forwarded {W : Type 0} (p : PreparedFrame) (raw : Lanes RawQueue)
    (egress : Lanes EgressQueue) (sent : Lanes (List CanFrame)) (t : System W) : Type 0 where
  sent_now :
      t.core.raw ≡ raw
      → (lane p.frame.direction egress).count ≡ 0
      → t.core.egress ≡ egress
      → t.sent ≡ set_lane p.frame.direction (lane p.frame.direction sent ++ p.frame ∷ []) sent
      → Forwarded p raw egress sent t
  kept :
      t.core.raw ≡ raw
      → t.core.egress ≡ set_lane p.frame.direction (queued p (lane p.frame.direction egress)) egress
      → t.sent ≡ sent
      → Forwarded p raw egress sent t

-- A call of the driver for `p` changes at most the frames sent.
pub data Offered {W : Type 0} (p : PreparedFrame) (raw : Lanes RawQueue)
    (egress : Lanes EgressQueue) (sent : Lanes (List CanFrame)) (r : Bool × System W) : Type 0 where
  accepted :
      r.0 ≡ true
      → r.1.core.raw ≡ raw
      → r.1.core.egress ≡ egress
      → r.1.sent ≡ set_lane p.frame.direction (lane p.frame.direction sent ++ p.frame ∷ []) sent
      → Offered p raw egress sent r
  refused :
      r.0 ≡ false
      → r.1.core.raw ≡ raw
      → r.1.core.egress ≡ egress
      → r.1.sent ≡ sent
      → Offered p raw egress sent r

module _ (peers : Peers) where
  open peers use {World}

  pub dispatch_prepared-Offered :
      (p : PreparedFrame) (replay : Bool) (s : System World)
      → Offered p s.core.raw s.core.egress s.sent (dispatch_prepared peers p replay false s)
  unfolding dispatch_prepared transmit
  dispatch_prepared-Offered p replay s = elim (Bool-cases s.core.wiring.tx_driver) [
    | inl on ↦ elim (Bool-cases (peers.tx_driver p.frame.direction p.frame s.world).0) [
      | inl yes' ↦ rw (on, yes') (accepted refl refl refl refl)
      | inr no' ↦ rw (on, no') (refused refl refl refl refl)
    ]
    | inr off ↦ rw off (refused refl refl refl refl)
  ]

  pub defer-room :
      (p : PreparedFrame) (s : System World)
      → (lane p.frame.direction s.core.egress).count < 64
      → Forwarded p s.core.raw s.core.egress s.sent (defer peers p s).1
  unfolding defer enqueue_prepared
  defer-room p s room = kept (ground arith) (ground arith) (ground arith)

  after_offer :
      (p : PreparedFrame) (s : System World) (r : Bool × System World)
      → (lane p.frame.direction s.core.egress).count ≡ 0
      → Offered p s.core.raw s.core.egress s.sent r
      → Forwarded p s.core.raw s.core.egress s.sent
          (if r.0 then (true, r.1) else defer peers p r.1).1
  after_offer p s r empty (accepted yes' er ee es) = rw yes' (sent_now er empty ee es)
  after_offer p s r empty (refused no' er ee es) = rw no' (
      subst₃ (λ a e o. Forwarded p a e o (defer peers p r.1).1) er ee es
        (defer-room p r.1 (rw ee (omega arith))))

  pub finish_physical-Forwarded :
      (p : PreparedFrame) (s : System World)
      → (lane p.frame.direction s.core.egress).count < 64
      → Forwarded p s.core.raw s.core.egress s.sent (finish_physical peers p s).1
  unfolding finish_physical egress_pending
  finish_physical-Forwarded p s room =
      elim (Bool-cases ((lane p.frame.direction s.core.egress).count == 0)) [
        | inl empty ↦ rw empty (
            after_offer p s (dispatch_prepared peers p false false s) ((==_iff _ _).0 empty)
              (dispatch_prepared-Offered p false s))
        | inr waiting ↦ rw waiting (defer-room p s room)
      ]

module _ (peers : Peers) (laws : KeepsIdentity peers) where
  open peers use {World}

  mutate-KeepsIdentity :
      (ruled : Bool) (frame : CanFrame) (w : World)
      → let m = mutate peers ruled frame w in
        (m.1.id ≡ frame.id) × (m.1.direction ≡ frame.direction)
  unfolding mutate
  mutate-KeepsIdentity true frame w = (laws.id-apply frame w, laws.direction-apply frame w)
  mutate-KeepsIdentity false frame w = (refl, refl)

  abbrev Keeps : CanFrame → Passage World → Type 0
  Keeps frame p = (p.prepared.frame.id ≡ frame.id) × (p.prepared.frame.direction ≡ frame.direction)

  passive-Keeps :
      (frame : CanFrame) (start : ℕ) (replay : Bool) (now_ms : ℕ) (g : Gateway) (w : World)
      → Keeps frame (pass_passive peers frame start replay now_ms g w)
  unfolding pass_passive
  passive-Keeps frame start replay now_ms g w = (refl, refl)

  active-Keeps :
      (ruled watched : Bool) (frame : CanFrame) (start : ℕ) (replay : Bool) (now_ms : ℕ)
      (g : Gateway) (w : World)
      → Keeps frame (pass_active peers ruled watched frame start replay now_ms g w)
  unfolding pass_active
  active-Keeps ruled watched frame start replay now_ms g w = mutate-KeepsIdentity ruled frame w

  pub pass-Keeps :
      (frame : CanFrame) (replay : Bool) (now_ms : ℕ) (g : Gateway) (w : World)
      → Keeps frame (pass peers frame replay now_ms g w)
  unfolding pass
  pass-Keeps frame replay now_ms g w =
      if_keeps (Keeps frame) _ (refl, refl) (mutate-KeepsIdentity _ frame _)

  -- forwardFrame on a physical frame whose egress ring has room.
  pub forward_frame-Forwarded :
      (frame : CanFrame) (now_ms : ℕ) (s : System World)
      → (lane frame.direction s.core.egress).count < 64
      → (p : PreparedFrame) × (p.frame.id ≡ frame.id)
        × (p.frame.direction ≡ frame.direction)
        × Forwarded p s.core.raw s.core.egress s.sent
            (forward_frame peers frame false false now_ms s).1
  unfolding forward_frame prepare
  forward_frame-Forwarded frame now_ms s room =
      let keeps = pass-Keeps frame false now_ms s.core s.world in
      (
        (pass peers frame false now_ms s.core s.world).prepared,
        keeps.0,
        keeps.1,
        finish_physical-Forwarded peers _ _ (rw (keeps.1) room),
      )
