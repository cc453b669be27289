-- ===== src/Gateway/Queues/Receive.antt =====
-- `onFrameReceivedFromIsr` and `purgeDirection` (core/gateway.cpp) against the queues of frames.
use mathlib.Core.List.{append-nil}
use mathlib.Core.Path.{ap₂, subst}
use signal_scope_api.Base.{
  ◌+◌, ◌≡◌, ◌≢◌, refl, sym, ap, ◌∙◌, if_true, Bool, true, false, not, ◌&&◌, arith, List, [], ◌∷◌,
  ◌++◌, if◌then◌else◌, ◌==◌,
}
use signal_scope_api.Frame.{
  CanFrame, Direction, a_to_b, b_to_a, Lanes, lane, set_lane, same_direction, opposite, u32,
}
use signal_scope_api.Gateway.State.{Gateway, RawQueue}
use signal_scope_api.Gateway.Queues.{
  next_index, depth_of, raw_depth, on_frame_received_from_isr, purge_direction,
}
use signal_scope_api.Gateway.Queues.Ingress.{
  ingress, IsIngress, pushed, ingress-pushed, pushed-IsIngress, next_index-eq_tail_iff,
}
use signal_scope_api.Gateway.Queues.Egress.{egress, IsEgress}

abbrev arriving : Bool → Direction → CanFrame → List CanFrame
arriving fits e f = if fits && same_direction f.direction e then f ∷ [] else []

push_lane :
    (d e : Direction) (f : CanFrame) (raw : Lanes RawQueue)
    → ingress (pushed f (lane d raw)) ≡ ingress (lane d raw) ++ f ∷ []
    → ingress (lane e (set_lane d (pushed f (lane d raw)) raw))
      ≡ ingress (lane e raw) ++ (if same_direction d e then f ∷ [] else [])
push_lane a_to_b a_to_b f raw h = h
push_lane b_to_a b_to_a f raw h = h
push_lane a_to_b b_to_a f raw h = sym (append-nil _)
push_lane b_to_a a_to_b f raw h = sym (append-nil _)

push_lane-IsIngress :
    (d e : Direction) (q : RawQueue) (raw : Lanes RawQueue)
    → IsIngress d q
    → ((k : Direction) → IsIngress k (lane k raw))
    → IsIngress e (lane e (set_lane d q raw))
push_lane-IsIngress a_to_b a_to_b q raw v w = v
push_lane-IsIngress b_to_a b_to_a q raw v w = v
push_lane-IsIngress a_to_b b_to_a q raw v w = w b_to_a
push_lane-IsIngress b_to_a a_to_b q raw v w = w a_to_b

-- What a received frame does to the gateway, where `fits` says whether its ring has room.
pub record Received (f : CanFrame) (fits : Bool) (g : Gateway) (r : Bool × Gateway) : Type 0 where
  pub result : r.0 ≡ fits
  pub queues :
      (e : Direction) → ingress (lane e r.1.raw) ≡ ingress (lane e g.raw) ++ arriving fits e f
  pub sound : (e : Direction) → IsIngress e (lane e r.1.raw)
  pub egress_same : r.1.egress ≡ g.egress
  pub drops_run :
      r.1.stats.rx_drops_run
      ≡ (if not fits && g.ready_gate then u32 (g.stats.rx_drops_run + 1) else g.stats.rx_drops_run)
  pub drops_boot : r.1.stats.rx_drops_boot ≡ (
      if not fits && not g.ready_gate
      then u32 (g.stats.rx_drops_boot + 1)
      else g.stats.rx_drops_boot)

received :
    (f : CanFrame) (g : Gateway) (full : Bool)
    → (next_index (lane f.direction g.raw).head == (lane f.direction g.raw).tail) ≡ full
    → ((e : Direction) → IsIngress e (lane e g.raw))
    → Received f (not full) g (on_frame_received_from_isr f g)
unfolding on_frame_received_from_isr
received f g true e v = rw e (record {
  result = refl;
  queues = λ d. sym (append-nil _);
  sound = v;
  egress_same = refl;
  drops_run = refl;
  drops_boot = ground arith;
})
received f g false e v =
    let q = lane f.direction g.raw in
    let ring = v f.direction in
    let ne : next_index q.head ≢ q.tail = λ same. ground arith in
    rw e (record {
      result = refl;
      queues =
          λ d. push_lane f.direction d f g.raw (ingress-pushed q f ring.head_in ring.tail_in ne);
      sound = λ d.
          push_lane-IsIngress f.direction d (pushed f q) g.raw (pushed-IsIngress q f ring ne refl)
            v;
      egress_same = refl;
      drops_run = refl;
      drops_boot = refl;
    })

full_iff_depth :
    (d : Direction) (q : RawQueue)
    → IsIngress d q
    → (next_index q.head == q.tail) ≡ (depth_of q == 127)
full_iff_depth d q v = ground (
  arith,
  (next_index-eq_tail_iff q v.head_in v.tail_in).0,
  (next_index-eq_tail_iff q v.head_in v.tail_in).1,
)

-- A frame received over sound ingress rings is refused exactly when the ring of its direction holds
-- 127 frames. Refused, it changes no ring and is counted once, as a run drop if the gate is ready
-- and as a boot drop if not. Accepted, it stands behind the frames of its direction, and the
-- other ring, the egress rings and the drop counts are as they were. The rings stay sound.
pub on_frame_received_from_isr-Received :
    (f : CanFrame) (g : Gateway)
    → ((e : Direction) → IsIngress e (lane e g.raw))
    → Received f (not (raw_depth f.direction g == 127)) g (on_frame_received_from_isr f g)
unfolding raw_depth
on_frame_received_from_isr-Received f g v =
    received f g (depth_of (lane f.direction g.raw) == 127)
      (full_iff_depth f.direction (lane f.direction g.raw) (v f.direction)) v

-- What purging a direction leaves of the rings.
record Purged (d : Direction) (g h : Gateway) : Type 0 where
  pub ingress_empty : ingress (lane d h.raw) ≡ []
  pub egress_empty : egress (lane d h.egress) ≡ []
  pub depth : raw_depth d h ≡ 0
  pub ring : IsIngress d (lane d h.raw)
  pub egress_sound : IsEgress d (lane d h.egress)
  pub other_raw : lane (opposite d) h.raw ≡ lane (opposite d) g.raw
  pub other_egress : lane (opposite d) h.egress ≡ lane (opposite d) g.egress
  pub counted :
      lane d h.stats.stale_frames_purged
      ≡ u32 (lane d g.stats.stale_frames_purged + (raw_depth d g + (lane d g.egress).count))

purged_lem : (d : Direction) (g : Gateway) → Purged d g (purge_direction d g)
unfolding purge_direction raw_depth
purged_lem a_to_b g = record {
  ingress_empty = refl;
  egress_empty = refl;
  depth = refl;
  ring = record { head_in = omega arith; tail_in = omega arith; directions = tt };
  egress_sound = record {
    tail_in = omega arith;
    count_in = omega arith;
    head_at = refl;
    directions = tt;
  };
  other_raw = refl;
  other_egress = refl;
  counted = refl;
}
purged_lem b_to_a g = record {
  ingress_empty = refl;
  egress_empty = refl;
  depth = refl;
  ring = record { head_in = omega arith; tail_in = omega arith; directions = tt };
  egress_sound = record {
    tail_in = omega arith;
    count_in = omega arith;
    head_at = refl;
    directions = tt;
  };
  other_raw = refl;
  other_egress = refl;
  counted = refl;
}

purged-IsIngress :
    (d : Direction) (g : Gateway)
    → IsIngress (opposite d) (lane (opposite d) g.raw)
    → (e : Direction) → IsIngress e (lane e (purge_direction d g).raw)
purged-IsIngress a_to_b g other a_to_b = (purged_lem a_to_b g).ring
purged-IsIngress a_to_b g other b_to_a =
    subst (IsIngress b_to_a) (sym (purged_lem a_to_b g).other_raw) other
purged-IsIngress b_to_a g other a_to_b =
    subst (IsIngress a_to_b) (sym (purged_lem b_to_a g).other_raw) other
purged-IsIngress b_to_a g other b_to_a = (purged_lem b_to_a g).ring

same_direction_refl : (d : Direction) → same_direction d d ≡ true
same_direction_refl a_to_b = refl
same_direction_refl b_to_a = refl

-- Purging a direction empties both of its rings, whatever they were, and leaves them sound; a frame
-- of the direction that is received then is accepted and alone in its ring. The rings of the other
-- direction, of which the ingress ring is sound, are as they were. The purged count of the
-- direction grows by what its rings held, as a uint32_t.
pub purge_direction_lem :
    (f : CanFrame) (d : Direction) (g : Gateway)
    → f.direction ≡ d
    → IsIngress (opposite d) (lane (opposite d) g.raw)
    → let h = purge_direction d g in
      (ingress (lane d h.raw) ≡ [])
      × (egress (lane d h.egress) ≡ [])
      × IsIngress d (lane d h.raw)
      × IsEgress d (lane d h.egress)
      × ((on_frame_received_from_isr f h).0 ≡ true)
      × (ingress (lane d (on_frame_received_from_isr f h).1.raw) ≡ f ∷ [])
      × (lane (opposite d) h.raw ≡ lane (opposite d) g.raw)
      × (lane (opposite d) h.egress ≡ lane (opposite d) g.egress)
      × (lane d h.stats.stale_frames_purged
          ≡ u32 (lane d g.stats.stale_frames_purged + (raw_depth d g + (lane d g.egress).count)))
unfolding purge_direction raw_depth
purge_direction_lem f d g same other =
    let h = purge_direction d g in
    let all = purged_lem d g in
    let next = on_frame_received_from_isr-Received f h (purged-IsIngress d g other) in
    let room : not (raw_depth f.direction h == 127) ≡ true =
      ap (λ e. not (raw_depth e h == 127)) same ∙ ap (λ n. not (n == 127)) all.depth in
    (
      all.ingress_empty,
      all.egress_empty,
      purged-IsIngress d g other d,
      all.egress_sound,
      next.result ∙ room,
      next.queues d
          ∙ ap (λ e. ingress (lane d h.raw) ++ arriving e d f) room
          ∙ ap₂ (λ es e. es ++ (if same_direction e d then f ∷ [] else [])) all.ingress_empty same
          ∙ if_true (same_direction d d) _ _ (same_direction_refl d),
      all.other_raw,
      all.other_egress,
      all.counted,
    )
