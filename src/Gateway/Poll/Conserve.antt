-- ===== src/Gateway/Poll/Conserve.antt =====
-- pollRx and the flush before it keep the line of every direction (core/gateway.cpp).
use mathlib.Core.Path.{subst, subst₂, ap₂}
use mathlib.Core.List.{append-nil, append_assoc}
use signal_scope_api.Base.{
  ℕ, zero, suc, ◌<◌, ◌≡◌, ◌≢◌, refl, sym, ap, ◌∙◌, Bool, true, false, not, ◌||◌, inl, inr, arith,
  ltb, List, [], ◌∷◌, ◌++◌, Bool-cases, if_keeps, if◌then◌else◌, ◌==◌, ltb→lt,
}
use signal_scope_api.Frame.{CanFrame, Direction, a_to_b, b_to_a, Lanes, lane, set_lane, opposite}
use signal_scope_api.Gateway.State.{PreparedFrame, EgressQueue, RawQueue, Peers}
use signal_scope_api.Gateway.Queues.{
  with_stats, record_retry_attempt, take_raw, raw_pending, egress_has_capacity, drop_egress,
  update_raw_depth,
}
use signal_scope_api.Gateway.Queues.Ingress.{
  ingress, IsIngress, taken, ingress-taken, taken-IsIngress,
}
use signal_scope_api.Gateway.Queues.Egress.{dropped, dropped-IsEgress}
use signal_scope_api.Gateway.Forward.{System, dispatch_prepared, forward_frame}
use signal_scope_api.Gateway.Forward.Steps.{
  KeepsIdentity, Forwarded, sent_now, kept, Offered, accepted, refused, dispatch_prepared-Offered,
  forward_frame-Forwarded,
}
use signal_scope_api.Gateway.Poll.{
  Flush, Poll, flush_one_egress, flush_turn, flush_round, flush_loop, start_flush,
  flush_egress_fair, poll_turn, poll_round, poll_loop, start_poll, poll_rx,
}
use signal_scope_api.Gateway.Poll.Order.{
  frame_ids, outbound, journey, IsSound, Moves, outbound-dropped, gain, Forwarded-outbound,
  Forwarded-IsSound, set_lane-IsEgress, set_lane-IsSound,
}

abbrev Sound : {W : Type 0} → System W → Type 0
Sound s = IsSound s.core.raw s.core.egress

stays : {W : Type 0} {s : System W} → Sound s → Moves s s
stays v = record { sound = v; same_journey = λ d. refl }

Moves-then : {W : Type 0} {s t u : System W} → Moves s t → (Sound t → Moves t u) → Moves s u
Moves-then m next =
    let n = next m.sound in
    record { sound = n.sound; same_journey = λ d. n.same_journey d ∙ m.same_journey d }

drop-journey :
    (d e : Direction) (sent : Lanes (List CanFrame)) (out : Lanes EgressQueue)
    → (lane d out).count ≢ 0
    → outbound
        (lane e
          (set_lane d (lane d sent ++ ((lane d out).frames (lane d out).tail).frame ∷ []) sent))
        (lane e (set_lane d (dropped (lane d out)) out))
      ≡ outbound (lane e sent) (lane e out)
drop-journey a_to_b a_to_b sent out ne = outbound-dropped (lane a_to_b sent) (lane a_to_b out) ne
drop-journey b_to_a b_to_a sent out ne = outbound-dropped (lane b_to_a sent) (lane b_to_a out) ne
drop-journey a_to_b b_to_a sent out ne = refl
drop-journey b_to_a a_to_b sent out ne = refl

journey-eq :
    {W : Type 0} (s t : System W) (e : Direction)
    → outbound (lane e t.sent) (lane e t.core.egress)
      ≡ outbound (lane e s.sent) (lane e s.core.egress)
    → t.core.raw ≡ s.core.raw
    → journey e t ≡ journey e s
journey-eq s t e o r = ap₂ (λ a b. a ++ frame_ids (ingress (lane e b))) o r

module _ (peers : Peers) where
  open peers use {World}

  abbrev oldest : Direction → System World → PreparedFrame
  oldest d s = (lane d s.core.egress).frames (lane d s.core.egress).tail

  abbrev retried : Direction → System World → System World
  retried d s = record s { core = with_stats (record_retry_attempt d) s.core }

  -- The end of flushOneEgress after the call of the driver.
  abbrev after_flush : Direction → Bool → System World → Bool × System World
  after_flush d flushed t =
      if flushed then (true, record t { core = drop_egress d t.core }) else (false, t)

  after_flush-Moves :
      (d : Direction) (s : System World) (r : Bool × System World)
      → Sound s
      → (lane d s.core.egress).count ≢ 0
      → (oldest d s).frame.direction ≡ d
      → Offered (oldest d s) s.core.raw s.core.egress s.sent r
      → Moves s (after_flush d r.0 r.1).1
  unfolding drop_egress
  after_flush-Moves d s r v ne same (refused no' er ee es) =
      subst (λ b. Moves s (after_flush d b r.1).1) (sym no')
        (record {
          sound = subst₂ IsSound (sym er) (sym ee) v;
          same_journey =
              λ e. journey-eq s r.1 e (ap₂ (λ a b. outbound (lane e a) (lane e b)) es ee) er;
        })
  after_flush-Moves d s r v ne same (accepted yes' er ee es) =
      subst (λ b. Moves s (after_flush d b r.1).1) (sym yes')
        (record {
          sound =
              subst₂ IsSound (sym er) (ap (λ o. set_lane d (dropped (lane d o)) o) (sym ee))
                (record {
                  ingress_sound = v.ingress_sound;
                  egress_sound =
                      set_lane-IsEgress d v
                        (dropped-IsEgress (lane d s.core.egress) (v.egress_sound d) ne).0;
                });
          same_journey = λ e.
              journey-eq s (record (r.1) { core = drop_egress d r.1.core }) e
                (ap₂ (λ a o. outbound (lane e a) (lane e (set_lane d (dropped (lane d o)) o)))
                    (es
                      ∙ ap (λ k. set_lane k (lane k s.sent ++ (oldest d s).frame ∷ []) s.sent) same)
                    ee
                  ∙ drop-journey d e s.sent s.core.egress ne)
                er;
        })

  flush_one_egress-Moves :
      (d : Direction) (s : System World) → Sound s → Moves s (flush_one_egress peers d s).1
  unfolding flush_one_egress
  flush_one_egress-Moves d s v = elim (Bool-cases ((lane d s.core.egress).count == 0)) [
    | inl empty ↦ rw empty (stays v)
    | inr some' ↦ rw some' (
        let ne : (lane d s.core.egress).count ≢ 0 = λ e. ground arith in
        let m =
          after_flush-Moves d (retried d s)
            (dispatch_prepared peers (oldest d s) false false (retried d s)) v ne
            (dropped-IsEgress (lane d s.core.egress) (v.egress_sound d) ne).1
            (dispatch_prepared-Offered peers (oldest d s) false (retried d s)) in
        record { sound = m.sound; same_journey = m.same_journey })
  ]

  flush_turn-Moves :
      (d : Direction) (f : Flush World)
      → Sound f.system
      → Moves f.system (flush_turn peers d f).system
  unfolding flush_turn
  flush_turn-Moves d f v =
      if_keeps (λ (g : Flush World). Moves f.system g.system) _
        (flush_one_egress-Moves d f.system v) (stays v)

  flush_round-Moves :
      (f : Flush World) → Sound f.system → Moves f.system (flush_round peers f).system
  unfolding flush_round
  flush_round-Moves f v =
      let first = f.system.core.next_egress_flush_direction in
      let f0 : Flush World = record f { attempted = false } in
      let m =
        Moves-then (flush_turn-Moves first f0 v)
          (λ w. flush_turn-Moves (opposite first) (flush_turn peers first f0) w) in
      record { sound = m.sound; same_journey = m.same_journey }

  flush_loop-Moves :
      (fuel : ℕ) (f : Flush World)
      → Sound f.system
      → Moves f.system (flush_loop peers fuel f).system
  unfolding flush_loop
  flush_loop-Moves zero f v = stays v
  flush_loop-Moves (suc fuel) f v =
      if_keeps (λ (g : Flush World). Moves f.system g.system) _
        (if_keeps (λ (g : Flush World). Moves f.system g.system) _ (flush_round-Moves f v)
          (Moves-then (flush_round-Moves f v) (λ w. flush_loop-Moves fuel (flush_round peers f) w)))
        (stays v)

  -- From sound rings, flushEgressFair loses, duplicates and reorders no frame of either direction:
  -- each identifier's place in the line from the first frame sent to the last one waiting is kept,
  -- and the rings stay sound.
  pub flush_egress_fair-Moves : (s : System World) → Sound s → Moves s (flush_egress_fair peers s)
  unfolding flush_egress_fair
  flush_egress_fair-Moves s v = flush_loop-Moves _ (start_flush peers s) v

ingress_journey_self :
    {d : Direction} (a : List ℕ) (q : RawQueue)
    → IsIngress d q
    → q.tail ≢ q.head
    → (a ++ (q.frames q.tail).id ∷ []) ++ frame_ids (ingress (taken q)) ≡ a ++ frame_ids (ingress q)
ingress_journey_self a q v ne =
    append_assoc a _ _ ∙ ap (λ t. a ++ frame_ids t) (sym (ingress-taken q v.head_in v.tail_in ne))

ingress_journey :
    (d e : Direction) (a : List ℕ) (raw : Lanes RawQueue)
    → IsIngress d (lane d raw)
    → (lane d raw).tail ≢ (lane d raw).head
    → (a ++ gain d e ((lane d raw).frames (lane d raw).tail).id)
        ++ frame_ids (ingress (lane e (set_lane d (taken (lane d raw)) raw)))
      ≡ a ++ frame_ids (ingress (lane e raw))
ingress_journey a_to_b a_to_b a raw v ne = ingress_journey_self a (lane a_to_b raw) v ne
ingress_journey b_to_a b_to_a a raw v ne = ingress_journey_self a (lane b_to_a raw) v ne
ingress_journey a_to_b b_to_a a raw v ne =
    ap (λ t. t ++ frame_ids (ingress (lane b_to_a raw))) (append-nil a)
ingress_journey b_to_a a_to_b a raw v ne =
    ap (λ t. t ++ frame_ids (ingress (lane a_to_b raw))) (append-nil a)

Forwarded-raw :
    {W : Type 0} {p : PreparedFrame} {raw : Lanes RawQueue} {out : Lanes EgressQueue}
    {sent : Lanes (List CanFrame)} {t : System W}
    → Forwarded p raw out sent t
    → t.core.raw ≡ raw
Forwarded-raw (sent_now er empty ee es) = er
Forwarded-raw (kept er ee es) = er

waiting : (blocked : Bool) (t h : ℕ) → (blocked || not (not (t == h))) ≡ false → t ≢ h
waiting blocked t h e = ground arith

module _ (peers : Peers) (laws : KeepsIdentity peers) (now_us now_ms : ℕ) where
  open peers use {World}

  taken_system : Direction → System World → System World
  unfolding take_raw
  taken_system d s = record s { core = (take_raw d now_us s.core).1 }

  forward-Moves :
      (d : Direction) (s : System World)
      → Sound s
      → (lane d s.core.raw).tail ≢ (lane d s.core.raw).head
      → (lane d s.core.egress).count < 64
      → Moves s
          (forward_frame peers (take_raw d now_us s.core).0 false false now_ms (taken_system d s)).1
  unfolding taken_system
  forward-Moves d s v ne room =
      let q = lane d s.core.raw in
      let (rest, same) = taken-IsIngress q (v.ingress_sound d) ne in
      let (p, same_id, same_direction', done) =
        forward_frame-Forwarded peers laws (take_raw d now_us s.core).0 now_ms (taken_system d s)
          (subst (λ k. (lane k s.core.egress).count < 64) (sym same) room) in
      let there : p.frame.direction ≡ d = same_direction' ∙ same in
      record {
        sound = Forwarded-IsSound d p there (set_lane-IsSound d v rest) room done;
        same_journey = λ e.
            ap₂ (λ a b. a ++ frame_ids (ingress (lane e b)))
              (Forwarded-outbound d p there (v.egress_sound d) room done e
                ∙ ap (λ i. outbound (lane e s.sent) (lane e s.core.egress) ++ gain d e i) same_id)
              (Forwarded-raw done)
            ∙ ingress_journey d e (outbound (lane e s.sent) (lane e s.core.egress)) s.core.raw
                (v.ingress_sound d) ne;
      }

  poll_turn-Moves :
      (d : Direction) (p : Poll World)
      → Sound p.system
      → Moves p.system (poll_turn peers now_us now_ms d p).system
  unfolding poll_turn raw_pending egress_has_capacity taken_system
  poll_turn-Moves d p v =
      let q = lane d p.system.core.raw in
      let count = (lane d p.system.core.egress).count in
      elim (Bool-cases (ltb p.processed 16)) [
        | inr spent ↦ rw spent (stays v)
        | inl left' ↦ elim (Bool-cases (lane d p.blocked || not (not (q.tail == q.head)))) [
          | inl idle ↦ rw (left', idle) (stays v)
          | inr busy ↦ elim (Bool-cases (ltb count 64)) [
            | inr full ↦ rw (left', busy, full) (record { sound = v; same_journey = λ e. refl })
            | inl room ↦
                rw (left', busy, room)
                  (forward-Moves d p.system v (waiting (lane d p.blocked) q.tail q.head busy)
                    (ltb→lt count 64 room))
          ]
        ]
      ]

  poll_round-Moves :
      (p : Poll World) → Sound p.system → Moves p.system (poll_round peers now_us now_ms p).system
  unfolding poll_round
  poll_round-Moves p v =
      let first = p.system.core.next_raw_direction in
      let p0 : Poll World = record p { progressed = false } in
      let m =
        Moves-then (poll_turn-Moves first p0 v)
          (λ w. poll_turn-Moves (opposite first) (poll_turn peers now_us now_ms first p0) w) in
      record { sound = m.sound; same_journey = m.same_journey }

  poll_loop-Moves :
      (fuel : ℕ) (p : Poll World)
      → Sound p.system
      → Moves p.system (poll_loop peers now_us now_ms fuel p).system
  unfolding poll_loop
  poll_loop-Moves zero p v = stays v
  poll_loop-Moves (suc fuel) p v =
      if_keeps (λ (q : Poll World). Moves p.system q.system) _
        (if_keeps (λ (q : Poll World). Moves p.system q.system) _ (poll_round-Moves p v)
          (Moves-then (poll_round-Moves p v)
            (λ w. poll_loop-Moves fuel (poll_round peers now_us now_ms p) w)))
        (stays v)

  -- pollRx, with what it flushes, loses, duplicates and reorders no frame of either direction: the
  -- line of identifiers from the first frame sent, over those waiting for the driver, to the last
  -- one waiting at ingress is the same before and after, and the rings stay sound. The mutation
  -- engine is assumed to keep identifier and direction of a frame, and the rings to be sound.
  pub poll_rx-Moves : (s : System World) → Sound s → Moves s (poll_rx peers now_us now_ms s)
  unfolding poll_rx update_raw_depth start_poll
  poll_rx-Moves s v =
      let m =
        Moves-then (flush_egress_fair-Moves peers s v)
          (λ w. poll_loop-Moves _ (start_poll peers (flush_egress_fair peers s)) w) in
      record { sound = m.sound; same_journey = m.same_journey }
