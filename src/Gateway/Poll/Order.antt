-- ===== src/Gateway/Poll/Order.antt =====
-- The frames of each direction as one line: sent, waiting for the driver, waiting at ingress.
-- pollRx only moves frames along it.
use mathlib.Core.Path.{subst, subst₂, ap₂}
use mathlib.Core.List.{append-nil, append_assoc, map-append}
use signal_scope_api.Base.{
  ℕ, ◌<◌, ◌≡◌, ◌≢◌, refl, sym, ap, ◌∙◌, List, [], ◌∷◌, ◌++◌, map, if◌then◌else◌,
}
use signal_scope_api.Base.Ring.{window}
use signal_scope_api.Frame.{
  CanFrame, Direction, a_to_b, b_to_a, Lanes, lane, set_lane, same_direction,
}
use signal_scope_api.Gateway.State.{egress_queue_size, PreparedFrame, EgressQueue, RawQueue}
use signal_scope_api.Gateway.Queues.Ingress.{ingress, IsIngress}
use signal_scope_api.Gateway.Queues.Egress.{
  egress, IsEgress, queued, dropped, egress-queued, egress-dropped, queued-IsEgress,
}
use signal_scope_api.Gateway.Forward.{System}
use signal_scope_api.Gateway.Forward.Steps.{Forwarded, sent_now, kept}

abbrev pub frame_ids : List CanFrame → List ℕ
frame_ids = map (λ f. f.id)

abbrev pub prepared_ids : List PreparedFrame → List ℕ
prepared_ids = map (λ p. p.frame.id)

abbrev pub outbound : List CanFrame → EgressQueue → List ℕ
outbound sent q = frame_ids sent ++ prepared_ids (egress q)

-- The identifiers of one direction, from the first frame sent to the last one received.
abbrev pub journey : {W : Type 0} → Direction → System W → List ℕ
journey d s =
    outbound (lane d s.sent) (lane d s.core.egress) ++ frame_ids (ingress (lane d s.core.raw))

pub record IsSound (raw : Lanes RawQueue) (out : Lanes EgressQueue) : Type 0 where
  pub ingress_sound : (d : Direction) → IsIngress d (lane d raw)
  pub egress_sound : (d : Direction) → IsEgress d (lane d out)

pub record Moves {W : Type 0} (s t : System W) : Type 0 where
  pub sound : IsSound t.core.raw t.core.egress
  pub same_journey : (d : Direction) → journey d t ≡ journey d s

egress-nil : (q : EgressQueue) → q.count ≡ 0 → egress q ≡ []
egress-nil q empty = ap (window egress_queue_size q.frames q.tail) empty

append-sent :
    (sent : List CanFrame) (xs : List PreparedFrame) (f : CanFrame)
    → xs ≡ []
    → frame_ids (sent ++ f ∷ []) ++ prepared_ids xs
      ≡ (frame_ids sent ++ prepared_ids xs) ++ f.id ∷ []
append-sent sent xs f empty = rw empty (simp (map-append, append-nil))

outbound-sent :
    (sent : List CanFrame) (q : EgressQueue) (f : CanFrame)
    → q.count ≡ 0
    → outbound (sent ++ f ∷ []) q ≡ outbound sent q ++ f.id ∷ []
outbound-sent sent q f empty = append-sent sent (egress q) f (egress-nil q empty)

outbound-queued :
    {d : Direction} (sent : List CanFrame) (q : EgressQueue) (p : PreparedFrame)
    → IsEgress d q
    → q.count < 64
    → outbound sent (queued p q) ≡ outbound sent q ++ p.frame.id ∷ []
outbound-queued sent q p v room =
    ap (λ t. frame_ids sent ++ prepared_ids t) (egress-queued q p v room)
    ∙ simp (map-append, append_assoc)

pub outbound-dropped :
    (sent : List CanFrame) (q : EgressQueue)
    → q.count ≢ 0
    → outbound (sent ++ (q.frames q.tail).frame ∷ []) (dropped q) ≡ outbound sent q
outbound-dropped sent q ne =
    simp (map-append, append_assoc) refl
    ∙ sym (ap (λ t. frame_ids sent ++ prepared_ids t) (egress-dropped q ne))

-- The identifier that the line of direction `e` gains when a frame joins direction `d`.
abbrev pub gain : Direction → Direction → ℕ → List ℕ
gain d e id = if same_direction d e then id ∷ [] else []

gain-sent :
    (d e : Direction) (sent : Lanes (List CanFrame)) (out : Lanes EgressQueue) (f : CanFrame)
    → (lane d out).count ≡ 0
    → outbound (lane e (set_lane d (lane d sent ++ f ∷ []) sent)) (lane e out)
      ≡ outbound (lane e sent) (lane e out) ++ gain d e f.id
gain-sent a_to_b a_to_b sent out f empty =
    outbound-sent (lane a_to_b sent) (lane a_to_b out) f empty
gain-sent b_to_a b_to_a sent out f empty =
    outbound-sent (lane b_to_a sent) (lane b_to_a out) f empty
gain-sent a_to_b b_to_a sent out f empty = sym (append-nil _)
gain-sent b_to_a a_to_b sent out f empty = sym (append-nil _)

gain-queued :
    (d e : Direction) (sent : Lanes (List CanFrame)) (out : Lanes EgressQueue) (p : PreparedFrame)
    → IsEgress d (lane d out)
    → (lane d out).count < 64
    → outbound (lane e sent) (lane e (set_lane d (queued p (lane d out)) out))
      ≡ outbound (lane e sent) (lane e out) ++ gain d e p.frame.id
gain-queued a_to_b a_to_b sent out p v room =
    outbound-queued (lane a_to_b sent) (lane a_to_b out) p v room
gain-queued b_to_a b_to_a sent out p v room =
    outbound-queued (lane b_to_a sent) (lane b_to_a out) p v room
gain-queued a_to_b b_to_a sent out p v room = sym (append-nil _)
gain-queued b_to_a a_to_b sent out p v room = sym (append-nil _)

-- A frame that the forwarding path accepted stands at the end of its direction's outbound line.
pub Forwarded-outbound :
    {W : Type 0} (d : Direction) (p : PreparedFrame) {raw : Lanes RawQueue}
    {out : Lanes EgressQueue} {sent : Lanes (List CanFrame)} {t : System W}
    → p.frame.direction ≡ d
    → IsEgress d (lane d out)
    → (lane d out).count < 64
    → Forwarded p raw out sent t
    → (e : Direction)
    → outbound (lane e t.sent) (lane e t.core.egress)
      ≡ outbound (lane e sent) (lane e out) ++ gain d e p.frame.id
Forwarded-outbound d p {out = out} {sent = sent} {t = t} same v room (sent_now er empty ee es) e =
    ap₂ (λ a b. outbound (lane e a) (lane e b))
      (es ∙ ap (λ k. set_lane k (lane k sent ++ p.frame ∷ []) sent) same) ee
    ∙ gain-sent d e sent out p.frame (subst (λ k. (lane k out).count ≡ 0) same empty)
Forwarded-outbound d p {out = out} {sent = sent} {t = t} same v room (kept er ee es) e =
    ap₂ (λ a b. outbound (lane e a) (lane e b)) es
      (ee ∙ ap (λ k. set_lane k (queued p (lane k out)) out) same)
    ∙ gain-queued d e sent out p v room

pub set_lane-IsEgress :
    (d : Direction) {q : EgressQueue} {raw : Lanes RawQueue} {out : Lanes EgressQueue}
    → IsSound raw out
    → IsEgress d q
    → (e : Direction) → IsEgress e (lane e (set_lane d q out))
set_lane-IsEgress a_to_b v w a_to_b = w
set_lane-IsEgress a_to_b v w b_to_a = v.egress_sound b_to_a
set_lane-IsEgress b_to_a v w a_to_b = v.egress_sound a_to_b
set_lane-IsEgress b_to_a v w b_to_a = w

pub set_lane-IsSound :
    (d : Direction) {q : RawQueue} {raw : Lanes RawQueue} {out : Lanes EgressQueue}
    → IsSound raw out
    → IsIngress d q
    → IsSound (set_lane d q raw) out
set_lane-IsSound a_to_b v w = record {
  ingress_sound = elim [ a_to_b ↦ w | b_to_a ↦ v.ingress_sound b_to_a ];
  egress_sound = v.egress_sound;
}
set_lane-IsSound b_to_a v w = record {
  ingress_sound = elim [ a_to_b ↦ v.ingress_sound a_to_b | b_to_a ↦ w ];
  egress_sound = v.egress_sound;
}

pub Forwarded-IsSound :
    {W : Type 0} (d : Direction) (p : PreparedFrame) {raw : Lanes RawQueue}
    {out : Lanes EgressQueue} {sent : Lanes (List CanFrame)} {t : System W}
    → p.frame.direction ≡ d
    → IsSound raw out
    → (lane d out).count < 64
    → Forwarded p raw out sent t
    → IsSound t.core.raw t.core.egress
Forwarded-IsSound d p same v room (sent_now er empty ee es) = subst₂ IsSound (sym er) (sym ee) v
Forwarded-IsSound d p {out = out} same v room (kept er ee es) =
    subst₂ IsSound (sym er) (sym (ee ∙ ap (λ k. set_lane k (queued p (lane k out)) out) same))
      (record {
        ingress_sound = v.ingress_sound;
        egress_sound =
            set_lane-IsEgress d v (queued-IsEgress (lane d out) p (v.egress_sound d) room same);
      })
