-- ===== src/Gateway/Queues/Egress.antt =====
-- The egress ring as a queue of at most 64 prepared frames, oldest first.
use signal_scope_api.Base.{
  ◌+◌, ◌-◌, ◌%◌, ◌<◌, ◌≤◌, ◌≡◌, ◌≢◌, refl, arith, List, [], ◌∷◌, ◌++◌, All, All-append, store,
}
use mathlib.Core.Path.{subst}
use signal_scope_api.Base.Ring.{window, window-push_at, window-pop_at}
use signal_scope_api.Frame.{Direction}
use signal_scope_api.Gateway.State.{EgressQueue, PreparedFrame, egress_queue_size}

abbrev pub egress : EgressQueue → List PreparedFrame
egress q = window egress_queue_size q.frames q.tail q.count

-- Every frame waits in the ring of its own direction.
pub record IsEgress (d : Direction) (q : EgressQueue) : Type 0 where
  pub tail_in : q.tail < egress_queue_size
  pub count_in : q.count ≤ egress_queue_size
  pub head_at : q.head ≡ (q.tail + q.count) % egress_queue_size
  pub directions : All (λ p. p.frame.direction ≡ d) (egress q)

abbrev pub queued : PreparedFrame → EgressQueue → EgressQueue
queued p q = record q {
  frames = store q.frames q.head p;
  head = (q.head + 1) % egress_queue_size;
  count = q.count + 1;
}

abbrev pub dropped : EgressQueue → EgressQueue
dropped q = record q { tail = (q.tail + 1) % egress_queue_size; count = q.count - 1 }

pub egress-queued :
    {d : Direction} (q : EgressQueue) (p : PreparedFrame)
    → IsEgress d q
    → q.count < 64
    → egress (queued p q) ≡ egress q ++ p ∷ []
egress-queued q p v room =
    window-push_at 64 q.frames p q.tail q.count (q.count + 1) q.head v.tail_in room (omega arith)
      v.head_at

pub egress-dropped :
    (q : EgressQueue) → q.count ≢ 0 → egress q ≡ q.frames q.tail ∷ egress (dropped q)
egress-dropped q ne =
    window-pop_at 64 q.frames q.tail q.count (q.count - 1) ((q.tail + 1) % 64) (omega arith) refl

pub queued-IsEgress :
    {d : Direction} (q : EgressQueue) (p : PreparedFrame)
    → IsEgress d q
    → q.count < 64
    → p.frame.direction ≡ d
    → IsEgress d (queued p q)
queued-IsEgress {d} q p v room e = record {
  tail_in = v.tail_in;
  count_in = omega arith;
  head_at = omega arith;
  directions =
      rw (egress-queued q p v room)
        (All-append (λ r. r.frame.direction ≡ d) (egress q) (p ∷ []) v.directions (e, tt));
}

pub dropped-IsEgress :
    {d : Direction} (q : EgressQueue)
    → IsEgress d q
    → q.count ≢ 0
    → IsEgress d (dropped q) × ((q.frames q.tail).frame.direction ≡ d)
dropped-IsEgress {d} q v ne =
    let split = subst (All (λ r. r.frame.direction ≡ d)) (egress-dropped q ne) v.directions in
    (
      record {
        tail_in = omega arith;
        count_in = omega arith;
        head_at = omega arith;
        directions = split.1;
      },
      split.0,
    )
