-- ===== src/Gateway/Queues/Ingress.antt =====
-- The ingress ring as a queue of at most 127 frames, oldest first.
use signal_scope_api.Base.{
  ℕ, suc, ◌+◌, ◌-◌, ◌%◌, ◌<◌, ◌≡◌, ◌≢◌, arith, if◌then◌else◌, leb, List, [], ◌∷◌, ◌++◌, All,
  All-append, store,
}
use mathlib.Core.Path.{subst}
use mathlib.Core.Logic.{◌↔◌}
use signal_scope_api.Base.Ring.{window, window-push_at, window-pop_at}
use signal_scope_api.Frame.{CanFrame, Direction, u16}
use signal_scope_api.Gateway.State.{RawQueue, rx_queue_size}
use signal_scope_api.Gateway.Queues.{next_index, depth_of}

abbrev pub ingress : RawQueue → List CanFrame
ingress q = window rx_queue_size q.frames q.tail (depth_of q)

-- Every frame waits in the ring of its own direction.
pub record IsIngress (d : Direction) (q : RawQueue) : Type 0 where
  pub head_in : q.head < rx_queue_size
  pub tail_in : q.tail < rx_queue_size
  pub directions : All (λ f. f.direction ≡ d) (ingress q)

abbrev pub pushed : CanFrame → RawQueue → RawQueue
pushed f q = record q { frames = store q.frames q.head f; head = next_index q.head }

abbrev pub taken : RawQueue → RawQueue
taken q = record q { tail = next_index q.tail }

head_eq :
    (h t : ℕ)
    → h < 128
    → t < 128
    → h ≡ (t + (if leb t h then u16 (h - t) else u16 (128 - t + h))) % 128
head_eq h t p q = ground arith

pub depth-lt : (q : RawQueue) → q.head < 128 → q.tail < 128 → depth_of q < 128
depth-lt q p r = ground arith

depth-pushed :
    (q : RawQueue) (f : CanFrame)
    → q.head < 128
    → q.tail < 128
    → next_index q.head ≢ q.tail
    → depth_of (pushed f q) ≡ suc (depth_of q)
depth-pushed q f p r ne = ground arith

depth-taken :
    (q : RawQueue)
    → q.head < 128
    → q.tail < 128
    → q.tail ≢ q.head
    → depth_of q ≡ suc (depth_of (taken q))
depth-taken q p r ne = ground arith

pub ingress-pushed :
    (q : RawQueue) (f : CanFrame)
    → q.head < 128
    → q.tail < 128
    → next_index q.head ≢ q.tail
    → ingress (pushed f q) ≡ ingress q ++ f ∷ []
ingress-pushed q f p r ne =
    window-push_at 128 q.frames f q.tail (depth_of q) (depth_of (pushed f q)) q.head r
      (depth-lt q p r) (depth-pushed q f p r ne) (head_eq q.head q.tail p r)

pub ingress-taken :
    (q : RawQueue)
    → q.head < 128
    → q.tail < 128
    → q.tail ≢ q.head
    → ingress q ≡ q.frames q.tail ∷ ingress (taken q)
ingress-taken q p r ne =
    window-pop_at 128 q.frames q.tail (depth_of q) (depth_of (taken q)) (next_index q.tail)
      (depth-taken q p r ne) (omega arith)

-- The ring refuses a frame exactly when it holds 127.
pub next_index-eq_tail_iff :
    (q : RawQueue) → q.head < 128 → q.tail < 128 → (next_index q.head ≡ q.tail) ↔ (depth_of q ≡ 127)
next_index-eq_tail_iff q p r = (λ e. ground arith, λ e. ground arith)

pub pushed-IsIngress :
    {d : Direction} (q : RawQueue) (f : CanFrame)
    → IsIngress d q
    → next_index q.head ≢ q.tail
    → f.direction ≡ d
    → IsIngress d (pushed f q)
pushed-IsIngress {d} q f v ne e = record {
  head_in = omega arith;
  tail_in = v.tail_in;
  directions =
      rw (ingress-pushed q f v.head_in v.tail_in ne)
        (All-append (λ g. g.direction ≡ d) (ingress q) (f ∷ []) v.directions (e, tt));
}

pub taken-IsIngress :
    {d : Direction} (q : RawQueue)
    → IsIngress d q
    → q.tail ≢ q.head
    → IsIngress d (taken q) × ((q.frames q.tail).direction ≡ d)
taken-IsIngress {d} q v ne =
    let split =
      subst (All (λ g. g.direction ≡ d)) (ingress-taken q v.head_in v.tail_in ne) v.directions in
    (record { head_in = v.head_in; tail_in = omega arith; directions = split.1 }, split.0)
