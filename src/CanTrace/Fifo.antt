-- ===== src/CanTrace/Fifo.antt =====
-- The trace queue (core/can_trace.cpp) as a first-in, first-out queue, across the wrap of its indices.
use signal_scope_api.Base.{
  ℕ, suc, ◌+◌, ◌-◌, ◌%◌, ◌^◌, ◌<◌, ◌≤◌, ◌≡◌, refl, sym, ap, ◌∙◌, Bool, true, false, not, ◌&&◌, ◌||◌,
  arith, ltb, leb, ◌==◌, if◌then◌else◌, if_true, if_false, if_cases, Option, none, some, List, [],
  ◌∷◌, ◌++◌, store,
}
use native.Mathlib.Decide.{dec_lt}
use native.Mathlib.Nat.{mod-lt, add-mod-mod, mod-add-mod}
use signal_scope_api.Base.Ring.{window, window-push_at, window-pop_at}
use signal_scope_api.Frame.{u32, sub_u32}
use signal_scope_api.CanTrace.{CanTraceEvent, CanTraceQueue, push, pop}

-- The events that wait, oldest first.
abbrev pub waiting : CanTraceQueue → List CanTraceEvent
waiting q =
    window q.capacity q.events (q.read_index % q.capacity) (sub_u32 q.write_index q.read_index)

-- The indices are counters modulo 2 ^ 32, of which the capacity is a divisor.
pub record IsQueue (q : CanTraceQueue) : Type 0 where
  pub some_room : 0 < q.capacity
  pub capacity_in : q.capacity < 2 ^ 32
  pub divides : 2 ^ 32 % q.capacity ≡ 0
  pub write_in : q.write_index < 2 ^ 32
  pub read_in : q.read_index < 2 ^ 32
  pub within : sub_u32 q.write_index q.read_index ≤ q.capacity

-- The wrap of a counter does not change its slot.
wrapped_slot : (cap x : ℕ) → 2 ^ 32 % cap ≡ 0 → x < 2 ^ 33 → u32 x % cap ≡ x % cap
wrapped_slot cap x d hx = elim (dec_lt x (2 ^ 32)) [
  | yes inside ↦ ap (λ t. t % cap) (omega arith)
  | no over ↦
      let rest = x - 2 ^ 32 in
      ap (λ t. t % cap) {x = u32 x} {y = rest} (omega arith)
      ∙ sym (
          ap (λ t. t % cap) {x = x} {y = rest + 2 ^ 32} (omega arith)
          ∙ sym (add-mod-mod rest (2 ^ 32) cap)
          ∙ ap (λ t. (rest + t) % cap) d
          ∙ ap (λ t. t % cap) {x = rest + 0} {y = rest} (omega arith))
]

next_slot :
    (cap i : ℕ) → 0 < cap → 2 ^ 32 % cap ≡ 0 → i < 2 ^ 32 → u32 (i + 1) % cap ≡ (i % cap + 1) % cap
next_slot cap i h d hi = wrapped_slot cap (i + 1) d (omega arith) ∙ sym (mod-add-mod i cap 1)

write_slot :
    (cap r w : ℕ)
    → 0 < cap
    → 2 ^ 32 % cap ≡ 0
    → r < 2 ^ 32
    → w < 2 ^ 32
    → w % cap ≡ (r % cap + sub_u32 w r) % cap
write_slot cap r w h d hr hw =
    ap (λ t. t % cap) {x = w} {y = u32 (r + sub_u32 w r)} (omega arith)
    ∙ wrapped_slot cap (r + sub_u32 w r) d (omega arith)
    ∙ sym (mod-add-mod r cap (sub_u32 w r))

-- What a push into an active queue keeps: its event, numbered, stands last, or is dropped.
abbrev pub numbered : CanTraceEvent → CanTraceQueue → CanTraceEvent
numbered e q = record e { sequence = u32 (q.next_sequence + 1) }

counted :
    (w r cap : ℕ)
    → w < 2 ^ 32
    → r < 2 ^ 32
    → sub_u32 w r < cap
    → cap < 2 ^ 32
    → sub_u32 (u32 (w + 1)) r ≡ suc (sub_u32 w r)
counted w r cap hw hr room h = omega arith

waiting-pushed :
    (e : CanTraceEvent) (q : CanTraceQueue)
    → IsQueue q
    → sub_u32 q.write_index q.read_index < q.capacity
    → window q.capacity
        (store q.events (q.write_index % q.capacity) e)
        (q.read_index % q.capacity)
        (sub_u32 (u32 (q.write_index + 1)) q.read_index)
      ≡ waiting q ++ e ∷ []
waiting-pushed e q v room =
    window-push_at q.capacity q.events e (q.read_index % q.capacity)
      (sub_u32 q.write_index q.read_index) (sub_u32 (u32 (q.write_index + 1)) q.read_index)
      (q.write_index % q.capacity) (mod-lt q.read_index v.some_room) room
      (counted q.write_index q.read_index q.capacity v.write_in v.read_in room v.capacity_in)
      (write_slot q.capacity q.read_index q.write_index v.some_room v.divides v.read_in v.write_in)

-- Whether a push into the queue is kept.
abbrev pub keeps : CanTraceQueue → Bool
keeps q = q.active && ltb (sub_u32 q.write_index q.read_index) q.capacity

pub record Pushed (e : CanTraceEvent) (q r : CanTraceQueue) : Type 0 where
  pub sound : IsQueue r
  pub line : waiting r ≡ (if keeps q then waiting q ++ numbered e q ∷ [] else waiting q)
  pub sequence_now :
      r.next_sequence ≡ (if q.active then u32 (q.next_sequence + 1) else q.next_sequence)
  pub dropped_now :
      r.dropped ≡ (if q.active && not (keeps q) then u32 (q.dropped + 1) else q.dropped)
  pub produced_now : r.produced ≡ (if keeps q then u32 (q.produced + 1) else q.produced)
  pub nobody_left : r.producer_inflight ≡ q.producer_inflight
  pub whole : (if q.active then q else r) ≡ q
  pub mode_same :
      (r.active ≡ q.active)
      × (r.scope ≡ q.scope)
      × (r.allocated ≡ q.allocated)
      × (r.capacity ≡ q.capacity)
      × (r.read_index ≡ q.read_index)

inactive :
    (active allocated : Bool) (cap : ℕ)
    → allocated ≡ true
    → 0 < cap
    → (not active || not allocated || (cap == 0)) ≡ true
    → active ≡ false
inactive active allocated cap on h e = ground arith

working :
    (active allocated : Bool) (cap : ℕ)
    → (not active || not allocated || (cap == 0)) ≡ false
    → active ≡ true
working active allocated cap e = ground arith

left_again : (n : ℕ) → n < 2 ^ 32 → sub_u32 (u32 (n + 1)) 1 ≡ n
left_again n h = omega arith

-- A push into an allocated queue with sound indices gives the event the next number and puts it
-- last, if the queue is active and not full; if it is active and full the event is dropped and
-- counted, and its number is spent; if it is not active the whole queue is as it was. The queue
-- stays sound, the producer has left its count, a uint32_t, as it found it, and no push changes the
-- state of the trace or the place of the reader.
pub push-Pushed :
    (e : CanTraceEvent) (q : CanTraceQueue)
    → q.allocated ≡ true
    → IsQueue q
    → q.producer_inflight < 2 ^ 32
    → Pushed e q (push e q)
unfolding push
push-Pushed e q on v few =
    let back : sub_u32 (u32 (q.producer_inflight + 1)) 1 ≡ q.producer_inflight =
      left_again q.producer_inflight few in
    if_cases (Pushed e q) (not q.active || not q.allocated || (q.capacity == 0))
      (λ off.
        let stopped : q.active ≡ false =
          inactive q.active q.allocated q.capacity on v.some_room off in
        let kept : keeps q ≡ false = ground arith in
        record {
          sound = record {
            some_room = v.some_room;
            capacity_in = v.capacity_in;
            divides = v.divides;
            write_in = v.write_in;
            read_in = v.read_in;
            within = v.within;
          };
          line = sym (if_false (keeps q) _ _ kept);
          sequence_now = sym (if_false q.active _ _ stopped);
          dropped_now = sym (if_false (q.active && not (keeps q)) _ _ (ground arith));
          produced_now = sym (if_false (keeps q) _ _ kept);
          nobody_left = back;
          whole = if_false q.active _ _ stopped ∙ ap (λ n. record q { producer_inflight = n }) back;
          mode_same = (refl, refl, refl, refl, refl);
        })
      (λ works.
        let running : q.active ≡ true = working q.active q.allocated q.capacity works in
        if_cases (Pushed e q) (leb q.capacity (sub_u32 q.write_index q.read_index))
          (λ full.
            let kept : keeps q ≡ false = ground arith in
            record {
              sound = record {
                some_room = v.some_room;
                capacity_in = v.capacity_in;
                divides = v.divides;
                write_in = v.write_in;
                read_in = v.read_in;
                within = v.within;
              };
              line = sym (if_false (keeps q) _ _ kept);
              sequence_now = sym (if_true q.active _ _ running);
              dropped_now = sym (if_true (q.active && not (keeps q)) _ _ (ground arith));
              produced_now = sym (if_false (keeps q) _ _ kept);
              nobody_left = back;
              whole = if_true q.active _ _ running;
              mode_same = (refl, refl, refl, refl, refl);
            })
          (λ room.
            let kept : keeps q ≡ true = ground arith in
            let free : sub_u32 q.write_index q.read_index < q.capacity = ground arith in
            record {
              sound = record {
                some_room = v.some_room;
                capacity_in = v.capacity_in;
                divides = v.divides;
                write_in = omega arith;
                read_in = v.read_in;
                within = omega (
                  arith,
                  counted q.write_index q.read_index q.capacity v.write_in v.read_in free
                      v.capacity_in,
                );
              };
              line = waiting-pushed (numbered e q) q v free ∙ sym (if_true (keeps q) _ _ kept);
              sequence_now = sym (if_true q.active _ _ running);
              dropped_now = sym (if_false (q.active && not (keeps q)) _ _ (ground arith));
              produced_now = sym (if_true (keeps q) _ _ kept);
              nobody_left = back;
              whole = if_true q.active _ _ running;
              mode_same = (refl, refl, refl, refl, refl);
            }))

abbrev pub first : List CanTraceEvent → Option CanTraceEvent
first [] = none
first (e ∷ es) = some e

abbrev pub rest_of : List CanTraceEvent → List CanTraceEvent
rest_of [] = []
rest_of (e ∷ es) = es

-- A pop of an allocated queue with sound indices gives the oldest event, if there is one, and leaves
-- the others in their order; the queue stays sound.
pub waiting-pop :
    (q : CanTraceQueue)
    → q.allocated ≡ true
    → IsQueue q
    → ((pop q).0 ≡ first (waiting q))
      × (waiting (pop q).1 ≡ rest_of (waiting q))
      × IsQueue (pop q).1
unfolding pop
waiting-pop q on v =
    let Popped = λ (r : Option CanTraceEvent × CanTraceQueue).
      (r.0 ≡ first (waiting q)) × (waiting r.1 ≡ rest_of (waiting q)) × IsQueue r.1 in
    let r = q.read_index in
    let w = q.write_index in
    if_cases Popped (not q.allocated || (q.capacity == 0))
      (λ off. absurd (ground (arith, v.some_room)))
      (λ ready.
        if_cases Popped (r == w)
          (λ same.
            let empty : waiting q ≡ [] =
              ap (window q.capacity q.events (r % q.capacity)) {x = sub_u32 w r} {y = 0}
                (ground (arith, v.write_in)) in
            (sym (ap first empty), empty ∙ sym (ap rest_of empty), v))
          (λ other.
            let left : sub_u32 w r ≡ suc (sub_u32 w (u32 (r + 1))) =
              ground (arith, v.write_in, v.read_in) in
            let line =
              window-pop_at q.capacity q.events (r % q.capacity) (sub_u32 w r)
                (sub_u32 w (u32 (r + 1))) (u32 (r + 1) % q.capacity) left
                (next_slot q.capacity r v.some_room v.divides v.read_in) in
            (
              sym (ap first line),
              sym (ap rest_of line),
              record {
                some_room = v.some_room;
                capacity_in = v.capacity_in;
                divides = v.divides;
                write_in = v.write_in;
                read_in = omega arith;
                within = omega (arith, left, v.within);
              },
            )))
