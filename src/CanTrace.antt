-- ===== src/CanTrace.antt =====
-- CanTraceQueue (core/can_trace.hpp, core/can_trace.cpp): the queue of trace events between the CAN
-- task and the application task. One call is one step; its indices are uint32_t counters.
pub mod Fifo
use signal_scope_api.Base.{
  ℕ, ◌+◌, ◌-◌, ◌*◌, ◌%◌, ◌^◌, Bool, true, false, not, ◌&&◌, ◌||◌, ltb, leb, ◌==◌, if◌then◌else◌,
  Option, none, some, Array, store, bit_or,
}
use signal_scope_api.Frame.{
  CanFrame, Direction, a_to_b, b_to_a, same_direction, Bytes, u32, sub_u32,
}

pub data CanTraceScope : Type 0 where
  physical all only_a_to_b only_b_to_a mutated : CanTraceScope

abbrev same_scope : CanTraceScope → CanTraceScope → Bool
same_scope physical physical = true
same_scope all all = true
same_scope only_a_to_b only_a_to_b = true
same_scope only_b_to_a only_b_to_a = true
same_scope mutated mutated = true
same_scope _ _ = false

pub data CanTraceStage : Type 0 where
  ingress prepared transmitted : CanTraceStage

-- CanTraceFlag
abbrev pub flag_diagnostic_consumed : ℕ
flag_diagnostic_consumed = 1

abbrev pub flag_gateway_dropped : ℕ
flag_gateway_dropped = 2

abbrev pub flag_mutated : ℕ
flag_mutated = 4

abbrev pub flag_synthetic : ℕ
flag_synthetic = 8

abbrev pub flag_has_input : ℕ
flag_has_input = 16

abbrev pub flag_diagnostic_transport : ℕ
flag_diagnostic_transport = 32

pub record CanTraceEvent : Type 0 where
  pub sequence : ℕ
  pub timestamp_us : ℕ
  pub can_id : ℕ
  pub direction : Direction
  pub dlc : ℕ
  pub stage : CanTraceStage
  pub flags : ℕ
  pub bytes : Bytes
  pub input_bytes : Bytes

-- `allocated` is `events_ != nullptr`.
pub record CanTraceQueue : Type 0 where
  pub allocated : Bool
  pub events : Array CanTraceEvent
  pub capacity : ℕ
  pub write_index : ℕ
  pub read_index : ℕ
  pub next_sequence : ℕ
  pub dropped : ℕ
  pub produced : ℕ
  pub producer_inflight : ℕ
  pub scope : CanTraceScope
  pub active : Bool

abbrev pub default_capacity : ℕ
default_capacity = 4096

unfoldable pub available : CanTraceQueue → Bool
available q = q.allocated && ltb 1 q.capacity

unfoldable pub producer_idle : CanTraceQueue → Bool
producer_idle q = q.producer_inflight == 0

-- `allocate` gives the zeroed events that the platform has for a capacity, and how many.
unfoldable pub init :
    (ℕ → Option (ℕ × Array CanTraceEvent)) → ℕ → CanTraceQueue → Bool × CanTraceQueue
init allocate capacity q =
    let off = record q { active = false; allocated = false; capacity = 0 } in
    if ltb capacity 2 then (false, off) else elim (allocate capacity) [
      | none ↦ (false, off)
      | some block ↦ (
        true,
        record off {
          allocated = true;
          capacity = block.0;
          events = block.1;
          write_index = 0;
          read_index = 0;
          next_sequence = 0;
          dropped = 0;
          produced = 0;
          producer_inflight = 0;
        },
      )
    ]

unfoldable pub start : CanTraceScope → CanTraceQueue → Bool × CanTraceQueue
unfolding available producer_idle
start scope q =
    if not (available q)
    then (false, q)
    else if not (producer_idle q)
    then (false, record q { active = false })
    else (
      true,
      record q {
        read_index = q.write_index;
        next_sequence = 0;
        dropped = 0;
        produced = 0;
        scope = scope;
        active = true;
      },
    )

unfoldable pub stop : CanTraceQueue → CanTraceQueue
stop q = record q { active = false }

unfoldable pub accepts_direction : Direction → CanTraceQueue → Bool
accepts_direction d q =
    if same_scope q.scope only_a_to_b
    then same_direction d a_to_b
    else if same_scope q.scope only_b_to_a
    then same_direction d b_to_a
    else true

unfoldable pub push : CanTraceEvent → CanTraceQueue → CanTraceQueue
push source q =
    let entered = record q { producer_inflight = u32 (q.producer_inflight + 1) } in
    let left =
      λ (r : CanTraceQueue). record r { producer_inflight = sub_u32 r.producer_inflight 1 } in
    let numbered = record entered { next_sequence = u32 (q.next_sequence + 1) } in
    if not q.active || not q.allocated || (q.capacity == 0)
    then left entered
    else if leb q.capacity (sub_u32 q.write_index q.read_index)
    then left (record numbered { dropped = u32 (q.dropped + 1) })
    else left (record numbered {
      events =
          store q.events (q.write_index % q.capacity)
            (record source { sequence = u32 (q.next_sequence + 1) });
      write_index = u32 (q.write_index + 1);
      produced = u32 (q.produced + 1);
    })

unfoldable pub pop : CanTraceQueue → Option CanTraceEvent × CanTraceQueue
pop q =
    if not q.allocated || (q.capacity == 0)
    then (none, q)
    else if q.read_index == q.write_index
    then (none, q)
    else (
      some (q.events (q.read_index % q.capacity)),
      record q { read_index = u32 (q.read_index + 1) },
    )

unfoldable pub pending : CanTraceQueue → ℕ
pending q = sub_u32 q.write_index q.read_index

abbrev no_bytes : Bytes
no_bytes i = 0

abbrev flag : Bool → ℕ → ℕ → ℕ
flag set bit flags = if set then bit_or flags bit else flags

-- The fields that the three producers fill alike.
abbrev pub event_of : CanFrame → CanTraceStage → ℕ → CanTraceEvent
event_of frame stage flags = record {
  sequence = 0;
  timestamp_us = frame.timestamp_us;
  can_id = frame.id;
  direction = frame.direction;
  dlc = if leb frame.dlc 8 then frame.dlc else 8;
  stage = stage;
  flags = flags;
  bytes = frame.bytes;
  input_bytes = no_bytes;
}

unfoldable pub push_ingress : CanFrame → Bool → Bool → CanTraceQueue → CanTraceQueue
unfolding accepts_direction push
push_ingress frame diagnostic_consumed gateway_dropped q =
    if not q.active || not (accepts_direction frame.direction q) || same_scope q.scope mutated
    then q
    else push
        (event_of frame ingress (
          flag gateway_dropped flag_gateway_dropped
            (flag diagnostic_consumed flag_diagnostic_consumed 0)))
        q

unfoldable pub push_prepared : CanFrame → CanFrame → Bool → Bool → CanTraceQueue → CanTraceQueue
unfolding accepts_direction push
push_prepared input output is_mutated synthetic q =
    if not q.active || not (accepts_direction output.direction q)
    then q
    else if not is_mutated && not (same_scope q.scope all)
    then q
    else if synthetic && same_scope q.scope physical
    then q
    else push
        (record (event_of output prepared
          (flag synthetic flag_synthetic (flag is_mutated flag_mutated flag_has_input))) {
            input_bytes = input.bytes;
          })
        q

unfoldable pub push_transmit : CanFrame → Bool → CanTraceQueue → CanTraceQueue
unfolding accepts_direction push
push_transmit frame diagnostic_transport q =
    if not q.active || not (accepts_direction frame.direction q) || same_scope q.scope mutated
    then q
    else push (event_of frame transmitted (flag diagnostic_transport flag_diagnostic_transport 0)) q
