-- ===== src/Replay.antt =====
-- ReplayEngine (core/replay_engine.hpp, core/replay_engine.cpp): the recording and its playback.
-- The lines of a log are in `Replay.Lines`.
pub mod Playback
pub mod Lines
use signal_scope_api.Base.{
  same_text, reversed_onto, ℕ, zero, suc, ◌+◌, Bool, true, false, not, ◌&&◌, ◌||◌, ltb, leb, ◌==◌,
  if◌then◌else◌, ◌>>=◌, Option, none, some, List, [], ◌∷◌, ◌++◌, length, take, Array, store,
}
use mathlib.Core.Option
use signal_scope_api.Frame.{Bytes, CanFrame, Direction, a_to_b, b_to_a, sub_u32, u8, u32, u32_max}

pub data ReplayLoopMode : Type 0 where
  play_once loop_raw loop_with_counter_continuation : ReplayLoopMode

pub data ReplayDispatchMode : Type 0 where
  physical dry_run : ReplayDispatchMode

pub record ReplayFrame : Type 0 where
  pub frame : CanFrame
  pub delta_us : ℕ

unfoldable pub live_replay_ingress_frame : CanFrame → ℕ → CanFrame
live_replay_ingress_frame scheduled_frame now_us = record scheduled_frame { timestamp_us = now_us }

abbrev pub max_replay_frames : ℕ
max_replay_frames = 1024

abbrev pub max_frames_per_tick : ℕ
max_frames_per_tick = 16

-- The engine; `tx_callback` is whether there is one.
pub record ReplayEngine : Type 0 where
  pub frames : Array ReplayFrame
  pub frame_count : ℕ
  pub cursor : ℕ
  pub playing : Bool
  pub loop_mode : ReplayLoopMode
  pub next_due_us : ℕ
  pub loop_counter : ℕ
  pub dispatch_mode : ReplayDispatchMode
  pub tx_callback : Bool

unfoldable pub init : ReplayEngine → ReplayEngine
init e = record e {
  frame_count = 0;
  cursor = 0;
  playing = false;
  loop_mode = play_once;
  next_due_us = 0;
  loop_counter = 0;
  dispatch_mode = physical;
}

unfoldable pub set_tx_callback : Bool → ReplayEngine → ReplayEngine
set_tx_callback callback e = record e { tx_callback = callback }

unfoldable pub start : ReplayLoopMode → ℕ → ReplayEngine → ReplayEngine
start mode now_us e =
    if e.frame_count == 0
    then e
    else record e { loop_mode = mode; cursor = 0; playing = true; next_due_us = now_us }

unfoldable pub start_dispatch :
    ReplayLoopMode → ℕ → ReplayDispatchMode → ReplayEngine → ReplayEngine
unfolding start
start_dispatch mode now_us dispatch_mode e =
    start mode now_us (record e { dispatch_mode = dispatch_mode })

unfoldable pub stop : ReplayEngine → ReplayEngine
stop e = record e { playing = false }

unfoldable pub schedule_next : ℕ → ReplayEngine → ReplayEngine
schedule_next now_us e = record e { next_due_us = u32 (now_us + (e.frames e.cursor).delta_us) }

abbrev plays_once : ReplayLoopMode → Bool
plays_once play_once = true
plays_once _ = false

abbrev counts_loops : ReplayLoopMode → Bool
counts_loops loop_with_counter_continuation = true
counts_loops _ = false

-- The engine after a frame was offered: at the end of the recording it stops or starts again.
unfoldable pub after_frame : ℕ → ReplayEngine → ReplayEngine
unfolding schedule_next
after_frame now_us e =
    let moved = record e { cursor = e.cursor + 1 } in
    let again = record e {
      cursor = 0;
      loop_counter = if counts_loops e.loop_mode then u32 (e.loop_counter + 1) else e.loop_counter;
    } in
    if leb e.frame_count moved.cursor
    then if plays_once e.loop_mode
      then record moved { playing = false }
      else schedule_next now_us again
    else schedule_next now_us moved

-- The engine, what it calls, and the frames it has dispatched, in order: those it took from the
-- recording and handed to the callback, or counted as accepted where there is none.
pub record Session {ℓ} (W : Type ℓ) : Type ℓ where
  pub engine : ReplayEngine
  pub world : W
  pub dispatched : List CanFrame

module _ {ℓ} {W : Type ℓ} (tx : CanFrame → ReplayDispatchMode → W → Bool × W) where
  -- A frame is offered to the callback; without one it counts as accepted.
  abbrev pub offer : Session W → Bool × W
  offer s =
      let e = s.engine in
      if e.tx_callback
      then tx (e.frames e.cursor).frame e.dispatch_mode s.world
      else (true, s.world)

  abbrev pub dispatch_one : ℕ → Session W → Session W
  dispatch_one now_us s = record {
    engine = after_frame now_us s.engine;
    world = (offer s).1;
    dispatched = s.dispatched ++ (s.engine.frames s.engine.cursor).frame ∷ [];
  }

  -- The loop of tick, with `left` frames to go.
  unfoldable pub tick_loop : ℕ → ℕ → Session W → Session W
  unfolding after_frame
  tick_loop zero now_us s = s
  tick_loop (suc left) now_us s =
      let next = dispatch_one now_us s in
      let rest = tick_loop left now_us next in
      if not (s.engine.playing && leb s.engine.next_due_us now_us)
      then s
      else if not next.engine.playing || not (offer s).0
      then next
      else rest

  unfoldable pub tick : ℕ → Session W → Session W
  unfolding tick_loop
  tick now_us s =
      if not s.engine.playing || (s.engine.frame_count == 0)
      then s
      else tick_loop max_frames_per_tick now_us s
