-- ===== src/Replay/Playback.antt =====
-- What a tick of ReplayEngine (core/replay_engine.cpp) dispatches: the next frames of the recording.
use signal_scope_api.Base.{
  ℕ, zero, suc, ◌+◌, ◌<◌, ◌≤◌, ◌≡◌, ◌⊎◌, Bool, true, false, not, ◌||◌, ◌==◌, if◌then◌else◌, List,
  [], ◌∷◌, ◌++◌, Array,
}
use signal_scope_api.Frame.{CanFrame}
use signal_scope_api.Replay.{
  ReplayDispatchMode, ReplayFrame, ReplayEngine, Session, offer, dispatch_one, tick_loop,
}

-- The next `m` frames of a recording of `n` frames from `cursor` on, which goes on at its start.
unfoldable pub next_frames : Array ReplayFrame → ℕ → ℕ → ℕ → List CanFrame
next_frames frames n cursor zero = []
next_frames frames n cursor (suc m) =
    (frames cursor).frame ∷ next_frames frames n (if cursor + 1 == n then 0 else cursor + 1) m

-- From `s` to `t` the next frames were dispatched, between `least` and `most` of them: the session
-- plays on at a frame of the recording, or it has stopped right behind the last one.
pub record Played {ℓ} {W : Type ℓ} (least most : ℕ) (s t : Session W) : Type ℓ where
  pub count : ℕ
  pub at_least : least ≤ count
  pub at_most : count ≤ most
  pub dispatched_next :
      t.dispatched
      ≡ s.dispatched ++ next_frames s.engine.frames s.engine.frame_count s.engine.cursor count
  pub same_frames : t.engine.frames ≡ s.engine.frames
  pub same_count : t.engine.frame_count ≡ s.engine.frame_count
  pub place :
      ((t.engine.playing ≡ true) × (t.engine.cursor < s.engine.frame_count))
      ⊎ ((t.engine.playing ≡ false) × (t.engine.cursor ≡ s.engine.frame_count))

-- The engine one frame further.
record Advanced (e f : ReplayEngine) : Type 0 where
  pub frames_kept : f.frames ≡ e.frames
  pub count_kept : f.frame_count ≡ e.frame_count
  pub goes :
      ((f.playing ≡ true)
        × (f.cursor ≡ (if e.cursor + 1 == e.frame_count then 0 else e.cursor + 1))
        × (f.cursor < e.frame_count))
      ⊎ ((f.playing ≡ false) × (f.cursor ≡ e.frame_count))

module _ {ℓ} {W : Type ℓ} (tx : CanFrame → ReplayDispatchMode → W → Bool × W) (now : ℕ) where
  -- The rest of a round after its frame was dispatched.
  rest_of_round : ℕ → Session W → Session W
  rest_of_round left s =
      if not (dispatch_one tx now s).engine.playing || not (offer tx s).0
      then dispatch_one tx now s
      else tick_loop tx left now (dispatch_one tx now s)

  Plays : ℕ → Type ℓ
  Plays left =
      (s : Session W)
      → s.engine.playing ≡ true
      → s.engine.cursor < s.engine.frame_count
      → Played 0 left s (tick_loop tx left now s)
