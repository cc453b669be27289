-- ===== src/Tests/Caches.antt =====
-- The theorems about the frame cache and the replay engine at concrete states.
use signal_scope_api.Base.{
  ℕ, ◌+◌, ◌-◌, ◌<◌, ◌≡◌, refl, arith, Bool, true, false, none, some, [], ltb,
}
use signal_scope_api.Frame.{CanFrame, a_to_b}
use signal_scope_api.FrameCache.{FrameCache, FrameCacheSnapshot, init, update}
use signal_scope_api.FrameCache.Views.{read}
use signal_scope_api.FrameCache.Latest.{Shows, read-update}
use signal_scope_api.Replay.{ReplayEngine, ReplayDispatchMode, Session, loop_raw, dry_run}
use signal_scope_api.Tests.Samples.{frame_of}

-- A cache that holds frame 0x101, changed by a rule.
abbrev sample_cache : FrameCache
unfolding init update
sample_cache = update (frame_of 0x101 a_to_b) 5 true none false init

sample_cache-free : sample_cache.locked ≡ false
unfolding sample_cache init update
sample_cache-free = refl

sample_cache-cursor : sample_cache.eviction_cursor < 512
unfolding sample_cache init update
sample_cache-cursor = omega arith

read-update_example :
    (s : FrameCacheSnapshot) × (read 0x301 a_to_b
        (update (frame_of 0x301 a_to_b) 9 false none true sample_cache)
      ≡ some s)
    × Shows (frame_of 0x301 a_to_b) false s
read-update_example =
    read-update (frame_of 0x301 a_to_b) 9 false none true sample_cache sample_cache-free
      sample_cache-cursor

-- A loop of three frames, at the last of them; the world counts what the callback may still take.
abbrev sample_replay : ReplayEngine
sample_replay = record {
  frames = λ i. record { frame = frame_of (0x200 + i) a_to_b; delta_us = i };
  frame_count = 3;
  cursor = 2;
  playing = true;
  loop_mode = loop_raw;
  next_due_us = 70;
  loop_counter = 0;
  dispatch_mode = dry_run;
  tx_callback = true;
}

abbrev take_some : CanFrame → ReplayDispatchMode → ℕ → Bool × ℕ
take_some f m left = (ltb 0 left, left - 1)

abbrev sample_session : Session ℕ
sample_session = record { engine = sample_replay; world = 4; dispatched = [] }
