-- ===== src/FrameCache/Views.antt =====
-- The reads and snapshots of FrameCache (core/frame_cache.cpp).
use signal_scope_api.Base.{
  ℕ, zero, suc, ◌+◌, ◌-◌, Bool, true, false, ◌&&◌, ◌||◌, ltb, ◌==◌, if◌then◌else◌, Option, none,
  some, List, [], ◌∷◌, Array, first_index,
}
use mathlib.Core.Option
use signal_scope_api.Frame.{Direction, same_direction}
use signal_scope_api.FrameCache.{
  FrameCache, CacheEntry, FrameCacheSnapshot, cache_entries, recent_capacity, cache_hash,
  probe_index, has_key, snapshot_of,
}

-- The first entry on the way of an identity that is in use and its own.
unfoldable pub find_entry : ℕ → Direction → FrameCache → Option CacheEntry
unfolding cache_hash first_index
find_entry can_id direction c =
    Option.map (λ probe. c.entries (probe_index can_id direction probe))
      (first_index
        (λ probe.
          let e = c.entries (probe_index can_id direction probe) in
          e.in_use && has_key can_id direction e)
        cache_entries 0)

unfoldable pub read : ℕ → Direction → FrameCache → Option FrameCacheSnapshot
unfolding find_entry snapshot_of
read can_id direction c =
    if c.locked then none else Option.map snapshot_of (find_entry can_id direction c)

abbrev pub physical_snapshot : CacheEntry → FrameCacheSnapshot
physical_snapshot e = record {
  can_id = e.can_id;
  direction = e.direction;
  dlc = e.physical_dlc;
  bytes = e.physical_data;
  input_data = e.physical_data;
  has_input = false;
  mutated = false;
  last_timestamp_us = e.physical_last_timestamp_us;
  rate_hz = 0;
  total_frames = e.physical_total_frames;
}

abbrev pub physical_view : Option CacheEntry → Option FrameCacheSnapshot
physical_view none = none
physical_view (some e) = if e.physical_available then some (physical_snapshot e) else none

unfoldable pub read_physical : ℕ → Direction → FrameCache → Option FrameCacheSnapshot
unfolding find_entry
read_physical can_id direction c =
    if c.locked then none else physical_view (find_entry can_id direction c)

-- The loops of the snapshots: the first `room` entries that a test accepts, of `left` from `i` on.
unfoldable pub collect :
    (CacheEntry → Bool) → Array CacheEntry → ℕ → ℕ → ℕ → List FrameCacheSnapshot
unfolding snapshot_of
collect test entries zero i room = []
collect test entries (suc left) i zero = []
collect test entries (suc left) i (suc room) =
    let e = entries i in
    let taken = e.in_use && test e in
    let rest = collect test entries left (i + 1) (if taken then room else suc room) in
    if taken then snapshot_of e ∷ rest else rest

-- std::sort with the newest first, which leaves the order of equal times open.
module _ (sort_newest_first : List FrameCacheSnapshot → List FrameCacheSnapshot) where
  unfoldable pub snapshot : ℕ → FrameCache → List FrameCacheSnapshot
  unfolding collect
  snapshot capacity c =
      if (capacity == 0) || c.locked
      then []
      else sort_newest_first (collect (λ e. true) c.entries cache_entries 0 capacity)

  unfoldable pub snapshot_direction : Direction → ℕ → FrameCache → List FrameCacheSnapshot
  unfolding collect
  snapshot_direction direction capacity c =
      if (capacity == 0) || c.locked
      then []
      else sort_newest_first
          (collect (λ e. same_direction e.direction direction) c.entries cache_entries 0 capacity)

  unfoldable pub snapshot_mutated : ℕ → FrameCache → List FrameCacheSnapshot
  unfolding collect
  snapshot_mutated capacity c =
      if (capacity == 0) || c.locked
      then []
      else sort_newest_first (collect (λ e. e.mutated) c.entries cache_entries 0 capacity)

-- The loop of snapshotRecent: `left` events, the one `i` before the newest first.
unfoldable pub recent_from : ℕ → ℕ → FrameCache → List FrameCacheSnapshot
recent_from zero i c = []
recent_from (suc left) i c =
    let slot =
      if ltb c.recent_head (1 + i)
      then c.recent_head + recent_capacity - (1 + i)
      else c.recent_head - (1 + i) in
    c.recent slot ∷ recent_from left (i + 1) c

unfoldable pub snapshot_recent : ℕ → FrameCache → List FrameCacheSnapshot
unfolding recent_from
snapshot_recent capacity c =
    if c.locked
    then []
    else recent_from (if ltb c.recent_count capacity then c.recent_count else capacity) 0 c
