-- ===== src/FrameCache.antt =====
-- FrameCache (core/frame_cache.hpp, core/frame_cache.cpp): the last frame of every identity, in a
-- hash table with open addressing, and a ring of recent frames. One call is one step, so that the
-- lock is free or another task holds it for all 256 attempts of a call.
pub mod Views
pub mod Probing
pub mod Latest
use signal_scope_api.Base.{
  ℕ, zero, suc, ◌+◌, ◌-◌, ◌*◌, ◌/◌, ◌%◌, ◌^◌, Bool, true, false, not, ◌&&◌, ◌||◌, ltb, leb, ◌==◌,
  if◌then◌else◌, Option, none, some, List, [], ◌∷◌, take, Array, store, first_index, bit_xor,
}
use mathlib.Core.Option
use signal_scope_api.Frame.{
  direction_number, Bytes, CanFrame, Direction, a_to_b, b_to_a, same_direction, sub_u32, u16, u32,
}

pub record FrameCacheSnapshot : Type 0 where
  pub can_id : ℕ
  pub direction : Direction
  pub dlc : ℕ
  pub bytes : Bytes
  pub input_data : Bytes
  pub has_input : Bool
  pub mutated : Bool
  pub last_timestamp_us : ℕ
  pub rate_hz : ℕ
  pub total_frames : ℕ

pub record CacheEntry : Type 0 where
  pub sequence : ℕ
  pub in_use : Bool
  pub can_id : ℕ
  pub direction : Direction
  pub dlc : ℕ
  pub bytes : Bytes
  pub input_data : Bytes
  pub has_input : Bool
  pub mutated : Bool
  pub last_timestamp_us : ℕ
  pub total_frames : ℕ
  pub physical_available : Bool
  pub physical_dlc : ℕ
  pub physical_data : Bytes
  pub physical_last_timestamp_us : ℕ
  pub physical_total_frames : ℕ
  pub rate_sample_start_ms : ℕ
  pub rate_sample_frames : ℕ
  pub rate_hz : ℕ

pub record FrameCache : Type 0 where
  pub entries : Array CacheEntry
  pub count : ℕ
  pub eviction_cursor : ℕ
  pub recent : Array FrameCacheSnapshot
  pub recent_head : ℕ
  pub recent_count : ℕ
  pub locked : Bool

abbrev pub cache_entries : ℕ
cache_entries = 512

abbrev pub recent_capacity : ℕ
recent_capacity = 256

abbrev pub no_snapshot : FrameCacheSnapshot
no_snapshot = record {
  can_id = 0;
  direction = a_to_b;
  dlc = 0;
  bytes = λ i. 0;
  input_data = λ i. 0;
  has_input = false;
  mutated = false;
  last_timestamp_us = 0;
  rate_hz = 0;
  total_frames = 0;
}

-- An entry without frames.
abbrev pub blank_entry : ℕ → Direction → Bool → CacheEntry
blank_entry can_id direction in_use = record {
  sequence = 0;
  in_use = in_use;
  can_id = can_id;
  direction = direction;
  dlc = 0;
  bytes = λ i. 0;
  input_data = λ i. 0;
  has_input = false;
  mutated = false;
  last_timestamp_us = 0;
  total_frames = 0;
  physical_available = false;
  physical_dlc = 0;
  physical_data = λ i. 0;
  physical_last_timestamp_us = 0;
  physical_total_frames = 0;
  rate_sample_start_ms = 0;
  rate_sample_frames = 0;
  rate_hz = 0;
}

unfoldable pub init : FrameCache
init = record {
  entries = λ i. blank_entry 0 a_to_b false;
  count = 0;
  eviction_cursor = 0;
  recent = λ i. no_snapshot;
  recent_head = 0;
  recent_count = 0;
  locked = false;
}

unfoldable pub cache_hash : ℕ → Direction → ℕ
cache_hash can_id direction =
    let seed = bit_xor can_id (u32 (direction_number direction * 0x9E3779B9)) in
    bit_xor seed (seed / 2 ^ 16)

-- `(base + probe) % kMaxEntries`
abbrev pub probe_index : ℕ → Direction → ℕ → ℕ
probe_index can_id direction probe =
    (cache_hash can_id direction % cache_entries + probe) % cache_entries

abbrev pub has_key : ℕ → Direction → CacheEntry → Bool
has_key can_id direction e = (e.can_id == can_id) && same_direction e.direction direction

-- The entry for an identity: the first one on its way that is free or its own, else the next one to
-- be evicted.
abbrev pub entry_at : ℕ → Direction → FrameCache → Option ℕ → ℕ × FrameCache
entry_at can_id direction c none = (
  c.eviction_cursor,
  record c {
    eviction_cursor = u16 ((c.eviction_cursor + 1) % cache_entries);
    entries = store c.entries c.eviction_cursor (blank_entry can_id direction true);
  },
)
entry_at can_id direction c (some probe) =
    let index = probe_index can_id direction probe in
    let created = record c {
      entries = store c.entries index (blank_entry can_id direction true);
      count = if ltb c.count cache_entries then u16 (c.count + 1) else c.count;
    } in
    (index, if not (c.entries index).in_use then created else c)

unfoldable pub find_or_create : ℕ → Direction → FrameCache → ℕ × FrameCache
unfolding cache_hash first_index
find_or_create can_id direction c = entry_at can_id direction c (
    first_index
      (λ probe.
        let e = c.entries (probe_index can_id direction probe) in
        not e.in_use || has_key can_id direction e)
      cache_entries 0)

abbrev capped_dlc : ℕ → ℕ
capped_dlc dlc = if leb dlc 8 then dlc else 8

-- The sample of the rate, one second at least.
abbrev sample_rate : ℕ → CacheEntry → CacheEntry
sample_rate now_ms e =
    let start_ms = if e.rate_sample_start_ms == 0 then now_ms else e.rate_sample_start_ms in
    let elapsed_ms = sub_u32 now_ms start_ms in
    let hz = if elapsed_ms == 0 then 0 else u32 (e.rate_sample_frames * 1000) / elapsed_ms in
    if leb 1000 elapsed_ms
    then record e {
      rate_hz = if ltb 0xFFFF hz then 0xFFFF else hz;
      rate_sample_frames = 0;
      rate_sample_start_ms = now_ms;
    }
    else record e { rate_sample_start_ms = start_ms }

abbrev keep_physical : CanFrame → CacheEntry → CacheEntry
keep_physical physical e = record e {
  physical_available = true;
  physical_dlc = capped_dlc physical.dlc;
  physical_data = physical.bytes;
  physical_last_timestamp_us = physical.timestamp_us;
  physical_total_frames = u32 (e.physical_total_frames + 1);
}

abbrev input_or : CanFrame → Option CanFrame → CanFrame
input_or frame none = frame
input_or frame (some input_frame) = input_frame

abbrev present : Option CanFrame → Bool
present none = false
present (some input_frame) = true

-- What update writes to the entry of a frame; `none` is a null input frame.
unfoldable pub write_entry : CanFrame → ℕ → Bool → Option CanFrame → Bool → CacheEntry → CacheEntry
write_entry frame now_ms mutated input_frame synthetic e =
    let input = input_or frame input_frame in
    let written = record e {
      sequence = u32 (e.sequence + 2);
      can_id = frame.id;
      direction = frame.direction;
      dlc = capped_dlc frame.dlc;
      bytes = frame.bytes;
      input_data = input.bytes;
      has_input = present input_frame;
      mutated = mutated;
      last_timestamp_us = frame.timestamp_us;
      total_frames = u32 (e.total_frames + 1);
      rate_sample_frames = u32 (e.rate_sample_frames + 1);
    } in
    sample_rate now_ms (if synthetic then written else keep_physical input written)

unfoldable pub snapshot_of : CacheEntry → FrameCacheSnapshot
snapshot_of e = record {
  can_id = e.can_id;
  direction = e.direction;
  dlc = e.dlc;
  bytes = e.bytes;
  input_data = e.input_data;
  has_input = e.has_input;
  mutated = e.mutated;
  last_timestamp_us = e.last_timestamp_us;
  rate_hz = e.rate_hz;
  total_frames = e.total_frames;
}

abbrev push_recent : FrameCacheSnapshot → FrameCache → FrameCache
push_recent event c = record c {
  recent = store c.recent c.recent_head event;
  recent_head = u16 ((c.recent_head + 1) % recent_capacity);
  recent_count =
      if ltb c.recent_count recent_capacity then u16 (c.recent_count + 1) else c.recent_count;
}

unfoldable pub update : CanFrame → ℕ → Bool → Option CanFrame → Bool → FrameCache → FrameCache
unfolding find_or_create write_entry snapshot_of
update frame now_ms mutated input_frame synthetic c =
    let (index, found) = find_or_create frame.id frame.direction c in
    let e = write_entry frame now_ms mutated input_frame synthetic (found.entries index) in
    if c.locked
    then c
    else push_recent (snapshot_of e) (record found { entries = store found.entries index e })
