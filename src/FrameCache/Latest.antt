-- ===== src/FrameCache/Latest.antt =====
-- The entry that FrameCache::update (core/frame_cache.cpp) writes is the one that a later read of
-- the identity finds, wherever the probing put it.
use signal_scope_api.Base.{
  ℕ, ◌<◌, ◌≡◌, refl, ap, ◌∙◌, Bool, true, false, not, ◌&&◌, arith, leb, ◌==◌, if◌then◌else◌,
  if_true, if_false, if_keeps, Option, none, some, Array, store, first_index, IsFirst-first_index,
}
use mathlib.Core.Option
use signal_scope_api.Frame.{CanFrame, Direction, same_direction}
use signal_scope_api.FrameCache.{
  FrameCache, CacheEntry, FrameCacheSnapshot, probe_index, has_key, entry_at, find_or_create,
  write_entry, update, snapshot_of, push_recent, sample_rate,
}
use signal_scope_api.FrameCache.Views.{find_entry, read}
use signal_scope_api.FrameCache.Probing.{
  Placed, owns, both, has_key_self, find_or_create-Placed, stops,
}

-- A search for the identity after an entry of its own was stored at its place.
find_entry-store :
    (id : ℕ) (d : Direction) (index : ℕ) (c : FrameCache) (e : CacheEntry) (next : FrameCache)
    → Placed id d index c
    → owns id d e ≡ true
    → next.entries ≡ store c.entries index e
    → find_entry id d next ≡ some e
unfolding find_entry
find_entry-store id d index c e next v own stored =
    let at_place : next.entries (probe_index id d v.probe) ≡ e =
      ap (λ (t : Array CacheEntry). t (probe_index id d v.probe)) stored
      ∙ if_true (probe_index id d v.probe == index) e _ (ground (arith, v.there)) in
    let first =
      IsFirst-first_index (λ q. owns id d (next.entries (probe_index id d q))) 512 0 v.probe
        (record {
          from_start = omega arith;
          to_end = v.in_range;
          holds = ap (owns id d) at_place ∙ own;
          fails_before = λ q lo hq.
              ap (λ (t : Array CacheEntry). owns id d (t (probe_index id d q))) stored
              ∙ ap (owns id d) (
                  if_false (probe_index id d q == index) e (c.entries (probe_index id d q))
                    (v.apart q hq))
              ∙ v.others q hq;
        }) in
    ap (Option.map (λ probe. next.entries (probe_index id d probe))) first ∙ ap some at_place

entry_at-locked :
    (id : ℕ) (d : Direction) (c : FrameCache) (o : Option ℕ)
    → (entry_at id d c o).1.locked ≡ c.locked
entry_at-locked id d c none = refl
entry_at-locked id d c (some p) =
    if_keeps (λ (t : FrameCache). t.locked ≡ c.locked) (not (c.entries (probe_index id d p)).in_use)
      refl refl

-- A snapshot shows a frame: its identity, its bytes, its time, and whether rules changed it.
pub record Shows (frame : CanFrame) (mutated : Bool) (s : FrameCacheSnapshot) : Type 0 where
  pub id_shown : s.can_id ≡ frame.id
  pub direction_shown : s.direction ≡ frame.direction
  pub dlc_shown : s.dlc ≡ (if leb frame.dlc 8 then frame.dlc else 8)
  pub bytes_shown : s.bytes ≡ frame.bytes
  pub time_shown : s.last_timestamp_us ≡ frame.timestamp_us
  pub mutated_shown : s.mutated ≡ mutated

module _ (frame : CanFrame) (now_ms : ℕ) (mutated : Bool) (input_frame : Option CanFrame)
    (synthetic : Bool) where
  -- An entry in use that shows the frame.
  record Holds (e : CacheEntry) : Type 0 where
    pub used : e.in_use ≡ true
    pub shows : Shows frame mutated (snapshot_of e)

  sample_rate-Holds : (e : CacheEntry) → Holds e → Holds (sample_rate now_ms e)
  unfolding snapshot_of
  sample_rate-Holds e h =
      let kept : Shows frame mutated (snapshot_of e) = h.shows in
      if_keeps Holds (leb 1000 _)
        (record {
          used = h.used;
          shows = record {
            id_shown = kept.id_shown;
            direction_shown = kept.direction_shown;
            dlc_shown = kept.dlc_shown;
            bytes_shown = kept.bytes_shown;
            time_shown = kept.time_shown;
            mutated_shown = kept.mutated_shown;
          };
        })
        (record {
          used = h.used;
          shows = record {
            id_shown = kept.id_shown;
            direction_shown = kept.direction_shown;
            dlc_shown = kept.dlc_shown;
            bytes_shown = kept.bytes_shown;
            time_shown = kept.time_shown;
            mutated_shown = kept.mutated_shown;
          };
        })

  write_entry-Holds :
      (e : CacheEntry)
      → e.in_use ≡ true
      → Holds (write_entry frame now_ms mutated input_frame synthetic e)
  unfolding write_entry snapshot_of
  write_entry-Holds e used = sample_rate-Holds _ (
      if_keeps Holds synthetic
        (record {
          used = used;
          shows = record {
            id_shown = refl;
            direction_shown = refl;
            dlc_shown = refl;
            bytes_shown = refl;
            time_shown = refl;
            mutated_shown = refl;
          };
        })
        (record {
          used = used;
          shows = record {
            id_shown = refl;
            direction_shown = refl;
            dlc_shown = refl;
            bytes_shown = refl;
            time_shown = refl;
            mutated_shown = refl;
          };
        }))

  Holds-owns : (e : CacheEntry) → Holds e → owns frame.id frame.direction e ≡ true
  unfolding snapshot_of
  Holds-owns e h = both e.in_use (has_key frame.id frame.direction e) h.used (
      ap (λ i. (i == frame.id) && same_direction e.direction frame.direction) h.shows.id_shown
      ∙ ap (λ t. (frame.id == frame.id) && same_direction t frame.direction) h.shows.direction_shown
      ∙ has_key_self frame.id frame.direction)

  find_or_create-locked :
      (c : FrameCache) → (find_or_create frame.id frame.direction c).1.locked ≡ c.locked
  unfolding find_or_create
  find_or_create-locked c =
      entry_at-locked frame.id frame.direction c
        (first_index (stops frame.id frame.direction c) 512 0)

  -- After a frame was recorded, a read of its identity shows that frame, whatever else the cache
  -- holds: whether the identity had an entry, took a free one, or evicted another from a full
  -- table, and whatever the input frame and the provenance. The lock is free, and the eviction
  -- cursor is an index of the table.
  pub read-update :
      (c : FrameCache)
      → c.locked ≡ false
      → c.eviction_cursor < 512
      → (s : FrameCacheSnapshot) × (read frame.id frame.direction
            (update frame now_ms mutated input_frame synthetic c)
          ≡ some s)
        × Shows frame mutated s
  unfolding read update
  read-update c free small =
      let v = find_or_create-Placed frame.id frame.direction c small in
      let index = (find_or_create frame.id frame.direction c).0 in
      let made = (find_or_create frame.id frame.direction c).1 in
      let e = write_entry frame now_ms mutated input_frame synthetic (made.entries index) in
      let held = write_entry-Holds (made.entries index) v.used in
      let next =
        push_recent (snapshot_of e) (record made { entries = store made.entries index e }) in
      let entry =
        find_entry-store frame.id frame.direction index made e next v (Holds-owns e held) refl in
      (
        snapshot_of e,
        ap (read frame.id frame.direction) (if_false c.locked c next free)
            ∙ if_false next.locked none _ (find_or_create-locked c ∙ free)
            ∙ ap (Option.map snapshot_of) entry,
        held.shows,
      )
