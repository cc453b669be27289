-- ===== src/FrameCache/Probing.antt =====
-- Where FrameCache::findOrCreate (core/frame_cache.cpp) puts an identity: at the end of a run of
-- probes whose entries are others'.
use signal_scope_api.Base.{
  ℕ, ◌+◌, ◌-◌, ◌%◌, ◌<◌, ◌≤◌, ◌≡◌, refl, sym, ap, ◌∙◌, Bool, true, false, not, ◌&&◌, ◌||◌, inl, inr,
  arith, ◌==◌, if_true, if_false, if_keeps, if_cases, none, some, first_index-cases, IsFirst,
}
use mathlib.Core.Path.{subst}
use signal_scope_api.Frame.{Direction, a_to_b, b_to_a, same_direction}
use signal_scope_api.FrameCache.{
  FrameCache, CacheEntry, cache_hash, probe_index, has_key, blank_entry, entry_at, find_or_create,
}

-- The tests of findOrCreate and of read.
abbrev pub stops : ℕ → Direction → FrameCache → ℕ → Bool
stops id d c probe =
    not (c.entries (probe_index id d probe)).in_use
    || has_key id d (c.entries (probe_index id d probe))

abbrev pub owns : ℕ → Direction → CacheEntry → Bool
owns id d e = e.in_use && has_key id d e

-- An identity's entry at the end of a run of probes whose entries are others'.
pub record Placed (id : ℕ) (d : Direction) (index : ℕ) (c : FrameCache) : Type 0 where
  pub probe : ℕ
  pub in_range : probe < 512
  pub there : probe_index id d probe ≡ index
  pub used : (c.entries index).in_use ≡ true
  pub others : (q : ℕ) → q < probe → owns id d (c.entries (probe_index id d q)) ≡ false
  pub apart : (q : ℕ) → q < probe → (probe_index id d q == index) ≡ false

not_stopping : (in_use key : Bool) → (not in_use || key) ≡ false → (in_use && key) ≡ false
not_stopping in_use key h = ground arith

spread : (b p q : ℕ) → b < 512 → p < 512 → q < p → ((b + q) % 512 == (b + p) % 512) ≡ false
spread b p q hb hp hq = ground arith

reach : (b index : ℕ) → b < 512 → index < 512 → (b + (index + 512 - b) % 512) % 512 ≡ index
reach b index hb hi = omega arith

same_direction_refl : (d : Direction) → same_direction d d ≡ true
same_direction_refl a_to_b = refl
same_direction_refl b_to_a = refl

pub has_key_self : (id : ℕ) (d : Direction) → ((id == id) && same_direction d d) ≡ true
has_key_self id d = ground (arith, same_direction_refl d)

pub both : (a b : Bool) → a ≡ true → b ≡ true → (a && b) ≡ true
both a b ha hb = ground arith

module _ (id : ℕ) (d : Direction) (c : FrameCache) where
  -- The probes of an identity are apart within 512.
  probe_index-apart :
      (p q : ℕ) → p < 512 → q < p → (probe_index id d q == probe_index id d p) ≡ false
  probe_index-apart p q hp hq = spread (cache_hash id d % 512) p q (omega arith) hp hq

  -- An entry that a probe passed is not the identity's.
  passed : (q : ℕ) → stops id d c q ≡ false → owns id d (c.entries (probe_index id d q)) ≡ false
  passed q h =
      not_stopping (c.entries (probe_index id d q)).in_use
        (has_key id d (c.entries (probe_index id d q))) h

  created-other :
      (p j : ℕ)
      → (j == probe_index id d p) ≡ false
      → (entry_at id d c (some p)).1.entries j ≡ c.entries j
  created-other p j other =
      if_keeps (λ (t : FrameCache). t.entries j ≡ c.entries j)
        (not (c.entries (probe_index id d p)).in_use)
        (if_false (j == probe_index id d p) (blank_entry id d true) (c.entries j) other) refl

  created-used : (p : ℕ) → ((entry_at id d c (some p)).1.entries (probe_index id d p)).in_use ≡ true
  created-used p =
      let index = probe_index id d p in
      if_cases (λ (t : FrameCache). (t.entries index).in_use ≡ true) (not (c.entries index).in_use)
        (λ free.
          ap (λ (e : CacheEntry). e.in_use)
            (if_true (index == index) (blank_entry id d true) (c.entries index) (ground arith)))
        (λ used. ground arith)

  some-Placed :
      (p : ℕ)
      → IsFirst (stops id d c) 512 0 p
      → Placed id d (entry_at id d c (some p)).0 (entry_at id d c (some p)).1
  some-Placed p f = record {
    probe = p;
    in_range = f.to_end;
    there = refl;
    used = created-used p;
    others = λ q hq.
        ap (owns id d) (created-other p (probe_index id d q) (probe_index-apart p q f.to_end hq))
        ∙ passed q (f.fails_before q (omega arith) hq);
    apart = λ q hq. probe_index-apart p q f.to_end hq;
  }

  none-Placed :
      c.eviction_cursor < 512
      → ((q : ℕ) → 0 ≤ q → q < 512 → stops id d c q ≡ false)
      → Placed id d (entry_at id d c none).0 (entry_at id d c none).1
  none-Placed small full =
      let base = cache_hash id d % 512 in
      let cursor = c.eviction_cursor in
      let p = (cursor + 512 - base) % 512 in
      let here : probe_index id d p ≡ cursor = reach base cursor (omega arith) small in
      let away = λ (q : ℕ) (hq : q < p).
        ap (λ t. probe_index id d q == t) (sym here) ∙ probe_index-apart p q (omega arith) hq in
      record {
        probe = p;
        in_range = omega arith;
        there = here;
        used =
            ap (λ (e : CacheEntry). e.in_use)
              (if_true (cursor == cursor) (blank_entry id d true) (c.entries cursor)
                (ground arith));
        others = λ q hq.
            ap (owns id d) (
              if_false (probe_index id d q == cursor) (blank_entry id d true)
                (c.entries (probe_index id d q)) (away q hq))
            ∙ passed q (full q (omega arith) (omega arith));
        apart = away;
      }

  pub find_or_create-Placed :
      c.eviction_cursor < 512 → Placed id d (find_or_create id d c).0 (find_or_create id d c).1
  unfolding find_or_create
  find_or_create-Placed small = elim (first_index-cases (stops id d c) 512 0) [
    | inl (absent, full) ↦
        subst (λ o. Placed id d (entry_at id d c o).0 (entry_at id d c o).1) (sym absent)
          (none-Placed small full)
    | inr (p, found, f) ↦
        subst (λ o. Placed id d (entry_at id d c o).0 (entry_at id d c o).1) (sym found)
          (some-Placed p f)
  ]
