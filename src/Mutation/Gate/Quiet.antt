-- ===== src/Mutation/Gate/Quiet.antt =====
-- No reader is inside while the committer publishes, and a committer that waits can always go on.
use signal_scope_api.Base.{
  ℕ, zero, suc, ◌+◌, ◌-◌, ◌<◌, ◌≤◌, ◌≡◌, ◌≢◌, refl, sym, ap, Bool, true, false, ◌==◌, if_true,
  if_false, if_keeps, if_cases, inl, inr, arith, Bool-cases, Array, store, ==_iff,
}
use mathlib.Core.Path.{subst, subst₂}
use signal_scope_api.Mutation.Gate.{
  MutationReader, outside, seen_open, counted, inside, refused, Committer, idle, draining,
  publishing, Gate, open_gate, move, reader_act, reader_step, commit_act, committer_step, Reach,
  start, reads, commits,
}

-- Whether a reader has counted itself.
abbrev pub weight : MutationReader → ℕ
weight counted = 1
weight inside = 1
weight refused = 1
weight _ = 0

-- How many of the first `n` have.
unfoldable pub counted_below : ℕ → Array MutationReader → ℕ
counted_below zero reader = 0
counted_below (suc n) reader = counted_below n reader + weight (reader n)

counted_below-above :
    (n i : ℕ) (r : MutationReader) (a : Array MutationReader)
    → n ≤ i
    → counted_below n (store a i r) ≡ counted_below n a
unfolding counted_below
counted_below-above zero i r a h = refl
counted_below-above (suc n) i r a h =
    let other : (n == i) ≡ false = ground arith in
    omega (
      arith,
      counted_below-above n i r a (omega arith),
      ap weight (if_false (n == i) r (a n) other),
    )

-- A reader that moves changes the count by its weight.
counted_below-store :
    (n i : ℕ) (r : MutationReader) (a : Array MutationReader)
    → i < n
    → counted_below n (store a i r) + weight (a i) ≡ counted_below n a + weight r
unfolding counted_below
counted_below-store zero i r a h = absurd (omega arith)
counted_below-store (suc n) i r a h = elim (Bool-cases (n == i)) [
  | inl same ↦
      let here : n ≡ i = (==_iff n i).0 same in
      omega (
        arith,
        counted_below-above n i r a (omega arith),
        ap weight (if_true (n == i) r (a n) same),
        ap (λ k. weight (a k)) here,
      )
  | inr other ↦
      let below : i < n = ground arith in
      omega (arith, counted_below-store n i r a below, ap weight (if_false (n == i) r (a n) other))
]

counted_below-at : (n i : ℕ) (a : Array MutationReader) → i < n → weight (a i) ≤ counted_below n a
counted_below-at n i a h = omega (arith, counted_below-store n i outside a h)

pub counted_below-none :
    (n : ℕ) (a : Array MutationReader)
    → ((i : ℕ) → i < n → weight (a i) ≡ 0)
    → counted_below n a ≡ 0
unfolding counted_below
counted_below-none zero a none' = refl
counted_below-none (suc n) a none' =
    omega (arith, none' n (omega arith), counted_below-none n a (λ i h. none' i (omega arith)))

-- The gate is closed from the start of a commit to its end.
abbrev pub Closed : Committer → Bool → Type 0
Closed idle enabled = Unit
Closed _ enabled = enabled ≡ false

abbrev pub is_inside : MutationReader → Bool
is_inside inside = true
is_inside _ = false

-- While the committer publishes, no reader may be inside.
abbrev pub Fine : Committer → MutationReader → Type 0
Fine publishing r = is_inside r ≡ false
Fine _ r = Unit

pub record IsGate (n : ℕ) (g : Gate) : Type 0 where
  pub tally : g.readers ≡ counted_below n g.reader
  pub closed : Closed g.committer g.enabled
  pub quiet : (i : ℕ) → i < n → Fine g.committer (g.reader i)

Fine-other : (c : Committer) (r : MutationReader) → is_inside r ≡ false → Fine c r
Fine-other idle r h = tt
Fine-other draining r h = tt
Fine-other publishing r h = h

Fine-open : (c : Committer) (b : Bool) (r : MutationReader) → Closed c b → b ≡ true → Fine c r
Fine-open idle b r h t = tt
Fine-open draining b r h t = tt
Fine-open publishing b r h t = absurd (ground arith)

module _ (n i : ℕ) (below : i < n) where
  -- A reader that moves, and the count that follows it.
  move-IsGate :
      (g : Gate) (r : MutationReader) (count : ℕ)
      → IsGate n g
      → Fine g.committer r
      → count + weight (g.reader i) ≡ g.readers + weight r
      → IsGate n (record (move i r g) { readers = count })
  move-IsGate g r count v fine change = record {
    tally = omega (arith, v.tally, change, counted_below-store n i r g.reader below);
    closed = v.closed;
    quiet = λ j hj. if_keeps (Fine g.committer) (j == i) fine (v.quiet j hj);
  }

  reader_act-IsGate :
      (r : MutationReader) (g : Gate) → g.reader i ≡ r → IsGate n g → IsGate n (reader_act r i g)
  unfolding reader_act
  reader_act-IsGate outside g e v =
      if_keeps (IsGate n) g.enabled
        (move-IsGate g seen_open g.readers v (Fine-other g.committer seen_open refl)
          (omega (arith, ap weight e)))
        v
  reader_act-IsGate seen_open g e v =
      move-IsGate g counted (g.readers + 1) v (Fine-other g.committer counted refl)
        (omega (arith, ap weight e))
  reader_act-IsGate counted g e v =
      if_cases (IsGate n) g.enabled
        (λ open'.
          move-IsGate g inside g.readers v (Fine-open g.committer g.enabled inside v.closed open')
            (omega (arith, ap weight e)))
        (λ shut.
          move-IsGate g refused g.readers v (Fine-other g.committer refused refl)
            (omega (arith, ap weight e)))
  reader_act-IsGate inside g e v =
      move-IsGate g outside (g.readers - 1) v (Fine-other g.committer outside refl)
        (omega (arith, ap weight e, v.tally, counted_below-at n i g.reader below))
  reader_act-IsGate refused g e v =
      move-IsGate g outside (g.readers - 1) v (Fine-other g.committer outside refl)
        (omega (arith, ap weight e, v.tally, counted_below-at n i g.reader below))

  pub reader_step-IsGate : (g : Gate) → IsGate n g → IsGate n (reader_step i g)
  unfolding reader_step
  reader_step-IsGate g v = reader_act-IsGate (g.reader i) g refl v

nobody_inside : (r : MutationReader) → weight r ≡ 0 → is_inside r ≡ false
nobody_inside outside h = refl
nobody_inside seen_open h = refl
nobody_inside counted h = absurd (omega arith)
nobody_inside inside h = absurd (omega arith)
nobody_inside refused h = absurd (omega arith)

commit_act-IsGate :
    (n : ℕ) (c : Committer) (g : Gate) → g.committer ≡ c → IsGate n g → IsGate n (commit_act c g)
unfolding commit_act
commit_act-IsGate n idle g e v = record { tally = v.tally; closed = refl; quiet = λ i hi. tt }
commit_act-IsGate n draining g e v =
    if_cases (IsGate n) (g.readers == 0)
      (λ empty. record {
        tally = v.tally;
        closed = subst (λ c. Closed c g.enabled) e v.closed;
        quiet = λ i hi.
            nobody_inside (g.reader i) (ground (arith, v.tally, counted_below-at n i g.reader hi));
      })
      (λ some'. v)
commit_act-IsGate n publishing g e v = record { tally = v.tally; closed = tt; quiet = λ i hi. tt }

pub Reach-IsGate : (n : ℕ) (g : Gate) → Reach n g → IsGate n g
unfolding committer_step
Reach-IsGate n g start = record {
  tally = sym (counted_below-none n open_gate.reader (λ i h. refl));
  closed = tt;
  quiet = λ i hi. tt;
}
Reach-IsGate n g (reads {g = before} i below run) =
    reader_step-IsGate n i below before (Reach-IsGate n before run)
Reach-IsGate n g (commits {g = before} run) =
    commit_act-IsGate n before.committer before refl (Reach-IsGate n before run)

-- While the committer publishes runtime state and the next table, no reader is inside: in every
-- state that any number of readers and one committer reach, in any order of their atomic steps.
pub Reach-NotInside :
    (n i : ℕ) (g : Gate) → Reach n g → g.committer ≡ publishing → i < n → g.reader i ≢ inside
Reach-NotInside n i g run publishes below here =
    let fine = (Reach-IsGate n g run).quiet i below in
    absurd (ground (arith, subst₂ Fine publishes here fine))
