-- ===== src/Mutation/Gate/Drain.antt =====
-- A committer that waits for the readers of MutationEngine (core/mutation_engine.cpp) goes on once
-- each of them has taken three steps, in any order, because no new reader passes the closed gate.
use signal_scope_api.Base.{
  ℕ, zero, suc, ◌+◌, ◌<◌, ◌≤◌, ◌≡◌, refl, sym, ap, ◌∙◌, Bool, true, false, ◌==◌, if_true, if_false,
  if◌then◌else◌, List, [], ◌∷◌, All, Array, inl, inr, arith, Bool-cases,
}
use mathlib.Core.Path.{subst}
use signal_scope_api.Mutation.Gate.{
  MutationReader, outside, seen_open, counted, inside, refused, Committer, idle, draining,
  publishing, Gate, move, reader_act, reader_step, commit_act, committer_step, run_readers,
  steps_of, Reach,
}
use signal_scope_api.Mutation.Gate.Quiet.{
  weight, counted_below, counted_below-none, IsGate, Closed, reader_step-IsGate, Reach-IsGate,
}

-- Where a reader is after a step at the closed gate.
abbrev shut : MutationReader → MutationReader
shut outside = outside
shut seen_open = counted
shut counted = refused
shut inside = outside
shut refused = outside

-- A step of reader `i` at the closed gate.
record Shut (i : ℕ) (g h : Gate) : Type 0 where
  pub enabled_same : h.enabled ≡ g.enabled
  pub committer_same : h.committer ≡ g.committer
  pub at : h.reader i ≡ shut (g.reader i)
  pub others : (j : ℕ) → (j == i) ≡ false → h.reader j ≡ g.reader j

here : (i : ℕ) → (i == i) ≡ true
here i = ground arith

module _ (i : ℕ) where
  moved :
      (g : Gate) (r : MutationReader) (count : ℕ)
      → r ≡ shut (g.reader i)
      → Shut i g (record (move i r g) { readers = count })
  moved g r count e = record {
    enabled_same = refl;
    committer_same = refl;
    at = if_true (i == i) r (g.reader i) (here i) ∙ e;
    others = λ j other. if_false (j == i) r (g.reader j) other;
  }

  reader_act-Shut :
      (r : MutationReader) (g : Gate)
      → g.enabled ≡ false
      → g.reader i ≡ r
      → Shut i g (reader_act r i g)
  unfolding reader_act
  reader_act-Shut outside g closed e =
      subst (Shut i g) (sym (if_false g.enabled (move i seen_open g) g closed)) (record {
        enabled_same = refl;
        committer_same = refl;
        at = e ∙ sym (ap shut e);
        others = λ j other. refl;
      })
  reader_act-Shut seen_open g closed e = moved g counted (g.readers + 1) (sym (ap shut e))
  reader_act-Shut counted g closed e =
      subst (Shut i g) (sym (if_false g.enabled (move i inside g) (move i refused g) closed))
        (moved g refused g.readers (sym (ap shut e)))
  reader_act-Shut inside g closed e = moved g outside _ (sym (ap shut e))
  reader_act-Shut refused g closed e = moved g outside _ (sym (ap shut e))

  step-Shut : (g : Gate) → g.enabled ≡ false → Shut i g (reader_step i g)
  unfolding reader_step
  step-Shut g closed = reader_act-Shut (g.reader i) g closed refl

thrice : (r : MutationReader) → shut (shut (shut r)) ≡ outside
thrice outside = refl
thrice seen_open = refl
thrice counted = refl
thrice inside = refl
thrice refused = refl

-- Where a reader is after `k` steps at the closed gate.
shut_times : ℕ → MutationReader → MutationReader
shut_times zero r = r
shut_times (suc k) r = shut_times k (shut r)

shut_times-outside : (k : ℕ) → shut_times k outside ≡ outside
unfolding shut_times
shut_times-outside zero = refl
shut_times-outside (suc k) = shut_times-outside k

-- Three steps lead outside from everywhere, and further ones do not lead in.
shut_times-three : (k : ℕ) (r : MutationReader) → 3 ≤ k → shut_times k r ≡ outside
unfolding shut_times
shut_times-three zero r h = absurd (omega arith)
shut_times-three (suc zero) r h = absurd (omega arith)
shut_times-three (suc (suc zero)) r h = absurd (omega arith)
shut_times-three (suc (suc (suc k))) r h = ap (shut_times k) (thrice r) ∙ shut_times-outside k

-- After steps of readers at the closed gate: each is as far as its own steps brought it.
record Drained (n : ℕ) (steps : List ℕ) (g h : Gate) : Type 0 where
  pub valid : IsGate n h
  pub shut_still : h.enabled ≡ false
  pub committer_same : h.committer ≡ g.committer
  pub at : (j : ℕ) → h.reader j ≡ shut_times (steps_of j steps) (g.reader j)

-- A step of reader `i` is one of the steps of `j` or moves somebody else.
step_at :
    (i j k : ℕ) (g h : Gate)
    → Shut i g h
    → shut_times k (h.reader j) ≡ shut_times (if j == i then suc k else k) (g.reader j)
unfolding shut_times
step_at i j k g h v = elim (Bool-cases (j == i)) [
  | inl same ↦
      let e : j ≡ i = ground arith in
      rw same (ap (shut_times k) (ap h.reader e ∙ v.at ∙ ap (λ t. shut (g.reader t)) (sym e)))
  | inr other ↦ rw other (ap (shut_times k) (v.others j other))
]

run_readers-Drained :
    (n : ℕ) (steps : List ℕ) (g : Gate)
    → All (λ i. i < n) steps
    → IsGate n g
    → g.enabled ≡ false
    → Drained n steps g (run_readers steps g)
unfolding run_readers steps_of shut_times
run_readers-Drained n [] g known v closed = record {
  valid = v;
  shut_still = closed;
  committer_same = refl;
  at = λ j. refl;
}
run_readers-Drained n (i ∷ steps) g (within, known) v closed =
    let now = step-Shut i g closed in
    let rest =
      run_readers-Drained n steps (reader_step i g) known (reader_step-IsGate n i within g v)
        (now.enabled_same ∙ closed) in
    record {
      valid = rest.valid;
      shut_still = rest.shut_still;
      committer_same = rest.committer_same ∙ now.committer_same;
      at = λ j. rest.at j ∙ step_at i j (steps_of j steps) g (reader_step i g) now;
    }

weight-most : (r : MutationReader) → weight r ≤ 1
weight-most outside = omega arith
weight-most seen_open = omega arith
weight-most counted = omega arith
weight-most inside = omega arith
weight-most refused = omega arith

counted_below-most : (n : ℕ) (reader : Array MutationReader) → counted_below n reader ≤ n
unfolding counted_below
counted_below-most zero reader = omega arith
counted_below-most (suc n) reader =
    omega (arith, counted_below-most n reader, weight-most (reader n))

-- With `n` readers the count is at most `n`: with fewer than 2 ^ 32 of them, the uint32_t of the code
-- never wraps.
pub Reach-bounded : (n : ℕ) (g : Gate) → Reach n g → g.readers ≤ n
Reach-bounded n g run = omega (arith, (Reach-IsGate n g run).tally, counted_below-most n g.reader)

abbrev Draining : Committer → Type 0
Draining idle = ⊥
Draining _ = Unit

Closed-draining : (c : Committer) (b : Bool) → c ≡ draining → Closed c b → b ≡ false
Closed-draining idle b e h = absurd (subst Draining (sym e) tt)
Closed-draining draining b e h = h
Closed-draining publishing b e h = h

-- Whatever the readers were doing when a commit closed the gate, and in whatever order the `n` readers
-- then take steps: once each of them has taken at least three, none is left on the count, and the
-- next step of the committer starts to publish.
pub Reach-publishes :
    (n : ℕ) (g : Gate) (steps : List ℕ)
    → Reach n g
    → g.committer ≡ draining
    → All (λ i. i < n) steps
    → ((i : ℕ) → i < n → 3 ≤ steps_of i steps)
    → (committer_step (run_readers steps g)).committer ≡ publishing
unfolding committer_step commit_act
Reach-publishes n g steps run waits known enough =
    let v = Reach-IsGate n g run in
    let done =
      run_readers-Drained n steps g known v
        (Closed-draining g.committer g.enabled waits v.closed) in
    let h = run_readers steps g in
    let empty : h.readers ≡ 0 =
      done.valid.tally
      ∙ counted_below-none n h.reader (λ i hi.
        ap weight (done.at i ∙ shut_times-three (steps_of i steps) (g.reader i) (enough i hi))) in
    ap (λ c. (commit_act c h).committer) (done.committer_same ∙ waits)
    ∙ ap (λ (t : Gate). t.committer)
        (if_true (h.readers == 0) (record h { committer = publishing }) h (ground arith))
