-- ===== src/Mutation/Gate.antt =====
-- The read gate of MutationEngine (core/mutation_engine.cpp): beginMutationRead, the end of a
-- MutationReadScope, pauseMutationReads and resumeMutationReads, an atomic operation at a time. Any
-- number of readers, one for each index, and one committer are interleaved in any order.
pub mod Quiet
pub mod Drain
use signal_scope_api.Base.{
  ℕ, zero, suc, ◌+◌, ◌-◌, ◌<◌, ◌≡◌, Bool, true, false, ◌==◌, if◌then◌else◌, Array, store, List, [],
  ◌∷◌,
}

-- Where a reader is: outside; after it saw the gate open; after it counted itself; inside, with the
-- active table; and after it found the gate closed, before it takes itself off the count.
pub data MutationReader : Type 0 where
  outside seen_open counted inside refused : MutationReader

-- Where the committer is: not in a commit; waiting for the readers; and while it publishes.
pub data Committer : Type 0 where
  idle draining publishing : Committer

-- `mutation_reads_enabled_`, `mutation_readers_`, and where all are.
pub record Gate : Type 0 where
  pub enabled : Bool
  pub readers : ℕ
  pub reader : Array MutationReader
  pub committer : Committer

-- The gate after init.
abbrev pub open_gate : Gate
open_gate = record { enabled = true; readers = 0; reader = λ i. outside; committer = idle }

abbrev pub move : ℕ → MutationReader → Gate → Gate
move i r g = record g { reader = store g.reader i r }

abbrev add_reader : Gate → Gate
add_reader g = record g { readers = g.readers + 1 }

abbrev remove_reader : Gate → Gate
remove_reader g = record g { readers = g.readers - 1 }

-- The next atomic operation of reader `i`, from where it is.
unfoldable pub reader_act : MutationReader → ℕ → Gate → Gate
reader_act outside i g = if g.enabled then move i seen_open g else g
reader_act seen_open i g = add_reader (move i counted g)
reader_act counted i g = if g.enabled then move i inside g else move i refused g
reader_act inside i g = remove_reader (move i outside g)
reader_act refused i g = remove_reader (move i outside g)

unfoldable pub reader_step : ℕ → Gate → Gate
unfolding reader_act
reader_step i g = reader_act (g.reader i) i g

-- The next atomic operation of the committer.
unfoldable pub commit_act : Committer → Gate → Gate
commit_act idle g = record g { enabled = false; committer = draining }
commit_act draining g = if g.readers == 0 then record g { committer = publishing } else g
commit_act publishing g = record g { enabled = true; committer = idle }

unfoldable pub committer_step : Gate → Gate
unfolding commit_act
committer_step g = commit_act g.committer g

-- The gate of `n` readers.
pub data Reach (n : ℕ) : Gate → Type 0 where
  start : Reach n open_gate
  reads : {g : Gate} (i : ℕ) → i < n → Reach n g → Reach n (reader_step i g)
  commits : {g : Gate} → Reach n g → Reach n (committer_step g)

-- Steps of readers, one after another in the order of the list.
unfoldable pub run_readers : List ℕ → Gate → Gate
unfolding reader_step
run_readers [] g = g
run_readers (i ∷ steps) g = run_readers steps (reader_step i g)

-- How many of the steps are those of reader `i`.
unfoldable pub steps_of : ℕ → List ℕ → ℕ
steps_of i [] = 0
steps_of i (j ∷ steps) = if i == j then suc (steps_of i steps) else steps_of i steps
