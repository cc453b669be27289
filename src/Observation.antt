-- ===== src/Observation.antt =====
-- ObservationManager (core/observation_manager.hpp, core/observation_manager.cpp): which frames are
-- decoded. A chain index below 0 is `none`; an array of keys and its count are a list. One call is
-- one step, so that waitForReaders has nobody to wait for.
pub mod Table
use signal_scope_api.Base.{
  ℕ, zero, suc, ◌+◌, ◌*◌, ◌/◌, ◌%◌, ◌^◌, Bool, true, false, not, ◌&&◌, ◌||◌, ltb, leb, ◌==◌,
  if◌then◌else◌, Option, none, some, List, [], ◌∷◌, ◌++◌, length, take, Array, store, bit_xor,
}
use signal_scope_api.Frame.{direction_number, Direction, a_to_b, b_to_a, same_direction, u32}

pub data ObservationMode : Type 0 where
  nothing specific everything : ObservationMode

pub record ObservationKey : Type 0 where
  pub can_id : ℕ
  pub direction : Direction

pub record SpecificEntry : Type 0 where
  pub key : ObservationKey
  pub next : Option ℕ

pub record SpecificTable : Type 0 where
  pub count : ℕ
  pub entries : Array SpecificEntry
  pub bucket_head : Array (Option ℕ)

abbrev pub max_specific_keys : ℕ
max_specific_keys = 128

abbrev pub bucket_count : ℕ
bucket_count = 64

unfoldable pub key_hash : ObservationKey → ℕ
key_hash k =
    let seed = bit_xor k.can_id (u32 (direction_number k.direction * 0x9E3779B9)) in
    bit_xor seed (seed / 2 ^ 16)

abbrev pub same_key : ObservationKey → ObservationKey → Bool
same_key a b = (a.can_id == b.can_id) && same_direction a.direction b.direction

unfoldable pub clear_table : SpecificTable
clear_table = record {
  count = 0;
  entries = λ i. record { key = record { can_id = 0; direction = a_to_b }; next = none };
  bucket_head = λ b. none;
}

-- The loop of contains, with fuel.
unfoldable pub walk : Array SpecificEntry → ObservationKey → ℕ → Option ℕ → Bool
walk entries k zero l = false
walk entries k (suc fuel) none = false
walk entries k (suc fuel) (some i) =
    let rest = walk entries k fuel (entries i).next in
    if same_key (entries i).key k then true else rest

unfoldable pub contains : SpecificTable → ObservationKey → Bool
unfolding walk key_hash
contains t k = walk t.entries k (t.count + 1) (t.bucket_head (key_hash k % bucket_count))

-- The end of one round of buildTable.
unfoldable pub insert_key : SpecificTable → ObservationKey → SpecificTable
unfolding key_hash
insert_key t k =
    let bucket = key_hash k % bucket_count in
    record {
      count = t.count + 1;
      entries = store t.entries t.count (record { key = k; next = t.bucket_head bucket });
      bucket_head = store t.bucket_head bucket (some t.count);
    }

-- The loop of buildTable; `none` is a return of false.
unfoldable pub add_keys : SpecificTable → List ObservationKey → Option SpecificTable
unfolding contains insert_key
add_keys t [] = some t
add_keys t (k ∷ ks) =
    let skipped = add_keys t ks in
    let added = add_keys (insert_key t k) ks in
    if contains t k then skipped else if leb max_specific_keys t.count then none else added

unfoldable pub build_table : List ObservationKey → Option SpecificTable
unfolding add_keys clear_table
build_table keys = if ltb max_specific_keys (length keys) then none else add_keys clear_table keys

-- Two tables, and which of them readers use.
pub record Buffered : Type 0 where
  pub table_0 : SpecificTable
  pub table_1 : SpecificTable
  pub active_index : ℕ

abbrev pub active_table : Buffered → SpecificTable
active_table b = if b.active_index == 0 then b.table_0 else b.table_1

-- A table is written to the inactive place, and the places are swapped.
unfoldable pub install : SpecificTable → Buffered → Buffered
install t b =
    if b.active_index == 0
    then record b { table_1 = t; active_index = 1 }
    else record b { table_0 = t; active_index = 0 }

pub record ObservationManager : Type 0 where
  pub mode : ObservationMode
  pub specific_tables : Buffered
  pub mandatory_tables : Buffered

abbrev cleared : Buffered
cleared = record { table_0 = clear_table; table_1 = clear_table; active_index = 0 }

unfoldable pub init : ObservationManager
init = record { mode = nothing; specific_tables = cleared; mandatory_tables = cleared }

unfoldable pub set_mode : ObservationMode → ObservationManager → ObservationManager
set_mode mode m = record m { mode = mode }

unfoldable pub is_observed : ObservationKey → ObservationManager → Bool
unfolding contains
is_observed k m = if contains (active_table m.mandatory_tables) k then true else elim (m.mode) [
  | everything ↦ true
  | nothing ↦ false
  | specific ↦ contains (active_table m.specific_tables) k
]

-- snapshotTable: the keys of the entries, in their order.
unfoldable pub keys_from : ℕ → ℕ → Array SpecificEntry → List ObservationKey
keys_from i zero entries = []
keys_from i (suc n) entries = (entries i).key ∷ keys_from (i + 1) n entries

unfoldable pub snapshot_table : ℕ → SpecificTable → List ObservationKey
unfolding keys_from
snapshot_table capacity t =
    keys_from 0 (if ltb t.count capacity then t.count else capacity) t.entries

abbrev find_key : ObservationKey → List ObservationKey → Bool
find_key k [] = false
find_key k (x ∷ xs) = same_key x k || find_key k xs

abbrev without : ObservationKey → List ObservationKey → List ObservationKey
without k [] = []
without k (x ∷ xs) = if same_key x k then without k xs else x ∷ without k xs

unfoldable pub set_specific : List ObservationKey → ObservationManager → Bool × ObservationManager
unfolding build_table install
set_specific keys m = elim (build_table keys) [
  | none ↦ (false, m)
  | some t ↦ (
    true,
    record m {
      specific_tables = install t m.specific_tables;
      mode = if ltb 0 (length keys) then specific else nothing;
    },
  )
]

unfoldable pub add_specific : ObservationKey → ObservationManager → Bool × ObservationManager
unfolding snapshot_table set_specific
add_specific k m =
    let keys = snapshot_table max_specific_keys (active_table m.specific_tables) in
    if leb max_specific_keys (length keys)
    then (false, m)
    else if find_key k keys
    then (true, record m { mode = specific })
    else set_specific (keys ++ k ∷ []) m

unfoldable pub remove_specific : ObservationKey → ObservationManager → Bool × ObservationManager
unfolding snapshot_table set_specific
remove_specific k m =
    let keys = snapshot_table max_specific_keys (active_table m.specific_tables) in
    if not (find_key k keys) then (false, m) else set_specific (without k keys) m

unfoldable pub clear_specific : ObservationManager → ObservationManager
unfolding install
clear_specific m = record m { specific_tables = install clear_table m.specific_tables }

abbrev set_mandatory : List ObservationKey → ObservationManager → Bool × ObservationManager
set_mandatory keys m = elim (build_table keys) [
  | none ↦ (false, m)
  | some t ↦ (true, record m { mandatory_tables = install t m.mandatory_tables })
]

unfoldable pub add_mandatory : ObservationKey → ObservationManager → Bool × ObservationManager
unfolding snapshot_table
add_mandatory k m =
    let keys = snapshot_table max_specific_keys (active_table m.mandatory_tables) in
    if leb max_specific_keys (length keys)
    then (false, m)
    else if find_key k keys
    then (true, m)
    else set_mandatory (keys ++ k ∷ []) m

unfoldable pub remove_mandatory : ObservationKey → ObservationManager → Bool × ObservationManager
unfolding snapshot_table
remove_mandatory k m =
    let keys = snapshot_table max_specific_keys (active_table m.mandatory_tables) in
    if not (find_key k keys) then (true, m) else set_mandatory (without k keys) m

unfoldable pub clear_mandatory : ObservationManager → ObservationManager
unfolding install
clear_mandatory m = record m { mandatory_tables = install clear_table m.mandatory_tables }
