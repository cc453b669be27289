-- ===== src/Mutation/Registry.antt =====
-- RuntimeValueRegistry (core/runtime_values.cpp) and RuntimeTableRegistry (core/runtime_tables.cpp):
-- the named inputs of rules. A float is kept as such for its bits, which std::memcpy copies; a
-- publication of a table is one step, so that a reader never meets an odd generation.
use signal_scope_api.Base.{
  same_text, first_index, ℕ, ◌+◌, ◌-◌, Bool, true, false, not, ◌&&◌, ◌||◌, ltb, leb, ◌==◌,
  if◌then◌else◌, Option, none, some, [], length, Array, store, bit_and,
}
use signal_scope_api.Frame.{u16, u32}
use signal_scope_api.Mutation.{Name, named, ValueEntry, TableEntry}

abbrev max_values : ℕ
max_values = 32

abbrev max_tables : ℕ
max_tables = 8

abbrev max_entries : ℕ
max_entries = 128

module _ {F : Type 0} (zero32 : F) where
  unfoldable pub init_values : Array (ValueEntry F)
  init_values = λ i. record { name = []; value = zero32; in_use = false }

  -- `entries_ == nullptr` is the Boolean; the allocation succeeds or fails.
  unfoldable pub init_tables : Bool → Bool × Array (TableEntry F) → Bool × Array (TableEntry F)
  init_tables allocated (present, entries) =
      if not (present || allocated) then (false, entries) else (
        true,
        λ i. record {
          name = [];
          values = λ j. zero32;
          generation = 0;
          count = 0;
          valid = false;
          in_use = false;
        },
      )

module _ {F : Type 0} where
  unfoldable pub find_value : Array (ValueEntry F) → Name → Option ℕ
  unfolding first_index
  find_value entries name =
      if not (named name)
      then none
      else first_index (λ i. (entries i).in_use && same_text (entries i).name name) max_values 0

  abbrev store_value : Array (ValueEntry F) → Name → F → Option ℕ → Option ℕ × Array (ValueEntry F)
  store_value entries name v none = (none, entries)
  store_value entries name v (some i) =
      (some i, store entries i (record { name = name; value = v; in_use = true }))

  unfoldable pub publish_value : Name → F → Array (ValueEntry F) → Option ℕ × Array (ValueEntry F)
  unfolding find_value first_index
  publish_value name v entries =
      if not (named name) || leb 32 (length name)
      then (none, entries)
      else store_value entries name v (elim (find_value entries name) [
        | some i ↦ some i
        | none ↦ first_index (λ i. not (entries i).in_use) max_values 0
      ])

  unfoldable pub read_value : Array (ValueEntry F) → ℕ → Option F
  read_value entries index =
      if leb max_values index || not (entries index).in_use
      then none
      else some ((entries index).value)

  unfoldable pub find_table : Bool × Array (TableEntry F) → Name → Option ℕ
  unfolding first_index
  find_table (present, entries) name =
      if not present || not (named name)
      then none
      else first_index (λ i. (entries i).in_use && same_text (entries i).name name) max_tables 0

  abbrev store_table :
      Bool × Array (TableEntry F)
      → Name
      → Array F
      → ℕ
      → Bool
      → Option ℕ
      → Option ℕ × (Bool × Array (TableEntry F))
  store_table r name values count valid none = (none, r)
  store_table (present, entries) name values count valid (some i) =
      let old = entries i in
      let new : TableEntry F = record {
        name = name;
        values = λ j. if ltb j count then values j else old.values j;
        generation = u32 (old.generation + 2);
        count = u16 count;
        valid = valid && ltb 0 count;
        in_use = true;
      } in
      (some i, (present, store entries i new))

  unfoldable pub publish_table :
      Name
      → Array F
      → ℕ
      → Bool
      → Bool × Array (TableEntry F)
      → Option ℕ × (Bool × Array (TableEntry F))
  unfolding find_table first_index
  publish_table name values count valid r =
      if not r.0 || not (named name) || leb 32 (length name) || ltb max_entries count
      then (none, r)
      else store_table r name values count valid (elim (find_table r name) [
        | some i ↦ some i
        | none ↦ first_index (λ i. not (r.1 i).in_use) max_tables 0
      ])

  -- The search for the first value at least `target`, else the last index.
  unfoldable pub lookup_first_at_least :
      (F → F → Bool) → Bool × Array (TableEntry F) → ℕ → F → Option ℕ
  unfolding first_index
  lookup_first_at_least le (present, entries) table_index target =
      if not present || leb max_tables table_index
      then none
      else let entry = entries table_index in
        if not (bit_and entry.generation 1 == 0) || not entry.valid
        then none
        else elim (first_index (λ i. le target (entry.values i)) entry.count 0) [
          | some i ↦ some i
          | none ↦ some (if ltb 0 entry.count then entry.count - 1 else 0)
        ]
