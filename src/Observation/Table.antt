-- ===== src/Observation/Table.antt =====
-- The hash table of ObservationManager (core/observation_manager.cpp) as a set of keys.
use signal_scope_api.Base.{
  ℕ, zero, suc, ◌+◌, ◌%◌, ◌<◌, ◌≤◌, ◌≡◌, refl, sym, ap, ◌∙◌, Bool, true, false, ◌&&◌, ◌||◌, inl,
  inr, arith, ltb, leb, ◌==◌, ==_iff, if◌then◌else◌, if_true, if_false, if_keeps, if_cases,
  Bool-cases, Option, none, some, List, [], ◌∷◌, length, Array, store,
}
use mathlib.Core.Option
use mathlib.Core.Path.{subst, ap₂}
use signal_scope_api.Frame.{Direction, a_to_b, b_to_a, same_direction}
use signal_scope_api.Observation.{
  ObservationKey, SpecificEntry, SpecificTable, key_hash, same_key, clear_table, walk, contains,
  insert_key, add_keys, build_table,
}

-- A chain index below a bound.
abbrev pub Below : Option ℕ → ℕ → Type 0
Below none n = Unit
Below (some i) n = i < n

-- Every chain goes down in the entries.
pub record IsTable (t : SpecificTable) : Type 0 where
  pub heads : (b : ℕ) → Below (t.bucket_head b) t.count
  pub links : (i : ℕ) → Below (t.entries i).next i

Below-le : (l : Option ℕ) (m n : ℕ) → Below l m → m ≤ n → Below l n
Below-le none m n h le = tt
Below-le (some i) m n h le = omega arith

-- With more fuel than the chain is high, the walk does not depend on the fuel.
walk_enough :
    (e : Array SpecificEntry) (k : ObservationKey) (l : Option ℕ) (n f g : ℕ)
    → ((i : ℕ) → Below (e i).next i)
    → Below l n
    → n < f
    → n < g
    → walk e k f l ≡ walk e k g l
unfolding walk
walk_enough e k l n zero g links h p q = absurd (omega arith)
walk_enough e k l n (suc f) zero links h p q = absurd (omega arith)
walk_enough e k none n (suc f) (suc g) links h p q = refl
walk_enough e k (some i) n (suc f) (suc g) links h p q =
    ap (λ r. if same_key (e i).key k then true else r)
      (walk_enough e k (e i).next i f g links (links i) (omega arith) (omega arith))

-- The walk does not meet an entry above its start.
walk-store :
    (e : Array SpecificEntry) (x : SpecificEntry) (k : ObservationKey) (l : Option ℕ) (n c f : ℕ)
    → ((i : ℕ) → Below (e i).next i)
    → Below l n
    → n ≤ c
    → walk (store e c x) k f l ≡ walk e k f l
unfolding walk
walk-store e x k l n c zero links h p = refl
walk-store e x k none n c (suc f) links h p = refl
walk-store e x k (some i) n c (suc f) links h p =
    let other : (i == c) ≡ false = ground arith in
    ap (λ (t : SpecificEntry). if same_key t.key k then true else walk (store e c x) k f t.next)
      (if_false (i == c) x (e i) other)
    ∙ ap (λ r. if same_key (e i).key k then true else r)
        (walk-store e x k (e i).next i c f links (links i) (omega arith))

same_direction→eq : (d e : Direction) → same_direction d e ≡ true → d ≡ e
same_direction→eq a_to_b a_to_b h = refl
same_direction→eq b_to_a b_to_a h = refl
same_direction→eq a_to_b b_to_a h = absurd (ground arith)
same_direction→eq b_to_a a_to_b h = absurd (ground arith)

both : (a b : Bool) → (a && b) ≡ true → (a ≡ true) × (b ≡ true)
both a b h = (ground arith, ground arith)

same_key→eq : (a b : ObservationKey) → same_key a b ≡ true → a ≡ b
same_key→eq a b h =
    let (ids, directions) =
      both (a.can_id == b.can_id) (same_direction a.direction b.direction) h in
    ap₂ (λ i d. record { can_id = i; direction = d }) ((==_iff _ _).0 ids)
      (same_direction→eq a.direction b.direction directions)

or_if : (b r : Bool) → (if b then true else r) ≡ (b || r)
or_if true r = refl
or_if false r = refl

same_key-other :
    (k j : ObservationKey) → (key_hash j % 64 == key_hash k % 64) ≡ false → same_key k j ≡ false
same_key-other k j h = elim (Bool-cases (same_key k j)) [
  | inl same ↦ absurd (ground (arith, h, ap (λ t. key_hash t % 64) (same_key→eq k j same)))
  | inr other ↦ other
]

-- The walk from a new entry.
walk-head :
    (e : Array SpecificEntry) (x : SpecificEntry) (j : ObservationKey) (c f : ℕ)
    → walk (store e c x) j (suc f) (some c)
      ≡ (if same_key x.key j then true else walk (store e c x) j f x.next)
unfolding walk
walk-head e x j c f =
    ap (λ (t : SpecificEntry). if same_key t.key j then true else walk (store e c x) j f t.next)
      (if_true (c == c) x (e c) (ground arith))

contains-insert_key :
    (t : SpecificTable) (k j : ObservationKey)
    → IsTable t
    → contains (insert_key t k) j ≡ (same_key k j || contains t j)
unfolding contains insert_key
contains-insert_key t k j v =
    let hj = key_hash j % 64 in
    let hk = key_hash k % 64 in
    let x : SpecificEntry = record { key = k; next = t.bucket_head hk } in
    let e = store t.entries t.count x in
    elim (Bool-cases (hj == hk)) [
      | inl same ↦
          ap (walk e j (t.count + 1 + 1))
            (if_true (hj == hk) (some t.count) (t.bucket_head hj) same)
          ∙ ap (λ f. walk e j f (some t.count)) {x = t.count + 1 + 1} {y = suc (t.count + 1)}
              (omega arith)
          ∙ walk-head t.entries x j t.count (t.count + 1)
          ∙ ap (λ r. if same_key k j then true else r)
              (walk-store t.entries x j (t.bucket_head hk) t.count t.count (t.count + 1) v.links
                  (v.heads hk) (omega arith)
                ∙ ap (λ b. walk t.entries j (t.count + 1) (t.bucket_head b))
                    (sym ((==_iff _ _).0 same)))
          ∙ or_if (same_key k j) (contains t j)
      | inr other ↦
          ap (walk e j (t.count + 1 + 1))
            (if_false (hj == hk) (some t.count) (t.bucket_head hj) other)
          ∙ walk-store t.entries x j (t.bucket_head hj) t.count t.count (t.count + 1 + 1) v.links
              (v.heads hj) (omega arith)
          ∙ walk_enough t.entries j (t.bucket_head hj) t.count (t.count + 1 + 1) (t.count + 1)
              v.links (v.heads hj) (omega arith) (omega arith)
          ∙ ap (λ b. b || contains t j) (sym (same_key-other k j other))
    ]

insert_key-IsTable : (t : SpecificTable) (k : ObservationKey) → IsTable t → IsTable (insert_key t k)
unfolding insert_key
insert_key-IsTable t k v = record {
  heads = λ b.
      if_keeps (λ l. Below l (t.count + 1)) (b == key_hash k % 64) (omega arith)
        (Below-le (t.bucket_head b) t.count (t.count + 1) (v.heads b) (omega arith));
  links = λ i.
      if_cases (λ (x : SpecificEntry). Below x.next i) (i == t.count)
        (λ e.
          subst (Below (t.bucket_head (key_hash k % 64))) (sym ((==_iff _ _).0 e))
            (v.heads (key_hash k % 64)))
        (λ e. v.links i);
}

abbrev pub is_in : ObservationKey → List ObservationKey → Bool
is_in j [] = false
is_in j (k ∷ ks) = same_key k j || is_in j ks

record Holds (t : SpecificTable) (keys : List ObservationKey) (r : Option SpecificTable)
    : Type 0 where
  table : SpecificTable
  built : r ≡ some table
  lookup : (j : ObservationKey) → contains table j ≡ (contains t j || is_in j keys)

regroup : (a b c : Bool) → ((a || b) || c) ≡ (b || (a || c))
regroup a b c = ground arith

-- A key that is there already adds nothing.
known :
    (t : SpecificTable) (k j : ObservationKey) (c : Bool)
    → contains t k ≡ true
    → (contains t j || c) ≡ (contains t j || (same_key k j || c))
known t k j c there = elim (Bool-cases (same_key k j)) [
  | inl same ↦
      let here : contains t j ≡ true = ap (contains t) (sym (same_key→eq k j same)) ∙ there in
      ground (arith, here)
  | inr other ↦ ap (λ b. contains t j || (b || c)) (sym other)
]

add_keys-Holds :
    (t : SpecificTable) (keys : List ObservationKey)
    → IsTable t
    → t.count + length keys ≤ 128
    → Holds t keys (add_keys t keys)
unfolding add_keys insert_key
add_keys-Holds t [] v room = record { table = t; built = refl; lookup = λ j. ground arith }
add_keys-Holds t (k ∷ ks) v room =
    if_cases (Holds t (k ∷ ks)) (contains t k)
      (λ there.
        let r = add_keys-Holds t ks v (omega arith) in
        record {
          table = r.table;
          built = r.built;
          lookup = λ j. r.lookup j ∙ known t k j (is_in j ks) there;
        })
      (λ new.
        if_cases (Holds t (k ∷ ks)) (leb 128 t.count) (λ full. absurd (ground arith))
          (λ free.
            let r = add_keys-Holds (insert_key t k) ks (insert_key-IsTable t k v) (omega arith) in
            record {
              table = r.table;
              built = r.built;
              lookup = λ j.
                  r.lookup j
                  ∙ ap (λ b. b || is_in j ks) (contains-insert_key t k j v)
                  ∙ regroup (same_key k j) (contains t j) (is_in j ks);
            }))

clear_table-IsTable : IsTable clear_table
unfolding clear_table
clear_table-IsTable = record { heads = λ b. tt; links = λ i. tt }

contains-clear_table : (j : ObservationKey) → contains clear_table j ≡ false
unfolding contains walk clear_table
contains-clear_table j = refl

empty_room :
    (keys : List ObservationKey) → length keys ≤ 128 → clear_table.count + length keys ≤ 128
unfolding clear_table
empty_room keys h = omega arith

-- Building the table succeeds for every list of at most 128 keys, repeated ones included, and a lookup
-- in the table finds exactly the keys of the list; a longer list is refused.
pub contains-build_table :
    (keys : List ObservationKey) (j : ObservationKey)
    → Option.map (λ t. contains t j) (build_table keys)
      ≡ (if leb (length keys) 128 then some (is_in j keys) else none)
unfolding build_table
contains-build_table keys j =
    let find = λ (t : SpecificTable). contains t j in
    if_cases
      (λ r. Option.map find r ≡ (if leb (length keys) 128 then some (is_in j keys) else none))
      (ltb 128 (length keys)) (λ long. sym (if_false (leb (length keys) 128) _ _ (ground arith)))
      (λ fits.
        let r =
          add_keys-Holds clear_table keys clear_table-IsTable (empty_room keys (ground arith)) in
        ap (Option.map find) r.built
        ∙ ap some (r.lookup j ∙ ap (λ b. b || is_in j keys) (contains-clear_table j))
        ∙ sym (if_true (leb (length keys) 128) _ _ (ground arith)))
