-- ===== src/Base/Lists.antt =====
-- Lists measured by native numbers, a predicate on every element, and arrays as functions.
use Prim.Native.Nat.{ℕ, zero, suc, ◌+◌, ◌<◌, ◌≤◌}
use mathlib.Core.Path.{◌≡◌, refl, ap, ◌∙◌}
use mathlib.Core.Bool.{Bool, true, false, ◌&&◌}
use mathlib.Core.Option.{Option, none, some}
use mathlib.Core.List.{List, [], ◌∷◌, ◌++◌}
use native.Mathlib.Omega.{arith}
use native.Mathlib.Decide.{dec_lt}
use signal_scope_api.Base.Tests.{◌==◌, if◌then◌else◌, if_true, if_false, Bool-cases}
use mathlib.Core.Logic.{◌⊎◌, inl, inr}

module _ {ℓ} {A : Type ℓ} where
  abbrev pub length : List A → ℕ
  length [] = 0
  length (x ∷ xs) = suc (length xs)

  abbrev pub take : ℕ → List A → List A
  take zero xs = []
  take (suc n) [] = []
  take (suc n) (x ∷ xs) = x ∷ take n xs

  pub length-append : (xs ys : List A) → length (xs ++ ys) ≡ length xs + length ys
  length-append [] ys = omega arith
  length-append (x ∷ xs) ys = omega (arith, length-append xs ys)

abbrev pub All {ℓ κ} : {A : Type ℓ} → (A → Type κ) → List A → Type κ
All P [] = Unit
All P (x ∷ xs) = P x × All P xs

pub All-append {ℓ κ} :
    {A : Type ℓ} (P : A → Type κ) (xs ys : List A) → All P xs → All P ys → All P (xs ++ ys)
All-append P [] ys hx hy = hy
All-append P (x ∷ xs) ys hx hy = (hx.0, All-append P xs ys hx.1 hy)

-- A C array, read by its index. That indices stay in range is stated with each array.
abbrev pub Array {ℓ} : Type ℓ → Type ℓ
Array A = ℕ → A

abbrev pub store {ℓ} : {A : Type ℓ} → Array A → ℕ → A → Array A
store a i v j = if j == i then v else a j

-- The first index that a test accepts, of `left` from `i` on.
unfoldable pub first_index : (ℕ → Bool) → ℕ → ℕ → Option ℕ
first_index test zero i = none
first_index test (suc left) i =
    let rest = first_index test left (i + 1) in if test i then some i else rest

-- What a search has seen: before its result the test fails, and at it the test holds.
pub record IsFirst (test : ℕ → Bool) (left i k : ℕ) : Type 0 where
  pub from_start : i ≤ k
  pub to_end : k < i + left
  pub holds : test k ≡ true
  pub fails_before : (j : ℕ) → i ≤ j → j < k → test j ≡ false

-- A failure of the test at `i` extends the failures from `i + 1` on.
fails_from :
    (test : ℕ → Bool) (i k : ℕ)
    → test i ≡ false
    → ((j : ℕ) → i + 1 ≤ j → j < k → test j ≡ false)
    → (j : ℕ) → i ≤ j
    → j < k
    → test j ≡ false
fails_from test i k now later j lo hi = elim (dec_lt i j) [
  | yes above ↦ later j (omega arith) hi
  | no here ↦ ap test {x = j} {y = i} (omega arith) ∙ now
]

pub IsFirst-first_index :
    (test : ℕ → Bool) (left i k : ℕ) → IsFirst test left i k → first_index test left i ≡ some k
unfolding first_index
IsFirst-first_index test zero i k f = absurd (omega (arith, f.from_start, f.to_end))
IsFirst-first_index test (suc left) i k f = elim (dec_lt i k) [
  | yes later ↦
      if_false (test i) (some i) _ (f.fails_before i (omega arith) later)
      ∙ IsFirst-first_index test left (i + 1) k (record {
        from_start = omega arith;
        to_end = omega (arith, f.to_end);
        holds = f.holds;
        fails_before = λ j lo hi. f.fails_before j (omega arith) hi;
      })
  | no now ↦
      let here : i ≡ k = omega (arith, f.from_start) in
      if_true (test i) (some i) _ (ap test here ∙ f.holds) ∙ ap some here
]

pub first_index-cases :
    (test : ℕ → Bool) (left i : ℕ)
    → ((first_index test left i ≡ none) × ((j : ℕ) → i ≤ j → j < i + left → test j ≡ false))
      ⊎ ((k : ℕ) × (first_index test left i ≡ some k) × IsFirst test left i k)
unfolding first_index
first_index-cases test zero i = inl (refl, λ j lo hi. absurd (omega arith))
first_index-cases test (suc left) i = elim (Bool-cases (test i)) [
  | inl now ↦ inr (
    i,
    if_true (test i) (some i) _ now,
    record {
      from_start = omega arith;
      to_end = omega arith;
      holds = now;
      fails_before = λ j lo hi. absurd (omega arith);
    },
  )
  | inr later ↦ elim (first_index-cases test left (i + 1)) [
    | inl (absent, fails) ↦ inl (
      if_false (test i) (some i) _ later ∙ absent,
      fails_from test i (i + suc left) later (λ j lo hi. fails j lo (omega arith)),
    )
    | inr (k, found, f) ↦ inr (
      k,
      if_false (test i) (some i) _ later ∙ found,
      record {
        from_start = omega (arith, f.from_start);
        to_end = omega (arith, f.to_end);
        holds = f.holds;
        fails_before = fails_from test i k later f.fails_before;
      },
    )
  ]
]

-- `std::strcmp(text, other) == 0`
abbrev pub same_text : List ℕ → List ℕ → Bool
same_text [] [] = true
same_text (c ∷ cs) (d ∷ ds) = (c == d) && same_text cs ds
same_text _ _ = false

-- The elements of a list, the last first, before those of another.
abbrev pub reversed_onto {ℓ} : {A : Type ℓ} → List A → List A → List A
reversed_onto [] ys = ys
reversed_onto (x ∷ xs) ys = reversed_onto xs (x ∷ ys)
