-- ===== src/Mutation/Fields/Positions.antt =====
-- The loop of writeDynamicValue (core/mutation_engine.cpp) and the positions it follows, against
-- the value that buildBitMaskAndValue makes.
use signal_scope_api.Base.{
  ℕ, zero, suc, ◌+◌, ◌^◌, ◌<◌, ◌≤◌, ◌≡◌, refl, sym, ap, ◌∙◌, Bool, true, false, not, ◌&&◌, ◌||◌,
  inl, inr, arith, ltb, ◌==◌, if◌then◌else◌, if_true, if_false, if_keeps, Bool-cases, Option, none,
  some, some-inj, Array, store, bit_and,
}
use native.Mathlib.Decide.{dec_lt}
use signal_scope_api.Frame.{Bytes, u16}
use signal_scope_api.Codec.{raw_bit, read_frame_bit}
use signal_scope_api.Codec.Bit.{IsBytes}
use signal_scope_api.Mutation.Rules.{
  MaskAndValue, add_bit, or_bit, shifted_bit, next_rule_bit, mask_intel, mask_motorola,
  positions_intel, positions_motorola,
}
use signal_scope_api.Mutation.Apply.{set_dynamic_bits}
use signal_scope_api.Mutation.Fields.Digits.{shifted_digit}
use signal_scope_api.Mutation.Fields.Masks.{or_bit-IsBytes, read-or_bit, value_round}

or_false : (a : Bool) → (a || false) ≡ a
or_false a = ground arith

or_assoc : (a b c : Bool) → (a || (b || c)) ≡ ((a || b) || c)
or_assoc a b c = ground arith

or_swap : (a b c : Bool) → (a || (b || c)) ≡ ((b || a) || c)
or_swap a b c = ground arith

if_or : (a b : Bool) → (if a then true else b) ≡ ((true && a) || b)
if_or a b = ground arith

-- Whether one of the bits `bit`, ..., `bit + left - 1` of a value is set and stands at place `j`.
unfoldable pub lit : ℕ → Array ℕ → ℕ → ℕ → ℕ → Bool
lit v places bit zero j = false
lit v places bit (suc left) j =
    (raw_bit v bit && (places bit == j)) || lit v places (bit + 1) left j

-- The last of the bits instead of the first.
lit_last :
    (v : ℕ) (places : Array ℕ) (bit left j : ℕ)
    → lit v places bit (suc left) j
      ≡ (lit v places bit left j || (raw_bit v (bit + left) && (places (bit + left) == j)))
unfolding lit
lit_last v places bit zero j =
    ap (λ k. (raw_bit v k && (places k == j)) || false) {x = bit} {y = bit + 0} (omega arith)
    ∙ or_false _
lit_last v places bit (suc left) j =
    ap (λ t. (raw_bit v bit && (places bit == j)) || t) (lit_last v places (bit + 1) left j)
    ∙ ap
        (λ k.
          (raw_bit v bit && (places bit == j))
          || (lit v places (bit + 1) left j || (raw_bit v k && (places k == j))))
        {x = bit + 1 + left} {y = bit + suc left} (omega arith)
    ∙ or_assoc (raw_bit v bit && (places bit == j)) (lit v places (bit + 1) left j)
        (raw_bit v (bit + suc left) && (places (bit + suc left) == j))

unlit : (v : ℕ) (places : Array ℕ) (j : ℕ) (b : Bool) → b ≡ (lit v places 0 0 j || b)
unfolding lit
unlit v places j b = refl

one_bit :
    (places : Array ℕ) (v bit j : ℕ) (bytes : Bytes)
    → IsBytes bytes
    → places bit < 64
    → j < 64
    → read_frame_bit (if bit_and v (2 ^ bit) == 0 then bytes else or_bit bytes (places bit)) j
      ≡ ((raw_bit v bit && (places bit == j)) || read_frame_bit bytes j)
unfolding raw_bit
one_bit places v bit j bytes ok hp hj = elim (Bool-cases (bit_and v (2 ^ bit) == 0)) [
  | inl clear ↦
      ap (λ b. read_frame_bit (if b then bytes else or_bit bytes (places bit)) j) clear
      ∙ ap (λ b. (not b && (places bit == j)) || read_frame_bit bytes j) (sym clear)
  | inr set ↦
      ap (λ b. read_frame_bit (if b then bytes else or_bit bytes (places bit)) j) set
      ∙ read-or_bit bytes (places bit) j ok hp hj
      ∙ if_or (places bit == j) (read_frame_bit bytes j)
      ∙ ap (λ b. (not b && (places bit == j)) || read_frame_bit bytes j) (sym set)
]

pub set_dynamic_bits-read :
    (places : Array ℕ) (v left bit j : ℕ) (bytes : Bytes)
    → IsBytes bytes
    → ((k : ℕ) → bit ≤ k → k < bit + left → places k < 64)
    → j < 64
    → read_frame_bit (set_dynamic_bits places v left bit bytes) j
      ≡ (lit v places bit left j || read_frame_bit bytes j)
unfolding set_dynamic_bits lit
set_dynamic_bits-read places v zero bit j bytes ok inside hj = refl
set_dynamic_bits-read places v (suc left) bit j bytes ok inside hj =
    let here = inside bit (omega arith) (omega arith) in
    set_dynamic_bits-read places v left (bit + 1) j
      (if bit_and v (2 ^ bit) == 0 then bytes else or_bit bytes (places bit))
      (if_keeps IsBytes (bit_and v (2 ^ bit) == 0) ok (or_bit-IsBytes bytes (places bit) here ok))
      (λ k lo hi. inside k (omega arith) (omega arith)) hj
    ∙ ap (λ t. lit v places (bit + 1) left j || t) (one_bit places v bit j bytes ok here hj)
    ∙ or_swap (lit v places (bit + 1) left j) (raw_bit v bit && (places bit == j))
        (read_frame_bit bytes j)

-- A loop that goes on.
pub goes_on :
    {A : Type 0} (out : Bool) (rest : Option A) (result : A)
    → (if out then none else rest) ≡ some result
    → (out ≡ false) × (rest ≡ some result)
goes_on true rest result e = absurd (ground arith)
goes_on false rest result e = (refl, e)

-- The value bits that a loop sets from bit `first` on are those of the places it noted.
pub record Follows (v first left : ℕ) (places : Array ℕ) (base out : Bytes) : Type 0 where
  pub inside : (k : ℕ) → first ≤ k → k < first + left → places k < 64
  pub reads :
      (j : ℕ) → j < 64 → read_frame_bit out j ≡ (lit v places first left j || read_frame_bit base j)

or_else : (a b : Bool) → (if a then true else b) ≡ (a || b)
or_else a b = ground arith

-- The bits of the value after one round.
round_value :
    (v bit p j : ℕ) (value : Bytes) (places : Array ℕ)
    → IsBytes value
    → p < 64
    → j < 64
    → places bit ≡ p
    → read_frame_bit (if shifted_bit v bit then or_bit value p else value) j
      ≡ ((raw_bit v bit && (places bit == j)) || read_frame_bit value j)
round_value v bit p j value places ok hp hj there =
    value_round value p j (shifted_bit v bit) ok hp hj
    ∙ or_else (shifted_bit v bit && (p == j)) (read_frame_bit value j)
    ∙ ap (λ d. (d && (p == j)) || read_frame_bit value j) (shifted_digit v bit)
    ∙ ap (λ t. (raw_bit v bit && (t == j)) || read_frame_bit value j) (sym there)

positions_intel-below :
    (start left i : ℕ) (o places : Array ℕ) (k : ℕ)
    → positions_intel start left i o ≡ some places
    → k < i
    → places k ≡ o k
unfolding positions_intel
positions_intel-below start zero i o places k e h = ap (λ (t : Array ℕ). t k) (sym (some-inj e))
positions_intel-below start (suc left) i o places k e h =
    positions_intel-below start left (i + 1) (store o i (u16 (start + i))) places k
      (goes_on (ltb 63 (u16 (start + i))) _ places e).1 (omega arith)
    ∙ if_false (k == i) (u16 (start + i)) (o k) (ground arith)

pub mask_intel-Follows :
    (v start left i : ℕ) (out result : MaskAndValue) (o places : Array ℕ)
    → mask_intel v start left i out ≡ some result
    → positions_intel start left i o ≡ some places
    → IsBytes out.value
    → Follows v i left places out.value result.value
unfolding mask_intel positions_intel lit
mask_intel-Follows v start zero i out result o places e f ok = record {
  inside = λ k lo hi. absurd (omega arith);
  reads = λ j hj. ap (λ (t : MaskAndValue). read_frame_bit t.value j) (sym (some-inj e));
}
mask_intel-Follows v start (suc left) i out result o places e f ok =
    let p = u16 (start + i) in
    let (stop, rest) = goes_on (ltb 63 p) _ result e in
    let after = (goes_on (ltb 63 p) _ places f).1 in
    let hp : p < 64 = ground arith in
    let there : places i ≡ p =
      positions_intel-below start left (i + 1) (store o i p) places i after (omega arith)
      ∙ if_true (i == i) p (o i) (ground arith) in
    let next =
      mask_intel-Follows v start left (i + 1) (add_bit out p (shifted_bit v i)) result (store o i p)
        places rest after
        (if_keeps IsBytes (shifted_bit v i) (or_bit-IsBytes out.value p hp ok) ok) in
    record {
      inside = λ k lo hi. elim (dec_lt i k) [
        | yes later ↦ next.inside k (omega arith) (omega arith)
        | no now ↦ omega (arith, there, ap places {x = k} {y = i} (omega arith))
      ];
      reads = λ j hj.
          next.reads j hj
          ∙ ap (λ t. lit v places (i + 1) left j || t)
              (round_value v i p j out.value places ok hp hj there)
          ∙ or_swap (lit v places (i + 1) left j) (raw_bit v i && (places i == j))
              (read_frame_bit out.value j);
    }

positions_motorola-above :
    (left p : ℕ) (o places : Array ℕ) (k : ℕ)
    → positions_motorola left p o ≡ some places
    → left ≤ k
    → places k ≡ o k
unfolding positions_motorola
positions_motorola-above zero p o places k e h = ap (λ (t : Array ℕ). t k) (sym (some-inj e))
positions_motorola-above (suc left) p o places k e h =
    positions_motorola-above left (next_rule_bit p) (store o left p) places k
      (goes_on (ltb 63 p) _ places e).1 (omega arith)
    ∙ if_false (k == left) p (o k) (ground arith)

or_last : (a b c : Bool) → (a || (b || c)) ≡ ((a || b) || c)
or_last a b c = ground arith

pub mask_motorola-Follows :
    (v left p : ℕ) (out result : MaskAndValue) (o places : Array ℕ)
    → mask_motorola v left p out ≡ some result
    → positions_motorola left p o ≡ some places
    → IsBytes out.value
    → Follows v 0 left places out.value result.value
unfolding mask_motorola positions_motorola
mask_motorola-Follows v zero p out result o places e f ok = record {
  inside = λ k lo hi. absurd (omega arith);
  reads = λ j hj.
      ap (λ (t : MaskAndValue). read_frame_bit t.value j) (sym (some-inj e)) ∙ unlit v places j _;
}
mask_motorola-Follows v (suc left) p out result o places e f ok =
    let (stop, rest) = goes_on (ltb 63 p) _ result e in
    let after = (goes_on (ltb 63 p) _ places f).1 in
    let hp : p < 64 = ground arith in
    let there : places left ≡ p =
      positions_motorola-above left (next_rule_bit p) (store o left p) places left after
        (omega arith)
      ∙ if_true (left == left) p (o left) (ground arith) in
    let next =
      mask_motorola-Follows v left (next_rule_bit p) (add_bit out p (shifted_bit v left)) result
        (store o left p) places rest after
        (if_keeps IsBytes (shifted_bit v left) (or_bit-IsBytes out.value p hp ok) ok) in
    record {
      inside = λ k lo hi. elim (dec_lt k left) [
        | yes earlier ↦ next.inside k (omega arith) (omega arith)
        | no now ↦ omega (arith, there, ap places {x = k} {y = left} (omega arith))
      ];
      reads = λ j hj.
          next.reads j hj
          ∙ ap (λ t. lit v places 0 left j || t)
              (round_value v left p j out.value places ok hp hj there)
          ∙ or_last (lit v places 0 left j) (raw_bit v left && (places left == j))
              (read_frame_bit out.value j)
          ∙ ap (λ t. t || read_frame_bit out.value j)
              (ap (λ k. lit v places 0 left j || (raw_bit v k && (places k == j))) {x = left}
                  {y = 0 + left} (omega arith)
                ∙ sym (lit_last v places 0 left j));
    }
