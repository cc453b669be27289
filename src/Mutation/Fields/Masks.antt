-- ===== src/Mutation/Fields/Masks.antt =====
-- The loops of buildBitMaskAndValue (core/mutation_engine.cpp) beside those of insertRaw.
use signal_scope_api.Base.{
  ℕ, zero, suc, ◌+◌, ◌^◌, ◌<◌, ◌≡◌, ◌⊎◌, refl, sym, ap, ◌∙◌, Bool, true, false, not, ◌&&◌, ◌||◌,
  inl, inr, arith, ltb, leb, ◌==◌, if◌then◌else◌, if_false, if_keeps, Bool-cases, Option, none,
  some, every_below, every_below-at,
}
use mathlib.Core.Path.{subst}
use signal_scope_api.Frame.{Bytes, u16}
use signal_scope_api.Codec.{
  raw_bit, read_frame_bit, write_frame_bit, next_motorola_bit, insert_intel, insert_motorola,
  insert_raw,
}
use signal_scope_api.Codec.Bit.{IsBytes, write_frame_bit-IsBytes, read-write_frame_bit}
use signal_scope_api.Codec.Field.Motorola.{place}
use signal_scope_api.Mutation.Rules.{
  MaskAndValue, add_bit, or_bit, shifted_bit, next_rule_bit, mask_intel, mask_motorola, no_bits,
  build_bit_mask_and_value,
}
use signal_scope_api.Mutation.Fields.Digits.{shifted_digit}

-- Where the mask has a bit, `bytes` holds the value's bit, elsewhere it is `orig`.
pub record Built (out : MaskAndValue) (bytes orig : Bytes) : Type 0 where
  pub mask_ok : IsBytes out.mask
  pub value_ok : IsBytes out.value
  pub bytes_ok : IsBytes bytes
  pub reads :
      (j : ℕ)
      → j < 64
      → read_frame_bit bytes j
        ≡ (if read_frame_bit out.mask j then read_frame_bit out.value j else read_frame_bit orig j)
  pub sub : (j : ℕ) → j < 64 → read_frame_bit out.value j ≡ true → read_frame_bit out.mask j ≡ true

or_bit-write : (bytes : Bytes) (p : ℕ) → p < 64 → or_bit bytes p ≡ write_frame_bit bytes p true
unfolding write_frame_bit
or_bit-write bytes p h = sym (if_false (leb 64 p) bytes (or_bit bytes p) (ground arith))

pub or_bit-IsBytes : (bytes : Bytes) (p : ℕ) → p < 64 → IsBytes bytes → IsBytes (or_bit bytes p)
or_bit-IsBytes bytes p h v =
    subst IsBytes (sym (or_bit-write bytes p h)) (write_frame_bit-IsBytes bytes p true v)

pub read-or_bit :
    (bytes : Bytes) (p j : ℕ)
    → IsBytes bytes
    → p < 64
    → j < 64
    → read_frame_bit (or_bit bytes p) j ≡ (if p == j then true else read_frame_bit bytes j)
read-or_bit bytes p j v hp hj =
    ap (λ (b : Bytes). read_frame_bit b j) (or_bit-write bytes p hp)
    ∙ read-write_frame_bit bytes p j true v hp hj

-- The value's bits after a round.
pub value_round :
    (value : Bytes) (p j : ℕ) (d : Bool)
    → IsBytes value
    → p < 64
    → j < 64
    → read_frame_bit (if d then or_bit value p else value) j
      ≡ (if d && (p == j) then true else read_frame_bit value j)
value_round value p j true v hp hj = read-or_bit value p j v hp hj
value_round value p j false v hp hj = refl

round_reads :
    (same d m v b o m' v' b' : Bool)
    → b' ≡ (if same then d else b)
    → m' ≡ (if same then true else m)
    → v' ≡ (if d && same then true else v)
    → b ≡ (if m then v else o)
    → (same ≡ true → v ≡ false)
    → b' ≡ (if m' then v' else o)
round_reads true d m v b o m' v' b' hb hm hv h fresh = ground (arith, fresh refl)
round_reads false d m v b o m' v' b' hb hm hv h fresh = ground arith

sub_round :
    (same d m v m' v' : Bool)
    → m' ≡ (if same then true else m)
    → v' ≡ (if d && same then true else v)
    → (v ≡ true → m ≡ true)
    → v' ≡ true
    → m' ≡ true
sub_round true d m v m' v' hm hv h set = hm
sub_round false d m v m' v' hm hv h set = ground (arith, h (ground arith))

-- One round of either loop, at a bit whose value bit is still clear.
round-Built :
    (out : MaskAndValue) (bytes orig : Bytes) (p : ℕ) (d : Bool)
    → p < 64
    → read_frame_bit out.value p ≡ false
    → Built out bytes orig
    → Built (add_bit out p d) (write_frame_bit bytes p d) orig
round-Built out bytes orig p d hp clear b = record {
  mask_ok = or_bit-IsBytes out.mask p hp b.mask_ok;
  value_ok = if_keeps IsBytes d (or_bit-IsBytes out.value p hp b.value_ok) b.value_ok;
  bytes_ok = write_frame_bit-IsBytes bytes p d b.bytes_ok;
  reads = λ j hj.
      round_reads (p == j) d _ _ _ _ _ _ _ (read-write_frame_bit bytes p j d b.bytes_ok hp hj)
        (read-or_bit out.mask p j b.mask_ok hp hj) (value_round out.value p j d b.value_ok hp hj)
        (b.reads j hj)
        (λ same. ap (read_frame_bit out.value) {x = j} {y = p} (ground arith) ∙ clear);
  sub = λ j hj.
      sub_round (p == j) d _ _ _ _ (read-or_bit out.mask p j b.mask_ok hp hj)
        (value_round out.value p j d b.value_ok hp hj) (b.sub j hj);
}

-- A value bit that is set after a round was set before, or is the round's.
set_before :
    (value : Bytes) (p j : ℕ) (d : Bool)
    → IsBytes value
    → p < 64
    → j < 64
    → read_frame_bit (if d then or_bit value p else value) j ≡ true
    → (p ≡ j) ⊎ (read_frame_bit value j ≡ true)
set_before value p j d v hp hj set = elim (Bool-cases (p == j)) [
  | inl same ↦ inl (ground arith)
  | inr other ↦ inr (ground (arith, value_round value p j d v hp hj))
]

-- A loop that goes on.
going :
    (out : Bool) (rest : Option MaskAndValue) (result : MaskAndValue)
    → (if out then none else rest) ≡ some result
    → (out ≡ false) × (rest ≡ some result)
going true rest result e = absurd (ground arith)
going false rest result e = (refl, e)

abbrev result_of : MaskAndValue → Option MaskAndValue → MaskAndValue
result_of out none = out
result_of out (some x) = x

clear_at :
    (value : Bytes) (p : ℕ) → (read_frame_bit value p ≡ true → ⊥) → read_frame_bit value p ≡ false
clear_at value p never = elim (Bool-cases (read_frame_bit value p)) [
  | inl set ↦ absurd (never set)
  | inr clear ↦ clear
]

mask_intel-Built :
    (raw start left i : ℕ) (out result : MaskAndValue) (bytes orig : Bytes)
    → mask_intel raw start left i out ≡ some result
    → Built out bytes orig
    → ((j : ℕ) → j < 64 → read_frame_bit out.value j ≡ true → j < start + i)
    → start + i + left < 2 ^ 16
    → Built result (insert_intel raw start left i bytes).1 orig
unfolding mask_intel insert_intel
mask_intel-Built raw start zero i out result bytes orig e b fresh small =
    subst (λ r. Built r bytes orig) (ap (result_of out) e) b
mask_intel-Built raw start (suc left) i out result bytes orig e b fresh small =
    let p = u16 (start + i) in
    let here : p ≡ start + i = omega arith in
    let d = shifted_bit raw i in
    let (stop, rest) = going (ltb 63 p) _ result e in
    let inside : p < 64 = ground arith in
    let written = write_frame_bit bytes p (raw_bit raw i) in
    let one =
      subst (λ t. Built (add_bit out p d) (write_frame_bit bytes p t) orig) (shifted_digit raw i)
        (round-Built out bytes orig p d inside
          (clear_at out.value p (λ set. omega (arith, fresh p inside set))) b) in
    let after : (j : ℕ)
        → j < 64
        → read_frame_bit (add_bit out p d).value j ≡ true
        → j < start + (i + 1) =
      λ j hj set. elim (set_before out.value p j d b.value_ok inside hj set) [
        | inl same ↦ omega arith
        | inr old ↦ omega (arith, fresh j hj old)
      ] in
    subst (λ (r : Bool × Bytes). Built result r.1 orig)
      (sym (
        if_false (leb 64 p) (false, bytes) (insert_intel raw start left (i + 1) written)
          (ground arith)))
      (mask_intel-Built raw start left (i + 1) (add_bit out p d) result written orig rest one after
        (omega arith))

place-next_rule : (b : ℕ) → b < 64 → place (next_rule_bit b) ≡ place b + 1
unfolding next_rule_bit
place-next_rule b h = ground arith

mask_motorola-Built :
    (raw left p : ℕ) (out result : MaskAndValue) (bytes orig : Bytes)
    → mask_motorola raw left p out ≡ some result
    → Built out bytes orig
    → ((j : ℕ) → j < 64 → read_frame_bit out.value j ≡ true → place j < place p)
    → Built result (insert_motorola raw left p bytes).1 orig
unfolding mask_motorola insert_motorola next_rule_bit next_motorola_bit
mask_motorola-Built raw zero p out result bytes orig e b fresh =
    subst (λ r. Built r bytes orig) (ap (result_of out) e) b
mask_motorola-Built raw (suc left) p out result bytes orig e b fresh =
    let d = shifted_bit raw left in
    let (stop, rest) = going (ltb 63 p) _ result e in
    let inside : p < 64 = ground arith in
    let written = write_frame_bit bytes p (raw_bit raw left) in
    let one =
      subst (λ t. Built (add_bit out p d) (write_frame_bit bytes p t) orig) (shifted_digit raw left)
        (round-Built out bytes orig p d inside
          (clear_at out.value p (λ set. omega (arith, fresh p inside set))) b) in
    let after : (j : ℕ)
        → j < 64
        → read_frame_bit (add_bit out p d).value j ≡ true
        → place j < place (next_rule_bit p) =
      λ j hj set. elim (set_before out.value p j d b.value_ok inside hj set) [
        | inl same ↦ omega (arith, place-next_rule p inside, ap place same)
        | inr old ↦ omega (arith, place-next_rule p inside, fresh j hj old)
      ] in
    subst (λ (r : Bool × Bytes). Built result r.1 orig)
      (sym (
        if_false (leb 64 p) (false, bytes) (insert_motorola raw left (next_rule_bit p) written)
          (ground arith)))
      (mask_motorola-Built raw left (next_rule_bit p) (add_bit out p d) result written orig rest one
        after)

nothing_table : every_below (λ j. not (read_frame_bit (λ i. 0) j)) 64 ≡ true
unfolding every_below read_frame_bit
nothing_table = refl

pub nothing : (j : ℕ) → j < 64 → read_frame_bit (λ i. 0) j ≡ false
nothing j hj =
    ground (arith, every_below-at (λ k. not (read_frame_bit (λ i. 0) k)) 64 j hj nothing_table)

pub unset : (j : ℕ) → j < 64 → read_frame_bit (λ i. 0) j ≡ true → ⊥
unset j hj set = absurd (ground (arith, nothing j hj))

no_bits-Built : (bytes : Bytes) → IsBytes bytes → Built no_bits bytes bytes
no_bits-Built bytes v = record {
  mask_ok = λ i hi. omega arith;
  value_ok = λ i hi. omega arith;
  bytes_ok = v;
  reads =
      λ j hj. sym (if_false (read_frame_bit (λ i. 0) j) _ (read_frame_bit bytes j) (nothing j hj));
  sub = λ j hj set. absurd (unset j hj set);
}

within :
    (start length : ℕ)
    → (ltb length 1 || ltb 64 length || ltb 63 start) ≡ false
    → start + 0 + length < 2 ^ 16
within start length h = ground arith

nonempty :
    (start length : ℕ)
    → (ltb length 1 || ltb 64 length || ltb 63 start) ≡ false
    → ((length == 0) || ltb 64 length) ≡ false
nonempty start length h = ground arith

-- Where buildBitMaskAndValue succeeds, its mask and value are those of the bytes that insertRaw
-- writes.
pub build-Built :
    (start length raw : ℕ) (little : Bool) (result : MaskAndValue) (bytes : Bytes)
    → build_bit_mask_and_value start length little raw ≡ some result
    → IsBytes bytes
    → Built result (insert_raw bytes start length little raw).1 bytes
unfolding build_bit_mask_and_value insert_raw
build-Built start length raw true result bytes e v =
    let (stop, rest) = going (ltb length 1 || ltb 64 length || ltb 63 start) _ result e in
    subst (λ (r : Bool × Bytes). Built result r.1 bytes)
      (sym (
        if_false ((length == 0) || ltb 64 length) (false, bytes)
          (insert_intel raw start length 0 bytes) (nonempty start length stop)))
      (mask_intel-Built raw start length 0 no_bits result bytes bytes rest (no_bits-Built bytes v)
        (λ j hj set. absurd (unset j hj set)) (within start length stop))
build-Built start length raw false result bytes e v =
    let (stop, rest) = going (ltb length 1 || ltb 64 length || ltb 63 start) _ result e in
    subst (λ (r : Bool × Bytes). Built result r.1 bytes)
      (sym (
        if_false ((length == 0) || ltb 64 length) (false, bytes)
          (insert_motorola raw length start bytes) (nonempty start length stop)))
      (mask_motorola-Built raw length start no_bits result bytes bytes rest (no_bits-Built bytes v)
        (λ j hj set. absurd (unset j hj set)))
