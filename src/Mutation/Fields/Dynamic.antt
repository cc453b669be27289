-- ===== src/Mutation/Fields/Dynamic.antt =====
-- The bits that writeDynamicValue (core/mutation_engine.cpp) sets in place of a field, against those
-- of insertRaw (core/signal_codec.cpp).
use Prim.Native.Nat.{bit_and-bitwise}
use signal_scope_api.Base.{
  ℕ, zero, suc, ◌+◌, ◌-◌, ◌/◌, ◌%◌, ◌<◌, ◌≤◌, ◌≡◌, refl, sym, ap, ◌∙◌, Bool, true, false, not, ◌&&◌,
  ◌||◌, arith, ltb, if◌then◌else◌, if_true, if_false, Option, none, some, some-inj, Array, bit_and,
}
use signal_scope_api.Base.Bits.{bit_and_low}
use mathlib.Core.Path.{subst}
use signal_scope_api.Frame.{Bytes, u16}
use signal_scope_api.Codec.{raw_bit, read_frame_bit, insert_raw}
use signal_scope_api.Codec.Bit.{IsBytes}
use signal_scope_api.Mutation.Rules.{
  MaskAndValue, add_bit, or_bit, shifted_bit, next_rule_bit, no_bits, mask_intel, mask_motorola,
  build_bit_mask_and_value, build_dynamic_bit_positions,
}
use signal_scope_api.Mutation.Apply.{set_dynamic_bits}
use signal_scope_api.Mutation.Fields.Digits.{raw_bit-and, raw_bit-complement}
use signal_scope_api.Mutation.Fields.Masks.{build-Built, nothing}
use signal_scope_api.Mutation.Fields.Static.{read_frame_bit-raw_bit}
use signal_scope_api.Mutation.Fields.Positions.{
  lit, Follows, goes_on, set_dynamic_bits-read, mask_intel-Follows, mask_motorola-Follows,
}

-- The same loop with another value makes the same mask.
SameMask : Option MaskAndValue → MaskAndValue → Type 0
SameMask o r = (s : MaskAndValue) × (o ≡ some s) × (s.mask ≡ r.mask)

mask_intel-SameMask :
    (raw raw' start left i : ℕ) (out out' r : MaskAndValue)
    → mask_intel raw start left i out ≡ some r
    → out'.mask ≡ out.mask
    → SameMask (mask_intel raw' start left i out') r
unfolding mask_intel SameMask
mask_intel-SameMask raw raw' start zero i out out' r e m =
    (out', refl, m ∙ ap (λ (t : MaskAndValue). t.mask) (some-inj e))
mask_intel-SameMask raw raw' start (suc left) i out out' r e m =
    let p = u16 (start + i) in
    let (stop, rest) = goes_on (ltb 63 p) _ r e in
    let (s, found, same) =
      mask_intel-SameMask raw raw' start left (i + 1) (add_bit out p (shifted_bit raw i))
        (add_bit out' p (shifted_bit raw' i)) r rest (ap (λ b. or_bit b p) m) in
    (s, if_false (ltb 63 p) none _ stop ∙ found, same)

mask_motorola-SameMask :
    (raw raw' left p : ℕ) (out out' r : MaskAndValue)
    → mask_motorola raw left p out ≡ some r
    → out'.mask ≡ out.mask
    → SameMask (mask_motorola raw' left p out') r
unfolding mask_motorola SameMask
mask_motorola-SameMask raw raw' zero p out out' r e m =
    (out', refl, m ∙ ap (λ (t : MaskAndValue). t.mask) (some-inj e))
mask_motorola-SameMask raw raw' (suc left) p out out' r e m =
    let (stop, rest) = goes_on (ltb 63 p) _ r e in
    let (s, found, same) =
      mask_motorola-SameMask raw raw' left (next_rule_bit p) (add_bit out p (shifted_bit raw left))
        (add_bit out' p (shifted_bit raw' left)) r rest (ap (λ b. or_bit b p) m) in
    (s, if_false (ltb 63 p) none _ stop ∙ found, same)

no_bytes : IsBytes (λ i. 0)
no_bytes i hi = omega arith

-- The value of a field beside the mask that was built for 0 and the places of its bits.
pub record Valued (start length v : ℕ) (little : Bool) (bits : MaskAndValue) (places : Array ℕ)
    : Type 0 where
  pub made : MaskAndValue
  pub built : build_bit_mask_and_value start length little v ≡ some made
  pub same_mask : made.mask ≡ bits.mask
  pub follows : Follows v 0 length places (λ i. 0) made.value

pub build-Valued :
    (start length v : ℕ) (little : Bool) (bits : MaskAndValue) (places : Array ℕ)
    → build_bit_mask_and_value start length little 0 ≡ some bits
    → build_dynamic_bit_positions start length little ≡ some places
    → Valued start length v little bits places
unfolding build_bit_mask_and_value build_dynamic_bit_positions SameMask
build-Valued start length v true bits places e f =
    let (stop, rest) = goes_on (ltb length 1 || ltb 64 length || ltb 63 start) _ bits e in
    let (short, positions) = goes_on (ltb length 1 || ltb 32 length || ltb 63 start) _ places f in
    let (made, found, same) =
      mask_intel-SameMask 0 v start length 0 no_bits no_bits bits rest refl in
    record {
      made = made;
      built = if_false (ltb length 1 || ltb 64 length || ltb 63 start) none _ stop ∙ found;
      same_mask = same;
      follows =
          mask_intel-Follows v start length 0 no_bits made (λ i. 0) places found positions no_bytes;
    }
build-Valued start length v false bits places e f =
    let (stop, rest) = goes_on (ltb length 1 || ltb 64 length || ltb 63 start) _ bits e in
    let (short, positions) = goes_on (ltb length 1 || ltb 32 length || ltb 63 start) _ places f in
    let (made, found, same) =
      mask_motorola-SameMask 0 v length start no_bits no_bits bits rest refl in
    record {
      made = made;
      built = if_false (ltb length 1 || ltb 64 length || ltb 63 start) none _ stop ∙ found;
      same_mask = same;
      follows =
          mask_motorola-Follows v length start no_bits made (λ i. 0) places found positions
            no_bytes;
    }

bit_and-le_below : (n x y : ℕ) → x ≤ n → bit_and x y ≤ x
bit_and-le_below zero zero y h = omega (arith, bit_and-bitwise 0 y)
bit_and-le_below zero (suc x) y h = absurd (omega arith)
bit_and-le_below (suc n) x y h =
    omega (arith, bit_and_low x y, bit_and-le_below n (x / 2) (y / 2) (omega arith))

-- `byte & ~mask` for the bytes of a frame
abbrev pub cleared : Bytes → Bytes → Bytes
cleared bytes mask i = if ltb i 8 then bit_and (bytes i) (255 - mask i) else bytes i

cleared-IsBytes : (bytes mask : Bytes) → IsBytes bytes → IsBytes (cleared bytes mask)
cleared-IsBytes bytes mask ok i hi =
    ground (arith, ok i hi, bit_and-le_below (bytes i) (bytes i) (255 - mask i) (omega arith))

cleared-read :
    (bytes mask : Bytes) (j : ℕ)
    → IsBytes mask
    → j < 64
    → read_frame_bit (cleared bytes mask) j
      ≡ (read_frame_bit bytes j && not (read_frame_bit mask j))
cleared-read bytes mask j ok hj =
    read_frame_bit-raw_bit (cleared bytes mask) j hj
    ∙ ap (λ t. raw_bit t (j % 8)) (if_true (ltb (j / 8) 8) _ (bytes (j / 8)) (ground arith))
    ∙ raw_bit-and (bytes (j / 8)) (255 - mask (j / 8)) (j % 8)
    ∙ ap (λ t. raw_bit (bytes (j / 8)) (j % 8) && t)
        (raw_bit-complement (mask (j / 8)) (j % 8) (ok (j / 8) (omega arith)) (omega arith))
    ∙ ap (λ t. t && not (raw_bit (mask (j / 8)) (j % 8))) (sym (read_frame_bit-raw_bit bytes j hj))
    ∙ ap (λ t. read_frame_bit bytes j && not t) (sym (read_frame_bit-raw_bit mask j hj))

overlay :
    (l b m v : Bool)
    → v ≡ (l || false)
    → (v ≡ true → m ≡ true)
    → (l || (b && not m)) ≡ (if m then v else b)
overlay l b true v h s = ground arith
overlay l b false v h s = ground (arith, s)

-- The bytes after the bits of a value were set in place of the field.
pub overlaid :
    (start length v : ℕ) (little : Bool) (bits : MaskAndValue) (places : Array ℕ) (bytes : Bytes)
    (j : ℕ)
    → Valued start length v little bits places
    → IsBytes bytes
    → j < 64
    → read_frame_bit (set_dynamic_bits places v length 0 (cleared bytes bits.mask)) j
      ≡ read_frame_bit (insert_raw bytes start length little v).1 j
overlaid start length v little bits places bytes j w ok hj =
    let b = build-Built start length v little w.made bytes w.built ok in
    let mask_ok : IsBytes bits.mask = subst IsBytes w.same_mask b.mask_ok in
    set_dynamic_bits-read places v length 0 j (cleared bytes bits.mask)
      (cleared-IsBytes bytes bits.mask ok) w.follows.inside hj
    ∙ ap (λ t. lit v places 0 length j || t) (cleared-read bytes bits.mask j mask_ok hj)
    ∙ ap
        (λ (m : Bytes).
          lit v places 0 length j || (read_frame_bit bytes j && not (read_frame_bit m j)))
        (sym w.same_mask)
    ∙ overlay (lit v places 0 length j) (read_frame_bit bytes j) (read_frame_bit w.made.mask j)
        (read_frame_bit w.made.value j)
        (w.follows.reads j hj ∙ ap (λ t. lit v places 0 length j || t) (nothing j hj)) (b.sub j hj)
    ∙ sym (b.reads j hj)
