-- ===== src/Mutation/Fields/Static.antt =====
-- A static rule of MutationEngine (core/mutation_engine.cpp) writes what insertRaw writes.
use signal_scope_api.Base.{
  ℕ, ◌-◌, ◌/◌, ◌%◌, ◌^◌, ◌<◌, ◌≡◌, refl, sym, ap, ◌∙◌, Bool, true, false, not, ◌&&◌, ◌||◌, arith,
  ltb, leb, ◌==◌, if◌then◌else◌, if_true, if_false, Option, some, Array, bit_and, bit_or, ◌>>=◌,
  bind_some, some-inj, every_below, every_below-at, bind_some, some-inj, every_below,
  every_below-at,
}
use signal_scope_api.Frame.{Bytes}
use signal_scope_api.Codec.{raw_bit, bit_mask, read_frame_bit, insert_raw}
use signal_scope_api.Codec.Bit.{IsBytes}
use signal_scope_api.Mutation.{bit_range, StagedRule, CompiledRule, ValueEntry, TableEntry}
use signal_scope_api.Mutation.Rules.{MaskAndValue, build_bit_mask_and_value}
use signal_scope_api.Mutation.Table.{compile_rule, compile_bits, with_bits, blank_rule, value_index}
use signal_scope_api.Mutation.Apply.{apply_mask, apply_static_rule}
use signal_scope_api.Mutation.Fields.Digits.{raw_bit-and, raw_bit-or, raw_bit-complement}
use signal_scope_api.Mutation.Fields.Masks.{build-Built}

mask_table : every_below (λ k. bit_mask k == 2 ^ k) 8 ≡ true
unfolding every_below
mask_table = refl

-- A bit of a frame is a bit of its byte.
pub read_frame_bit-raw_bit :
    (bytes : Bytes) (j : ℕ) → j < 64 → read_frame_bit bytes j ≡ raw_bit (bytes (j / 8)) (j % 8)
unfolding read_frame_bit raw_bit
read_frame_bit-raw_bit bytes j hj =
    if_false (leb 64 j) false _ (ground arith)
    ∙ ap (λ m. not (bit_and (bytes (j / 8)) m == 0))
        (ground
          (arith, every_below-at (λ k. bit_mask k == 2 ^ k) 8 (j % 8) (omega arith) mask_table))

merge : (b m v : Bool) → ((b && not m) || (v && m)) ≡ (if m then v else b)
merge b m v = ground arith

-- One bit of `(byte & ~mask) | (value & mask)`.
merged_bit :
    (b m v k : ℕ)
    → m < 256
    → k < 8
    → raw_bit (bit_or (bit_and b (255 - m)) (bit_and v m)) k
      ≡ (if raw_bit m k then raw_bit v k else raw_bit b k)
merged_bit b m v k hm hk =
    raw_bit-or (bit_and b (255 - m)) (bit_and v m) k
    ∙ ap (λ t. t || raw_bit (bit_and v m) k)
        (raw_bit-and b (255 - m) k ∙ ap (λ t. raw_bit b k && t) (raw_bit-complement m k hm hk))
    ∙ ap (λ t. (raw_bit b k && not (raw_bit m k)) || t) (raw_bit-and v m k)
    ∙ merge (raw_bit b k) (raw_bit m k) (raw_bit v k)

-- applyMask with the masks of compileRule.
pub apply_mask-read :
    (bytes : Bytes) (bits : MaskAndValue) (j : ℕ)
    → IsBytes bits.mask
    → j < 64
    → read_frame_bit
        (apply_mask bytes (λ i. 255 - bits.mask i) (λ i. bit_and (bits.value i) (bits.mask i)))
        j
      ≡ (if read_frame_bit bits.mask j then read_frame_bit bits.value j else read_frame_bit bytes j)
unfolding apply_mask
apply_mask-read bytes bits j ok hj =
    read_frame_bit-raw_bit
      (apply_mask bytes (λ i. 255 - bits.mask i) (λ i. bit_and (bits.value i) (bits.mask i))) j hj
    ∙ ap (λ t. raw_bit t (j % 8)) (if_true (ltb (j / 8) 8) _ (bytes (j / 8)) (ground arith))
    ∙ merged_bit (bytes (j / 8)) (bits.mask (j / 8)) (bits.value (j / 8)) (j % 8)
        (ok (j / 8) (omega arith)) (omega arith)
    ∙ ap (λ m. if m then raw_bit (bits.value (j / 8)) (j % 8) else raw_bit (bytes (j / 8)) (j % 8))
        (sym (read_frame_bit-raw_bit bits.mask j hj))
    ∙ ap (λ v. if read_frame_bit bits.mask j then v else raw_bit (bytes (j / 8)) (j % 8))
        (sym (read_frame_bit-raw_bit bits.value j hj))
    ∙ ap (λ v. if read_frame_bit bits.mask j then read_frame_bit bits.value j else v)
        (sym (read_frame_bit-raw_bit bytes j hj))

module _ {F : Type 0} (values : Option (Array (ValueEntry F)))
    (tables : Option (Bool × Array (TableEntry F))) where
  -- compileRule on a rule of static bits.
  compile_bits-static :
      (rule : CompiledRule F)
      → rule.source.kind ≡ bit_range
      → rule.source.dynamic_value ≡ false
      → compile_bits values tables rule ≡ (
          build_bit_mask_and_value rule.source.start_bit rule.source.bit_length
            rule.source.little_endian rule.source.replace_value
          >>= λ bits. some (with_bits rule bits))
  unfolding compile_bits
  compile_bits-static rule kind static = rw (kind, static) refl

  compile_rule-static :
      (staged : StagedRule F) (priority : ℕ) (compiled : CompiledRule F)
      → staged.request.kind ≡ bit_range
      → staged.request.dynamic_value ≡ false
      → compile_rule values tables staged priority ≡ some compiled
      → (bits : MaskAndValue) × (build_bit_mask_and_value staged.request.start_bit
            staged.request.bit_length staged.request.little_endian staged.request.replace_value
          ≡ some bits)
        × ((bytes : Bytes)
            → apply_static_rule compiled bytes
              ≡ apply_mask bytes
                  (λ i. 255 - bits.mask i)
                  (λ i. bit_and (bits.value i) (bits.mask i)))
  unfolding compile_rule apply_static_rule
  compile_rule-static staged priority compiled kind static e =
      let (selector, found, bits_of) =
        bind_some (value_index values staged.request.selector_source)
          (λ x. compile_bits values tables (blank_rule staged priority x)) e in
      let rule = blank_rule staged priority selector in
      let (bits, built, made) =
        bind_some
          (build_bit_mask_and_value staged.request.start_bit staged.request.bit_length
            staged.request.little_endian staged.request.replace_value)
          (λ b. some (with_bits rule b)) (sym (compile_bits-static rule kind static) ∙ bits_of) in
      (
        bits,
        built,
        λ bytes. ap (λ (r : CompiledRule F). apply_static_rule r bytes) (sym (some-inj made)),
      )

  -- A rule for a field with a fixed value, compiled by a commit, writes exactly what the codec's
  -- insertRaw writes for that field and value: every bit of the frame is the same after either,
  -- in both byte orders. The conditions are that the rule compiles and the frame holds bytes.
  pub apply_static_rule-insert_raw :
      (staged : StagedRule F) (priority : ℕ) (compiled : CompiledRule F) (bytes : Bytes) (j : ℕ)
      → staged.request.kind ≡ bit_range
      → staged.request.dynamic_value ≡ false
      → compile_rule values tables staged priority ≡ some compiled
      → IsBytes bytes
      → j < 64
      → read_frame_bit (apply_static_rule compiled bytes) j
        ≡ read_frame_bit
            (insert_raw bytes staged.request.start_bit staged.request.bit_length
              staged.request.little_endian staged.request.replace_value).1
            j
  apply_static_rule-insert_raw staged priority compiled bytes j kind static e ok hj =
      let (bits, built, applied) = compile_rule-static staged priority compiled kind static e in
      let b =
        build-Built staged.request.start_bit staged.request.bit_length staged.request.replace_value
          staged.request.little_endian bits bytes built ok in
      ap (λ (t : Bytes). read_frame_bit t j) (applied bytes)
      ∙ apply_mask-read bytes bits j b.mask_ok hj
      ∙ sym (b.reads j hj)
