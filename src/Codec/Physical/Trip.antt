-- ===== src/Codec/Physical/Trip.antt =====
-- Encoding and mutating a signal (core/signal_codec.cpp): what is decoded afterwards, and what of the
-- frame is kept.
use signal_scope_api.Base.{
  ℕ, ◌<◌, ◌≡◌, refl, ap, ◌∙◌, Bool, true, false, not, arith, Option, none, some, if◌then◌else◌,
  if_keeps, if_false, inl, inr, sym, Bool-cases,
}
use mathlib.Core.Option
use mathlib.Core.Path.{subst}
use signal_scope_api.Base.Int.{ℤ}
use signal_scope_api.Frame.{
  Bytes, CanFrame, MutationOperation, pass_through, replace, add_offset, multiply, clamp,
}
use signal_scope_api.Codec.{insert_raw, read_frame_bit}
use signal_scope_api.Codec.Bit.{IsBytes}
use signal_scope_api.Codec.RoundTrip.{fits_in, fits_in-length, inside, extract-insert_raw}
use signal_scope_api.Codec.Integer.{field_value, field_pattern, clamp_integer}
use signal_scope_api.Codec.Integer.Range.{field_value-clamp_integer}
use signal_scope_api.Codec.Physical.{
  Floats, FieldScale, SignalMutation, physical_of, integer_of, decode_signal_raw, encode_signal_raw,
  encode_signal, next_value, write_next, mutate_decoded, apply_mutation_to_frame,
}

abbrev pub Fits : {F : Type 0} → FieldScale F → Type 0
Fits s = fits_in 64 s.start_bit s.length s.little_endian ≡ true

module _ (floats : Floats) where
  open floats use {F32, is_zero32, add32, mul32, lt32}

  -- The integer that a physical value is stored as.
  abbrev pub stored : FieldScale F32 → F32 → ℤ
  stored s x = clamp_integer s.length s.is_signed (integer_of floats s x)

  encode_passed :
      (bytes : Bytes) (s : FieldScale F32) (x : F32)
      → Fits s
      → is_zero32 s.factor ≡ false
      → encode_signal_raw floats bytes s x
        ≡ insert_raw bytes s.start_bit s.length s.little_endian
            (field_pattern s.length s.is_signed (stored s x))
  unfolding encode_signal_raw
  encode_passed bytes s x fits scaled =
      let (lo, hi) = fits_in-length s.start_bit s.length s.little_endian fits in ground arith

  encode_decodes :
      (bytes : Bytes) (s : FieldScale F32) (x : F32)
      → IsBytes bytes
      → Fits s
      → is_zero32 s.factor ≡ false
      → let r = encode_signal_raw floats bytes s x in
        (r.0 ≡ true) × (decode_signal_raw floats r.1 s ≡ some (physical_of floats s (stored s x)))
  unfolding decode_signal_raw
  encode_decodes bytes s x h fits scaled =
      let same = encode_passed bytes s x fits scaled in
      let (lo, hi) = fits_in-length s.start_bit s.length s.little_endian fits in
      let (done, read, kept) =
        extract-insert_raw bytes s.start_bit s.length
          (field_pattern s.length s.is_signed (stored s x)) 0 s.little_endian h fits
          (omega arith) in
      (
        ap (λ t. t.0) same ∙ done,
        ap (λ t. decode_signal_raw floats t.1 s) same
            ∙ ap (Option.map (λ raw. physical_of floats s (field_value s.length s.is_signed raw)))
                read
            ∙ ap (λ v. some (physical_of floats s v))
                (field_value-clamp_integer s.length s.is_signed (integer_of floats s x) lo hi),
      )

  -- Encoding a physical value into a field of the 8 bytes whose factor is not 0 succeeds. Decoding
  -- the field then gives the physical value of the stored integer, which is the rounded quotient
  -- clamped to the range of the field; a bit outside the field is as it was.
  pub decode-encode_signal_raw :
      (bytes : Bytes) (s : FieldScale F32) (x : F32) (j : ℕ)
      → IsBytes bytes
      → Fits s
      → is_zero32 s.factor ≡ false
      → j < 64
      → inside s.start_bit s.length s.little_endian j ≡ false
      → let r = encode_signal_raw floats bytes s x in
        (r.0 ≡ true)
        × (decode_signal_raw floats r.1 s ≡ some (physical_of floats s (stored s x)))
        × (read_frame_bit r.1 j ≡ read_frame_bit bytes j)
  decode-encode_signal_raw bytes s x j h fits scaled hj out =
      let (done, read) = encode_decodes bytes s x h fits scaled in
      let (_, _, kept) =
        extract-insert_raw bytes s.start_bit s.length
          (field_pattern s.length s.is_signed (stored s x)) j s.little_endian h fits hj in
      (
        done,
        read,
        ap (λ t. read_frame_bit t.1 j) (encode_passed bytes s x fits scaled)
            ∙ kept
            ∙ if_false (inside s.start_bit s.length s.little_endian j) _ _ out,
      )

  abbrev SameHeader : CanFrame → CanFrame → Type 0
  SameHeader f g =
      (g.id ≡ f.id)
      × (g.dlc ≡ f.dlc)
      × (g.direction ≡ f.direction)
      × (g.timestamp_us ≡ f.timestamp_us)

  write_next-header :
      (frame : CanFrame) (m : SignalMutation F32) (n : Option F32)
      → SameHeader frame (write_next floats frame m n).1
  unfolding encode_signal
  write_next-header frame m none = (refl, refl, refl, refl)
  write_next-header frame m (some y) = (refl, refl, refl, refl)

  mutate_decoded-header :
      (frame : CanFrame) (m : SignalMutation F32) (o : Option F32)
      → SameHeader frame (mutate_decoded floats frame m o).1
  mutate_decoded-header frame m none = (refl, refl, refl, refl)
  mutate_decoded-header frame m (some x) = write_next-header frame m (next_value floats m x)

  -- A mutation keeps identifier, length, direction and timestamp of the frame, on every branch.
  pub apply_mutation_to_frame-header :
      (frame : CanFrame) (m : SignalMutation F32)
      → let after = (apply_mutation_to_frame floats frame m).1 in
        (after.id ≡ frame.id)
        × (after.dlc ≡ frame.dlc)
        × (after.direction ≡ frame.direction)
        × (after.timestamp_us ≡ frame.timestamp_us)
  unfolding apply_mutation_to_frame encode_signal
  apply_mutation_to_frame-header frame m =
      if_keeps (λ (r : Bool × CanFrame). SameHeader frame r.1) (not m.enabled)
        (refl, refl, refl, refl) (mutate_decoded-header frame m _)

  -- The field holds the physical value of the integer stored for `x`.
  abbrev pub Holds : FieldScale F32 → F32 → CanFrame → Type 0
  Holds s x frame =
      decode_signal_raw floats frame.bytes s ≡ some (physical_of floats s (stored s x))

  -- What is left by an operation on a field that was decoded as `current`: PASS_THROUGH leaves the
  -- whole frame; REPLACE, ADD_OFFSET and MULTIPLY store the first operand, its sum and its product
  -- with `current`; CLAMP stores the first operand if `current` is below it, and of the result the
  -- second operand if it is above that.
  abbrev pub Operated :
      MutationOperation → FieldScale F32 → F32 → F32 → F32 → CanFrame → CanFrame → Type 0
  Operated pass_through s a b current before after = after ≡ before
  Operated replace s a b current before after = Holds s a after
  Operated add_offset s a b current before after = Holds s (add32 current a) after
  Operated multiply s a b current before after = Holds s (mul32 current a) after
  Operated clamp s a b current before after =
      if lt32 current a
      then Holds s (if lt32 b a then b else a) after
      else Holds s (if lt32 b current then b else current) after

  operated :
      (frame : CanFrame) (m : SignalMutation F32) (current : F32) (op : MutationOperation)
      → IsBytes frame.bytes
      → Fits m.layout
      → is_zero32 m.layout.factor ≡ false
      → m.operation ≡ op
      → let r = write_next floats frame m (next_value floats m current) in
        (r.0 ≡ true) × Operated op m.layout m.op_value1 m.op_value2 current frame r.1
  unfolding next_value encode_signal
  operated frame m current pass_through h fits scaled e = rw e (refl, refl)
  operated frame m current replace h fits scaled e =
      rw e (encode_decodes frame.bytes m.layout m.op_value1 h fits scaled)
  operated frame m current add_offset h fits scaled e =
      rw e (encode_decodes frame.bytes m.layout (add32 current m.op_value1) h fits scaled)
  operated frame m current multiply h fits scaled e =
      rw e (encode_decodes frame.bytes m.layout (mul32 current m.op_value1) h fits scaled)
  operated frame m current clamp h fits scaled e = elim (Bool-cases (lt32 current m.op_value1)) [
    | inl below ↦
        rw (e, below)
          (encode_decodes frame.bytes m.layout
            (if lt32 m.op_value2 m.op_value1 then m.op_value2 else m.op_value1) h fits scaled)
    | inr above ↦
        rw (e, above)
          (encode_decodes frame.bytes m.layout
            (if lt32 m.op_value2 current then m.op_value2 else current) h fits scaled)
  ]

  -- An enabled mutation of a field of the 8 bytes that is decoded, and whose factor is not 0,
  -- succeeds. PASS_THROUGH leaves the frame as it is. After another operation the field decodes to
  -- the physical value of the integer stored for the first operand, for the sum or the product of
  -- the old value and it, or for the old value raised to the first operand and then lowered to the
  -- second.
  pub decode-apply_mutation_to_frame :
      (frame : CanFrame) (m : SignalMutation F32) (current : F32)
      → IsBytes frame.bytes
      → Fits m.layout
      → is_zero32 m.layout.factor ≡ false
      → m.enabled ≡ true
      → decode_signal_raw floats frame.bytes m.layout ≡ some current
      → let r = apply_mutation_to_frame floats frame m in
        (r.0 ≡ true) × Operated m.operation m.layout m.op_value1 m.op_value2 current frame r.1
  unfolding apply_mutation_to_frame encode_signal
  decode-apply_mutation_to_frame frame m current h fits scaled on decoded =
      let step : apply_mutation_to_frame floats frame m
          ≡ write_next floats frame m (next_value floats m current) =
        ap
          (λ b.
            if not b
            then (false, frame)
            else mutate_decoded floats frame m (decode_signal_raw floats frame.bytes m.layout))
          on
        ∙ ap (mutate_decoded floats frame m) decoded in
      subst
        (λ (r : Bool × CanFrame).
          (r.0 ≡ true) × Operated m.operation m.layout m.op_value1 m.op_value2 current frame r.1)
        (sym step) (operated frame m current m.operation h fits scaled refl)
