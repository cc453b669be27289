-- ===== src/Tests/Codecs.antt =====
-- The theorems about the codec at concrete frames and fields.
use signal_scope_api.Base.{
  ℕ, ◌+◌, ◌*◌, ◌%◌, ◌^◌, ◌≡◌, refl, arith, true, false, ◌&&◌, some, leb, if◌then◌else◌, ◌==◌,
}
use signal_scope_api.Base.Int.{pos, negsuc, ltb_ℤ, pos_part, sub_ℕ, ◌≤ℤ◌}
use signal_scope_api.Frame.{Bytes, CanFrame, a_to_b, multiply}
use signal_scope_api.Codec.{
  raw_bit, read_frame_bit, write_frame_bit, signal_fits_payload, extract_raw, insert_raw,
}
use signal_scope_api.Codec.Bit.{IsBytes, read-write_frame_bit}
use signal_scope_api.Codec.RoundTrip.{
  fits_in, inside, digit_of, signal_fits_payload_lem, extract-insert_raw,
}
use signal_scope_api.Codec.Integer.{field_value, field_pattern, clamp_integer}
use signal_scope_api.Codec.Integer.Range.{clamp_integer_lem, field_value-clamp_integer}
use signal_scope_api.Codec.Physical.{
  Floats, FieldScale, SignalMutation, physical_of, decode_signal_raw, encode_signal_raw,
  apply_mutation_to_frame,
}
use signal_scope_api.Codec.Physical.Trip.{
  stored, decode-encode_signal_raw, apply_mutation_to_frame-header, decode-apply_mutation_to_frame,
}
use signal_scope_api.Tests.Samples.{frame_of}

abbrev some_bytes : Bytes
some_bytes i = if i == 3 then 0xA5 else 0x3C

some_bytes-IsBytes : IsBytes some_bytes
some_bytes-IsBytes i h = ground arith

read-write_frame_bit_example : read_frame_bit (write_frame_bit some_bytes 13 true) 13 ≡ true
read-write_frame_bit_example =
    read-write_frame_bit some_bytes 13 13 true some_bytes-IsBytes (omega arith) (omega arith)

signal_fits_payload_lem_example :
    signal_fits_payload 3 7 16 false ≡ (leb 3 8 && fits_in (3 * 8) 7 16 false)
signal_fits_payload_lem_example = signal_fits_payload_lem 3 7 16 false

extract-insert_raw_example :
    let r = insert_raw some_bytes 7 12 false 0xABC in
    (r.0 ≡ true)
    × (extract_raw r.1 7 12 false ≡ some (0xABC % 2 ^ 12))
    × (read_frame_bit r.1 30 ≡ (
        if inside 7 12 false 30
        then raw_bit 0xABC (digit_of 7 12 false 30)
        else read_frame_bit some_bytes 30))
extract-insert_raw_example =
    extract-insert_raw some_bytes 7 12 0xABC 30 false some_bytes-IsBytes refl (omega arith)

clamp_integer_lem_example :
    (negsuc 127 ≤ℤ clamp_integer 8 true (negsuc 199))
    × (clamp_integer 8 true (negsuc 199) ≤ℤ pos 127)
    × (clamp_integer 8 true (negsuc 199) ≡ negsuc 127)
clamp_integer_lem_example = clamp_integer_lem 8 true (negsuc 199)

field_value-clamp_integer_example :
    field_value 8 true (field_pattern 8 true (clamp_integer 8 true (negsuc 2)) % 2 ^ 8)
    ≡ clamp_integer 8 true (negsuc 2)
field_value-clamp_integer_example =
    field_value-clamp_integer 8 true (negsuc 2) (omega arith) (omega arith)

-- Integers in the place of floats: the widths and the rounding are exact there.
abbrev pub sample_floats : Floats
sample_floats = record {
  F32 = ℕ;
  F64 = ℕ;
  widen = λ x. x;
  narrow = λ x. x;
  of_integer = λ v. pos_part v;
  llround = λ x. pos x;
  add64 = λ a b. a + b;
  sub64 = λ a b. pos_part (sub_ℕ a b);
  mul64 = λ a b. a * b;
  div64 = λ a b. if b == 0 then 0 else a;
  add32 = λ a b. a + b;
  mul32 = λ a b. a * b;
  lt32 = λ a b. ltb_ℤ (pos a) (pos b);
  is_zero32 = λ a. a == 0;
}

abbrev sample_scale : FieldScale ℕ
sample_scale = record {
  start_bit = 7;
  length = 12;
  little_endian = false;
  is_signed = false;
  factor = 1;
  offset = 4;
}

abbrev sample_mutation : SignalMutation ℕ
sample_mutation = record {
  can_id = 0x101;
  direction = a_to_b;
  layout = sample_scale;
  operation = multiply;
  op_value1 = 3;
  op_value2 = 0;
  enabled = true;
}

decode-encode_signal_raw_example :
    let r = encode_signal_raw sample_floats some_bytes sample_scale 20 in
    (r.0 ≡ true)
    × (decode_signal_raw sample_floats r.1 sample_scale
        ≡ some (physical_of sample_floats sample_scale (stored sample_floats sample_scale 20)))
    × (read_frame_bit r.1 30 ≡ read_frame_bit some_bytes 30)
decode-encode_signal_raw_example =
    decode-encode_signal_raw sample_floats some_bytes sample_scale 20 30 some_bytes-IsBytes refl
      refl (omega arith) refl

apply_mutation_to_frame-header_example :
    let after = (apply_mutation_to_frame sample_floats (frame_of 0x101 a_to_b) sample_mutation).1 in
    (after.id ≡ 0x101) × (after.dlc ≡ 8) × (after.direction ≡ a_to_b) × (after.timestamp_us ≡ 7)
apply_mutation_to_frame-header_example =
    apply_mutation_to_frame-header sample_floats (frame_of 0x101 a_to_b) sample_mutation

abbrev byte_frame : CanFrame
byte_frame = record (frame_of 0x101 a_to_b) { bytes = some_bytes }

decode-apply_mutation_to_frame_example :
    let r = apply_mutation_to_frame sample_floats byte_frame sample_mutation in
    (r.0 ≡ true)
    × (decode_signal_raw sample_floats r.1.bytes sample_scale
        ≡ some
            (physical_of sample_floats sample_scale (stored sample_floats sample_scale (967 * 3))))
unfolding decode_signal_raw extract_raw physical_of field_value
decode-apply_mutation_to_frame_example =
    decode-apply_mutation_to_frame sample_floats byte_frame sample_mutation 967 some_bytes-IsBytes
      refl refl refl refl
