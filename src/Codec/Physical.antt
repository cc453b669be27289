-- ===== src/Codec/Physical.antt =====
-- `decodeSignalRaw`, `encodeSignalRaw`, `decodeSignal`, `encodeSignal` and `applyMutationToFrame`
-- (core/signal_codec.cpp), over an interface of the C floating-point operations.
pub mod Trip
use signal_scope_api.Base.{
  ℕ, Bool, true, false, not, ◌||◌, Option, none, some, ltb, ◌==◌, if◌then◌else◌,
}
use mathlib.Core.Option
use signal_scope_api.Base.Int.{ℤ}
use signal_scope_api.Frame.{
  Bytes, CanFrame, Direction, MutationOperation, pass_through, replace, add_offset, multiply, clamp,
}
use signal_scope_api.Codec.{extract_raw, insert_raw, signal_fits_payload}
use signal_scope_api.Codec.Integer.{field_value, clamp_integer, field_pattern}

-- The operations of `float` and `double` that the codec uses; a float compares by `lt`.
pub record Floats : Type 1 where
  pub F32 : Type 0
  pub F64 : Type 0
  pub widen : F32 → F64
  pub narrow : F64 → F32
  pub of_integer : ℤ → F64
  pub llround : F64 → ℤ
  pub add64 : F64 → F64 → F64
  pub sub64 : F64 → F64 → F64
  pub mul64 : F64 → F64 → F64
  pub div64 : F64 → F64 → F64
  pub add32 : F32 → F32 → F32
  pub mul32 : F32 → F32 → F32
  pub lt32 : F32 → F32 → Bool
  pub is_zero32 : F32 → Bool

-- The layout and the scale of a field: the fields that DbcSignalDef and SignalMutation share.
pub record FieldScale (F : Type 0) : Type 0 where
  pub start_bit : ℕ
  pub length : ℕ
  pub little_endian : Bool
  pub is_signed : Bool
  pub factor : F
  pub offset : F

-- SignalMutation, its layout and scale in one field
pub record SignalMutation (F : Type 0) : Type 0 where
  pub can_id : ℕ
  pub direction : Direction
  pub layout : FieldScale F
  pub operation : MutationOperation
  pub op_value1 : F
  pub op_value2 : F
  pub enabled : Bool

module _ (floats : Floats) where
  open floats use {
    F32, widen, narrow, of_integer, llround, add64, sub64, mul64, div64, add32, mul32, lt32,
    is_zero32,
  }

  unfoldable pub physical_of : FieldScale F32 → ℤ → F32
  physical_of s v = narrow (add64 (mul64 (of_integer v) (widen s.factor)) (widen s.offset))

  unfoldable pub integer_of : FieldScale F32 → F32 → ℤ
  integer_of s x = llround (div64 (sub64 (widen x) (widen s.offset)) (widen s.factor))

  -- `none` is a return of false.
  unfoldable pub decode_signal_raw : Bytes → FieldScale F32 → Option F32
  unfolding physical_of
  decode_signal_raw bytes s =
      Option.map (λ raw. physical_of s (field_value s.length s.is_signed raw))
        (extract_raw bytes s.start_bit s.length s.little_endian)

  unfoldable pub encode_signal_raw : Bytes → FieldScale F32 → F32 → Bool × Bytes
  unfolding integer_of
  encode_signal_raw bytes s physical_value =
      if (s.length == 0) || ltb 64 s.length || is_zero32 s.factor
      then (false, bytes)
      else insert_raw bytes s.start_bit s.length s.little_endian (
          field_pattern s.length s.is_signed
            (clamp_integer s.length s.is_signed (integer_of s physical_value)))

  unfoldable pub decode_signal : CanFrame → FieldScale F32 → Option F32
  decode_signal frame s =
      if not (signal_fits_payload frame.dlc s.start_bit s.length s.little_endian)
      then none
      else decode_signal_raw frame.bytes s

  unfoldable pub encode_signal : CanFrame → FieldScale F32 → F32 → Bool × CanFrame
  encode_signal frame s physical_value =
      let (done, bytes) = encode_signal_raw frame.bytes s physical_value in
      (done, record frame { bytes = bytes })

  -- `next_value` of applyMutationToFrame; `none` for PASS_THROUGH, which returns before.
  unfoldable pub next_value : SignalMutation F32 → F32 → Option F32
  next_value m current = elim (m.operation) [
    | pass_through ↦ none
    | replace ↦ some (m.op_value1)
    | add_offset ↦ some (add32 current m.op_value1)
    | multiply ↦ some (mul32 current m.op_value1)
    | clamp ↦
        let raised = if lt32 current m.op_value1 then m.op_value1 else current in
        some (if lt32 m.op_value2 raised then m.op_value2 else raised)
  ]

  abbrev pub write_next : CanFrame → SignalMutation F32 → Option F32 → Bool × CanFrame
  write_next frame m none = (true, frame)
  write_next frame m (some x) = encode_signal frame m.layout x

  abbrev pub mutate_decoded : CanFrame → SignalMutation F32 → Option F32 → Bool × CanFrame
  mutate_decoded frame m none = (false, frame)
  mutate_decoded frame m (some current) = write_next frame m (next_value m current)

  unfoldable pub apply_mutation_to_frame : CanFrame → SignalMutation F32 → Bool × CanFrame
  apply_mutation_to_frame frame m =
      if not m.enabled
      then (false, frame)
      else mutate_decoded frame m (decode_signal_raw frame.bytes m.layout)
