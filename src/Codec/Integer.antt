-- ===== src/Codec/Integer.antt =====
-- The integer part of `decodeSignalRaw` and `encodeSignalRaw` (core/signal_codec.cpp): the sign
-- extension of a field, and the range and the pattern of the integer that is stored.
pub mod Patterns
pub mod Range
use signal_scope_api.Base.{
  ℕ, zero, suc, ◌+◌, ◌-◌, ◌*◌, ◌/◌, ◌%◌, ◌^◌, ◌<◌, ◌≤◌, ◌≡◌, refl, sym, ap, ◌∙◌, Bool, true, false,
  not, ◌&&◌, arith, ◌==◌, if◌then◌else◌, inl, inr, ltb, bit_and, bit_or,
}
use signal_scope_api.Base.Int.{ℤ, pos, negsuc, pos_part, neg_part, ltb_ℤ, ◌≤ℤ◌}
use signal_scope_api.Base.Bits.{bit_and_ones, bit_or_above, mod_pow_top}
use signal_scope_api.Frame.{u64}
use signal_scope_api.Codec.{raw_bit}
use signal_scope_api.Codec.Field.{raw_bit_digit}
use native.Mathlib.Decide.{dec_lt}
use mathlib.Core.Path.{subst}
use native.Mathlib.Nat.{
  div-eq_of_lt, mod-lt, mod-eq_of_lt, pow-le-pow_right, pow-succ', one-le-pow,
  add-mul-mod_self_right,
}

-- `static_cast<int64_t>` of a uint64_t, and back
abbrev pub to_i64 : ℕ → ℤ
to_i64 x = if ltb x (2 ^ 63) then pos x else negsuc (2 ^ 64 - 1 - x)

abbrev pub of_i64 : ℤ → ℕ
of_i64 (pos n) = u64 n
of_i64 (negsuc n) = u64 (2 ^ 64 - 1 - n)

-- `signed_value` of decodeSignalRaw, for a raw value
unfoldable pub field_value : ℕ → Bool → ℕ → ℤ
field_value length is_signed raw =
    if is_signed && ltb length 64
    then if raw_bit raw (length - 1)
      then to_i64 (bit_or raw (2 ^ 64 - 1 - (2 ^ length - 1)))
      else to_i64 raw
    else to_i64 raw

-- `max_value` and `min_value` of encodeSignalRaw
abbrev pub max_value : ℕ → Bool → ℤ
max_value length is_signed =
    if length == 64
    then pos (2 ^ 63 - 1)
    else if is_signed
    then pos (2 ^ (length - 1) - 1)
    else pos (2 ^ length - 1)

abbrev pub min_value : ℕ → Bool → ℤ
min_value length is_signed =
    if is_signed
    then if length == 64 then negsuc (2 ^ 63 - 1) else negsuc (2 ^ (length - 1) - 1)
    else pos 0

unfoldable pub clamp_integer : ℕ → Bool → ℤ → ℤ
clamp_integer length is_signed v =
    let raised = if ltb_ℤ v (min_value length is_signed) then min_value length is_signed else v in
    if ltb_ℤ (max_value length is_signed) raised then max_value length is_signed else raised

-- `raw` of encodeSignalRaw
unfoldable pub field_pattern : ℕ → Bool → ℤ → ℕ
field_pattern length is_signed v =
    if is_signed && ltb length 64 then bit_and (of_i64 v) (2 ^ length - 1) else of_i64 v
