-- ===== src/Codec.antt =====
-- core/signal_codec.cpp: the bits of a frame, the raw value of a field, and its physical value.
-- The last is in `Codec.Physical`, over an interface of the floating-point operations.
pub mod Bit
pub mod Field
pub mod RoundTrip
pub mod Integer
pub mod Physical
use signal_scope_api.Base.{
  ℕ, zero, suc, ◌+◌, ◌-◌, ◌*◌, ◌/◌, ◌%◌, ◌^◌, Bool, true, false, not, ◌&&◌, ◌||◌, ltb, leb, ◌==◌,
  if◌then◌else◌, Option, none, some, store, bit_and, bit_or,
}
use signal_scope_api.Frame.{Bytes, u8, u16}

-- kMaxFrameBits
abbrev pub max_frame_bits : ℕ
max_frame_bits = 64

-- `static_cast<uint8_t>(1U << bit)`
abbrev pub bit_mask : ℕ → ℕ
bit_mask bit = u8 (2 ^ bit)

unfoldable pub read_frame_bit : Bytes → ℕ → Bool
read_frame_bit bytes bit_index =
    if leb max_frame_bits bit_index
    then false
    else not (bit_and (bytes (bit_index / 8)) (bit_mask (bit_index % 8)) == 0)

-- `data[byte] |= mask`, or `data[byte] &= static_cast<uint8_t>(~mask)`
abbrev pub put_bit : ℕ → ℕ → Bool → ℕ
put_bit byte mask value = if value then bit_or byte mask else bit_and byte (255 - mask)

unfoldable pub write_frame_bit : Bytes → ℕ → Bool → Bytes
write_frame_bit bytes bit_index value =
    if leb max_frame_bits bit_index
    then bytes
    else store bytes (bit_index / 8)
        (put_bit (bytes (bit_index / 8)) (bit_mask (bit_index % 8)) value)

unfoldable pub next_motorola_bit : ℕ → ℕ
next_motorola_bit current = if current % 8 == 0 then u16 (current + 15) else u16 (current - 1)

-- The Motorola loop of signalFitsPayload, with `left` rounds to go.
unfoldable pub motorola_fits : ℕ → ℕ → ℕ → Bool
unfolding next_motorola_bit
motorola_fits payload_bits zero bit_index = true
motorola_fits payload_bits (suc left) bit_index =
    if leb payload_bits bit_index
    then false
    else motorola_fits payload_bits left (next_motorola_bit bit_index)

unfoldable pub signal_fits_payload : ℕ → ℕ → ℕ → Bool → Bool
unfolding motorola_fits
signal_fits_payload dlc start_bit length little_endian =
    if ltb 8 dlc || (length == 0) || ltb 64 length
    then false
    else if little_endian
    then ltb start_bit (dlc * 8) && leb (start_bit + length) (dlc * 8)
    else motorola_fits (dlc * 8) length start_bit

-- `raw |= (1ULL << shift)` if the bit is set
abbrev pub gather : Bool → ℕ → ℕ → ℕ
gather set shift raw = if set then bit_or raw (2 ^ shift) else raw

-- The loops of extractRaw: `left` rounds to go, from index `i` or from `bit_index`.
unfoldable pub extract_intel : Bytes → ℕ → ℕ → ℕ → ℕ → Option ℕ
unfolding read_frame_bit
extract_intel bytes start_bit zero i raw = some raw
extract_intel bytes start_bit (suc left) i raw =
    let bit_index = u16 (start_bit + i) in
    let rest =
      extract_intel bytes start_bit left (i + 1) (gather (read_frame_bit bytes bit_index) i raw) in
    if leb max_frame_bits bit_index then none else rest

unfoldable pub extract_motorola : Bytes → ℕ → ℕ → ℕ → Option ℕ
unfolding read_frame_bit next_motorola_bit
extract_motorola bytes zero bit_index raw = some raw
extract_motorola bytes (suc left) bit_index raw =
    let rest =
      extract_motorola bytes left (next_motorola_bit bit_index)
        (gather (read_frame_bit bytes bit_index) left raw) in
    if leb max_frame_bits bit_index then none else rest

-- `none` is a return of false.
unfoldable pub extract_raw : Bytes → ℕ → ℕ → Bool → Option ℕ
unfolding extract_intel extract_motorola
extract_raw bytes start_bit length little_endian =
    if (length == 0) || ltb 64 length
    then none
    else if little_endian
    then extract_intel bytes start_bit length 0 0
    else extract_motorola bytes length start_bit 0

-- `(raw & (1ULL << shift)) != 0`
unfoldable pub raw_bit : ℕ → ℕ → Bool
raw_bit raw shift = not (bit_and raw (2 ^ shift) == 0)

-- The loops of insertRaw. A loop that leaves early has written the bits before.
unfoldable pub insert_intel : ℕ → ℕ → ℕ → ℕ → Bytes → Bool × Bytes
unfolding write_frame_bit raw_bit
insert_intel raw start_bit zero i bytes = (true, bytes)
insert_intel raw start_bit (suc left) i bytes =
    let bit_index = u16 (start_bit + i) in
    let rest =
      insert_intel raw start_bit left (i + 1) (write_frame_bit bytes bit_index (raw_bit raw i)) in
    if leb max_frame_bits bit_index then (false, bytes) else rest

unfoldable pub insert_motorola : ℕ → ℕ → ℕ → Bytes → Bool × Bytes
unfolding write_frame_bit raw_bit next_motorola_bit
insert_motorola raw zero bit_index bytes = (true, bytes)
insert_motorola raw (suc left) bit_index bytes =
    let rest =
      insert_motorola raw left (next_motorola_bit bit_index)
        (write_frame_bit bytes bit_index (raw_bit raw left)) in
    if leb max_frame_bits bit_index then (false, bytes) else rest

unfoldable pub insert_raw : Bytes → ℕ → ℕ → Bool → ℕ → Bool × Bytes
unfolding insert_intel insert_motorola
insert_raw bytes start_bit length little_endian raw =
    if (length == 0) || ltb 64 length
    then (false, bytes)
    else if little_endian
    then insert_intel raw start_bit length 0 bytes
    else insert_motorola raw length start_bit bytes
