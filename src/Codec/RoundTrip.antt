-- ===== src/Codec/RoundTrip.antt =====
-- `signalFitsPayload`, `extractRaw` and `insertRaw` (core/signal_codec.cpp) on a whole field, in
-- either byte order.
use signal_scope_api.Base.{
  ℕ, zero, suc, ◌+◌, ◌-◌, ◌*◌, ◌%◌, ◌^◌, ◌<◌, ◌≤◌, ◌≡◌, ap, ◌∙◌, Bool, true, false, not, arith,
  ◌==◌, if◌then◌else◌, if_true, Option, none, some, ltb, leb, ◌&&◌, ◌||◌,
}
use native.Mathlib.Decide.{dec_lt}
use signal_scope_api.Frame.{Bytes}
use signal_scope_api.Codec.{
  raw_bit, read_frame_bit, signal_fits_payload, extract_raw, insert_raw, extract_motorola,
  insert_motorola, extract_intel, insert_intel,
}
use signal_scope_api.Codec.Bit.{IsBytes}
use signal_scope_api.Codec.Field.Intel.{insert_intel-Inserted, extract_intel-digits}
use signal_scope_api.Codec.Field.Motorola.{
  place, insert_motorola-InsertedDown, extract_motorola-digits, motorola_fits_lem,
}

-- The bits of a field stand at consecutive places: in the order of the indices for a little-endian
-- field, from the highest bit of each byte to its lowest for a big-endian one.
abbrev pub place_of : Bool → ℕ → ℕ
place_of little b = if little then b else place b

-- The field from bit `start` on has `length` bits inside the first `bits` ones of the payload.
abbrev pub fits_in : ℕ → ℕ → ℕ → Bool → Bool
fits_in bits start length little =
    not (length == 0) && leb length 64 && ltb start 64 && leb (place_of little start + length) bits

-- signalFitsPayload accepts exactly the fields of 1 to 64 bits whose places all lie in a payload of
-- at most 8 bytes, in either byte order.
pub signal_fits_payload_lem :
    (dlc start length : ℕ) (little : Bool)
    → signal_fits_payload dlc start length little
      ≡ (leb dlc 8 && fits_in (dlc * 8) start length little)
unfolding signal_fits_payload
signal_fits_payload_lem dlc start zero true = ground arith
signal_fits_payload_lem dlc start zero false = ground arith
signal_fits_payload_lem dlc start (suc length) true = ground arith
signal_fits_payload_lem dlc start (suc length) false = elim (dec_lt 8 dlc) [
  | yes big ↦ ground arith
  | no small ↦ elim (dec_lt start 64) [
    | yes p ↦ ground (arith, motorola_fits_lem (dlc * 8) length start p (omega arith) (omega arith))
    | no far ↦ ground arith
  ]
]

-- Whether a bit lies in the field, and which digit of the value it then holds.
abbrev pub inside : ℕ → ℕ → Bool → ℕ → Bool
inside start length little j =
    leb (place_of little start) (place_of little j)
    && ltb (place_of little j) (place_of little start + length)

abbrev pub digit_of : ℕ → ℕ → Bool → ℕ → ℕ
digit_of start length little j = if little then j - start else length - 1 - (place j - place start)

abbrev insert_field : ℕ → Bytes → ℕ → ℕ → Bool → Bool × Bytes
insert_field raw bytes start length little =
    if little then insert_intel raw start length 0 bytes else insert_motorola raw length start bytes

abbrev extract_field : ℕ → ℕ → Bool → Bytes → Option ℕ
extract_field start length little bytes =
    if little then extract_intel bytes start length 0 0 else extract_motorola bytes length start 0

record Trip (raw start length : ℕ) (little : Bool) (bytes : Bytes) (r : Bool × Bytes) : Type 0 where
  pub done : r.0 ≡ true
  pub extracted : extract_field start length little r.1 ≡ some (raw % 2 ^ length)
  pub reads :
      (j : ℕ)
      → j < 64
      → read_frame_bit r.1 j ≡ (
          if inside start length little j
          then raw_bit raw (digit_of start length little j)
          else read_frame_bit bytes j)

field-Trip :
    (bytes : Bytes) (start length raw : ℕ) (little : Bool)
    → IsBytes bytes
    → place_of little start + length ≤ 64
    → Trip raw start length little bytes (insert_field raw bytes start length little)
field-Trip bytes start length raw true h fits =
    let shift : start + 0 ≡ start = omega arith in
    let m = insert_intel-Inserted raw start length 0 bytes h (omega arith) in
    let reads : (j : ℕ)
        → j < 64
        → read_frame_bit (insert_intel raw start length 0 bytes).1 j ≡ (
            if inside start length true j
            then raw_bit raw (j - start)
            else read_frame_bit bytes j) =
      λ j hj.
        m.reads j hj
        ∙ ap
            (λ t.
              if leb t j && ltb j (t + length)
              then raw_bit raw (0 + (j - t))
              else read_frame_bit bytes j)
            shift
        ∙ ap (λ t. if inside start length true j then raw_bit raw t else read_frame_bit bytes j)
            {x = 0 + (j - start)} {y = j - start} (omega arith) in
    record {
      done = m.done;
      extracted =
          ap (extract_intel (insert_intel raw start length 0 bytes).1 start length 0) {x = 0}
            {y = raw % 2 ^ 0} (omega arith)
          ∙ extract_intel-digits raw start length 0 (insert_intel raw start length 0 bytes).1
              (omega arith)
              (λ j lo hi.
                reads j (omega arith) ∙ if_true (inside start length true j) _ _ (ground arith))
          ∙ ap (λ t. some (raw % 2 ^ t)) (omega arith);
      reads = reads;
    }
field-Trip bytes start length raw false h fits =
    let m = insert_motorola-InsertedDown raw length start bytes h fits in
    record {
      done = m.done;
      extracted =
          ap (extract_motorola (insert_motorola raw length start bytes).1 length start) {x = 0}
            {y = 0 * 2 ^ length} (omega arith)
          ∙ extract_motorola-digits raw length start 0 (insert_motorola raw length start bytes).1
              fits
              (λ j lo hi.
                m.reads j (omega arith) ∙ if_true (inside start length false j) _ _ (ground arith))
          ∙ ap some (omega arith);
      reads = m.reads;
    }

pub fits_in-length :
    (start length : ℕ) (little : Bool)
    → fits_in 64 start length little ≡ true
    → (0 < length) × (length ≤ 64)
fits_in-length start length little fits = (ground arith, ground arith)

fits_in-place :
    (start length : ℕ) (little : Bool)
    → fits_in 64 start length little ≡ true
    → place_of little start + length ≤ 64
fits_in-place start length true fits = ground arith
fits_in-place start length false fits = ground arith

guard_passed {ℓ} :
    {A : Type ℓ} (length : ℕ) (x y : A)
    → 0 < length
    → length ≤ 64
    → (if (length == 0) || ltb 64 length then x else y) ≡ y
guard_passed length x y lo hi = ground arith

-- Inserting any 64-bit value into a field that fits in the 8 bytes succeeds; extracting the field
-- then gives the value's low bits, as many as the field has; a bit of the frame inside the field
-- is the value's digit for its place, and a bit outside is as it was; in either byte order.
pub extract-insert_raw :
    (bytes : Bytes) (start length raw j : ℕ) (little : Bool)
    → IsBytes bytes
    → fits_in 64 start length little ≡ true
    → j < 64
    → let r = insert_raw bytes start length little raw in
      (r.0 ≡ true)
      × (extract_raw r.1 start length little ≡ some (raw % 2 ^ length))
      × (read_frame_bit r.1 j ≡ (
          if inside start length little j
          then raw_bit raw (digit_of start length little j)
          else read_frame_bit bytes j))
unfolding insert_raw extract_raw
extract-insert_raw bytes start length raw j little h fits hj =
    let (lo, hi) = fits_in-length start length little fits in
    let loops : Bytes → Option ℕ = extract_field start length little in
    let r = insert_field raw bytes start length little in
    let all = field-Trip bytes start length raw little h (fits_in-place start length little fits) in
    let same = guard_passed length (false, bytes) r lo hi in
    (
      ap (λ t. t.0) same ∙ all.done,
      ap (λ t. extract_raw t.1 start length little) same
          ∙ guard_passed length none (loops r.1) lo hi
          ∙ all.extracted,
      ap (λ t. read_frame_bit t.1 j) same ∙ all.reads j hj,
    )
