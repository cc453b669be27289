-- ===== src/Codec/Field/Intel.antt =====
-- The little-endian loops of `insertRaw` and `extractRaw` (core/signal_codec.cpp).
use signal_scope_api.Base.{
  ℕ, zero, suc, ◌+◌, ◌-◌, ◌%◌, ◌^◌, ◌<◌, ◌≤◌, ◌≡◌, refl, ap, ◌∙◌, Bool, true, false, arith,
  if_keeps, if◌then◌else◌, Option, none, some, ltb, leb, ◌&&◌,
}
use signal_scope_api.Frame.{Bytes, u16}
use signal_scope_api.Codec.{
  raw_bit, gather, read_frame_bit, write_frame_bit, extract_intel, insert_intel,
}
use signal_scope_api.Codec.Bit.{IsBytes, write_frame_bit-IsBytes, read-write_frame_bit}
use signal_scope_api.Codec.Field.{gather_low}

-- The bits `lo` to `hi - 1` of the frame now hold the digits of `raw` from `i` up.
pub record Inserted (raw i lo hi : ℕ) (bytes : Bytes) (r : Bool × Bytes) : Type 0 where
  pub done : r.0 ≡ true
  pub bytes_ok : IsBytes r.1
  pub reads :
      (j : ℕ)
      → j < 64
      → read_frame_bit r.1 j
        ≡ (if leb lo j && ltb j hi then raw_bit raw (i + (j - lo)) else read_frame_bit bytes j)

pub insert_intel-Inserted :
    (raw start left i : ℕ) (bytes : Bytes)
    → IsBytes bytes
    → start + i + left ≤ 64
    → Inserted raw i (start + i) (start + i + left) bytes (insert_intel raw start left i bytes)
unfolding insert_intel
insert_intel-Inserted raw start zero i bytes h fits = record {
  done = refl;
  bytes_ok = h;
  reads = λ j hj. ground arith;
}
insert_intel-Inserted raw start (suc left) i bytes h fits =
    let bit = u16 (start + i) in
    let written = write_frame_bit bytes bit (raw_bit raw i) in
    let rest =
      insert_intel-Inserted raw start left (i + 1) written
        (write_frame_bit-IsBytes bytes bit (raw_bit raw i) h) (omega arith) in
    record {
      done = ground (arith, rest.done);
      bytes_ok = if_keeps (λ (r : Bool × Bytes). IsBytes r.1) (leb 64 bit) h rest.bytes_ok;
      reads = λ j hj. ground (
        arith,
        rest.reads j hj,
        read-write_frame_bit bytes bit j (raw_bit raw i) h (omega arith) hj,
      );
    }

extract_round :
    (bytes : Bytes) (start left i acc next : ℕ) (result : Option ℕ)
    → start + i < 64
    → gather (read_frame_bit bytes (start + i)) i acc ≡ next
    → extract_intel bytes start left (i + 1) next ≡ result
    → extract_intel bytes start (suc left) i acc ≡ result
unfolding extract_intel
extract_round bytes start left i acc next result inside gathered rest =
    let here : u16 (start + i) ≡ start + i = omega arith in
    let going : leb 64 (start + i) ≡ false = ground arith in
    ap
      (λ t.
        if leb 64 t
        then none
        else extract_intel bytes start left (i + 1) (gather (read_frame_bit bytes t) i acc))
      here
    ∙ ap
        (λ out.
          if out
          then none
          else extract_intel bytes start left (i + 1)
              (gather (read_frame_bit bytes (start + i)) i acc))
        going
    ∙ ap (extract_intel bytes start left (i + 1)) gathered
    ∙ rest

pub extract_intel-digits :
    (raw start left i : ℕ) (bytes : Bytes)
    → start + i + left ≤ 64
    → ((j : ℕ)
        → start + i ≤ j
        → j < start + i + left
        → read_frame_bit bytes j ≡ raw_bit raw (j - start))
    → extract_intel bytes start left i (raw % 2 ^ i) ≡ some (raw % 2 ^ (i + left))
unfolding extract_intel
extract_intel-digits raw start zero i bytes fits reads = ap (λ t. some (raw % 2 ^ t)) (omega arith)
extract_intel-digits raw start (suc left) i bytes fits reads =
    let here = reads (start + i) (omega arith) (omega arith) in
    let rest =
      extract_intel-digits raw start left (i + 1) bytes (omega arith)
        (λ j lo hi. reads j (omega arith) (omega arith)) in
    extract_round bytes start left i (raw % 2 ^ i) (raw % 2 ^ (i + 1)) _ (omega arith)
      (ap (λ b. gather b i (raw % 2 ^ i)) (here ∙ ap (raw_bit raw) (omega arith))
        ∙ gather_low raw i
        ∙ ap (λ t. raw % 2 ^ t) {x = suc i} {y = i + 1} (omega arith))
      (rest ∙ ap (λ t. some (raw % 2 ^ t)) (omega arith))
