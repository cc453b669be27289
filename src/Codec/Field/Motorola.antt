-- ===== src/Codec/Field/Motorola.antt =====
-- The big-endian loops of `insertRaw` and `extractRaw` (core/signal_codec.cpp). They go through the
-- bits of the frame from the highest bit of byte 0 to the lowest bit of byte 7.
use signal_scope_api.Base.{
  ℕ, zero, suc, ◌+◌, ◌-◌, ◌*◌, ◌/◌, ◌%◌, ◌^◌, ◌<◌, ◌≤◌, ◌≡◌, refl, ap, ◌∙◌, Bool, true, false,
  arith, if_keeps, ◌==◌, if◌then◌else◌, Option, none, some, ltb, leb, ◌&&◌,
}
use native.Mathlib.Decide.{dec_lt}
use native.Mathlib.Nat.{pow-succ'}
use signal_scope_api.Base.Bits.{mod_pow_top}
use signal_scope_api.Frame.{Bytes}
use signal_scope_api.Codec.{
  raw_bit, gather, read_frame_bit, write_frame_bit, next_motorola_bit, motorola_fits,
  extract_motorola, insert_motorola,
}
use signal_scope_api.Codec.Bit.{IsBytes, write_frame_bit-IsBytes, read-write_frame_bit}
use signal_scope_api.Codec.Field.{gather_high}

-- The place of a bit in that order.
abbrev pub place : ℕ → ℕ
place b = b / 8 * 8 + (7 - b % 8)

place-next : (b : ℕ) → b < 64 → place (next_motorola_bit b) ≡ place b + 1
unfolding next_motorola_bit
place-next b h = ground arith

pub place-inj : (b c : ℕ) → place b ≡ place c → b ≡ c
place-inj b c h = omega arith

-- The bits at the places `lo` to `lo + left - 1` hold the digits of `raw` below `left`, highest first.
pub record InsertedDown (raw lo left : ℕ) (bytes : Bytes) (r : Bool × Bytes) : Type 0 where
  pub done : r.0 ≡ true
  pub bytes_ok : IsBytes r.1
  pub reads :
      (j : ℕ)
      → j < 64
      → read_frame_bit r.1 j ≡ (
          if leb lo (place j) && ltb (place j) (lo + left)
          then raw_bit raw (left - 1 - (place j - lo))
          else read_frame_bit bytes j)

pub motorola_fits_lem :
    (payload left b : ℕ)
    → b < 64
    → payload % 8 ≡ 0
    → payload ≤ 64
    → motorola_fits payload (suc left) b ≡ leb (place b + suc left) payload
unfolding motorola_fits next_motorola_bit
motorola_fits_lem payload zero b h e p = ground arith
motorola_fits_lem payload (suc left) b h e p = elim (dec_lt (next_motorola_bit b) 64) [
  | yes inside ↦
      ground
        (arith, place-next b h, motorola_fits_lem payload left (next_motorola_bit b) inside e p)
  | no outside ↦ ground (arith, place-next b h)
]

same_place : (b j : ℕ) → (b == j) ≡ (place b == place j)
same_place b j = ground arith

-- What is read at place `pj` after one bit was written at `lo` and `left` bits from `lo + 1` on.
reads_step :
    (digit : ℕ → Bool) (lo lo' pj left : ℕ) (x y z : Bool)
    → lo' ≡ lo + 1
    → x ≡ (if leb lo' pj && ltb pj (lo' + left) then digit (left - 1 - (pj - lo')) else y)
    → y ≡ (if lo == pj then digit left else z)
    → x ≡ (if leb lo pj && ltb pj (lo + suc left) then digit (suc left - 1 - (pj - lo)) else z)
reads_step digit lo lo' pj left x y z next ex ey = elim (dec_lt pj lo) [
  | yes before ↦ ground arith
  | no here ↦ elim (dec_lt lo pj) [
    | yes after ↦
        ground
          (arith, ap digit {x = suc left - 1 - (pj - lo)} {y = left - 1 - (pj - lo')} (omega arith))
    | no same ↦ ground (arith, ap digit {x = suc left - 1 - (pj - lo)} {y = left} (omega arith))
  ]
]

pub insert_motorola-InsertedDown :
    (raw left b : ℕ) (bytes : Bytes)
    → IsBytes bytes
    → place b + left ≤ 64
    → InsertedDown raw (place b) left bytes (insert_motorola raw left b bytes)
unfolding insert_motorola
insert_motorola-InsertedDown raw zero b bytes h fits = record {
  done = refl;
  bytes_ok = h;
  reads = λ j hj. ground arith;
}
insert_motorola-InsertedDown raw (suc left) b bytes h fits =
    let inside : b < 64 = omega arith in
    let going : leb 64 b ≡ false = ground arith in
    let next = place-next b inside in
    let written = write_frame_bit bytes b (raw_bit raw left) in
    let after = insert_motorola raw left (next_motorola_bit b) written in
    let rest =
      insert_motorola-InsertedDown raw left (next_motorola_bit b) written
        (write_frame_bit-IsBytes bytes b (raw_bit raw left) h) (omega arith) in
    record {
      done = ap (λ out. (if out then (false, bytes) else after).0) going ∙ rest.done;
      bytes_ok = if_keeps (λ (r : Bool × Bytes). IsBytes r.1) (leb 64 b) h rest.bytes_ok;
      reads = λ j hj.
          reads_step (raw_bit raw) (place b) (place (next_motorola_bit b)) (place j) left _ _ _ next
            (ap (λ out. read_frame_bit (if out then (false, bytes) else after).1 j) going
              ∙ rest.reads j hj)
            (read-write_frame_bit bytes b j (raw_bit raw left) h inside hj
              ∙ ap (λ same. if same then raw_bit raw left else read_frame_bit bytes j)
                  (same_place b j));
    }

extract_round :
    (bytes : Bytes) (left b acc next : ℕ) (result : Option ℕ)
    → b < 64
    → gather (read_frame_bit bytes b) left acc ≡ next
    → extract_motorola bytes left (next_motorola_bit b) next ≡ result
    → extract_motorola bytes (suc left) b acc ≡ result
unfolding extract_motorola
extract_round bytes left b acc next result inside gathered rest =
    let going : leb 64 b ≡ false = ground arith in
    let rounds = extract_motorola bytes left (next_motorola_bit b) in
    ap (λ out. if out then none else rounds (gather (read_frame_bit bytes b) left acc)) going
    ∙ ap rounds gathered
    ∙ rest

digits_join :
    (m raw n : ℕ)
    → (2 * m + raw / 2 ^ n % 2) * 2 ^ n + raw % 2 ^ n ≡ m * 2 ^ suc n + raw % 2 ^ suc n
digits_join m raw n = omega (arith, ap (λ (t : ℕ). m * t) (pow-succ' 2 n), mod_pow_top n raw)

pub extract_motorola-digits :
    (raw left b m : ℕ) (bytes : Bytes)
    → place b + left ≤ 64
    → ((j : ℕ)
        → place b ≤ place j
        → place j < place b + left
        → read_frame_bit bytes j ≡ raw_bit raw (left - 1 - (place j - place b)))
    → extract_motorola bytes left b (m * 2 ^ left) ≡ some (m * 2 ^ left + raw % 2 ^ left)
unfolding extract_motorola
extract_motorola-digits raw zero b m bytes fits reads = ap some (omega arith)
extract_motorola-digits raw (suc left) b m bytes fits reads =
    let next = place-next b (omega arith) in
    extract_round bytes left b (m * 2 ^ suc left) ((2 * m + raw / 2 ^ left % 2) * 2 ^ left) _
      (omega arith)
      (ap (λ v. gather v left (m * 2 ^ suc left))
          (reads b (omega arith) (omega arith) ∙ ap (raw_bit raw) (omega arith))
        ∙ gather_high raw m left)
      (extract_motorola-digits raw left (next_motorola_bit b) (2 * m + raw / 2 ^ left % 2) bytes
          (omega arith)
          (λ j lo hi. reads j (omega arith) (omega arith) ∙ ap (raw_bit raw) (omega arith))
        ∙ ap some (digits_join m raw left))
