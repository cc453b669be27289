-- ===== src/Codec/Bit.antt =====
-- `readFrameBit` and `writeFrameBit` (core/signal_codec.cpp) as reads and writes of 64 cells.
use signal_scope_api.Base.{
  ℕ, ◌/◌, ◌%◌, ◌<◌, ◌≡◌, refl, Bool, true, false, not, ◌&&◌, arith, ltb, ◌==◌, if◌then◌else◌,
  bit_and, every_below, every_below-at,
}
use signal_scope_api.Frame.{Bytes}
use signal_scope_api.Codec.{bit_mask, put_bit, read_frame_bit, write_frame_bit}

-- The eight bytes of a frame are bytes.
abbrev pub IsBytes : Bytes → Type 0
IsBytes bytes = (i : ℕ) → i < 8 → bytes i < 256

abbrev same_bool : Bool → Bool → Bool
same_bool true b = b
same_bool false b = not b

same_bool→eq : (a b : Bool) → same_bool a b ≡ true → a ≡ b
same_bool→eq a b h = ground arith

-- What a bit of a byte is after another was put, for each value of it.
abbrev put_reads : Bool → ℕ → ℕ → ℕ → Bool
put_reads v x b c =
    same_bool (not (bit_and (put_bit x (bit_mask b) v) (bit_mask c) == 0))
      (if b == c then v else not (bit_and x (bit_mask c) == 0))
    && ltb (put_bit x (bit_mask b) v) 256

put_table :
    (v : Bool) → every_below (λ x. every_below (λ b. every_below (put_reads v x b) 8) 8) 256 ≡ true
unfolding every_below
put_table true = refl
put_table false = refl

put_reads_lem : (v : Bool) (x b c : ℕ) → x < 256 → b < 8 → c < 8 → put_reads v x b c ≡ true
put_reads_lem v x b c hx hb hc = every_below-at (put_reads v x b) 8 c hc (
    every_below-at (λ k. every_below (put_reads v x k) 8) 8 b hb
      (every_below-at _ 256 x hx (put_table v)))

put_bit-read :
    (v : Bool) (x b c : ℕ)
    → x < 256
    → b < 8
    → c < 8
    → not (bit_and (put_bit x (bit_mask b) v) (bit_mask c) == 0)
      ≡ (if b == c then v else not (bit_and x (bit_mask c) == 0))
put_bit-read v x b c hx hb hc = same_bool→eq _ _ (ground (arith, put_reads_lem v x b c hx hb hc))

put_bit-lt : (v : Bool) (x b : ℕ) → x < 256 → b < 8 → put_bit x (bit_mask b) v < 256
put_bit-lt v x b hx hb = ground (arith, put_reads_lem v x b 0 hx hb (omega arith))

pub write_frame_bit-IsBytes :
    (bytes : Bytes) (i : ℕ) (v : Bool) → IsBytes bytes → IsBytes (write_frame_bit bytes i v)
unfolding write_frame_bit
write_frame_bit-IsBytes bytes i v h j hj =
    ground (arith, h j hj, h (i / 8), put_bit-lt v (bytes (i / 8)) (i % 8))

-- Within the frame, a bit reads back as it was last written, and every other bit is unchanged.
pub read-write_frame_bit :
    (bytes : Bytes) (i j : ℕ) (v : Bool)
    → IsBytes bytes
    → i < 64
    → j < 64
    → read_frame_bit (write_frame_bit bytes i v) j ≡ (if i == j then v else read_frame_bit bytes j)
unfolding read_frame_bit write_frame_bit
read-write_frame_bit bytes i j v h hi hj = ground (
  arith,
  put_bit-read v (bytes (i / 8)) (i % 8) (j % 8) (h (i / 8) (omega arith)) (omega arith)
      (omega arith),
)
