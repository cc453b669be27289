-- ===== src/Frame.antt =====
-- core/types.hpp: directions, frames, mutation operations, and the age of a micros() sample.
pub mod Age
use signal_scope_api.Base.{ℕ, ◌+◌, ◌-◌, ◌%◌, ◌^◌, Bool, true, false, if◌then◌else◌, leb, Array}

pub data Direction : Type 0 where
  a_to_b b_to_a : Direction

-- `static_cast<uint32_t>(direction)`
abbrev pub direction_number : Direction → ℕ
direction_number a_to_b = 0
direction_number b_to_a = 1

-- `direction == other`
abbrev pub same_direction : Direction → Direction → Bool
same_direction a_to_b a_to_b = true
same_direction b_to_a b_to_a = true
same_direction _ _ = false

-- `direction == Direction::A_TO_B ? Direction::B_TO_A : Direction::A_TO_B`
abbrev pub opposite : Direction → Direction
opposite a_to_b = b_to_a
opposite b_to_a = a_to_b

-- kMutationDirectionBoth
abbrev pub mutation_direction_both : ℕ
mutation_direction_both = 3

abbrev pub mutation_direction_bit : Direction → ℕ
mutation_direction_bit a_to_b = 1
mutation_direction_bit b_to_a = 2

-- UINT32_MAX
abbrev pub u32_max : ℕ
u32_max = 0xFFFFFFFF

abbrev pub u8 : ℕ → ℕ
u8 n = n % 2 ^ 8

abbrev pub u16 : ℕ → ℕ
u16 n = n % 2 ^ 16

abbrev pub u32 : ℕ → ℕ
u32 n = n % 2 ^ 32

abbrev pub u64 : ℕ → ℕ
u64 n = n % 2 ^ 64

-- uint32_t subtraction
abbrev pub sub_u32 : ℕ → ℕ → ℕ
sub_u32 a b = u32 (a + 2 ^ 32 - b)

unfoldable pub micros_sample_age : ℕ → ℕ → ℕ
micros_sample_age now_us sample_us =
    let elapsed = sub_u32 now_us sample_us in
    if leb elapsed 0x7FFFFFFF
    then elapsed
    else if leb (sub_u32 sample_us now_us) 1000000
    then 0
    else u32_max

pub data MutationOperation : Type 0 where
  pass_through replace add_offset multiply clamp : MutationOperation

-- `uint8_t data[8]`, by index
abbrev pub Bytes : Type 0
Bytes = Array ℕ

pub record CanFrame : Type 0 where
  pub id : ℕ
  pub dlc : ℕ
  pub bytes : Bytes
  pub timestamp_us : ℕ
  pub direction : Direction

-- One value for each direction: the source's pairs of fields `x_a_to_b` and `x_b_to_a`.
pub record Lanes {ℓ} (A : Type ℓ) : Type ℓ where
  pub lane_a_to_b : A
  pub lane_b_to_a : A

module _ {ℓ} {A : Type ℓ} where
  abbrev pub lane : Direction → Lanes A → A
  lane a_to_b l = l.lane_a_to_b
  lane b_to_a l = l.lane_b_to_a

  abbrev pub set_lane : Direction → A → Lanes A → Lanes A
  set_lane a_to_b v l = record l { lane_a_to_b = v }
  set_lane b_to_a v l = record l { lane_b_to_a = v }

  abbrev pub both_lanes : A → Lanes A
  both_lanes v = record { lane_a_to_b = v; lane_b_to_a = v }

-- `++counter` of a uint32_t counter of one direction
abbrev pub bump_lane : Direction → Lanes ℕ → Lanes ℕ
bump_lane d l = set_lane d (u32 (lane d l + 1)) l
