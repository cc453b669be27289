-- ===== src/Frame/Age.antt =====
-- `microsSampleAge` of core/types.hpp.
use signal_scope_api.Base.{ℕ, ◌+◌, ◌-◌, ◌^◌, ◌<◌, ◌≡◌, arith, leb, if◌then◌else◌}
use signal_scope_api.Frame.{micros_sample_age, u32, u32_max}

-- For a sample at any 32-bit time: read up to 2 ^ 31 - 1 microseconds later, across the wrap of
-- the timer too, its age is the elapsed time; read up to a second before it was published its
-- age is 0; read at any other time its age is UINT32_MAX.
pub micros_sample_age_lem :
    (sample d : ℕ)
    → sample < 2 ^ 32
    → d < 2 ^ 32
    → micros_sample_age (u32 (sample + d)) sample
      ≡ (if leb d 0x7FFFFFFF then d else if leb (2 ^ 32 - 1000000) d then 0 else u32_max)
unfolding micros_sample_age
micros_sample_age_lem sample d p q = ground arith
