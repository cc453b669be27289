-- ===== src/Gateway/Latency.antt =====
-- `updateRunningAverageLatency` (core/gateway.cpp): int32_t arithmetic written out.
pub mod Average
use signal_scope_api.Base.{ℕ, ◌+◌, ◌-◌, ◌*◌, ◌/◌, ◌%◌, ◌^◌, ltb, leb, if◌then◌else◌}
use signal_scope_api.Base.Int.{ℤ, pos, negsuc, pos_part, neg_part, sub_ℕ}
use signal_scope_api.Frame.{u32, u32_max}

-- `static_cast<int32_t>` of a uint32_t
abbrev pub to_i32 : ℕ → ℤ
to_i32 x = if ltb x (2 ^ 31) then pos x else negsuc (2 ^ 32 - 1 - x)

-- `static_cast<uint32_t>` of an integer of int32_t
abbrev pub of_i32 : ℤ → ℕ
of_i32 (pos n) = u32 n
of_i32 (negsuc n) = u32 (2 ^ 32 - 1 - n)

-- minus a natural number
abbrev pub negate_ℕ : ℕ → ℤ
negate_ℕ n = sub_ℕ 0 n

-- C division of integers: towards zero.
abbrev pub div_ℤ : ℤ → ℤ → ℤ
div_ℤ (pos a) (pos b) = pos (a / b)
div_ℤ (pos a) (negsuc b) = negate_ℕ (a / (b + 1))
div_ℤ (negsuc a) (pos b) = negate_ℕ ((a + 1) / b)
div_ℤ (negsuc a) (negsuc b) = pos ((a + 1) / (b + 1))

abbrev pub add_ℤ : ℤ → ℤ → ℤ
add_ℤ a b = sub_ℕ (pos_part a + pos_part b) (neg_part a + neg_part b)

abbrev pub subtract_ℤ : ℤ → ℤ → ℤ
subtract_ℤ a b = sub_ℕ (pos_part a + neg_part b) (neg_part a + pos_part b)

-- The samples after the call.
abbrev pub count_sample : ℕ → ℕ
count_sample samples = if ltb samples u32_max then samples + 1 else samples

-- The average and the samples after the call, where no int32_t operation overflows.
unfoldable pub update_running_average_latency : ℕ → ℕ → ℕ → ℕ × ℕ
update_running_average_latency latency_us avg_us samples =
    let samples' = count_sample samples in
    if leb samples' 1
    then (latency_us, samples')
    else (let delta = subtract_ℤ (to_i32 latency_us) (to_i32 avg_us) in
        (of_i32 (add_ℤ (to_i32 avg_us) (div_ℤ delta (to_i32 samples'))), samples'))
