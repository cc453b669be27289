-- ===== src/Gateway/Latency/Average.antt =====
-- `updateRunningAverageLatency` (core/gateway.cpp): where the average goes.
use signal_scope_api.Base.{
  ℕ, zero, suc, ◌+◌, ◌-◌, ◌/◌, ◌^◌, ◌<◌, ◌≤◌, ◌≡◌, refl, sym, ap, ◌∙◌, arith, leb, ◌==◌,
  if◌then◌else◌, if_true, if_false,
}
use mathlib.Core.Path.{ap₂}
use native.Mathlib.Decide.{dec_lt}
use native.Mathlib.Nat.{div-le_self}
use signal_scope_api.Base.Int.{ℤ, pos, negsuc}
use signal_scope_api.Frame.{u32_max, u32}
use signal_scope_api.Gateway.Latency.{
  to_i32, of_i32, count_sample, div_ℤ, negate_ℕ, add_ℤ, subtract_ℤ, update_running_average_latency,
}

to_i32-pos : (x : ℕ) → x < 2 ^ 31 → to_i32 x ≡ pos x
to_i32-pos x h = ground arith

difference-up : (a b : ℕ) → b ≤ a → subtract_ℤ (pos a) (pos b) ≡ pos (a - b)
difference-up a b h = ground arith

difference-down : (a b : ℕ) → a < b → subtract_ℤ (pos a) (pos b) ≡ negsuc (b - a - 1)
difference-down a b h = ground arith

moved-up : (avg q : ℕ) → avg + q < 2 ^ 31 → of_i32 (add_ℤ (pos avg) (pos q)) ≡ avg + q
moved-up avg q h = ground arith

moved-down : (avg q : ℕ) → q ≤ avg → avg < 2 ^ 31 → of_i32 (add_ℤ (pos avg) (negate_ℕ q)) ≡ avg - q
moved-down avg q h h' = ground arith

-- One step of the average, for a count of `n + 1` samples.
abbrev moved : ℕ → ℕ → ℤ → ℕ
moved latency avg n =
    of_i32 (add_ℤ (to_i32 avg) (div_ℤ (subtract_ℤ (to_i32 latency) (to_i32 avg)) n))

moved_pos :
    (latency avg : ℕ) (n : ℤ)
    → latency < 2 ^ 31
    → avg < 2 ^ 31
    → moved latency avg n ≡ of_i32 (add_ℤ (pos avg) (div_ℤ (subtract_ℤ (pos latency) (pos avg)) n))
moved_pos latency avg n hl ha =
    ap₂ (λ a b. of_i32 (add_ℤ b (div_ℤ (subtract_ℤ a b) n))) (to_i32-pos latency hl)
      (to_i32-pos avg ha)

moved_lem :
    (latency avg n : ℕ)
    → latency < 2 ^ 31
    → avg < 2 ^ 31
    → moved latency avg (pos n)
      ≡ (if leb avg latency then avg + (latency - avg) / n else avg - (avg - latency) / n)
moved_lem latency avg n hl ha = elim (dec_lt latency avg) [
  | yes below ↦
      moved_pos latency avg (pos n) hl ha
      ∙ ap (λ d. of_i32 (add_ℤ (pos avg) (div_ℤ d (pos n)))) (difference-down latency avg below)
      ∙ ap (λ (t : ℕ). of_i32 (add_ℤ (pos avg) (negate_ℕ (t / n)))) {x = avg - latency - 1 + 1}
          {y = avg - latency} (omega arith)
      ∙ moved-down avg ((avg - latency) / n) (omega (arith, div-le_self (avg - latency) n)) ha
      ∙ sym (if_false (leb avg latency) _ _ (ground arith))
  | no above ↦
      moved_pos latency avg (pos n) hl ha
      ∙ ap (λ d. of_i32 (add_ℤ (pos avg) (div_ℤ d (pos n))))
          (difference-up latency avg (omega arith))
      ∙ moved-up avg ((latency - avg) / n) (omega (arith, div-le_self (latency - avg) n))
      ∙ sym (if_true (leb avg latency) _ _ (ground arith))
]

-- The first sample is the average; from then on the average moves by the n-th part of its distance
-- to the new sample, rounded down, towards it. Latency, average and count are below 2 ^ 31.
pub update_running_average_latency_lem :
    (latency avg samples : ℕ)
    → latency < 2 ^ 31
    → avg < 2 ^ 31
    → samples + 1 < 2 ^ 31
    → update_running_average_latency latency avg samples ≡ (
      (if samples == 0
          then latency
          else if leb avg latency
          then avg + (latency - avg) / (samples + 1)
          else avg - (avg - latency) / (samples + 1)),
      samples + 1,
    )
unfolding update_running_average_latency
update_running_average_latency_lem latency avg zero hl ha hs = refl
update_running_average_latency_lem latency avg (suc k) hl ha hs =
    let counted : count_sample (suc k) ≡ suc k + 1 = ground arith in
    ap (λ n. if leb n 1 then (latency, n) else (moved latency avg (to_i32 n), n)) counted
    ∙ if_false (leb (suc k + 1) 1) _ _ (ground arith)
    ∙ ap (λ t. (moved latency avg t, suc k + 1)) (to_i32-pos (suc k + 1) hs)
    ∙ ap (λ t. (t, suc k + 1)) (moved_lem latency avg (suc k + 1) hl ha)
    ∙ ap (λ t. (t, suc k + 1)) (sym (if_false (suc k == 0) _ _ (ground arith)))

moved-below :
    (avg q : ℕ)
    → q < 2 ^ 31
    → avg < 2 ^ 31
    → of_i32 (add_ℤ (pos avg) (negate_ℕ q)) ≡ u32 (2 ^ 32 + avg - q)
moved-below avg q h h' = ground arith

-- The count stays at 0xFFFFFFFF, which the cast to int32_t reads as -1: the average then moves away
-- from a sample that is not below it, by the whole distance, and below 0 it wraps to the top of a
-- uint32_t. Sample and average are below 2 ^ 31.
pub update_running_average_latency-saturated :
    (latency avg : ℕ)
    → latency < 2 ^ 31
    → avg ≤ latency
    → update_running_average_latency latency avg u32_max
      ≡ (u32 (2 ^ 32 + avg - (latency - avg)), u32_max)
unfolding update_running_average_latency
update_running_average_latency-saturated latency avg hl ha =
    ap (λ t. (t, u32_max))
      (moved_pos latency avg (negsuc 0) (omega arith) (omega arith)
        ∙ ap (λ d. of_i32 (add_ℤ (pos avg) (div_ℤ d (negsuc 0)))) (difference-up latency avg ha)
        ∙ ap (λ t. of_i32 (add_ℤ (pos avg) (negate_ℕ t))) {x = (latency - avg) / 1}
            {y = latency - avg} (omega arith)
        ∙ moved-below avg (latency - avg) (omega arith) (omega arith))
