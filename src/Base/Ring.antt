-- ===== src/Base/Ring.antt =====
-- The contents of a ring buffer: `n` cells of an array from index `h` on, going round at `cap`.
use Prim.Native.Nat.{ℕ, zero, suc, ◌+◌, ◌-◌, ◌%◌, ◌≤◌, ◌<◌}
use mathlib.Core.Path.{◌≡◌, refl, ap, ap₂, ◌∙◌}
use mathlib.Core.Logic.{◌≢◌}
use mathlib.Core.List.{List, [], ◌∷◌, ◌++◌}
use native.Mathlib.Nat.{mod-eq_of_lt, mod-eq-sub-mod, mod-lt}
use native.Mathlib.Decide.{dec_lt}
use native.Mathlib.Omega.{arith}
use signal_scope_api.Base.Lists.{Array, store}

-- `(h + k) % cap` for two indices inside the ring.
pub mod-add_cases : (cap h k : ℕ) → h < cap → k ≤ cap → cap ≤ h + k → (h + k) % cap ≡ h + k - cap
mod-add_cases cap h k p q r = omega (
  arith,
  mod-eq-sub-mod {n = h + k} {m = cap} r,
  mod-eq_of_lt {n = h + k - cap} {m = cap} (omega arith),
)

pub mod-add_suc : (cap h k : ℕ) → h < cap → k < cap → ((h + 1) % cap + k) % cap ≡ (h + suc k) % cap
mod-add_suc cap h k p q = elim (dec_lt (h + 1) cap) [
  | yes inside ↦ ap (λ t. t % cap) (omega (arith, mod-eq_of_lt inside))
  | no out ↦
      let e : h + 1 ≡ cap = omega arith in
      omega (
        arith,
        mod-add_cases cap h 1 p (omega arith) (omega arith),
        mod-eq_of_lt {n = k} {m = cap} q,
        mod-add_cases cap h (suc k) p q (omega arith),
        ap (λ (t : ℕ). (t + k) % cap) (mod-add_cases cap h 1 p (omega arith) (omega arith)),
        ap (λ (t : ℕ). t % cap) {x = h + 1 - cap + k} {y = k} (omega arith),
      )
]

-- A cell of the ring is not met again before a full turn.
pub mod-add_ne_of_lt : (cap h k n : ℕ) → h < cap → n < cap → k < n → (h + k) % cap ≢ (h + n) % cap
mod-add_ne_of_lt cap h k n p q r = elim (dec_lt (h + k) cap) [
  | yes near ↦ elim (dec_lt (h + n) cap) [
    | yes in_n ↦ omega (arith, mod-eq_of_lt near, mod-eq_of_lt in_n)
    | no out_n ↦
        omega (arith, mod-eq_of_lt near, mod-add_cases cap h n p (omega arith) (omega arith))
  ]
  | no far ↦ omega (
    arith,
    mod-add_cases cap h k p (omega arith) (omega arith),
    mod-add_cases cap h n p (omega arith) (omega arith),
  )
]

module _ {ℓ} {A : Type ℓ} where
  abbrev pub window : ℕ → Array A → ℕ → ℕ → List A
  window cap a h zero = []
  window cap a h (suc n) = a h ∷ window cap a ((h + 1) % cap) n

  -- Writing outside a window leaves it alone.
  pub window-store_ne :
      (cap : ℕ) (a : Array A) (i : ℕ) (v : A) (h n : ℕ)
      → h < cap
      → n ≤ cap
      → ((k : ℕ) → k < n → (h + k) % cap ≢ i)
      → window cap (store a i v) h n ≡ window cap a h n
  window-store_ne cap a i v h zero p q out = refl
  window-store_ne cap a i v h (suc n) p q out =
      ap₂ ◌∷◌
        (ground (arith, out 0 (omega arith), mod-eq_of_lt {n = h + 0} {m = cap} (omega arith)))
        (window-store_ne cap a i v ((h + 1) % cap) n (mod-lt (h + 1) (omega arith)) (omega arith)
          (λ k lt. rw (mod-add_suc cap h k p (omega arith)) (out (suc k) (omega arith))))

  window-snoc :
      (cap : ℕ) (a : Array A) (h n : ℕ)
      → h < cap
      → n < cap
      → window cap a h (suc n) ≡ window cap a h n ++ a ((h + n) % cap) ∷ []
  window-snoc cap a h zero p q =
      ap (λ t. a t ∷ []) (omega (arith, mod-eq_of_lt {n = h + 0} {m = cap} (omega arith)))
  window-snoc cap a h (suc n) p q =
      ap (λ t. a h ∷ t)
        (window-snoc cap a ((h + 1) % cap) n (mod-lt (h + 1) (omega arith)) (omega arith)
          ∙ ap (λ t. window cap a ((h + 1) % cap) n ++ a t ∷ [])
              (mod-add_suc cap h n p (omega arith)))

  -- Writing the cell behind a window that is not full extends the window.
  pub window-push :
      (cap : ℕ) (a : Array A) (v : A) (h n : ℕ)
      → h < cap
      → n < cap
      → window cap (store a ((h + n) % cap) v) h (suc n) ≡ window cap a h n ++ v ∷ []
  window-push cap a v h n p q =
      window-snoc cap (store a ((h + n) % cap) v) h n p q
      ∙ ap₂ ◌++◌
          (window-store_ne cap a ((h + n) % cap) v h n p (omega arith)
            (λ k lt. mod-add_ne_of_lt cap h k n p q lt))
          (ap (λ t. t ∷ []) (ground arith))

  -- The same, with the new length and the index written as the code computes them.
  pub window-push_at :
      (cap : ℕ) (a : Array A) (v : A) (h n m i : ℕ)
      → h < cap
      → n < cap
      → m ≡ suc n
      → i ≡ (h + n) % cap
      → window cap (store a i v) h m ≡ window cap a h n ++ v ∷ []
  window-push_at cap a v h n m i p q em ei =
      ap₂ (λ t k. window cap (store a t v) h k) ei em ∙ window-push cap a v h n p q

  pub window-pop_at :
      (cap : ℕ) (a : Array A) (h n m t : ℕ)
      → n ≡ suc m
      → t ≡ (h + 1) % cap
      → window cap a h n ≡ a h ∷ window cap a t m
  window-pop_at cap a h n m t en et = rw (en, et)
