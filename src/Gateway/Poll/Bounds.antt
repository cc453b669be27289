-- ===== src/Gateway/Poll/Bounds.antt =====
-- The loops of pollRx and flushEgressFair (core/gateway.cpp) end by their own tests: the fuel of
-- the model is enough.
use signal_scope_api.Base.{
  ℕ, zero, suc, ◌+◌, ◌≤◌, ◌<◌, ◌≡◌, refl, ◌⊎◌, Bool, true, false, not, ◌||◌, inl, inr, arith, ltb,
  if◌then◌else◌, Bool-cases,
}
use signal_scope_api.Frame.{Direction, opposite}
use signal_scope_api.Gateway.State.{Peers}
use signal_scope_api.Gateway.Poll.{
  Flush, Poll, flush_turn, flush_round, flush_loop, poll_turn, poll_round, poll_loop,
}

chain :
    (a b c : ℕ) (p q : Bool)
    → (p ≡ true → (false ≡ true) ⊎ (a < b))
    → (q ≡ true → (p ≡ true) ⊎ (b < c))
    → a ≤ b
    → b ≤ c
    → q ≡ true
    → a < c
chain a b c p q h k ab bc e = ground arith

-- Two loops agree if they agree on going on.
if-or_agree {ℓ} :
    {A : Type ℓ} (stop both : Bool) (x : A) {y z : A}
    → (stop ≡ true → y ≡ z)
    → (if not stop || both then x else y) ≡ (if not stop || both then x else z)
if-or_agree true true x h = refl
if-or_agree true false x h = h refl
if-or_agree false both x h = refl

module _ (peers : Peers) (now_us now_ms : ℕ) where
  open peers use {World}

  -- A turn counts the frame that it takes.
  poll_turn_count :
      (d : Direction) (p : Poll World)
      → p.processed ≤ 16
      → let q = poll_turn peers now_us now_ms d p in
        (p.processed ≤ q.processed)
        × (q.processed ≤ 16)
        × (q.progressed ≡ true → (p.progressed ≡ true) ⊎ (p.processed < q.processed))
  unfolding poll_turn
  poll_turn_count d p h = (ground arith, ground arith, ground arith)

  poll_round_count :
      (p : Poll World)
      → p.processed ≤ 16
      → let q = poll_round peers now_us now_ms p in
        (p.processed ≤ q.processed)
        × (q.processed ≤ 16)
        × (q.progressed ≡ true → p.processed < q.processed)
  unfolding poll_round
  poll_round_count p h =
      let first = p.system.core.next_raw_direction in
      let p0 : Poll World = record p { progressed = false } in
      let one = poll_turn_count first p0 h in
      let two = poll_turn_count (opposite first) (poll_turn peers now_us now_ms first p0) one.1 in
      (omega arith, two.1, λ e. chain _ _ _ _ _ one.2 two.2 one.0 two.0 e)

  -- pollRx leaves its loop by its own test: with more rounds of fuel than frames are left in the
  -- budget of 16, the result does not depend on the fuel.
  pub poll_loop_enough :
      (fuel fuel' : ℕ) (p : Poll World)
      → p.processed ≤ 16
      → 16 < p.processed + fuel
      → 16 < p.processed + fuel'
      → poll_loop peers now_us now_ms fuel p ≡ poll_loop peers now_us now_ms fuel' p
  unfolding poll_loop
  poll_loop_enough zero fuel' p h e e' = absurd (omega arith)
  poll_loop_enough (suc fuel) zero p h e e' = absurd (omega arith)
  poll_loop_enough (suc fuel) (suc fuel') p h e e' = elim (Bool-cases (ltb p.processed 16)) [
    | inr spent ↦ rw spent
    | inl left' ↦ rw left' (
        if-or_agree _ _ _ λ on.
          let count = poll_round_count p h in
          let more = count.2 on in
          poll_loop_enough fuel fuel' (poll_round peers now_us now_ms p) count.1 (omega arith)
            (omega arith))
  ]

module _ (peers : Peers) where
  open peers use {World}

  -- A turn that attempts a frame spends one of the budget.
  flush_turn_count :
      (d : Direction) (f : Flush World)
      → let g = flush_turn peers d f in
        (g.budget ≤ f.budget)
        × (g.budget ≤ f.budget)
        × (g.attempted ≡ true → (f.attempted ≡ true) ⊎ (g.budget < f.budget))
  unfolding flush_turn
  flush_turn_count d f = (ground arith, ground arith, ground arith)

  chain_down :
      (a b c : ℕ) (p q : Bool)
      → (p ≡ true → (false ≡ true) ⊎ (b < a))
      → (q ≡ true → (p ≡ true) ⊎ (c < b))
      → b ≤ a
      → c ≤ b
      → q ≡ true
      → c < a
  chain_down a b c p q h k ab bc e = ground arith

  flush_round_count :
      (f : Flush World)
      → let g = flush_round peers f in
        (g.budget ≤ f.budget) × (g.attempted ≡ true → g.budget < f.budget)
  unfolding flush_round
  flush_round_count f =
      let first = f.system.core.next_egress_flush_direction in
      let f0 : Flush World = record f { attempted = false } in
      let one = flush_turn_count first f0 in
      let two = flush_turn_count (opposite first) (flush_turn peers first f0) in
      (omega arith, λ e. chain_down _ _ _ _ _ one.2 two.2 one.0 two.0 e)

  -- flushEgressFair leaves its loop by its own test: with more rounds of fuel than frames are left
  -- in its budget, the result does not depend on the fuel.
  pub flush_loop_enough :
      (fuel fuel' : ℕ) (f : Flush World)
      → f.budget < fuel
      → f.budget < fuel'
      → flush_loop peers fuel f ≡ flush_loop peers fuel' f
  unfolding flush_loop
  flush_loop_enough zero fuel' f e e' = absurd (omega arith)
  flush_loop_enough (suc fuel) zero f e e' = absurd (omega arith)
  flush_loop_enough (suc fuel) (suc fuel') f e e' = elim (Bool-cases (ltb 0 f.budget)) [
    | inr spent ↦ rw spent
    | inl left' ↦ rw left' (
        if-or_agree _ _ _ λ on.
          let less = (flush_round_count f).1 on in
          flush_loop_enough fuel fuel' (flush_round peers f) (omega arith) (omega arith))
  ]
