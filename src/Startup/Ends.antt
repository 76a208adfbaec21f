-- ===== src/Startup/Ends.antt =====
-- Retry of internal/startup ends when the start-up deadline has passed.
use near_real_time_hybrid_se.Common.{
  ℕ, zero, suc, ◌+◌, ◌*◌, ◌/◌, ◌≡◌, ◌≤◌, ◌<◌, ◌⊎◌, inl, inr, refl, arith, true, Option, none, some,
  Option-cases,
}
use near_real_time_hybrid_se.Errors.{Err}
use near_real_time_hybrid_se.Startup.{
  Context, Step, stopped, again, after_failure, rounds, retry, initial_delay, next_delay,
}

-- A clock and a deadline: no call turns the clock back, a timer that fires has waited for its time, and
-- the context has ended once the deadline is reached.
pub record IsTimed {S : Type 0} (c : Context S) (deadline : ℕ) : Type 0 where
  pub now : S → ℕ
  pub attempt_time : (s : S) → now s ≤ now (c.attempt s).1
  pub sleep_time : (d : ℕ) (s : S) → (c.sleep d s).0 ≡ true → now s + d ≤ now (c.sleep d s).1
  pub ends : (s : S) → deadline ≤ now s → c.is_done s ≡ true

module _ {S : Type 0} (c : Context S) (deadline : ℕ) (t : IsTimed c deadline) where
  -- A failed attempt before the deadline costs at least the first delay.
  again_later :
      (delay : ℕ) (e : Err) (s : S) {s' : S}
      → initial_delay ≤ delay
      → after_failure c delay e s ≡ again s'
      → (t.now s < deadline) × (t.now s + initial_delay ≤ t.now s')
  unfolding after_failure
  again_later delay e s l h = ground (arith, h, l, t.ends s, t.sleep_time delay s)

  step_cases : (x : Step S) → ((e : Err) × (u : S) × (x ≡ stopped e u)) ⊎ ((u : S) × (x ≡ again u))
  step_cases (stopped e u) = inl (e, u, refl)
  step_cases (again u) = inr (u, refl)

  -- That the loop returns, after at most `fuel` more attempts.
  abbrev Returns : ℕ → ℕ → ℕ → S → Type 0
  Returns fuel delay n s =
      (r : Option Err × (ℕ × S)) × (rounds c fuel delay n s ≡ some r) × (r.1.0 ≤ n + fuel)

  round_ends :
      (fuel delay n : ℕ) (s : S)
      → ((e : Err) (u : S)
          → after_failure c delay e (c.attempt s).1 ≡ again u
          → Returns fuel (next_delay delay) (suc n) u)
      → Returns (suc fuel) delay n s
  unfolding rounds
  round_ends fuel delay n s next = elim (Option-cases (c.attempt s).0) [
    | inl e ↦ ((none, (suc n, (c.attempt s).1)), ground (arith, e), omega arith)
    | inr (e, q) ↦ elim (step_cases (after_failure c delay e (c.attempt s).1)) [
      | inl (x, u, p) ↦ ((some x, (suc n, u)), ground (arith, q, p), omega arith)
      | inr (u, p) ↦ let (r, h, b) = next e u p in (r, ground (arith, q, p, h), omega arith)
    ]
  ]

  next_delay_bound : (delay : ℕ) → initial_delay ≤ delay → initial_delay ≤ next_delay delay
  next_delay_bound delay l = ground arith

  rounds_end :
      (k delay n : ℕ) (s : S)
      → initial_delay ≤ delay
      → deadline ≤ t.now s + k * initial_delay
      → Returns (suc k) delay n s
  rounds_end zero delay n s l b = round_ends zero delay n s λ e u p.
      let (early, later) = again_later delay e (c.attempt s).1 l p in
      let no : ⊥ = omega (arith, t.attempt_time s) in elim no [ ]
  rounds_end (suc k) delay n s l b = round_ends (suc k) delay n s λ e u p.
      let (early, later) = again_later delay e (c.attempt s).1 l p in
      rounds_end k (next_delay delay) (suc n) u (next_delay_bound delay l)
        (omega (arith, t.attempt_time s))

  -- Retry always returns if its context ends at a deadline and the timer is right: it makes at most one
  -- attempt for each half second until then, and two more, whatever the attempts do.
  pub retry_ends :
      (s : S)
      → (r : Option Err × (ℕ × S)) × (retry c (suc (suc (deadline / initial_delay))) s ≡ some r)
        × (r.1.0 ≤ suc (suc (deadline / initial_delay)))
  unfolding retry
  retry_ends s =
      let (r, e, b) =
        rounds_end (suc (deadline / initial_delay)) initial_delay 0 s (omega arith) (omega arith) in
      (r, e, omega arith)
