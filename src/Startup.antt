-- ===== src/Startup.antt =====
-- internal/startup/startup.go: Retry. The attempt, with its own time-out, the context and the timer are
-- parameters over a state `S`; `sleep` says whether the timer fired before the context ended. A
-- Duration is a number of nanoseconds. Logging is left out.
pub mod Ends
use near_real_time_hybrid_se.Common.{
  ℕ, zero, suc, ◌*◌, Bool, true, false, Option, none, some, ltb, if◌then◌else◌,
}
use near_real_time_hybrid_se.Errors.{Err, wrap}

abbrev pub initial_delay : ℕ
initial_delay = 500000000

abbrev pub max_delay : ℕ
max_delay = 5000000000

pub record Context (S : Type 0) : Type 0 where
  pub attempt : S → Option Err × S
  pub is_done : S → Bool
  pub sleep : ℕ → S → Bool × S

-- min(delay * 2, maxDelay).
abbrev pub next_delay : ℕ → ℕ
next_delay delay = if ltb (delay * 2) max_delay then delay * 2 else max_delay

-- What the loop does after a failed attempt: it returns the error, or it goes on.
pub data Step (S : Type 0) : Type 0 where
  stopped : Err → S → Step S
  again : S → Step S

module _ {S : Type 0} (c : Context S) where
  unfoldable pub after_failure : ℕ → Err → S → Step S
  after_failure delay e s =
      if c.is_done s
      then stopped (wrap e) s
      else let (fired, s') = c.sleep delay s in if fired then again s' else stopped (wrap e) s'

  -- The loop, on fuel; none while it still runs. The result counts the attempts.
  unfoldable pub rounds : ℕ → ℕ → ℕ → S → Option (Option Err × (ℕ × S))
  unfolding after_failure
  rounds zero delay n s = none
  rounds (suc fuel) delay n s =
      let (r, s') = c.attempt s in
      elim r [
        | none ↦ some (none, (suc n, s'))
        | some e ↦ elim (after_failure delay e s') [
          | stopped x t ↦ some (some x, (suc n, t))
          | again t ↦ rounds fuel (next_delay delay) (suc n) t
        ]
      ]

  unfoldable pub retry : ℕ → S → Option (Option Err × (ℕ × S))
  unfolding rounds
  retry fuel s = rounds fuel initial_delay 0 s
