-- ===== src/Retry/Runs.antt =====
-- What one round of Runner.Do guarantees, and what follows for the whole loop: it ends within the
-- policy's attempts, and its result says why it ended.
use near_real_time_hybrid_se.Common.{
  ℕ, zero, suc, ◌+◌, ◌≤◌, ◌<◌, ◌≡◌, refl, ◌⊎◌, inl, inr, Option, none, some, arith,
}
use near_real_time_hybrid_se.Common.Int.{pos, pos_part, ◌≤ℤ◌, ◌<ℤ◌}
use near_real_time_hybrid_se.Errors.{Err}
use near_real_time_hybrid_se.Retry.{
  Float64, Policy, Context, Runner, Result, non_retryable, validate, wait, round, rounds, run,
}

-- Why a run that returned `x` in state `s` ended: it succeeded, the context ended, or an attempt
-- failed in a way that is not retried or was the last one allowed.
abbrev pub Verdict : {S : Type 0} (f : Float64) → Context S → Runner f S → Result → S → Type 0
Verdict f c r x s =
    (x.err ≡ none)
    ⊎ ((e : Err) × (x.err ≡ some e) × (c.ctx_err s ≡ some e))
    ⊎ ((e : Err) × (x.err ≡ some e)
        × (x.kind ≡ r.classify e)
        × ((x.kind ≡ non_retryable) ⊎ (r.policy.max_attempts ≤ℤ pos x.attempts)))

-- What is said of the outcome of a loop: it is there, and satisfies `P`.
abbrev pub Returns : {S : Type 0} → (Result → S → Type 0) → Option (Result × S) → Type 0
Returns P none = ⊥
Returns P (some (x, s)) = P x s

pub Returns-mono :
    {S : Type 0} (P : Result → S → Type 0) {Q : Result → S → Type 0} (o : Option (Result × S))
    → Returns P o
    → ((x : Result) (s : S) → P x s → Q x s)
    → Returns Q o
Returns-mono P none h k = h
Returns-mono P (some (x, s)) h k = k x s h

pub validate-attempts : (f : Float64) (p : Policy f) → validate f p ≡ none → pos 1 ≤ℤ p.max_attempts
unfolding validate
validate-attempts f p h = ground arith

module _ (f : Float64) {S : Type 0} (c : Context S) (r : Runner f S) (op : S → Option Err × S) where
  -- A round is followed by another only below the policy's limit.
  pub round_continues :
      (n : ℕ) (s s' : S) → round f c r op n s ≡ inr s' → pos n <ℤ r.policy.max_attempts
  unfolding round
  round_continues n s s' h = ground arith

  pub round_attempts :
      (n : ℕ) (s : S) {x : Result} {s' : S} → round f c r op n s ≡ inl (x, s') → x.attempts ≡ n
  unfolding round
  round_attempts n s h = ground arith

  round-Verdict :
      (n : ℕ) (s : S) {x : Result} {s' : S} → round f c r op n s ≡ inl (x, s') → Verdict f c r x s'
  unfolding round wait
  round-Verdict n s h = ground arith

  -- The bounds and the verdict of the result of a loop that starts in round `n`.
  abbrev Final : ℕ → Result → S → Type 0
  Final n x s = (n ≤ x.attempts) × (pos x.attempts ≤ℤ r.policy.max_attempts) × Verdict f c r x s

  -- A run that starts in round `n` or later.
  rounds-Final :
      (low fuel n : ℕ) (s : S)
      → low ≤ n
      → pos n ≤ℤ r.policy.max_attempts
      → pos_part r.policy.max_attempts < n + fuel
      → Returns (Final low) (rounds f c r op fuel n s)
  unfolding rounds
  rounds-Final low zero n s l h k = omega arith
  rounds-Final low (suc fuel) n s l h k = go (round f c r op n s) refl (λ s' e.
      let b = round_continues n s s' e in
      rounds-Final low fuel (suc n) s' (omega arith) (omega arith) (omega arith))
    where
      go :
          (o : (Result × S) ⊎ S)
          → round f c r op n s ≡ o
          → ((s' : S)
              → round f c r op n s ≡ inr s'
              → Returns (Final low) (rounds f c r op fuel (suc n) s'))
          → Returns
              (Final low)
              (elim o [ inl done ↦ some done | inr s' ↦ rounds f c r op fuel (suc n) s' ])
      go (inl (x, s')) e ih = (
        omega (arith, round_attempts n s e),
        omega (arith, round_attempts n s e),
        round-Verdict n s e,
      )
      go (inr s') e ih = ih s' e

-- Do always returns: under a policy that New accepts it makes between one attempt and the policy's
-- limit, and its result says why it stopped.
pub run_total :
    (f : Float64) {S : Type 0} (c : Context S) (r : Runner f S) (op : S → Option Err × S) (s : S)
    → validate f r.policy ≡ none
    → Returns
        (λ x s'. (1 ≤ x.attempts) × (pos x.attempts ≤ℤ r.policy.max_attempts) × Verdict f c r x s')
        (run f c r op s)
unfolding run
run_total f c r op s v =
    let h = validate-attempts f r.policy v in
    rounds-Final f c r op 1 _ 1 s (omega arith) h (omega arith)
