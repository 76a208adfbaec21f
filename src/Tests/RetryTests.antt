-- ===== src/Tests/RetryTests.antt =====
-- Runner.Do and Backoff at concrete policies.
use near_real_time_hybrid_se.Common.{ℕ, zero, suc, ◌≡◌, refl, true, Option, none, some, arith, ◌≤◌}
use near_real_time_hybrid_se.Common.Int.{pos, ◌≤ℤ◌}
use near_real_time_hybrid_se.Errors.{Err, foreign}
use near_real_time_hybrid_se.Retry.{
  Float64, Policy, Context, Runner, Result, Kind, unknown, retryable, validate, backoff, run, wait,
}
use near_real_time_hybrid_se.Retry.Backoff.{backoff_bounds}
use near_real_time_hybrid_se.Retry.Runs.{Returns, Verdict, run_total}
use near_real_time_hybrid_se.Retry.Success.{Recovers, works, fails, run-Recovers}
use near_real_time_hybrid_se.Tests.Floats.{integers, integers-Laws}

abbrev pub policy : Policy integers
policy = record {
  max_attempts = pos 3;
  initial_backoff = pos 100;
  max_backoff = pos 250;
  multiplier = pos 2;
}

pub policy_accepted : validate integers policy ≡ none
unfolding validate
policy_accepted = refl

-- The state counts the failures that are still to come.
abbrev flaky : ℕ → Option Err × ℕ
flaky zero = (none, zero)
flaky (suc n) = (some (foreign 0 true), n)

abbrev calm : Context ℕ
calm = record { ctx_err = λ _. none; sleep = λ _ s. (true, s) }

abbrev patient : Runner integers ℕ
patient = record { policy = policy; classify = λ _. retryable; on_retry = none }

third_wait : backoff integers policy (pos 3) ≡ pos 250
unfolding backoff
third_wait = refl

backoff_bounds_example :
    (pos 100 ≤ℤ backoff integers policy (pos 40)) × (backoff integers policy (pos 40) ≤ℤ pos 250)
backoff_bounds_example =
    backoff_bounds integers integers-Laws policy (pos 40) policy_accepted (omega arith)

run_total_example :
    Returns
      (λ x s. (1 ≤ x.attempts) × (pos x.attempts ≤ℤ pos 3) × Verdict integers calm patient x s)
      (run integers calm patient flaky 7)
run_total_example = run_total integers calm patient flaky 7 policy_accepted

recovery : Recovers integers calm patient flaky 1 1 1 0
unfolding wait backoff near_real_time_hybrid_se.Retry.notify
recovery = fails (foreign 0 true) refl refl (λ e. cc) refl (works refl)

run-Recovers_example :
    run integers calm patient flaky 1
    ≡ some (record { attempts = 2; kind = unknown; err = none }, 0)
run-Recovers_example = run-Recovers integers calm patient flaky 1 1 0 recovery (omega arith)
