-- ===== src/Tests/StartupTests.antt =====
-- A dependency that never answers, with a deadline of two seconds; the state is the time.
use near_real_time_hybrid_se.Common.{
  ℕ, ◌+◌, ◌≡◌, ◌≤◌, refl, arith, true, suc, ◌/◌, Option, some, leb, ltb,
}
use near_real_time_hybrid_se.Errors.{Err, foreign, wrap}
use near_real_time_hybrid_se.Startup.{Context, retry, initial_delay}
use near_real_time_hybrid_se.Startup.Ends.{IsTimed, retry_ends}

abbrev deadline : ℕ
deadline = 2000000000

abbrev down : Context ℕ
down = record {
  attempt = λ s. (some (foreign 7 true), s);
  is_done = λ s. leb deadline s;
  sleep = λ d s. (ltb (s + d) deadline, s + d);
}

down-IsTimed : IsTimed down deadline
down-IsTimed = record {
  now = λ s. s;
  attempt_time = λ s. omega arith;
  sleep_time = λ d s h. omega arith;
  ends = λ s h. ground arith;
}

retry_ends_example :
    (r : Option Err × (ℕ × ℕ)) × (retry down (suc (suc (deadline / initial_delay))) 0 ≡ some r)
    × (r.1.0 ≤ suc (suc (deadline / initial_delay)))
retry_ends_example = retry_ends down deadline down-IsTimed 0

-- Half a second, then one: the third attempt is the last, since the next wait would pass the deadline.
three_attempts : retry down 6 0 ≡ some (some (wrap (foreign 7 true)), (3, 3500000000))
unfolding retry
three_attempts = refl
