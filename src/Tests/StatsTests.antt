-- ===== src/Tests/StatsTests.antt =====
-- Percentiles of five samples, over fractions.
use near_real_time_hybrid_se.Common.{
  ℕ, ◌+◌, ◌*◌, ◌-◌, ◌/◌, ◌≡◌, refl, ap, ltb, List, [], ◌∷◌, arith,
}
use near_real_time_hybrid_se.Common.Int.{ℤ, pos, ◌≤ℤ◌, pos_part, quotient, wrap64, ◌+ℤ◌}
use near_real_time_hybrid_se.Loadtest.Stats.{
  Numbers, clamp_rank, rank, percentile, sort, insert, summarize, median, rate, sort_numbers,
  insert_number, total_of,
}
use near_real_time_hybrid_se.Loadtest.Stats.Percentiles.{Laws, IsPercentile, summarize_percentiles}

-- A number is a numerator and a denominator; the statistics of these samples use no number below 0.
abbrev fractions : Numbers
fractions = record {
  F = ℕ × ℕ;
  of_int = λ a. (pos_part a, 1);
  to_int = λ a. pos (a.0 / a.1);
  ceil = λ a. ((a.0 + a.1 - 1) / a.1, 1);
  add = λ a b. (a.0 * b.1 + b.0 * a.1, a.1 * b.1);
  mul = λ a b. (a.0 * b.0, a.1 * b.1);
  divide = λ a b. (a.0 * b.1, a.1 * b.0);
  less = λ a b. ltb (a.0 * b.1) (b.0 * a.1);
}

fractions-Laws : Laws fractions
fractions-Laws = record { exact_ceil = λ p n i h. ap pos (omega arith) }

abbrev samples : List ℤ
samples = pos 40 ∷ pos 10 ∷ pos 30 ∷ pos 50 ∷ pos 20 ∷ []

summarize_percentiles_example :
    let s = summarize fractions samples in
    IsPercentile 50 samples s.p50
    × IsPercentile 90 samples s.p90
    × IsPercentile 95 samples s.p95
    × IsPercentile 99 samples s.p99
    × (s.least ≤ℤ s.p50)
    × (s.p50 ≤ℤ s.p90)
    × (s.p90 ≤ℤ s.p95)
    × (s.p95 ≤ℤ s.p99)
    × (s.p99 ≤ℤ s.greatest)
    × (s.count ≡ 5)
summarize_percentiles_example =
    summarize_percentiles fractions fractions-Laws samples (omega arith) (omega arith)

summary_test :
    let s = summarize fractions samples in (s.p50 ≡ pos 30) × (s.p90 ≡ pos 50) × (s.mean ≡ pos 30)
unfolding summarize percentile rank clamp_rank sort insert total_of wrap64 ◌+ℤ◌ quotient
summary_test = (refl, refl, refl)

median_test : median fractions ((4, 1) ∷ (1, 2) ∷ (2, 1) ∷ []) ≡ (2, 1)
unfolding median sort_numbers insert_number
median_test = refl

rate_test : (seconds : ℤ → ℕ × ℕ) → rate fractions seconds (pos 3) (pos 0) ≡ (0, 1)
unfolding rate
rate_test seconds = refl
