-- ===== src/Loadtest/Stats/Percentiles.antt =====
-- What the percentiles of internal/loadtest/stats.go are of their samples.
use near_real_time_hybrid_se.Common.{
  ℕ, ◌+◌, ◌-◌, ◌*◌, ◌/◌, ◌^◌, ◌≡◌, ◌≤◌, ◌<◌, refl, subst, inl, inr, List, [], ◌∷◌, In, arith,
  length,
}
use near_real_time_hybrid_se.Common.Int.{ℤ, pos, ◌≤ℤ◌}
use near_real_time_hybrid_se.Loadtest.Stats.{
  Numbers, sort, entry, clamp_rank, rank, percentile, summarize,
}
use near_real_time_hybrid_se.Loadtest.Stats.Sorted.{
  at_most, at_least, IsSorted, length-sort, at_most-sort, at_least-sort, sort-IsSorted, entry_mono,
  entry_rank,
}

-- The percentages of a summary.
abbrev pub percentages : List ℕ
percentages = 50 ∷ 90 ∷ 95 ∷ 99 ∷ []

-- What correct rounding gives of float64: for these percentages p, and for an n of at most 2^40, p / 100 as
-- a float64, times n, has the ceiling of the exact p * n / 100. If that is an integer, the error of the
-- quotient is less than half a unit in the last place of the product, which is rounded to that integer;
-- if not, the product is at least 1/100 from every integer, and its error less than that.
pub record Laws (f : Numbers) : Type 0 where
  pub exact_ceil :
      (p n : ℕ)
      → In p percentages
      → n ≤ 2 ^ 40
      → f.to_int
          (f.ceil (f.mul (f.divide (f.of_int (pos p)) (f.of_int (pos 100))) (f.of_int (pos n))))
        ≡ pos ((p * n + 99) / 100)

-- A value is a percentile if at least p % of the samples do not exceed it, and fewer than p % are below it.
abbrev pub IsPercentile : ℕ → List ℤ → ℤ → Type 0
IsPercentile p ds v =
    (p * length ds ≤ 100 * at_most v ds) × (100 * length ds < 100 * at_least v ds + p * length ds)

clamp_rank_bounds : (r : ℤ) (n : ℕ) → 1 ≤ n → (1 ≤ clamp_rank r n) × (clamp_rank r n ≤ n)
unfolding clamp_rank
clamp_rank_bounds r n h = ground arith

clamp_rank_mono : (r q : ℤ) (n : ℕ) → r ≤ℤ q → clamp_rank r n ≤ clamp_rank q n
unfolding clamp_rank
clamp_rank_mono r q n h = ground arith

abbrev IsRanked : List ℤ → Type 0
IsRanked xs = (1 ≤ length xs) × IsSorted xs

sorted_samples : (ds : List ℤ) → 1 ≤ length ds → IsRanked (sort ds)
sorted_samples ds h = (omega (arith, length-sort ds), sort-IsSorted ds)

module _ (f : Numbers) where
  percentile-entry :
      (xs : List ℤ) (p : ℤ)
      → 1 ≤ length xs
      → percentile f xs p ≡ entry xs (clamp_rank (rank f p (length xs)) (length xs) - 1)
  unfolding percentile
  percentile-entry [] p h = absurd (omega arith)
  percentile-entry (x ∷ xs) p h = refl

  percentile_counts :
      (p : ℤ) (ds : List ℤ)
      → 1 ≤ length ds
      → let r = clamp_rank (rank f p (length ds)) (length ds) in
        let v = percentile f (sort ds) p in
        (1 ≤ r) × (r ≤ length ds) × (r ≤ at_most v ds) × (length ds < at_least v ds + r)
  percentile_counts p ds h =
      let xs = sort ds in
      let l = length-sort ds in
      let (a, s) = sorted_samples ds h in
      let r = clamp_rank (rank f p (length ds)) (length ds) in
      let b = clamp_rank_bounds (rank f p (length ds)) (length ds) h in
      let e : percentile f xs p ≡ entry xs (r - 1) =
        subst (λ m. percentile f xs p ≡ entry xs (clamp_rank (rank f p m) m - 1)) l
          (percentile-entry xs p a) in
      let w = entry_rank xs (r - 1) s (omega (arith, l, b.0, b.1)) in
      (
        b.0,
        b.1,
        rw e (omega (arith, w.0, b.0, at_most-sort (entry xs (r - 1)) ds)),
        rw e (omega (arith, w.1, b.0, l, at_least-sort (entry xs (r - 1)) ds)),
      )

  percentile_mono :
      (xs : List ℤ) (p q : ℤ)
      → IsRanked xs
      → rank f p (length xs) ≤ℤ rank f q (length xs)
      → percentile f xs p ≤ℤ percentile f xs q
  percentile_mono xs p q (a, s) h =
      let n = length xs in
      let c = clamp_rank_mono (rank f p n) (rank f q n) n h in
      let b = clamp_rank_bounds (rank f q n) n a in
      rw (percentile-entry xs p a, percentile-entry xs q a)
        (entry_mono xs _ _ s (omega (arith, c)) (omega (arith, b.0, b.1)))

  percentile_least : (xs : List ℤ) (p : ℤ) → IsRanked xs → entry xs 0 ≤ℤ percentile f xs p
  percentile_least xs p (a, s) =
      let n = length xs in
      let b = clamp_rank_bounds (rank f p n) n a in
      rw (percentile-entry xs p a) (entry_mono xs _ _ s (omega arith) (omega (arith, b.0, b.1)))

  percentile_greatest :
      (xs : List ℤ) (p : ℤ) → IsRanked xs → percentile f xs p ≤ℤ entry xs (length xs - 1)
  percentile_greatest xs p (a, s) =
      let n = length xs in
      let b = clamp_rank_bounds (rank f p n) n a in
      rw (percentile-entry xs p a) (entry_mono xs _ _ s (omega (arith, b.1)) (omega (arith, a)))

  module _ (laws : Laws f) where
    rank_ceil :
        (p n : ℕ) → In p percentages → n ≤ 2 ^ 40 → rank f (pos p) n ≡ pos ((p * n + 99) / 100)
    unfolding rank
    rank_ceil p n i h = laws.exact_ceil p n i h

    percentile-IsPercentile :
        (p : ℕ) (ds : List ℤ)
        → In p percentages
        → length ds ≤ 2 ^ 40
        → 1 ≤ p * length ds
        → p * length ds ≤ 100 * length ds
        → IsPercentile p ds (percentile f (sort ds) (pos p))
    unfolding clamp_rank
    percentile-IsPercentile p ds i h a b =
        let n = length ds in
        let (c, d, v, w) = percentile_counts (pos p) ds (omega (arith, a, b)) in
        let e : clamp_rank (rank f (pos p) n) n ≡ (p * n + 99) / 100 =
          rw (rank_ceil p n i h) (ground (arith, a, b)) in
        (omega (arith, e, v), omega (arith, e, w))

    rank_mono :
        (p q n : ℕ)
        → In p percentages
        → In q percentages
        → n ≤ 2 ^ 40
        → p * n ≤ q * n
        → rank f (pos p) n ≤ℤ rank f (pos q) n
    rank_mono p q n i j h l = rw (rank_ceil p n i h, rank_ceil q n j h) (omega (arith, l))

    -- Under what correct rounding gives of float64: the P50, P90, P95 and P99 of a summary of
    -- between one and 2^40 samples are percentiles of the samples: at least so many per cent of
    -- the samples do not exceed the value, and fewer than so many per cent are below it. Min,
    -- P50, P90, P95, P99 and Max are in order, and Count is the number of the samples.
    pub summarize_percentiles :
        (ds : List ℤ)
        → 1 ≤ length ds
        → length ds ≤ 2 ^ 40
        → let s = summarize f ds in
          IsPercentile 50 ds s.p50
          × IsPercentile 90 ds s.p90
          × IsPercentile 95 ds s.p95
          × IsPercentile 99 ds s.p99
          × (s.least ≤ℤ s.p50)
          × (s.p50 ≤ℤ s.p90)
          × (s.p90 ≤ℤ s.p95)
          × (s.p95 ≤ℤ s.p99)
          × (s.p99 ≤ℤ s.greatest)
          × (s.count ≡ length ds)
    unfolding summarize
    summarize_percentiles [] h k = absurd (omega arith)
    summarize_percentiles (d ∷ ds) h k =
        let xs = sort (d ∷ ds) in
        let w = sorted_samples (d ∷ ds) h in
        let l = length-sort (d ∷ ds) in
        let m : length xs ≤ 2 ^ 40 = omega (arith, l, k) in
        let i50 : In 50 percentages = inl refl in
        let i90 : In 90 percentages = inr (inl refl) in
        let i95 : In 95 percentages = inr (inr (inl refl)) in
        let i99 : In 99 percentages = inr (inr (inr (inl refl))) in
        (
          percentile-IsPercentile 50 (d ∷ ds) i50 k (omega arith) (omega arith),
          percentile-IsPercentile 90 (d ∷ ds) i90 k (omega arith) (omega arith),
          percentile-IsPercentile 95 (d ∷ ds) i95 k (omega arith) (omega arith),
          percentile-IsPercentile 99 (d ∷ ds) i99 k (omega arith) (omega arith),
          percentile_least xs (pos 50) w,
          percentile_mono xs (pos 50) (pos 90) w
              (rank_mono 50 90 (length xs) i50 i90 m (omega arith)),
          percentile_mono xs (pos 90) (pos 95) w
              (rank_mono 90 95 (length xs) i90 i95 m (omega arith)),
          percentile_mono xs (pos 95) (pos 99) w
              (rank_mono 95 99 (length xs) i95 i99 m (omega arith)),
          percentile_greatest xs (pos 99) w,
          l,
        )
