-- ===== src/Loadtest/Stats.antt =====
-- internal/loadtest/stats.go: latency distributions, medians, rates and the result of an indexing run.
-- float64 is a parameter; slices.Sort and sort.Float64s are insertion sorts. The recorder's mutex is not
-- modelled: each call runs under it from start to end. The texts of String and ms are left out.
pub mod Sorted
pub mod Percentiles
use near_real_time_hybrid_se.Common.{
  ℕ, zero, suc, ◌+◌, ◌-◌, ◌/◌, ◌%◌, Bool, ◌||◌, ◌==◌, List, [], ◌∷◌, ◌++◌, length, leb,
  if◌then◌else◌,
}
use near_real_time_hybrid_se.Common.Int.{
  ℤ, pos, leb_ℤ, ltb_ℤ, pos_part, ◌+ℤ◌, ◌-ℤ◌, wrap64, quotient,
}

-- float64, as the statistics use it. `to_int` is the conversion to an int, `less` the order of
-- sort.Float64s.
pub record Numbers : Type 1 where
  pub F : Type 0
  pub of_int : ℤ → F
  pub to_int : F → ℤ
  pub ceil : F → F
  pub add : F → F → F
  pub mul : F → F → F
  pub divide : F → F → F
  pub less : F → F → Bool

-- Recorder, with its calls.
abbrev pub Recorder : Type 0
Recorder = List ℤ

unfoldable pub record_sample : ℤ → Recorder → Recorder
record_sample d r = r ++ (d ∷ [])

pub record Summary : Type 0 where
  pub count : ℕ
  pub least : ℤ
  pub greatest : ℤ
  pub mean : ℤ
  pub p50 : ℤ
  pub p90 : ℤ
  pub p95 : ℤ
  pub p99 : ℤ

unfoldable pub insert : ℤ → List ℤ → List ℤ
insert d [] = d ∷ []
insert d (x ∷ xs) = if leb_ℤ d x then d ∷ x ∷ xs else x ∷ insert d xs

unfoldable pub sort : List ℤ → List ℤ
unfolding insert
sort [] = []
sort (d ∷ ds) = insert d (sort ds)

-- An entry by its index; 0 where Go would panic, which no call below reaches.
abbrev pub entry : List ℤ → ℕ → ℤ
entry [] i = pos 0
entry (x ∷ xs) zero = x
entry (x ∷ xs) (suc i) = entry xs i

-- The loop that adds the samples up.
unfoldable pub total_of : ℤ → List ℤ → ℤ
unfolding wrap64 ◌+ℤ◌
total_of acc [] = acc
total_of acc (x ∷ xs) = total_of (wrap64 (acc +ℤ x)) xs

-- min(max(rank, 1), n).
unfoldable pub clamp_rank : ℤ → ℕ → ℕ
clamp_rank r n = let low = if leb_ℤ r (pos 1) then 1 else pos_part r in if leb n low then n else low

unfoldable pub empty_summary : Summary
empty_summary = record {
  count = 0;
  least = pos 0;
  greatest = pos 0;
  mean = pos 0;
  p50 = pos 0;
  p90 = pos 0;
  p95 = pos 0;
  p99 = pos 0;
}

module _ (f : Numbers) where
  -- The rank of percentile, for a slice of `n` samples.
  unfoldable pub rank : ℤ → ℕ → ℤ
  rank p n =
      f.to_int (f.ceil (f.mul (f.divide (f.of_int p) (f.of_int (pos 100))) (f.of_int (pos n))))

  unfoldable pub percentile : List ℤ → ℤ → ℤ
  unfolding rank clamp_rank
  percentile [] p = pos 0
  percentile (x ∷ xs) p = let n = length (x ∷ xs) in entry (x ∷ xs) (clamp_rank (rank p n) n - 1)

  unfoldable pub summarize : List ℤ → Summary
  unfolding percentile sort total_of quotient empty_summary
  summarize [] = empty_summary
  summarize (d ∷ ds) =
      let sorted = sort (d ∷ ds) in
      record {
        count = length sorted;
        least = entry sorted 0;
        greatest = entry sorted (length sorted - 1);
        mean = quotient (total_of (pos 0) sorted) (length sorted);
        p50 = percentile sorted (pos 50);
        p90 = percentile sorted (pos 90);
        p95 = percentile sorted (pos 95);
        p99 = percentile sorted (pos 99);
      }

  unfoldable pub insert_number : f.F → List f.F → List f.F
  insert_number d [] = d ∷ []
  insert_number d (x ∷ xs) = if f.less x d then x ∷ insert_number d xs else d ∷ x ∷ xs

  unfoldable pub sort_numbers : List f.F → List f.F
  unfolding insert_number
  sort_numbers [] = []
  sort_numbers (d ∷ ds) = insert_number d (sort_numbers ds)

  abbrev pub number_at : List f.F → ℕ → f.F
  number_at [] i = f.of_int (pos 0)
  number_at (x ∷ xs) zero = x
  number_at (x ∷ xs) (suc i) = number_at xs i

  unfoldable pub median : List f.F → f.F
  unfolding sort_numbers
  median [] = f.of_int (pos 0)
  median (v ∷ vs) =
      let sorted = sort_numbers (v ∷ vs) in
      let n = length sorted in
      if n % 2 == 1
      then number_at sorted (n / 2)
      else f.divide (f.add (number_at sorted (n / 2 - 1)) (number_at sorted (n / 2)))
          (f.of_int (pos 2))

  -- `seconds` is Duration.Seconds.
  unfoldable pub rate : (ℤ → f.F) → ℤ → ℤ → f.F
  rate seconds count elapsed =
      if leb_ℤ elapsed (pos 0) || leb_ℤ count (pos 0)
      then f.of_int (pos 0)
      else f.divide (f.of_int count) (seconds elapsed)

pub record IndexingResult : Type 0 where
  pub produced : ℤ
  pub indexed : ℤ
  pub insert_duration : ℤ
  pub duration : ℤ
  pub latency : Summary
  pub documents : ℤ
  pub points : ℤ

unfoldable pub missing : IndexingResult → ℤ
unfolding ◌-ℤ◌
missing r = r.produced -ℤ r.indexed
