-- ===== src/Retry/Backoff.antt =====
-- The bounds of Policy.Backoff, from the laws of IEEE 754 numbers that it relies on.
use near_real_time_hybrid_se.Common.{ℕ, ◌^◌, ◌≡◌, false, ◌||◌, none, arith, if◌then◌else◌}
use near_real_time_hybrid_se.Common.Int.{ℤ, pos, pos_part, ◌≤ℤ◌}
use near_real_time_hybrid_se.Retry.{Float64, Policy, validate, backoff, exponent}

-- The integers up to this one are floats, so that conversion and comparison are exact.
abbrev pub exact : ℤ
exact = pos (2 ^ 53)

-- Documented behaviour of float64 arithmetic, of math.Pow and of the conversion to an integer, which
-- discards the fraction.
pub record Laws (f : Float64) : Type 0 where
  -- A power of a finite number that is at least 1 is a number that is at least 1.
  pub pow_ge_one :
      (x : f.F) (n : ℕ)
      → f.lt x (f.of_int (pos 1)) ≡ false
      → f.is_nan x ≡ false
      → (f.lt (f.pow x (f.of_int (pos n))) (f.of_int (pos 1)) ≡ false)
        × (f.is_nan (f.pow x (f.of_int (pos n))) ≡ false)
  -- A product of a positive integer with such a number is a number not below the integer.
  pub mul_ge :
      (a : ℤ) (x : f.F)
      → pos 1 ≤ℤ a
      → a ≤ℤ exact
      → f.lt x (f.of_int (pos 1)) ≡ false
      → f.is_nan x ≡ false
      → (f.lt (f.mul (f.of_int a) x) (f.of_int a) ≡ false)
        × (f.is_nan (f.mul (f.of_int a) x) ≡ false)
  -- Truncation of a finite number stays between the integers that it lies between.
  pub to_int_between :
      (a b : ℤ) (x : f.F)
      → pos 0 ≤ℤ a
      → b ≤ℤ exact
      → f.is_nan x ≡ false
      → f.is_inf x ≡ false
      → f.lt x (f.of_int a) ≡ false
      → f.lt (f.of_int b) x ≡ false
      → (a ≤ℤ f.to_int x) × (f.to_int x ≤ℤ b)

-- What Validate makes sure of.
record IsValid (f : Float64) (p : Policy f) : Type 0 where
  initial_positive : pos 1 ≤ℤ p.initial_backoff
  cap_above : p.initial_backoff ≤ℤ p.max_backoff
  at_least_one : f.lt p.multiplier (f.of_int (pos 1)) ≡ false
  number : f.is_nan p.multiplier ≡ false

validate-IsValid : (f : Float64) (p : Policy f) → validate f p ≡ none → IsValid f p
unfolding validate
validate-IsValid f p h = ground arith

module _ (f : Float64) (l : Laws f) where
  -- The test and the conversion at the end of Backoff, on any number that is not below `a`.
  capped :
      (a b : ℤ) (x : f.F)
      → pos 0 ≤ℤ a
      → a ≤ℤ b
      → b ≤ℤ exact
      → f.is_nan x ≡ false
      → f.lt x (f.of_int a) ≡ false
      → (a ≤ℤ (if f.is_inf x || f.lt (f.of_int b) x then b else f.to_int x))
        × ((if f.is_inf x || f.lt (f.of_int b) x then b else f.to_int x) ≤ℤ b)
  capped a b x h k m n g = ground (arith, l.to_int_between a b x h m n)

  -- Under a policy that Validate accepts, with a cap of at most 2^53 nanoseconds, the wait after any
  -- attempt lies between the initial backoff and the cap; so it is positive however large the
  -- attempt's number is.
  pub backoff_bounds :
      (p : Policy f) (attempt : ℤ)
      → validate f p ≡ none
      → p.max_backoff ≤ℤ exact
      → (p.initial_backoff ≤ℤ backoff f p attempt) × (backoff f p attempt ≤ℤ p.max_backoff)
  unfolding backoff
  backoff_bounds p attempt v m =
      let w = validate-IsValid f p v in
      let n = pos_part (exponent f attempt) in
      let g = l.pow_ge_one p.multiplier n w.at_least_one w.number in
      let d =
        l.mul_ge p.initial_backoff (f.pow p.multiplier (f.of_int (pos n))) w.initial_positive
          (omega (arith, w.cap_above)) g.0 g.1 in
      capped p.initial_backoff p.max_backoff _ (omega (arith, w.initial_positive)) w.cap_above m d.1
        d.0
