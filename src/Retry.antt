-- ===== src/Retry.antt =====
-- internal/retry/retry.go: the retry policy, the backoff and the loop of Runner.Do.
-- A Duration is the ℤ of its nanoseconds. Floating point is not in the language: its operations are
-- a parameter, with the laws of IEEE 754 that the code relies on in Retry/Backoff. What `ctx`, the
-- timer and the operation do is a state `S` that the calls pass on.
pub mod Backoff
pub mod Runs
pub mod Success
use near_real_time_hybrid_se.Common.{
  ℕ, zero, suc, ◌+◌, ◌-◌, Bool, true, false, not, ◌||◌, ◌⊎◌, inl, inr, Option, none, some,
  if◌then◌else◌,
}
use near_real_time_hybrid_se.Common.Int.{ℤ, pos, pos_part, ltb_ℤ, leb_ℤ}
use near_real_time_hybrid_se.Errors.{Err, Sentinel, is}

pub data Kind : Type 0 where
  unknown retryable non_retryable : Kind

unfoldable pub should_retry : Kind → Bool
should_retry non_retryable = false
should_retry _ = true

-- float64, as the code uses it. `pow` is math.Pow and `to_int` is the conversion to an integer.
pub record Float64 : Type 1 where
  pub F : Type 0
  pub of_int : ℤ → F
  pub to_int : F → ℤ
  pub mul : F → F → F
  pub pow : F → F → F
  pub lt : F → F → Bool
  pub is_inf : F → Bool
  pub is_nan : F → Bool

pub data PolicyError : Type 0 where
  too_few_attempts initial_not_positive cap_below_initial : PolicyError
  multiplier_below_one multiplier_not_number : PolicyError

-- `delay` in nanoseconds.
pub record Attempt : Type 0 where
  pub number : ℕ
  pub delay : ℤ
  pub kind : Kind
  pub err : Err

pub record Result : Type 0 where
  pub attempts : ℕ
  pub kind : Kind
  pub err : Option Err

unfoldable pub succeeded : Result → Bool
succeeded r = elim r.err [ none ↦ true | some e ↦ false ]

unfoldable pub is_cancellation : Err → Bool
is_cancellation e = is Sentinel.canceled e || is Sentinel.deadline_exceeded e

-- What the loop meets outside: `ctx.Err()`, the timer of Wait against `ctx.Done()`
-- (`true` if the timer fires first), and the operation.
pub record Context (S : Type 0) : Type 0 where
  pub ctx_err : S → Option Err
  pub sleep : ℤ → S → Bool × S

module _ {S : Type 0} (c : Context S) where
  unfoldable pub wait : ℤ → S → Option Err × S
  wait d s =
      if leb_ℤ d (pos 0)
      then (c.ctx_err s, s)
      else let (fired, s') = c.sleep d s in if fired then (none, s') else (c.ctx_err s', s')

module _ (f : Float64) where
  pub record Policy : Type 0 where
    pub max_attempts : ℤ
    pub initial_backoff : ℤ
    pub max_backoff : ℤ
    pub multiplier : f.F

  unfoldable pub validate : Policy → Option PolicyError
  validate p =
      if ltb_ℤ p.max_attempts (pos 1)
      then some too_few_attempts
      else if leb_ℤ p.initial_backoff (pos 0)
      then some initial_not_positive
      else if ltb_ℤ p.max_backoff p.initial_backoff
      then some cap_below_initial
      else if f.lt p.multiplier (f.of_int (pos 1))
      then some multiplier_below_one
      else if f.is_inf p.multiplier || f.is_nan p.multiplier
      then some multiplier_not_number
      else none

  -- attempt - 1, after the attempt is raised to at least 1.
  unfoldable pub exponent : ℤ → ℤ
  exponent attempt =
      let n = if ltb_ℤ attempt (pos 1) then pos 1 else attempt in pos (pos_part n - 1)

  unfoldable pub backoff : Policy → ℤ → ℤ
  unfolding exponent
  backoff p attempt =
      let growth = f.pow p.multiplier (f.of_int (exponent attempt)) in
      let delay = f.mul (f.of_int p.initial_backoff) growth in
      if f.is_inf delay || f.lt (f.of_int p.max_backoff) delay
      then p.max_backoff
      else f.to_int delay

  pub record Runner (S : Type 0) : Type 0 where
    pub policy : Policy
    pub classify : Err → Kind
    pub on_retry : Option (Attempt → S → S)

  -- New: a nil classifier treats every error as Unknown.
  unfoldable pub new :
      {S : Type 0}
      → Policy
      → Option (Err → Kind)
      → Option (Attempt → S → S)
      → Option PolicyError × Option (Runner S)
  unfolding validate
  new p classify on_retry = elim (validate p) [
    | some e ↦ (some e, none)
    | none ↦ (
      none,
      some (record {
        policy = p;
        classify = elim classify [ none ↦ λ _. unknown | some g ↦ g ];
        on_retry = on_retry;
      }),
    )
  ]

  -- Runner.Classify.
  unfoldable pub classify_result : {S : Type 0} → Runner S → Option Err → Kind
  classify_result r none = unknown
  classify_result r (some e) = r.classify e

  module _ {S : Type 0} (c : Context S) (r : Runner S) (op : S → Option Err × S) where
    -- The call of `onRetry`, if there is one.
    unfoldable pub notify : Attempt → S → S
    notify a s = elim r.on_retry [ none ↦ s | some g ↦ g a s ]

    -- What a round of Do does after `op` failed with `e`: it ends the loop, or leaves the state in
    -- which the next round starts.
    unfoldable pub after_failure : ℕ → Err → S → (Result × S) ⊎ S
    unfolding should_retry notify
    after_failure n e s = elim (c.ctx_err s) [
      | some x ↦ inl (record { attempts = n; kind = r.classify e; err = some x }, s)
      | none ↦
          let kind = r.classify e in
          if not (should_retry kind) || leb_ℤ r.policy.max_attempts (pos n)
          then inl (record { attempts = n; kind = kind; err = some e }, s)
          else let delay = backoff r.policy (pos n) in
            let a : Attempt = record { number = n; delay = delay; kind = kind; err = e } in
            let (stopped, s') = wait c delay (notify a s) in
            elim stopped [
              | some x ↦ inl (record { attempts = n; kind = kind; err = some x }, s')
              | none ↦ inr s'
            ]
    ]

    -- The body of the loop of Do, in the round with number `n`.
    unfoldable pub round : ℕ → S → (Result × S) ⊎ S
    unfolding after_failure
    round n s =
        let (failed, s') = op s in
        elim failed [
          | none ↦ inl (record { attempts = n; kind = unknown; err = none }, s')
          | some e ↦ after_failure n e s'
        ]

    -- The loop of Do on fuel. `none` means that the fuel ran out.
    unfoldable pub rounds : ℕ → ℕ → S → Option (Result × S)
    rounds zero n s = none
    rounds (suc fuel) n s = elim (round n s) [
      | inl done ↦ some done
      | inr s' ↦ rounds fuel (suc n) s'
    ]

    -- Runner.Do. The fuel is one more than the policy's attempts.
    unfoldable pub run : S → Option (Result × S)
    run = rounds (suc (pos_part r.policy.max_attempts)) 1
