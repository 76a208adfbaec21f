-- ===== src/Retry/Success.antt =====
-- Runner.Do against an operation that fails a few times and then works, and how often it is called.
use near_real_time_hybrid_se.Common.{
  ap, ◌∙◌, ℕ, zero, suc, ◌+◌, ◌<◌, ◌≡◌, ◌≢◌, refl, ◌⊎◌, inl, inr, Option, none, some, arith,
}
use near_real_time_hybrid_se.Common.Int.{pos, pos_part, ◌≤ℤ◌, ◌<ℤ◌}
use near_real_time_hybrid_se.Errors.{Err}
use near_real_time_hybrid_se.Retry.{
  Float64, Context, Runner, Result, Attempt, unknown, non_retryable, validate, wait, backoff,
  notify, round, rounds, run,
}
use near_real_time_hybrid_se.Retry.Runs.{
  Returns, Returns-mono, round_attempts, round_continues, validate-attempts,
}

module _ (f : Float64) {S : Type 0} (c : Context S) (r : Runner f S) (op : S → Option Err × S) where
  -- The notice of a failed attempt.
  abbrev pub attempt_of : ℕ → Err → Attempt
  attempt_of n e = record {
    number = n;
    delay = backoff f r.policy (pos n);
    kind = r.classify e;
    err = e;
  }

  -- From `s`, in round `n`, the operation fails `k` times in a way that may be retried, no wait is
  -- interrupted, and then it works and leaves `s'`.
  pub data Recovers : ℕ → ℕ → S → S → Type 0 where
    works : {n : ℕ} {s s' : S} → op s ≡ (none, s') → Recovers n zero s s'
    fails :
        {n k : ℕ} {s s₁ s₂ s' : S} (e : Err)
        → op s ≡ (some e, s₁)
        → c.ctx_err s₁ ≡ none
        → r.classify e ≢ non_retryable
        → wait c (backoff f r.policy (pos n)) (notify f c r op (attempt_of n e) s₁) ≡ (none, s₂)
        → Recovers (suc n) k s₂ s'
        → Recovers n (suc k) s s'

  round_works :
      (n : ℕ) (s s' : S)
      → op s ≡ (none, s')
      → round f c r op n s ≡ inl (record { attempts = n; kind = unknown; err = none }, s')
  unfolding round
  round_works n s s' h = ground arith

  round_fails :
      (n : ℕ) (s s₁ s₂ : S) (e : Err)
      → pos n <ℤ r.policy.max_attempts
      → op s ≡ (some e, s₁)
      → c.ctx_err s₁ ≡ none
      → r.classify e ≢ non_retryable
      → wait c (backoff f r.policy (pos n)) (notify f c r op (attempt_of n e) s₁) ≡ (none, s₂)
      → round f c r op n s ≡ inr s₂
  unfolding round
  round_fails n s s₁ s₂ e b h x k w = ground arith

  rounds_recover :
      {n k : ℕ} {s s' : S} (fuel : ℕ)
      → Recovers n k s s'
      → pos (n + k) ≤ℤ r.policy.max_attempts
      → k < fuel
      → rounds f c r op fuel n s
        ≡ some (record { attempts = n + k; kind = unknown; err = none }, s')
  unfolding rounds
  rounds_recover zero w h b = absurd (omega arith)
  rounds_recover {n} {s} {s'} (suc fuel) (works h) m b = ground (arith, round_works n s s' h)
  rounds_recover {n} {s} {s'} (suc fuel) (fails {k = k} {s₁ = s₁} {s₂ = s₂} e h x q w rest) m b =
      ground (
        arith,
        round_fails n s s₁ s₂ e (omega arith) h x q w,
        rounds_recover {n = suc n} {k = k} {s = s₂} {s' = s'} fuel rest (omega arith) (omega arith),
      )

-- Do hides up to `max_attempts - 1` failures: an operation that fails `k` times and then works is
-- reported as a success after `k + 1` attempts, in the state that the working call leaves.
pub run-Recovers :
    (f : Float64) {S : Type 0} (c : Context S) (r : Runner f S) (op : S → Option Err × S) (k : ℕ)
    (s s' : S)
    → Recovers f c r op 1 k s s'
    → pos (suc k) ≤ℤ r.policy.max_attempts
    → run f c r op s ≡ some (record { attempts = suc k; kind = unknown; err = none }, s')
unfolding run
run-Recovers f c r op k s s' w h = ground (
  arith,
  rounds_recover f c r op (suc (pos_part r.policy.max_attempts)) w (omega arith) (omega arith),
)

-- The operation, context and runner over a state with a count of the calls of the operation.
abbrev pub count_op : {S : Type 0} → (S → Option Err × S) → S × ℕ → Option Err × (S × ℕ)
count_op op (s, m) = let (e, s') = op s in (e, (s', suc m))

abbrev pub count_context : {S : Type 0} → Context S → Context (S × ℕ)
count_context c = record {
  ctx_err = λ t. c.ctx_err t.0;
  sleep = λ d t. ((c.sleep d t.0).0, ((c.sleep d t.0).1, t.1));
}

abbrev pub count_runner : {S : Type 0} (f : Float64) → Runner f S → Runner f (S × ℕ)
count_runner f r = record {
  policy = r.policy;
  classify = r.classify;
  on_retry = elim r.on_retry [ none ↦ none | some g ↦ some (λ a t. (g a t.0, t.1)) ];
}

module _ (f : Float64) {S : Type 0} (c : Context S) (r : Runner f S) (op : S → Option Err × S) where
  -- One round calls the operation once.
  round_calls :
      (n : ℕ) (s : S) (m : ℕ)
      → ((t : S × ℕ)
          → round f (count_context c) (count_runner f r) (count_op op) n (s, m) ≡ inr t
          → t.1 ≡ suc m)
        × ((x : Result) (t : S × ℕ)
            → round f (count_context c) (count_runner f r) (count_op op) n (s, m) ≡ inl (x, t)
            → t.1 ≡ suc m)
  unfolding round wait notify
  round_calls n s m = (λ t h. ground arith, λ x t h. ground arith)

  rounds_calls :
      (fuel n : ℕ) (t : S × ℕ)
      → pos n ≤ℤ r.policy.max_attempts
      → pos_part r.policy.max_attempts < n + fuel
      → Returns
          (λ x t'. t'.1 + n ≡ suc (t.1 + x.attempts))
          (rounds f (count_context c) (count_runner f r) (count_op op) fuel n t)
  unfolding rounds
  rounds_calls zero n t h k = omega arith
  rounds_calls (suc fuel) n t h k =
      go (round f (count_context c) (count_runner f r) (count_op op) n t) refl (λ t' e.
        let b = round_continues f (count_context c) (count_runner f r) (count_op op) n t t' e in
        rounds_calls fuel (suc n) t' (omega arith) (omega arith))
    where
      go :
          (o : (Result × (S × ℕ)) ⊎ (S × ℕ))
          → round f (count_context c) (count_runner f r) (count_op op) n t ≡ o
          → ((t' : S × ℕ)
              → round f (count_context c) (count_runner f r) (count_op op) n t ≡ inr t'
              → Returns
                  (λ x t''. t''.1 + suc n ≡ suc (t'.1 + x.attempts))
                  (rounds f (count_context c) (count_runner f r) (count_op op) fuel (suc n) t'))
          → Returns
              (λ x t'. t'.1 + n ≡ suc (t.1 + x.attempts))
              (elim o [
                | inl done ↦ some done
                | inr t' ↦
                    rounds f (count_context c) (count_runner f r) (count_op op) fuel (suc n) t'
              ])
      go (inl (x, t')) e ih = omega (
        arith,
        (round_calls n t.0 t.1).1 x t' e,
        round_attempts f (count_context c) (count_runner f r) (count_op op) n t e,
      )
      go (inr t') e ih =
          Returns-mono (λ x t''. t''.1 + suc n ≡ suc (t'.1 + x.attempts)) _ (ih t' e)
            λ x t'' q. omega (arith, (round_calls n t.0 t.1).0 t' e)

-- The operation is called exactly as often as the result says, under any policy that New accepts.
pub run_calls :
    (f : Float64) {S : Type 0} (c : Context S) (r : Runner f S) (op : S → Option Err × S) (s : S)
    → validate f r.policy ≡ none
    → Returns
        (λ x t. t.1 ≡ x.attempts)
        (run f (count_context c) (count_runner f r) (count_op op) (s, 0))
unfolding run
run_calls f c r op s v =
    Returns-mono (λ x t. t.1 + 1 ≡ suc (0 + x.attempts)) _
      (rounds_calls f c r op _ 1 (s, 0) (validate-attempts f r.policy v) (omega arith))
      λ x t q. omega arith

module _ (f : Float64) {S : Type 0} (c : Context S) (r : Runner f S) (op : S → Option Err × S) where
  round_success :
      (n : ℕ) (s : S) {x : Result} {s' : S}
      → round f c r op n s ≡ inl (x, s')
      → x.err ≡ none
      → op s ≡ (none, s')
  unfolding round
  round_success n s h k = ground arith

  rounds_success :
      (fuel n : ℕ) (s : S) (x : Result) (s' : S)
      → rounds f c r op fuel n s ≡ some (x, s')
      → x.err ≡ none
      → (s₀ : S) × (op s₀ ≡ (none, s'))
  unfolding rounds
  rounds_success zero n s x s' h k = cc
  rounds_success (suc fuel) n s x s' h k =
      go (round f c r op n s) refl h (λ s₁ q. rounds_success fuel (suc n) s₁ x s' q k)
    where
      go :
          (o : (Result × S) ⊎ S)
          → round f c r op n s ≡ o
          → elim o [ inl done ↦ some done | inr s₁ ↦ rounds f c r op fuel (suc n) s₁ ]
            ≡ some (x, s')
          → ((s₁ : S)
              → rounds f c r op fuel (suc n) s₁ ≡ some (x, s')
              → (s₀ : S) × (op s₀ ≡ (none, s')))
          → (s₀ : S) × (op s₀ ≡ (none, s'))
      go (inl (y, t)) e q ih =
          let u : ◌≡◌ {A = Result × S} (y, t) (x, s') = cc in
          (s, round_success n s {x = x} {s' = s'} (e ∙ ap inl u) k)
      go (inr s₁) e q ih = ih s₁ q

  -- A run that is reported as a success ended with a call of the operation that worked.
  pub run_success :
      (s : S) (x : Result) (s' : S)
      → run f c r op s ≡ some (x, s')
      → x.err ≡ none
      → (s₀ : S) × (op s₀ ≡ (none, s'))
  unfolding run
  run_success s x s' = rounds_success _ 1 s x s'
