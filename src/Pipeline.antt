-- ===== src/Pipeline.antt =====
-- internal/indexing/pipeline.go: decode, index with retries, dead-letter, and what may be committed.
-- `S` is the state of all that the pipeline calls: the stores, the dead-letter topic, the context and
-- the clock. The observer's calls are the list `reports`, without durations. Logging is left out.
pub mod Commit
use near_real_time_hybrid_se.Common.{
  ℕ, Bool, true, false, ◌&&◌, List, [], ◌∷◌, Option, none, some, if◌then◌else◌,
}
use near_real_time_hybrid_se.Common.Int.{ℤ}
use near_real_time_hybrid_se.Common.Bytes.{Bytes, codes}
use near_real_time_hybrid_se.Errors.{Err, Sentinel, wrap, wraps, cons, nil, is, is_some}
use near_real_time_hybrid_se.Retry.{
  Float64, Policy, Kind, unknown, retryable, non_retryable, Attempt, Result, Context, Runner,
  PolicyError, is_cancellation, run,
}
use near_real_time_hybrid_se.Retry
use near_real_time_hybrid_se.Classify.{classify_error}
use near_real_time_hybrid_se.Kafka.{Message}
use near_real_time_hybrid_se.Cdc.{Effect, no_effect}
use near_real_time_hybrid_se.Dlq.{Letter}
use near_real_time_hybrid_se.Dlq

pub data Outcome : Type 0 where
  indexed skipped dead_lettered cancelled failed : Outcome

pub record Report : Type 0 where
  pub outcome : Outcome
  pub effect : Effect
  pub attempts : ℕ
  pub error_kind : Kind
  pub err : Option Err

pub data Decoded (Event : Type 0) : Type 0 where
  decoded : Event → Decoded Event
  undecoded : Err → Decoded Event

-- Kind.String.
unfoldable pub kind_text : Kind → Bytes
kind_text retryable = codes "retryable"
kind_text non_retryable = codes "non_retryable"
kind_text unknown = codes "unknown"

pub record Processed (S : Type 0) : Type 0 where
  pub err : Option Err
  pub reports : List Report
  pub state : S

-- The context over a state with the variable `effect` of Process.
abbrev pub with_effect : {S : Type 0} → Context S → Context (S × Effect)
with_effect c = record {
  ctx_err = λ t. c.ctx_err t.0;
  sleep = λ d t. ((c.sleep d t.0).0, ((c.sleep d t.0).1, t.1));
}

-- A Pipeline. `error_text` is the Error method, `now` the clock, and `observe_retry` the function
-- registered with ObserveRetry.
pub record Pipeline (f : Float64) (Event S : Type 0) : Type 0 where
  pub decode : Bytes → Decoded Event
  pub index : Event → S → (Effect × Option Err) × S
  pub publish : Letter → S → Option Err × S
  pub policy : Policy f
  pub context : Context S
  pub observe_retry : Option (Attempt → S → S)
  pub error_text : Err → Bytes
  pub now : S → ℤ

module _ {f : Float64} {Event S : Type 0} (p : Pipeline f Event S) where
  -- The runner of NewPipeline, over the state of Process.
  unfoldable pub runner : Runner f (S × Effect)
  runner = record {
    policy = p.policy;
    classify = λ e. classify_error (some e);
    on_retry = some (λ a t. elim p.observe_retry [ none ↦ t | some g ↦ (g a t.0, t.1) ]);
  }

  -- The operation that Process hands to Do.
  unfoldable pub index_event : Event → S × Effect → Option Err × (S × Effect)
  index_event ev t = let ((fx, e), s') = p.index ev t.0 in (e, (s', fx))

  abbrev pub source_of : Message → Dlq.Source
  source_of msg = record {
    topic = msg.topic;
    partition = msg.partition;
    offset = msg.offset;
    key = msg.key;
    payload = msg.value;
  }

  abbrev pub letter_of : Message → Err → Kind → ℕ → S → Letter
  letter_of msg cause kind attempts s =
      Dlq.new (source_of msg) (some (p.error_text cause)) (kind_text kind) attempts (p.now s)

  abbrev pub report : Outcome → ℕ → Kind → Option Err → Report
  report o n k e = record { outcome = o; effect = no_effect; attempts = n; error_kind = k; err = e }

  unfoldable pub dead_letter : Message → Err → Kind → ℕ → S → Processed S
  dead_letter msg cause kind attempts s =
      let (e, s') = p.publish (letter_of msg cause kind attempts s) s in
      elim e [
        | none ↦ record {
          err = none;
          reports = report dead_lettered attempts kind (some cause) ∷ [];
          state = s';
        }
        | some x ↦ elim (p.context.ctx_err s') [
          | some y ↦ record {
            err = some (wrap y);
            reports = report cancelled attempts kind (some y) ∷ [];
            state = s';
          }
          | none ↦
              let joined = wraps (cons x (cons cause nil)) in
              record {
                err = some joined;
                reports = report failed attempts kind (some joined) ∷ [];
                state = s';
              }
        ]
      ]

  -- The end of Process, after Do returned `x` and left the state `s` and `fx` in the variable `effect`.
  unfoldable pub conclude : Message → Result → S → Effect → Processed S
  unfolding is_cancellation
  conclude msg x s fx = elim x.err [
    | none ↦ record {
      err = none;
      reports =
          record {
            outcome = indexed;
            effect = fx;
            attempts = x.attempts;
            error_kind = unknown;
            err = none;
          }
          ∷ [];
      state = s;
    }
    | some e ↦
        if is_cancellation e && is_some (p.context.ctx_err s)
        then record {
          err = some (wrap e);
          reports = report cancelled x.attempts unknown (some e) ∷ [];
          state = s;
        }
        else dead_letter msg e x.kind x.attempts s
  ]

  -- Process. `none` if the fuel of Do ran out.
  unfoldable pub process : Message → S → Option (Processed S)
  process msg s = elim (p.decode msg.value) [
    | undecoded e ↦ some (
        if is Sentinel.skip_message e
        then record { err = none; reports = report skipped 0 unknown none ∷ []; state = s }
        else dead_letter msg e non_retryable 0 s)
    | decoded ev ↦ elim (run f (with_effect p.context) runner (index_event ev) (s, no_effect)) [
      | none ↦ none
      | some (x, t) ↦ some (conclude msg x t.0 t.1)
    ]
  ]
