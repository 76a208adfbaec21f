-- ===== src/Kafka/Consumer.antt =====
-- internal/kafka/consumer.go: the loop of Consumer.Run, track, and the `done` callback of a message.
-- The reader of kafka-go and the submit function are parameters over a state `S`, in which `ctx_err` is
-- what `ctx.Err()` says and `retry_wait` the select between the context's end, `true`, and the delay.
-- Submit may finish messages, so it passes on the offset tracker too. Logging is left out.
use near_real_time_hybrid_se.Common.{
  ℕ, zero, suc, Bool, List, [], ◌∷◌, ◌++◌, Option, none, some, leb, ◌⊎◌, inl, inr, if◌then◌else◌,
}
use near_real_time_hybrid_se.Common.Bytes.{Bytes}
use near_real_time_hybrid_se.Errors.{Err, wrap}
use near_real_time_hybrid_se.Kafka.{Message, TopicPartition, Tracker, add, mark_done}

abbrev pub max_fetch_failures : ℕ
max_fetch_failures = 10

pub data EventKind : Type 0 where
  fetched fetch_failed committed commit_failed : EventKind

pub record Event : Type 0 where
  pub kind : EventKind
  pub topic : Bytes
  pub err : Option Err

pub data Fetch : Type 0 where
  message : Message → Fetch
  fetch_error : Err → Fetch

-- The offset tracker, the rest of the world, and the events reported so far.
pub record State (S : Type 0) : Type 0 where
  pub offsets : Tracker
  pub world : S
  pub events : List Event

pub record Consumer (S : Type 0) : Type 0 where
  pub topic : Bytes
  pub fetch : S → Fetch × S
  pub ctx_err : S → Option Err
  pub retry_wait : S → Bool × S
  pub commit : TopicPartition → ℕ → S → Option Err × S
  pub submit : Message → State S → Option Err × State S

abbrev pub key_of : Message → TopicPartition
key_of m = record { topic = m.topic; partition = m.partition }

module _ {S : Type 0} (c : Consumer S) where
  unfoldable pub report : EventKind → Bytes → Option Err → State S → State S
  report k t e s = record s { events = s.events ++ (record { kind = k; topic = t; err = e } ∷ []) }

  -- The callback of a message, with the partition and the offset that it keeps.
  unfoldable pub done : TopicPartition → ℕ → State S → State S
  unfolding mark_done report
  done k offset s =
      let (t, (o, ready)) = mark_done s.offsets k offset in
      let s' : State S = record s { offsets = t } in
      if ready
      then (let (e, w) = c.commit k o s'.world in
          let s'' : State S = record s' { world = w } in
          elim e [
            | some x ↦ report commit_failed k.topic (some x) s''
            | none ↦ report committed k.topic none s''
          ])
      else s'

  -- What a round of Run does when the fetch failed; `failures` counts the ones before it.
  unfoldable pub after_fetch_error : ℕ → Err → State S → (Option Err ⊎ ℕ) × State S
  unfolding report
  after_fetch_error failures e s = elim (c.ctx_err s.world) [
    | some x ↦ (inl none, s)
    | none ↦
        let s' = report fetch_failed c.topic (some e) s in
        if leb max_fetch_failures (suc failures)
        then (inl (some (wrap e)), s')
        else let (ended, w) = c.retry_wait s'.world in
          let s'' : State S = record s' { world = w } in
          if ended then (inl none, s'') else (inr (suc failures), s'')
  ]

  -- The message of track is handed to submit.
  unfoldable pub after_fetch : Message → State S → (Option Err ⊎ ℕ) × State S
  unfolding report add
  after_fetch m s =
      let s' = report fetched m.topic none s in
      let (e, s'') = c.submit m (record s' { offsets = add s'.offsets (key_of m) m.offset }) in
      elim e [
        | none ↦ (inr 0, s'')
        | some x ↦ elim (c.ctx_err s''.world) [
          | some y ↦ (inl none, s'')
          | none ↦ (inl (some (wrap x)), s'')
        ]
      ]

  -- The body of the loop of Run: it ends with a result, or goes on with a count of failures.
  unfoldable pub round : ℕ → State S → (Option Err ⊎ ℕ) × State S
  unfolding after_fetch_error after_fetch
  round failures s =
      let (r, w) = c.fetch s.world in
      let s' : State S = record s { world = w } in
      elim r [ fetch_error e ↦ after_fetch_error failures e s' | message m ↦ after_fetch m s' ]

  -- The loop on fuel; none while it still runs.
  unfoldable pub rounds : ℕ → ℕ → State S → Option (Option Err × State S)
  unfolding round
  rounds zero failures s = none
  rounds (suc fuel) failures s =
      let (out, s') = round failures s in
      elim out [ inl x ↦ some (x, s') | inr n ↦ rounds fuel n s' ]
