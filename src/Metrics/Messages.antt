-- ===== src/Metrics/Messages.antt =====
-- The counters of messages and dead letters against what Pipeline.Process did (internal/metrics,
-- internal/indexing/pipeline.go).
use near_real_time_hybrid_se.Common.{
  ◌≡◌, Bool, true, false, List, [], ◌∷◌, ◌++◌, Option, some, if◌then◌else◌,
}
use near_real_time_hybrid_se.Common.Bytes.{Bytes}
use near_real_time_hybrid_se.Errors.{Err}
use near_real_time_hybrid_se.Pipeline.{dead_lettered, cancelled, failed, Report, Pipeline}
use near_real_time_hybrid_se.Pipeline.Commit.{is_nil}
use near_real_time_hybrid_se.Metrics.{
  Series, kafka_messages, dlq_messages, dlq_errors, retry_exhausted, exhausted, count,
  record_message,
}

-- The messages that Process has ended, those that it left uncommitted, and those with one outcome.
abbrev pub is_ended : Series → Bool
is_ended (kafka_messages t (some o)) = true
is_ended _ = false

abbrev pub is_uncommitted : Series → Bool
is_uncommitted (kafka_messages t (some cancelled)) = true
is_uncommitted (kafka_messages t (some failed)) = true
is_uncommitted _ = false

abbrev pub is_dead : Series → Bool
is_dead (kafka_messages t (some dead_lettered)) = true
is_dead _ = false

abbrev pub is_failed : Series → Bool
is_failed (kafka_messages t (some failed)) = true
is_failed _ = false

abbrev pub is_letter : Series → Bool
is_letter (dlq_messages r) = true
is_letter _ = false

abbrev pub is_lost : Series → Bool
is_lost dlq_errors = true
is_lost _ = false

abbrev pub is_given_up : Series → Bool
is_given_up (dlq_messages exhausted) = true
is_given_up _ = false

abbrev pub is_exhausted : Series → Bool
is_exhausted (retry_exhausted k) = true
is_exhausted _ = false

-- The updates that PipelineObserver makes for the reports of one message.
unfoldable pub observed : Bytes → List Report → List Series
unfolding record_message
observed topic [] = []
observed topic (r ∷ rs) = record_message topic r ++ observed topic rs

-- One message is counted once; as uncommitted exactly if Process returned an error; the dead letters and
-- the exhausted retries agree with it.
abbrev pub Counted : List Series → Option Err → Type 0
Counted us e =
    (count is_ended us ≡ 1)
    × (count is_uncommitted us ≡ (if is_nil e then 0 else 1))
    × (count is_letter us ≡ count is_dead us)
    × (count is_lost us ≡ count is_failed us)
    × (count is_exhausted us ≡ count is_given_up us)
