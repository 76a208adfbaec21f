-- ===== src/Metrics.antt =====
-- internal/metrics: what the observers count. A call of Inc or Observe on a series is one update, and the
-- value of a counter, or the number of a histogram's observations, is the number of its updates. The
-- values of labels that the source takes from a type's constants are that type here. How the series are
-- registered, their texts and buckets, and what a histogram observes are left out, as are the gauges.
pub mod Messages
pub mod Searches
pub mod Http
use near_real_time_hybrid_se.Common.{
  ℕ, zero, suc, ◌+◌, Bool, true, false, List, [], ◌∷◌, ◌++◌, Option, none, some, leb, if◌then◌else◌,
}
use near_real_time_hybrid_se.Common.Int.{ℤ, pos, leb_ℤ}
use near_real_time_hybrid_se.Common.Bytes.{Bytes, bytes_eq, codes}
use near_real_time_hybrid_se.Errors.{
  Err, Store, keyword_store, vector_store, embedder_store, Stage, keyword_stage, embedding_stage,
  vector_stage, fusion_stage, is_some,
}
use near_real_time_hybrid_se.Retry.{Kind, unknown, retryable, non_retryable, Attempt}
use near_real_time_hybrid_se.Kafka.Consumer.{
  Event, EventKind, fetched, fetch_failed, committed, commit_failed,
}
use near_real_time_hybrid_se.Cdc.{Operation, create, update, delete, read, other_operation, Effect}
use near_real_time_hybrid_se.Pipeline.{
  Outcome, indexed, skipped, dead_lettered, cancelled, failed, Report,
}
use near_real_time_hybrid_se.Hybrid.{SearchStats}

pub data Dependency : Type 0 where
  opensearch qdrant embedder unknown_dependency : Dependency

pub data Reason : Type 0 where
  not_retryable exhausted : Reason

pub data ErrorType : Type 0 where
  commit_error fetch_error process_error : ErrorType

pub data SearchStatus : Type 0 where
  success cancelled_search failed_search : SearchStatus

-- The labels of an operation and of an effect; `none` is "unknown" and "failed".
abbrev pub OperationLabel : Type 0
OperationLabel = Option Operation

abbrev pub EffectLabel : Type 0
EffectLabel = Option Effect

-- `kafka_messages t none` is the outcome "consumed"; the flag of `dependency_requests` is whether the
-- call failed.
pub data Series : Type 0 where
  http_requests : Bytes → Bytes → ℕ → Series
  http_duration : Bytes → Bytes → Series
  http_responses : Bytes → ℕ → Series
  search_requests search_duration : SearchStatus → Series
  search_errors : Option Stage → Series
  search_results : Series
  dependency_requests : Dependency → Bytes → Bool → Series
  dependency_duration dependency_errors : Dependency → Bytes → Series
  kafka_messages : Bytes → Option Outcome → Series
  kafka_processing : Bytes → Series
  kafka_commits : Series
  kafka_errors : ErrorType → Series
  retries retry_exhausted : Kind → Series
  retry_delay : Series
  dlq_messages : Reason → Series
  dlq_errors : Series
  indexing_events : OperationLabel → EffectLabel → Series
  indexing_duration : OperationLabel → Series
  indexing_errors : Dependency → Series

-- The number of updates that pass a test.
unfoldable pub count : (Series → Bool) → List Series → ℕ
count p [] = 0
count p (u ∷ us) = (if p u then 1 else 0) + count p us

-- RecordDeadLetter and RecordDeadLetterFailure.
abbrev pub record_dead_letter : Reason → List Series
record_dead_letter r = dlq_messages r ∷ []

abbrev pub record_dead_letter_failure : List Series
record_dead_letter_failure = dlq_errors ∷ kafka_errors process_error ∷ []

unfoldable pub dead_letter_reason : Kind → Reason
dead_letter_reason non_retryable = not_retryable
dead_letter_reason _ = exhausted

-- The counter of exhausted retries, which is left alone for errors that are not retried.
unfoldable pub record_exhausted : Kind → List Series
record_exhausted non_retryable = []
record_exhausted k = retry_exhausted k ∷ []

-- The switch of RecordMessage.
unfoldable pub record_outcome : Outcome → Kind → List Series
unfolding dead_letter_reason record_exhausted
record_outcome dead_lettered k = record_dead_letter (dead_letter_reason k) ++ record_exhausted k
record_outcome failed k = record_dead_letter_failure
record_outcome _ k = []

-- RecordMessage, with the topic of PipelineObserver.
unfoldable pub record_message : Bytes → Report → List Series
unfolding record_outcome
record_message topic r =
    kafka_messages topic (some r.outcome)
    ∷ kafka_processing topic
    ∷ record_outcome r.outcome r.error_kind

-- RecordConsumerEvent and RecordRetry.
unfoldable pub record_consumer_event : Event → List Series
record_consumer_event ev = elim ev.kind [
  | fetched ↦ kafka_messages ev.topic none ∷ []
  | committed ↦ kafka_commits ∷ []
  | commit_failed ↦ kafka_errors commit_error ∷ []
  | fetch_failed ↦ kafka_errors fetch_error ∷ []
]

unfoldable pub record_retry : Attempt → List Series
record_retry a = retries a.kind ∷ retry_delay ∷ []

-- RecordDependency.
unfoldable pub record_dependency : Dependency → Bytes → Bool → List Series
record_dependency d op was_failed =
    (if was_failed then dependency_errors d op ∷ [] else [])
    ++ (dependency_requests d op was_failed ∷ dependency_duration d op ∷ [])

-- dependencyName; `none` is an event whose store is "".
unfoldable pub dependency_name : Option Store → Dependency
dependency_name none = unknown_dependency
dependency_name (some keyword_store) = opensearch
dependency_name (some vector_store) = qdrant
dependency_name (some embedder_store) = embedder

unfoldable pub operation_label : Operation → OperationLabel
operation_label (other_operation _) = none
operation_label op = some op

-- cdcObserver.StoreCalled and EventApplied.
unfoldable pub store_called : Store → Bytes → Option Err → List Series
unfolding dependency_name record_dependency
store_called store operation e =
    record_dependency (dependency_name (some store)) operation (is_some e)

unfoldable pub event_applied : Operation → Effect → Option Store → Option Err → List Series
unfolding operation_label dependency_name
event_applied op effect store e =
    let label = operation_label op in
    indexing_events label (if is_some e then none else some effect)
    ∷ indexing_duration label
    ∷ (if is_some e then indexing_errors (dependency_name store) ∷ [] else [])

-- searchStatus.
unfoldable pub search_status : SearchStats → SearchStatus
search_status st = elim st.err [
  | none ↦ success
  | some e ↦ if st.cancelled then cancelled_search else failed_search
]

-- The names that the search service gives its stages, which an error's stage is reported by.
unfoldable pub stage_name : Stage → Bytes
stage_name keyword_stage = codes "keyword_search"
stage_name embedding_stage = codes "embedding"
stage_name vector_stage = codes "vector_search"
stage_name fusion_stage = codes "fusion"

-- Whether the reported stage has this name; a search that reports none has "".
unfoldable pub same_stage : Option Stage → Bytes → Bool
unfolding stage_name bytes_eq
same_stage none name = bytes_eq [] name
same_stage (some stage) name = bytes_eq (stage_name stage) name

-- recordSearchStage, for a stage that took `took`.
unfoldable pub record_search_stage : SearchStats → Dependency → Bytes → ℤ → Bytes → List Series
unfolding record_dependency same_stage
record_search_stage st d op took stage =
    if leb_ℤ took (pos 0) then [] else record_dependency d op (same_stage st.stage stage)

-- How long the parts of a search took.
pub record StageTimes : Type 0 where
  pub keyword : ℤ
  pub embedding : ℤ
  pub vector : ℤ

-- The switch of RecordSearch.
unfoldable pub record_search_outcome : SearchStatus → SearchStats → List Series
record_search_outcome success st = search_results ∷ []
record_search_outcome cancelled_search st = []
record_search_outcome failed_search st = search_errors st.stage ∷ []

-- RecordSearch.
unfoldable pub record_search : StageTimes → SearchStats → List Series
unfolding search_status record_search_stage record_search_outcome
record_search t st =
    let outcome = search_status st in
    search_requests outcome
    ∷ search_duration outcome
    ∷ (record_search_outcome outcome st
        ++ (record_search_stage st opensearch (codes "search") t.keyword (codes "keyword")
            ++ (record_search_stage st embedder (codes "embed") t.embedding (codes "embedding")
                ++ record_search_stage st qdrant (codes "search") t.vector (codes "vector"))))
