-- ===== src/Tests/MetricsTests.antt =====
-- The counters for one message, and for requests that return or panic.
use near_real_time_hybrid_se.Common.{◌≡◌, none, some, ℕ, true, refl, List, [], ◌∷◌}
use near_real_time_hybrid_se.Common.Bytes.{codes, bytes_eq}
use near_real_time_hybrid_se.Api.{Call, set_header, panicked}
use near_real_time_hybrid_se.Common.Int.{pos}
use near_real_time_hybrid_se.Hybrid.{Run, search}
use near_real_time_hybrid_se.Hybrid.Requests.{validate}
use near_real_time_hybrid_se.Common.Trim.{trim_space, is_empty}
use near_real_time_hybrid_se.Errors.{foreign, vector_store}
use near_real_time_hybrid_se.Cdc.Mapping.{err}
use near_real_time_hybrid_se.Kafka.Consumer.{Event, commit_failed}
use near_real_time_hybrid_se.Cdc.{update, indexed}
use near_real_time_hybrid_se.Metrics.{
  StageTimes, record_consumer_event, event_applied, store_called, kafka_errors, commit_error,
  indexing_events, indexing_duration, dependency_errors, dependency_requests, dependency_duration,
  qdrant, count, stage_name,
}
use near_real_time_hybrid_se.Metrics.Searches.{
  IsCounted, observed_search, is_dependency_error, embedder_failures, search-IsCounted,
}
use near_real_time_hybrid_se.Api.Middleware.{record_calls}
use near_real_time_hybrid_se.Metrics.Http.{measured}
use near_real_time_hybrid_se.Metrics.Http.Answers.{IsMissed, panic-IsMissed}
use near_real_time_hybrid_se.Tests.HybridTests.{scores, config, answered, utf8, request}
use near_real_time_hybrid_se.Tests.ApiTests.{brief, asked}

-- A handler that has set a header when it panics.
abbrev preamble : List Call
preamble = set_header (codes "Allow") (codes "GET") ∷ []

panic-IsMissed_example :
    IsMissed
      (measured scores brief
        (codes "u1")
        (asked [])
        (record { calls = preamble; end = panicked })).1
unfolding record_calls
panic-IsMissed_example = panic-IsMissed scores brief (codes "u1") (asked []) preamble refl

abbrev times : StageTimes
times = record { keyword = pos 3000; embedding = pos 4000; vector = pos 5000 }

-- The embedder fails.
abbrev unembedded : Run ℕ
unembedded = record answered { embed = λ t. err (foreign 1 true) }

search-IsCounted_example :
    let (answer, stats) = search config unembedded scores utf8 request in
    IsCounted answer (observed_search times stats)
    × (count is_dependency_error (observed_search times stats) ≡ embedder_failures times stats)
search-IsCounted_example = search-IsCounted config unembedded scores times utf8 request

-- The embedder's failure is counted; one of the vector index is not.
abbrev unsearched : Run ℕ
unsearched = record answered { vector_search = λ v n. err (foreign 2 true) }

failures :
    (count is_dependency_error
        (observed_search times (search config unembedded scores utf8 request).1)
      ≡ 1)
    × (count is_dependency_error
          (observed_search times (search config unsearched scores utf8 request).1)
        ≡ 0)
unfolding search observed_search count validate trim_space is_empty stage_name bytes_eq
failures = (refl, refl)

-- What the observers count of a failed commit, of an event and of a failed upsert.
abbrev commit_failure : Event
commit_failure = record {
  kind = commit_failed;
  topic = codes "documents";
  err = some (foreign 1 true);
}

updates :
    (record_consumer_event commit_failure ≡ kafka_errors commit_error ∷ [])
    × (event_applied update indexed none none
        ≡ indexing_events (some update) (some indexed) ∷ indexing_duration (some update) ∷ [])
    × (store_called vector_store (codes "upsert") (some (foreign 1 true))
        ≡ dependency_errors qdrant (codes "upsert")
          ∷ dependency_requests qdrant (codes "upsert") true
          ∷ dependency_duration qdrant (codes "upsert")
          ∷ [])
unfolding record_consumer_event event_applied store_called
updates = (refl, refl, refl)
