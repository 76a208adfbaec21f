-- ===== src/Tests/ConfigTests.antt =====
-- Load with the required variables set, and with two of them missing.
use near_real_time_hybrid_se.Common.{
  ℕ, ◌≡◌, ◌↔◌, inl, inr, refl, sym, subst, List, [], ◌∷◌, In, none, some, if◌then◌else◌,
}
use near_real_time_hybrid_se.Common.Int.{ℤ, pos, ◌<ℤ◌, ◌≤ℤ◌}
use near_real_time_hybrid_se.Common.Bytes.{Bytes, bytes_eq, codes}
use near_real_time_hybrid_se.Common.Trim.{trim_space}
use near_real_time_hybrid_se.Tests.Floats.{integers}
use near_real_time_hybrid_se.Pool.{per_worker}
use near_real_time_hybrid_se.Retry
use near_real_time_hybrid_se.Hybrid.Requests.{validate_config, max_candidates}
use near_real_time_hybrid_se.Config.{Config}
use near_real_time_hybrid_se.Config.Env.{ConfigError, required, invalid, Sys, split_commas}
use near_real_time_hybrid_se.Config.Load.{load}
use near_real_time_hybrid_se.Config.Accepted.{retry_policy, load_fits}
use near_real_time_hybrid_se.Config.Missing.{missing_reported}

-- An environment, as an association list.
unfoldable value_of : List (Bytes × Bytes) → Bytes → Bytes
value_of [] key = []
value_of (x ∷ xs) key = if bytes_eq x.0 key then x.1 else value_of xs key

-- Durations and numbers do not parse; a URL has the scheme http, and stands for its own host.
abbrev system : List (Bytes × Bytes) → Sys ℤ
system vars = record {
  getenv = value_of vars;
  atoi = λ b. none;
  parse_float = λ b. none;
  parse_duration = λ b. none;
  parse_bool = λ b. none;
  parse_level = λ b. none;
  parse_url = λ b. some (record { scheme = codes "http"; host = b; hostname = b; port = [] });
  to_lower = λ b. b;
}

abbrev vars : List (Bytes × Bytes)
vars =
    (codes "DATABASE_URL", codes "db")
    ∷ (codes "KAFKA_BROKERS", codes "a, b,")
    ∷ (codes "KAFKA_TOPIC", codes "documents")
    ∷ (codes "KAFKA_CONSUMER_GROUP", codes "indexers")
    ∷ (codes "OPENSEARCH_URL", codes "opensearch")
    ∷ (codes "QDRANT_URL", codes " qdrant ")
    ∷ []

unfoldable loaded : (c : Config ℤ) × (load integers (system vars) ≡ inr c)
unfolding load value_of bytes_eq
loaded = (_, refl)

load_fits_example :
    (Retry.validate integers (retry_policy integers loaded.0.kafka.retry) ≡ none)
    × ((cap : ℕ) × (per_worker loaded.0.indexing.workers loaded.0.indexing.queue_size ≡ some cap))
    × (loaded.0.qdrant.vector_size ≡ loaded.0.embedding.dimension)
    × (loaded.0.search.timeout <ℤ loaded.0.server.write_timeout)
    × ((validate_config loaded.0.search ≡ none)
        ↔ (loaded.0.search.candidate_limit ≤ℤ max_candidates))
load_fits_example = load_fits integers (system vars) loaded.1

-- The default of the dead-letter topic, the brokers and the endpoint of Qdrant.
settings :
    (loaded.0.kafka.dlq_topic ≡ codes "documents.dlq")
    × (loaded.0.kafka.brokers ≡ codes "a" ∷ codes "b" ∷ [])
    × (loaded.0.qdrant.host ≡ codes "qdrant")
    × (loaded.0.qdrant.port ≡ pos 6334)
unfolding loaded
settings = (refl, refl, refl, refl)

-- Without a broker and OPENSEARCH_URL, and with a limit that does not parse.
abbrev broken : List (Bytes × Bytes)
broken =
    (codes "DATABASE_URL", codes "db")
    ∷ (codes "KAFKA_BROKERS", codes " , ")
    ∷ (codes "KAFKA_TOPIC", codes "documents")
    ∷ (codes "KAFKA_CONSUMER_GROUP", codes "indexers")
    ∷ (codes "QDRANT_URL", codes "qdrant")
    ∷ (codes "SEARCH_MAX_LIMIT", codes "x")
    ∷ []

refused :
    load integers (system broken)
    ≡ inl (
        required (codes "KAFKA_BROKERS")
        ∷ required (codes "OPENSEARCH_URL")
        ∷ invalid (codes "SEARCH_MAX_LIMIT")
        ∷ [])
unfolding load value_of bytes_eq
refused = refl

-- Both items of KAFKA_BROKERS are one space.
both_blank : (x : Bytes) → In x (split_commas [] (codes " , ")) → trim_space x ≡ []
unfolding split_commas trim_space
both_blank x (inl e) = subst (λ y. trim_space y ≡ []) (sym e) refl
both_blank x (inr (inl e)) = subst (λ y. trim_space y ≡ []) (sym e) refl
both_blank x (inr (inr h)) = elim h [ ]

missing_reported_example :
    (errs : List ConfigError) × (load integers (system broken) ≡ inl errs)
    × In (required (codes "KAFKA_BROKERS")) errs
unfolding value_of bytes_eq
missing_reported_example =
    missing_reported integers (system broken) (codes "KAFKA_BROKERS") (inr (refl, both_blank))
