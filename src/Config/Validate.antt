-- ===== src/Config/Validate.antt =====
-- internal/config/config.go: Config.validate and checkURL. The errors stand in the source's order.
use near_real_time_hybrid_se.Common.{
  Bool, false, not, ◌&&◌, ◌||◌, ◌==◌, List, [], ◌∷◌, ◌++◌, none, some, if◌then◌else◌,
}
use near_real_time_hybrid_se.Common.Int.{ℤ, pos, ltb_ℤ, leb_ℤ, eqb_ℤ}
use near_real_time_hybrid_se.Common.Bytes.{Bytes, bytes_eq, codes}
use near_real_time_hybrid_se.Common.Trim.{is_empty}
use near_real_time_hybrid_se.Retry.{Float64}
use near_real_time_hybrid_se.Config.{Config, RetryConfig, PostgresConfig, MetricsConfig}
use near_real_time_hybrid_se.Config.Env.{
  ConfigError, invalid, not_positive, empty, bad_port, min_conns_negative, min_conns_above_max,
  cap_below_initial, bad_multiplier, bad_metrics_path, size_mismatch, default_above_max,
  timeout_too_long, max_above_candidates, Sys,
}

abbrev pub error_if : Bool → ConfigError → List ConfigError
error_if b e = if b then e ∷ [] else []

-- The errors of all checks, in order.
unfoldable pub collect : List (List ConfigError) → List ConfigError
collect [] = []
collect (e ∷ es) = e ++ collect es

-- The two loops over values that must be positive.
unfoldable pub positive : List (Bytes × ℤ) → List ConfigError
positive [] = []
positive (x ∷ xs) =
    let rest = positive xs in if leb_ℤ x.1 (pos 0) then not_positive x.0 ∷ rest else rest

-- strings.HasPrefix(path, "/").
abbrev pub is_rooted : Bytes → Bool
is_rooted [] = false
is_rooted (c ∷ cs) = c == 47

unfoldable pub check_url : {F : Type 0} → Sys F → Bytes → Bytes → List ConfigError
unfolding is_empty
check_url s key raw = elim (s.parse_url raw) [
  | none ↦ invalid key ∷ []
  | some u ↦
      error_if
        (is_empty u.host
          || (not (bytes_eq u.scheme (codes "http")) && not (bytes_eq u.scheme (codes "https"))))
        (invalid key)
]

unfoldable pub check_pool : PostgresConfig → List ConfigError
check_pool c =
    error_if (ltb_ℤ c.min_conns (pos 0)) min_conns_negative
    ++ error_if (ltb_ℤ c.max_conns c.min_conns) min_conns_above_max

unfoldable pub check_metrics : MetricsConfig → List ConfigError
unfolding is_empty
check_metrics c =
    if c.enabled
    then error_if (not (is_rooted c.path)) bad_metrics_path
      ++ error_if (is_empty c.addr) (empty (codes "METRICS_ADDR"))
    else []

module _ (f : Float64) where
  unfoldable pub check_retry : RetryConfig f.F → List ConfigError
  check_retry c =
      error_if (ltb_ℤ (pos 0) c.max_backoff && ltb_ℤ c.max_backoff c.initial_backoff)
        cap_below_initial
      ++ error_if
          (f.lt c.multiplier (f.of_int (pos 1)) || f.is_inf c.multiplier || f.is_nan c.multiplier)
          bad_multiplier

  abbrev pub durations : Config f.F → List (Bytes × ℤ)
  durations c =
      (codes "APP_STARTUP_TIMEOUT", c.app.startup_timeout)
      ∷ (codes "HTTP_READ_TIMEOUT", c.server.read_timeout)
      ∷ (codes "HTTP_WRITE_TIMEOUT", c.server.write_timeout)
      ∷ (codes "HTTP_IDLE_TIMEOUT", c.server.idle_timeout)
      ∷ (codes "HTTP_SHUTDOWN_TIMEOUT", c.server.shutdown_timeout)
      ∷ (codes "DATABASE_MAX_CONN_LIFETIME", c.postgres.max_conn_lifetime)
      ∷ (codes "DATABASE_MAX_CONN_IDLE_TIME", c.postgres.max_conn_idle_time)
      ∷ (codes "DATABASE_HEALTH_CHECK_PERIOD", c.postgres.health_check_period)
      ∷ (codes "DATABASE_CONNECT_TIMEOUT", c.postgres.connect_timeout)
      ∷ (codes "EMBEDDING_TIMEOUT", c.embedding.timeout)
      ∷ (codes "SEARCH_TIMEOUT", c.search.timeout)
      ∷ (codes "KAFKA_RETRY_INITIAL_BACKOFF", c.kafka.retry.initial_backoff)
      ∷ (codes "KAFKA_RETRY_MAX_BACKOFF", c.kafka.retry.max_backoff)
      ∷ []

  abbrev pub numbers : Config f.F → List (Bytes × ℤ)
  numbers c =
      (codes "DATABASE_MAX_CONNS", c.postgres.max_conns)
      ∷ (codes "KAFKA_WORKERS", c.kafka.workers)
      ∷ (codes "INDEXING_WORKERS", c.indexing.workers)
      ∷ (codes "INDEXING_QUEUE_SIZE", c.indexing.queue_size)
      ∷ (codes "INDEXING_BATCH_SIZE", c.indexing.batch_size)
      ∷ (codes "KAFKA_RETRY_MAX_ATTEMPTS", c.kafka.retry.max_attempts)
      ∷ (codes "EMBEDDING_DIMENSION", c.embedding.dimension)
      ∷ (codes "QDRANT_VECTOR_SIZE", c.qdrant.vector_size)
      ∷ (codes "SEARCH_DEFAULT_LIMIT", c.search.default_limit)
      ∷ (codes "SEARCH_MAX_LIMIT", c.search.max_limit)
      ∷ (codes "SEARCH_CANDIDATE_LIMIT", c.search.candidate_limit)
      ∷ (codes "RRF_K", c.search.rrf_k)
      ∷ []

  -- The errors of each check of validate.
  abbrev pub checks : Sys f.F → Config f.F → List (List ConfigError)
  checks s c =
      error_if (ltb_ℤ c.server.port (pos 1) || ltb_ℤ (pos 65535) c.server.port) bad_port
      ∷ positive (durations c)
      ∷ positive (numbers c)
      ∷ check_pool c.postgres
      ∷ check_retry c.kafka.retry
      ∷ check_metrics c.metrics
      ∷ check_url s (codes "OPENSEARCH_URL") c.opensearch.url
      ∷ error_if (is_empty c.opensearch.index) (empty (codes "OPENSEARCH_INDEX"))
      ∷ error_if (is_empty c.qdrant.collection) (empty (codes "QDRANT_COLLECTION"))
      ∷ error_if (not (eqb_ℤ c.qdrant.vector_size c.embedding.dimension)) size_mismatch
      ∷ error_if (is_empty c.embedding.model) (empty (codes "EMBEDDING_MODEL"))
      ∷ error_if (ltb_ℤ c.search.max_limit c.search.default_limit) default_above_max
      ∷ error_if (leb_ℤ c.server.write_timeout c.search.timeout) timeout_too_long
      ∷ error_if (ltb_ℤ c.search.candidate_limit c.search.max_limit) max_above_candidates
      ∷ []

  unfoldable pub validate : Sys f.F → Config f.F → List ConfigError
  unfolding collect positive check_pool check_retry check_metrics check_url is_empty
  validate s c = collect (checks s c)
