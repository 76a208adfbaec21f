-- ===== src/Config/Groups.antt =====
-- internal/config/config.go: the lookups that Load makes for each group of settings, in the source's
-- order.
use near_real_time_hybrid_se.Common.{ℕ, Bool, true, ◌++◌, ◌*◌}
use near_real_time_hybrid_se.Common.Int.{ℤ, pos}
use near_real_time_hybrid_se.Common.Bytes.{Bytes, codes}
use near_real_time_hybrid_se.Common.Trim.{trim_space}
use near_real_time_hybrid_se.Retry.{Float64}
use near_real_time_hybrid_se.Config.{
  AppConfig, ServerConfig, PostgresConfig, RetryConfig, KafkaConfig, OpenSearchConfig,
  IndexingConfig, MetricsConfig, EmbeddingConfig, SearchConfig,
}
use near_real_time_hybrid_se.Config.Env.{
  Sys, Lookup, pure, ◌>>=◌, get_env, lookup_required, lookup_list, lookup,
}

abbrev pub millisecond : ℕ
millisecond = 1000000

abbrev pub seconds : ℕ → ℤ
seconds n = pos (n * 1000000000)

module _ (f : Float64) (s : Sys f.F) where
  -- env.int, env.duration and env.float, which count a value that does not parse as 0.
  abbrev lookup_int : Bytes → ℤ → Lookup ℤ
  lookup_int = lookup s s.atoi (pos 0)

  abbrev lookup_duration : Bytes → ℤ → Lookup ℤ
  lookup_duration = lookup s s.parse_duration (pos 0)

  abbrev lookup_float : Bytes → f.F → Lookup f.F
  lookup_float = lookup s s.parse_float (f.of_int (pos 0))

  -- env.bool and env.logLevel, which fall back to the default.
  abbrev lookup_bool : Bytes → Bool → Lookup Bool
  lookup_bool key fallback = lookup s s.parse_bool fallback key fallback

  abbrev lookup_level : Bytes → ℤ → Lookup ℤ
  lookup_level key fallback = lookup s s.parse_level fallback key fallback

  unfoldable pub load_app : Lookup AppConfig
  unfolding lookup get_env
  load_app = do
    startup_timeout ← lookup_duration (codes "APP_STARTUP_TIMEOUT") (seconds 60)
    log_level ← lookup_level (codes "LOG_LEVEL") (pos 0)
    pure (record {
      env = get_env s (codes "APP_ENV") (codes "development");
      name = get_env s (codes "APP_NAME") (codes "near-realtime-search");
      startup_timeout = startup_timeout;
      log_level = log_level;
    })

  unfoldable pub load_server : Lookup ServerConfig
  unfolding lookup get_env
  load_server = do
    port ← lookup_int (codes "HTTP_PORT") (pos 8080)
    read_timeout ← lookup_duration (codes "HTTP_READ_TIMEOUT") (seconds 10)
    write_timeout ← lookup_duration (codes "HTTP_WRITE_TIMEOUT") (seconds 10)
    idle_timeout ← lookup_duration (codes "HTTP_IDLE_TIMEOUT") (seconds 60)
    shutdown_timeout ← lookup_duration (codes "HTTP_SHUTDOWN_TIMEOUT") (seconds 10)
    pure (record {
      host = get_env s (codes "HTTP_HOST") (codes "0.0.0.0");
      port = port;
      read_timeout = read_timeout;
      write_timeout = write_timeout;
      idle_timeout = idle_timeout;
      shutdown_timeout = shutdown_timeout;
    })

  unfoldable pub load_postgres : Lookup PostgresConfig
  unfolding lookup_required lookup
  load_postgres = do
    url ← lookup_required s (codes "DATABASE_URL")
    max_conns ← lookup_int (codes "DATABASE_MAX_CONNS") (pos 25)
    min_conns ← lookup_int (codes "DATABASE_MIN_CONNS") (pos 2)
    max_conn_lifetime ← lookup_duration (codes "DATABASE_MAX_CONN_LIFETIME") (seconds 3600)
    max_conn_idle_time ← lookup_duration (codes "DATABASE_MAX_CONN_IDLE_TIME") (seconds 1800)
    health_check_period ← lookup_duration (codes "DATABASE_HEALTH_CHECK_PERIOD") (seconds 60)
    connect_timeout ← lookup_duration (codes "DATABASE_CONNECT_TIMEOUT") (seconds 5)
    pure (record {
      url = url;
      max_conns = max_conns;
      min_conns = min_conns;
      max_conn_lifetime = max_conn_lifetime;
      max_conn_idle_time = max_conn_idle_time;
      health_check_period = health_check_period;
      connect_timeout = connect_timeout;
    })

  unfoldable pub load_retry : Lookup (RetryConfig f.F)
  unfolding lookup
  load_retry = do
    max_attempts ← lookup_int (codes "KAFKA_RETRY_MAX_ATTEMPTS") (pos 5)
    initial_backoff ←
        lookup_duration (codes "KAFKA_RETRY_INITIAL_BACKOFF") (pos (500 * millisecond))
    max_backoff ← lookup_duration (codes "KAFKA_RETRY_MAX_BACKOFF") (seconds 30)
    multiplier ← lookup_float (codes "KAFKA_RETRY_MULTIPLIER") (f.of_int (pos 2))
    pure (record {
      max_attempts = max_attempts;
      initial_backoff = initial_backoff;
      max_backoff = max_backoff;
      multiplier = multiplier;
    })

  -- The default of the dead-letter topic is made of the topic.
  unfoldable pub load_kafka : Lookup (KafkaConfig f.F)
  unfolding load_retry lookup_required lookup_list lookup get_env
  load_kafka = do
    brokers ← lookup_list s (codes "KAFKA_BROKERS")
    topic ← lookup_required s (codes "KAFKA_TOPIC")
    consumer_group ← lookup_required s (codes "KAFKA_CONSUMER_GROUP")
    workers ← lookup_int (codes "KAFKA_WORKERS") (pos 10)
    retry ← load_retry
    pure (record {
      brokers = brokers;
      topic = topic;
      consumer_group = consumer_group;
      dlq_topic = get_env s (codes "KAFKA_DLQ_TOPIC") (topic ++ codes ".dlq");
      workers = workers;
      retry = retry;
    })

  unfoldable pub load_opensearch : Lookup OpenSearchConfig
  unfolding lookup_required get_env
  load_opensearch = do
    url ← lookup_required s (codes "OPENSEARCH_URL")
    pure (record {
      url = url;
      username = s.getenv (codes "OPENSEARCH_USERNAME");
      password = s.getenv (codes "OPENSEARCH_PASSWORD");
      index = get_env s (codes "OPENSEARCH_INDEX") (codes "documents");
    })

  unfoldable pub load_indexing : Lookup IndexingConfig
  unfolding lookup
  load_indexing = do
    workers ← lookup_int (codes "INDEXING_WORKERS") (pos 10)
    queue_size ← lookup_int (codes "INDEXING_QUEUE_SIZE") (pos 1000)
    batch_size ← lookup_int (codes "INDEXING_BATCH_SIZE") (pos 100)
    pure (record { workers = workers; queue_size = queue_size; batch_size = batch_size })

  unfoldable pub load_metrics : Lookup MetricsConfig
  unfolding lookup get_env
  load_metrics = do
    enabled ← lookup_bool (codes "METRICS_ENABLED") true
    pure (record {
      enabled = enabled;
      path = get_env s (codes "METRICS_PATH") (codes "/metrics");
      addr = get_env s (codes "METRICS_ADDR") (codes ":9091");
    })

  unfoldable pub load_embedding : Lookup EmbeddingConfig
  unfolding lookup get_env trim_space
  load_embedding = do
    dimension ← lookup_int (codes "EMBEDDING_DIMENSION") (pos 768)
    timeout ← lookup_duration (codes "EMBEDDING_TIMEOUT") (seconds 10)
    pure (record {
      provider = s.to_lower (get_env s (codes "EMBEDDING_PROVIDER") (codes "gemini"));
      api_key = trim_space (s.getenv (codes "EMBEDDING_API_KEY"));
      model = get_env s (codes "EMBEDDING_MODEL") (codes "gemini-embedding-2");
      dimension = dimension;
      timeout = timeout;
    })

  unfoldable pub load_search : Lookup SearchConfig
  unfolding lookup
  load_search = do
    default_limit ← lookup_int (codes "SEARCH_DEFAULT_LIMIT") (pos 10)
    max_limit ← lookup_int (codes "SEARCH_MAX_LIMIT") (pos 50)
    candidate_limit ← lookup_int (codes "SEARCH_CANDIDATE_LIMIT") (pos 50)
    rrf_k ← lookup_int (codes "RRF_K") (pos 60)
    timeout ← lookup_duration (codes "SEARCH_TIMEOUT") (seconds 5)
    pure (record {
      default_limit = default_limit;
      max_limit = max_limit;
      candidate_limit = candidate_limit;
      rrf_k = rrf_k;
      timeout = timeout;
    })
