-- ===== src/Lib.antt =====
-- Verification of indexing and search in the near-real-time hybrid search engine.
--
-- Changes of a PostgreSQL table arrive as Debezium messages on a Kafka topic. The consumer
-- (internal/kafka) hands each message to the pipeline (internal/indexing/pipeline.go), which decodes
-- it and lets the change event service (internal/indexing/cdc) write it to two search stores:
-- OpenSearch for keywords, with a version check, and Qdrant for vectors, which an embedding provider
-- computes. Failures are classified; those worth it are retried with backoff (internal/retry), the
-- others go to the dead-letter topic (internal/dlq). Only then may the offset be committed. Searches
-- ask both stores (internal/search/hybrid) and fuse the two ranked lists (internal/search/rrf).
--
-- Files, and the code each one models:
--   Common     shared names, lists, integers over native numbers, Go strings as lists of bytes
--   Errors     Go errors as trees, with errors.Is, errors.As and the error types of internal/*
--   Retry      internal/retry/retry.go: Policy, Backoff, Runner.Do
--   Kafka      internal/kafka/consumer.go, deadletter.go: messages, the offset tracker, Consumer.Run, and the
--              writer of the dead-letter topic
--   Classify   internal/indexing/pipeline.go, indexer.go, cdc_pipeline.go: which failures are retried
--   OpenSearch internal/search/opensearch/index.go, search.go, client.go: versioned writes, EnsureIndex,
--              Client.Search and validateConfig
--   Cdc        internal/indexing/cdc: Parser.Parse, change events, the field mapping, Service.Process
--   Indexer    internal/indexing/indexer.go, event.go: Indexer.Index and DecodeEvent, and GetDocument of
--              internal/postgres/repository.go
--   Qdrant     internal/search/qdrant/point.go, search.go, collection.go, client.go: the points of documents,
--              Client.Search, EnsureCollection and the checks of the settings
--   Dlq        internal/dlq/message.go: the letter of a failed message
--   Pipeline   internal/indexing/pipeline.go: Pipeline.Process
--   Pool       internal/indexing/worker.go: WorkerPool, as steps of the consumer, the workers and Shutdown
--   Flow       cmd/consumer/main.go, run: Consumer.Run, the offset tracker, the worker pool and its handlers
--              put together, as steps of one process, and Flow.System with Pipeline.Process for the handler
--              and the world that it acts on
--   Rrf        internal/search/rrf/rrf.go: Fuse
--   Hybrid     internal/search/hybrid/service.go, types.go: Service.Search
--   Config     internal/config/config.go: Load, its lookups and validate; retryPolicy of
--              cmd/consumer/main.go
--   Api        internal/api: the handlers, middleware and routes of the HTTP server
--   Embedding  internal/embedding/provider.go, gemini.go, fake.go: the checks of vectors, and the two providers
--   Commands   cmd/consumer/main.go, cmd/api/main.go: the checks of the embedding provider at the start
--   Metrics    internal/metrics: what the observers and the HTTP middleware count
--   Loadtest   internal/loadtest/stats.go, indexes.go: latency distributions, medians and rates, and
--              Watcher.Wait
--   Startup    internal/startup/startup.go: Retry, which waits for a dependency
--   Tests      concrete runs, and the theorems applied to them
--
-- State is passed explicitly: an operation on a store, a broker or a context takes a state and returns
-- it with its result. Code outside the repository is a parameter: the SDKs of OpenSearch, Qdrant and
-- Kafka, the embedding provider, pgx, encoding/json, utf8, the UUIDs, the clock, the context,
-- os.Getenv, strconv, net/url, ServeMux, time.Parse, time.ParseDuration, float32 and float64, whose
-- arithmetic the backoff bound and the percentiles use by named laws, and sha256 with math/rand. Go errors keep their
-- kinds and what they wrap, not their texts. Integers that the code
-- compares are ℤ or ℕ; where the code parses an int64, its range is written out.
--
-- Runner.Do loops without a bound of its own. Its model has one more unit of fuel than the policy has
-- attempts, which is enough by Retry.Runs.run_total.
--
-- Consumer.Run loops until its context ends; its model has fuel too, and `none` while it still runs.
-- Kafka.Fetching.down_stops gives the fuel that is enough while the broker is down.
--
-- startup.Retry has no bound of its own either; Startup.Ends.retry_ends gives the fuel that is enough for
-- a deadline.
--
-- The consumer process has no fuel: Flow.Reach is the relation of the states that it can reach, by any
-- order of its moves. In Flow.System the calls of one run of the handler stand together, in the step with
-- which the run ends, in the state that the runs before it have left: the runs of different workers end in
-- any order, but their calls do not alternate.
--
-- Watcher.Wait polls without a bound; its model takes the rounds as a list, and `none` stands for a Wait
-- that needs more of them. Loadtest.Watch.Accounts.wait-Accounted says which lists are enough.
--
-- Not modelled: logging, durations, the registration of the metrics with their gauges and endpoint; set-up
-- and shutdown of the processes, which are calls of libraries and the operating system; PostgreSQL's pool,
-- which is pgx; and the load tests except their statistics
-- and the watcher.
pub mod Api
pub mod Cdc
pub mod Classify
pub mod Commands
pub mod Common
pub mod Config
pub mod Dlq
pub mod Embedding
pub mod Errors
pub mod Flow
pub mod Hybrid
pub mod Indexer
pub mod Kafka
pub mod Loadtest
pub mod Metrics
pub mod OpenSearch
pub mod Pipeline
pub mod Pool
pub mod Qdrant
pub mod Retry
pub mod Rrf
pub mod Startup
pub mod Tests
