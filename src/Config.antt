-- ===== src/Config.antt =====
-- internal/config/config.go: the settings of both services, one record per group. A Duration is the ℤ of
-- its nanoseconds, and a log level the ℤ of its slog.Level. `F` is float64.
pub mod Env
pub mod Groups
pub mod Load
pub mod Accepted
pub mod Missing
pub mod Validate
use near_real_time_hybrid_se.Common.{Bool, List}
use near_real_time_hybrid_se.Common.Int.{ℤ}
use near_real_time_hybrid_se.Common.Bytes.{Bytes}
pub use near_real_time_hybrid_se.Hybrid.Requests.{SearchConfig}

pub record AppConfig : Type 0 where
  pub env : Bytes
  pub name : Bytes
  pub startup_timeout : ℤ
  pub log_level : ℤ

pub record ServerConfig : Type 0 where
  pub host : Bytes
  pub port : ℤ
  pub read_timeout : ℤ
  pub write_timeout : ℤ
  pub idle_timeout : ℤ
  pub shutdown_timeout : ℤ

pub record PostgresConfig : Type 0 where
  pub url : Bytes
  pub max_conns : ℤ
  pub min_conns : ℤ
  pub max_conn_lifetime : ℤ
  pub max_conn_idle_time : ℤ
  pub health_check_period : ℤ
  pub connect_timeout : ℤ

pub record OpenSearchConfig : Type 0 where
  pub url : Bytes
  pub username : Bytes
  pub password : Bytes
  pub index : Bytes

pub record QdrantConfig : Type 0 where
  pub url : Bytes
  pub api_key : Bytes
  pub collection : Bytes
  pub vector_size : ℤ
  pub host : Bytes
  pub port : ℤ
  pub use_tls : Bool

pub record IndexingConfig : Type 0 where
  pub workers : ℤ
  pub queue_size : ℤ
  pub batch_size : ℤ

pub record MetricsConfig : Type 0 where
  pub enabled : Bool
  pub path : Bytes
  pub addr : Bytes

pub record EmbeddingConfig : Type 0 where
  pub provider : Bytes
  pub api_key : Bytes
  pub model : Bytes
  pub dimension : ℤ
  pub timeout : ℤ

module _ (F : Type 0) where
  pub record RetryConfig : Type 0 where
    pub max_attempts : ℤ
    pub initial_backoff : ℤ
    pub max_backoff : ℤ
    pub multiplier : F

  pub record KafkaConfig : Type 0 where
    pub brokers : List Bytes
    pub topic : Bytes
    pub consumer_group : Bytes
    pub dlq_topic : Bytes
    pub workers : ℤ
    pub retry : RetryConfig

  pub record Config : Type 0 where
    pub app : AppConfig
    pub server : ServerConfig
    pub postgres : PostgresConfig
    pub kafka : KafkaConfig
    pub opensearch : OpenSearchConfig
    pub qdrant : QdrantConfig
    pub indexing : IndexingConfig
    pub metrics : MetricsConfig
    pub embedding : EmbeddingConfig
    pub search : SearchConfig
