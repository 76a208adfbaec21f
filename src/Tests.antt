-- ===== src/Tests.antt =====
-- The theorems at concrete inputs, and runs of the model.
mod Floats
mod RetryTests
mod KafkaTests
mod ServiceTests
mod PipelineTests
mod RrfTests
mod ParserTests
mod IndexerTests
mod QdrantTests
mod HybridTests
mod ConsumerTests
mod DlqTests
mod PoolTests
mod SetupTests
mod VersionTests
mod EmbeddingTests
mod StartupTests
mod VectorSearchTests
mod ApiTests
mod ConfigTests
mod FlowTests
mod CommandTests
mod LetterTests
mod MetricsTests
mod StatsTests
mod WatchTests
