-- ===== src/Dlq.antt =====
-- internal/dlq/message.go: the dead-letter message of a failed one.
pub mod Reason
use near_real_time_hybrid_se.Common.{
  ℕ, ◌++◌, [], Option, none, some, leb, take, length, if◌then◌else◌,
}
use near_real_time_hybrid_se.Common.Int.{ℤ}
use near_real_time_hybrid_se.Common.Bytes.{Bytes, codes}

abbrev pub max_error_length : ℕ
max_error_length = 2048

pub record Source : Type 0 where
  pub topic : Bytes
  pub partition : ℕ
  pub offset : ℕ
  pub key : Bytes
  pub payload : Bytes

-- `failed_at` is in nanoseconds.
pub record Letter : Type 0 where
  pub original_topic : Bytes
  pub original_partition : ℕ
  pub original_offset : ℕ
  pub event_key : Bytes
  pub payload : Bytes
  pub error : Bytes
  pub error_type : Bytes
  pub attempts : ℕ
  pub failed_at : ℤ

unfoldable pub truncate : Bytes → ℕ → Bytes
truncate s limit = if leb (length s) limit then s else take limit s ++ codes "..."

-- New, with the text of the cause (none for a nil cause) and the time.
unfoldable pub new : Source → Option Bytes → Bytes → ℕ → ℤ → Letter
unfolding truncate
new src cause error_type attempts now = record {
  original_topic = src.topic;
  original_partition = src.partition;
  original_offset = src.offset;
  event_key = src.key;
  payload = src.payload;
  error = elim cause [ none ↦ [] | some text ↦ truncate text max_error_length ];
  error_type = error_type;
  attempts = attempts;
  failed_at = now;
}
