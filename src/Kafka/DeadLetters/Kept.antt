-- ===== src/Kafka/DeadLetters/Kept.antt =====
-- What the dead-letter topic holds of a message that Pipeline.Process gave up
-- (internal/kafka/deadletter.go, internal/indexing/pipeline.go).
use near_real_time_hybrid_se.Common.{◌≡◌, Bool, true, List, [], ◌∷◌, ◌++◌, Option, none, some}
use near_real_time_hybrid_se.Common.Bytes.{Bytes}
use near_real_time_hybrid_se.Retry.{Float64}
use near_real_time_hybrid_se.Kafka.{Message}
use near_real_time_hybrid_se.Kafka.DeadLetters.{Record, WriterApi, publish}
use near_real_time_hybrid_se.Cdc.Mapping
use near_real_time_hybrid_se.Cdc.Mapping.{ok}
use near_real_time_hybrid_se.Dlq
use near_real_time_hybrid_se.Dlq.{Letter}
use near_real_time_hybrid_se.Pipeline.{Pipeline, Processed, Report, dead_lettered}

-- Documented behaviour of the Kafka writer and encoding/json: a write that works appends its record to
-- the topic; what is decoded from an encoded letter has its numbers and its payload, and its texts if
-- they are valid UTF-8, since other bytes are replaced.
pub record Laws {S : Type 0} (api : WriterApi S) : Type 0 where
  pub topic : S → List Record
  pub unmarshal : Bytes → Option Letter
  pub valid_utf8 : Bytes → Bool
  pub written :
      (r : Record) (s : S)
      → (api.write r s).0 ≡ none
      → topic (api.write r s).1 ≡ topic s ++ (r ∷ [])
  pub read :
      (l : Letter) (v : Bytes)
      → api.marshal l ≡ ok v
      → (k : Letter) × (unmarshal v ≡ some k)
        × (k.payload ≡ l.payload)
        × (k.original_partition ≡ l.original_partition)
        × (k.original_offset ≡ l.original_offset)
        × (valid_utf8 l.original_topic ≡ true → k.original_topic ≡ l.original_topic)

-- The reports of a message that was dead-lettered.
abbrev pub IsDead : List Report → Type 0
IsDead [] = ⊥
IsDead (r ∷ rs) = r.outcome ≡ dead_lettered

module _ {f : Float64} {Event S : Type 0} (p : Pipeline f Event S) (api : WriterApi S) where
  -- The pipeline with the dead-letter writer.
  abbrev pub with_writer : Pipeline f Event S
  with_writer = record p { publish = publish api }

  -- The topic holds, as its last record, a letter of the message: its key, its payload and its place.
  abbrev pub IsKept : Laws api → Message → S → S → Type 0
  IsKept laws msg s s' =
      (r : Record) × (l : Letter) × (laws.topic s' ≡ laws.topic s ++ (r ∷ []))
      × (r.key ≡ msg.key)
      × (laws.unmarshal r.value ≡ some l)
      × (l.payload ≡ msg.value)
      × (l.original_partition ≡ msg.partition)
      × (l.original_offset ≡ msg.offset)
      × (laws.valid_utf8 msg.topic ≡ true → l.original_topic ≡ msg.topic)

  -- The result of Process, by the result of its decoding and of its retries.
  abbrev pub IsGivenUp : Laws api → Message → Processed S → Type 0
  IsGivenUp laws msg o = IsDead o.reports → (s : S) × IsKept laws msg s o.state
