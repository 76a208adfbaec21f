-- ===== src/Kafka/DeadLetters.antt =====
-- internal/kafka/deadletter.go: the writer of the dead-letter topic. json.Marshal and the Kafka writer's
-- WriteMessages are parameters, over a state `S`. What the Kafka writer is set up with, and Close, are
-- left out.
pub mod Kept
use near_real_time_hybrid_se.Common.{List, [], ◌∷◌, Option, none, some, if◌then◌else◌}
use near_real_time_hybrid_se.Common.Bytes.{Bytes}
use near_real_time_hybrid_se.Common.Trim.{is_empty}
use near_real_time_hybrid_se.Errors.{Err, wrap}
use near_real_time_hybrid_se.Cdc.Mapping.{Result, ok, err}
use near_real_time_hybrid_se.Config.{KafkaConfig}
use near_real_time_hybrid_se.Dlq.{Letter}

-- The refusals of NewDeadLetterWriter.
pub data WriterError : Type 0 where
  no_brokers no_topic : WriterError

unfoldable pub check_writer : {F : Type 0} → KafkaConfig F → Option WriterError
unfolding is_empty
check_writer cfg = elim cfg.brokers [
  | [] ↦ some no_brokers
  | b ∷ bs ↦ if is_empty cfg.dlq_topic then some no_topic else none
]

-- A Kafka message as it is written.
pub record Record : Type 0 where
  pub key : Bytes
  pub value : Bytes

pub record WriterApi (S : Type 0) : Type 0 where
  pub marshal : Letter → Result Bytes
  pub write : Record → S → Option Err × S

abbrev pub wrapped : Option Err → Option Err
wrapped none = none
wrapped (some e) = some (wrap e)

-- DeadLetterWriter.Publish, with what json.Marshal answered.
abbrev pub send : {S : Type 0} → WriterApi S → Letter → Result Bytes → S → Option Err × S
send api l (err e) s = (some (wrap e), s)
send api l (ok value) s =
    let (failure, s') = api.write (record { key = l.event_key; value = value }) s in
    (wrapped failure, s')

unfoldable pub publish : {S : Type 0} → WriterApi S → Letter → S → Option Err × S
publish api l s = send api l (api.marshal l) s
