-- ===== src/Kafka.antt =====
-- internal/kafka/consumer.go: messages and the offset tracker.
-- The mutex is not modelled: each call runs under it from start to end, so a history of calls is a
-- sequence. A Kafka offset and a partition number are ℕ; a Go map is the function that it stands for,
-- and the tracker's entries are values, since nothing else holds a pointer to one.
pub mod Loop
pub mod Commits
pub mod Order
pub mod Consumer
pub mod Fetching
pub mod DeadLetters
use near_real_time_hybrid_se.Common.{
  ℕ, Bool, true, false, ◌&&◌, ◌==◌, List, [], ◌∷◌, ◌++◌, Option, none, some, if◌then◌else◌,
}
use near_real_time_hybrid_se.Common.Bytes.{Bytes, bytes_eq}

-- A record fetched from Kafka, without its `done` callback, which is Consumer.done.
pub record Message : Type 0 where
  pub topic : Bytes
  pub partition : ℕ
  pub offset : ℕ
  pub key : Bytes
  pub value : Bytes

pub record TopicPartition : Type 0 where
  pub topic : Bytes
  pub partition : ℕ

unfoldable pub same_partition : TopicPartition → TopicPartition → Bool
unfolding bytes_eq
same_partition a b = bytes_eq a.topic b.topic && (a.partition == b.partition)

-- `in_flight` is in the order of the fetches.
pub record PartitionOffsets : Type 0 where
  pub in_flight : List ℕ
  pub done : ℕ → Bool

-- offsetTracker.
abbrev pub Tracker : Type 0
Tracker = TopicPartition → Option PartitionOffsets

unfoldable pub new_tracker : Tracker
new_tracker k = none

-- `done[o] = b`; deleting a key is `set_flag done o false`, since the code only reads flags.
unfoldable pub set_flag : (ℕ → Bool) → ℕ → Bool → ℕ → Bool
set_flag done o b x = if x == o then b else done x

unfoldable pub set_partition : Tracker → TopicPartition → PartitionOffsets → Tracker
unfolding same_partition
set_partition t k p j = if same_partition j k then some p else t j

unfoldable pub entry : Option PartitionOffsets → PartitionOffsets
entry none = record { in_flight = []; done = λ _. false }
entry (some p) = p

unfoldable pub add : Tracker → TopicPartition → ℕ → Tracker
unfolding set_partition entry
add t k offset =
    let p = entry (t k) in set_partition t k (record p { in_flight = p.in_flight ++ (offset ∷ []) })

-- The loop of markDone over `inFlight`, with the pair `committable, advanced`.
unfoldable pub advance : List ℕ → (ℕ → Bool) → ℕ × Bool → PartitionOffsets × (ℕ × Bool)
unfolding set_flag
advance [] done out = (record { in_flight = []; done = done }, out)
advance (o ∷ os) done out =
    let rest = advance os (set_flag done o false) (o, true) in
    if done o then rest else (record { in_flight = o ∷ os; done = done }, out)

unfoldable pub mark_done : Tracker → TopicPartition → ℕ → Tracker × (ℕ × Bool)
unfolding advance set_partition
mark_done t k offset = elim (t k) [
  | none ↦ (t, (0, false))
  | some p ↦
      let (p', out) = advance p.in_flight (set_flag p.done offset true) (0, false) in
      (set_partition t k p', out)
]
