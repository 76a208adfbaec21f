-- ===== src/Tests/KafkaTests.antt =====
-- The offset tracker on short histories.
use near_real_time_hybrid_se.Common.{◌≡◌, refl, true, false, List, [], ◌∷◌}
use near_real_time_hybrid_se.Common.Bytes.{codes}
use near_real_time_hybrid_se.Kafka.{
  TopicPartition, PartitionOffsets, new_tracker, mark_done, entry, add, set_flag,
}
use near_real_time_hybrid_se.Kafka.Commits.{Call, fetched, finished, run, step, fetches}

abbrev key : TopicPartition
key = record { topic = codes "documents"; partition = 2 }

abbrev history : List Call
history = fetched key 5 ∷ fetched key 6 ∷ fetched key 7 ∷ finished key 6 ∷ []

-- 6 is finished already, so finishing 5 commits 6.
commits_six : (mark_done (run new_tracker history) key 5).1 ≡ (6, true)
unfolding run step add mark_done new_tracker entry
commits_six = refl

fetches-history : fetches key history ≡ 5 ∷ 6 ∷ 7 ∷ []
unfolding fetches near_real_time_hybrid_se.Kafka.same_partition
fetches-history = refl

abbrev offsets : PartitionOffsets
offsets = record { in_flight = 5 ∷ 6 ∷ 7 ∷ []; done = set_flag (λ _. false) 6 true }
