-- ===== src/Tests/LetterTests.antt =====
-- A dead-letter topic as the list of its records, and letters encoded as their numbers and their texts.
use near_real_time_hybrid_se.Common.{
  ℕ, zero, suc, ◌≡◌, refl, true, List, [], ◌∷◌, ◌++◌, Option, none, some, length,
}
use near_real_time_hybrid_se.Common.Int.{pos}
use near_real_time_hybrid_se.Common.Bytes.{Bytes, codes}
use near_real_time_hybrid_se.Cdc.Mapping.{ok}
use near_real_time_hybrid_se.Config.{KafkaConfig}
use near_real_time_hybrid_se.Dlq.{Letter}
use near_real_time_hybrid_se.Kafka.DeadLetters.{Record, WriterApi, check_writer, no_topic}
use near_real_time_hybrid_se.Errors.{foreign}
use near_real_time_hybrid_se.Cdc.{no_effect}
use near_real_time_hybrid_se.Pipeline.{Pipeline, decoded}
use near_real_time_hybrid_se.Tests.Floats.{integers}
use near_real_time_hybrid_se.Tests.RetryTests.{policy}

abbrev rest_of : ℕ → Bytes → Bytes
rest_of zero b = b
rest_of (suc n) [] = []
rest_of (suc n) (c ∷ b) = rest_of n b

abbrev first_of : ℕ → Bytes → Bytes
first_of zero b = []
first_of (suc n) [] = []
first_of (suc n) (c ∷ b) = c ∷ first_of n b

abbrev encode : Letter → Bytes
encode l =
    l.original_partition
    ∷ l.original_offset
    ∷ length l.original_topic
    ∷ (l.original_topic ++ l.payload)

abbrev decode : Bytes → Option Letter
decode (partition ∷ offset ∷ n ∷ texts) = some (record {
  original_topic = first_of n texts;
  original_partition = partition;
  original_offset = offset;
  event_key = [];
  payload = rest_of n texts;
  error = [];
  error_type = [];
  attempts = 0;
  failed_at = pos 0;
})
decode _ = none

abbrev writer : WriterApi (List Record)
writer = record { marshal = λ l. ok (encode l); write = λ r s. (none, s ++ (r ∷ [])) }

abbrev Reads : Letter → Bytes → Type 0
Reads l v =
    (k : Letter) × (decode v ≡ some k)
    × (k.payload ≡ l.payload)
    × (k.original_partition ≡ l.original_partition)
    × (k.original_offset ≡ l.original_offset)
    × (true ≡ true → k.original_topic ≡ l.original_topic)

-- An indexer that always fails.
abbrev failing : Pipeline integers Bytes (List Record)
failing = record {
  decode = λ b. decoded b;
  index = λ ev s. ((no_effect, some (foreign 1 true)), s);
  publish = λ l s. (none, s);
  policy = policy;
  context = record { ctx_err = λ _. none; sleep = λ _ s. (true, s) };
  observe_retry = none;
  error_text = λ _. codes "no index";
  now = λ _. pos 0;
}

abbrev settings : KafkaConfig ℕ
settings = record {
  brokers = codes "kafka:9092" ∷ [];
  topic = codes "documents";
  consumer_group = codes "indexer";
  dlq_topic = [];
  workers = pos 2;
  retry = record {
    max_attempts = pos 3;
    initial_backoff = pos 1;
    max_backoff = pos 2;
    multiplier = 2;
  };
}

refused : check_writer settings ≡ some no_topic
unfolding check_writer
refused = refl
