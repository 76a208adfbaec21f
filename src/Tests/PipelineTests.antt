-- ===== src/Tests/PipelineTests.antt =====
-- The pipeline with an indexer that always fails, and with one that works.
use near_real_time_hybrid_se.Common.{refl, true, List, [], ◌∷◌, none, some}
use near_real_time_hybrid_se.Common.Int.{pos}
use near_real_time_hybrid_se.Common.Bytes.{Bytes, codes}
use near_real_time_hybrid_se.Errors.{foreign}
use near_real_time_hybrid_se.Retry.{unknown, rounds, round, run}
use near_real_time_hybrid_se.Kafka.{Message}
use near_real_time_hybrid_se.Cdc.{no_effect, indexed}
use near_real_time_hybrid_se.Dlq.{Letter}
use near_real_time_hybrid_se.Pipeline.{
  Pipeline, Processed, Outcome, decoded, process, conclude, index_event,
}
use near_real_time_hybrid_se.Pipeline.Commit.{
  Processes, Reported, Settled, process_reports, process_commit,
}
use near_real_time_hybrid_se.Tests.Floats.{integers}
use near_real_time_hybrid_se.Tests.RetryTests.{policy, policy_accepted}

-- The state is what the dead-letter topic holds.
abbrev pub pipeline : Pipeline integers Bytes (List Letter)
pipeline = record {
  decode = λ b. decoded b;
  index = λ ev s. ((no_effect, some (foreign 1 true)), s);
  publish = λ l s. (none, l ∷ s);
  policy = policy;
  context = record { ctx_err = λ _. none; sleep = λ _ s. (true, s) };
  observe_retry = none;
  error_text = λ _. codes "no index";
  now = λ _. pos 0;
}

abbrev pub message : Message
message = record {
  topic = codes "documents";
  partition = 0;
  offset = 4;
  key = codes "d1";
  value = codes "row";
}

process_reports_example : Processes (λ o. Reported o.reports o.err) (process pipeline message [])
process_reports_example = process_reports pipeline message [] policy_accepted

-- The same with an indexer that works.
abbrev pub working : Pipeline integers Bytes (List Letter)
working = record pipeline { index = λ ev s. ((indexed, none), s) }

abbrev pub finished : Processed (List Letter)
finished = record {
  err = none;
  reports =
      record {
        outcome = Outcome.indexed;
        effect = indexed;
        attempts = 1;
        error_kind = unknown;
        err = none;
      }
      ∷ [];
  state = [];
}

process_commit_example : Settled working message []
unfolding process run rounds round index_event conclude
process_commit_example = process_commit working message [] finished refl refl
