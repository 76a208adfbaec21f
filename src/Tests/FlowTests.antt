-- ===== src/Tests/FlowTests.antt =====
-- The consumer process with two workers and a working pipeline: of two messages the later one is handled
-- first, so that the end of the earlier one commits both.
use near_real_time_hybrid_se.Common.{◌≡◌, refl, inl, inr, arith, List, []}
use near_real_time_hybrid_se.Common.Bytes.{codes}
use near_real_time_hybrid_se.Kafka.{Message, new_tracker, mark_done, advance, add}
use near_real_time_hybrid_se.Kafka.Consumer.{key_of}
use near_real_time_hybrid_se.Dlq.{Letter}
use near_real_time_hybrid_se.Pool.{route, submit_to, check_quit, take_message, finish_handler}
use near_real_time_hybrid_se.Pool
use near_real_time_hybrid_se.Pipeline.{process, conclude, index_event}
use near_real_time_hybrid_se.Retry.{rounds, round, run}
use near_real_time_hybrid_se.Flow.{receive, acknowledge, after_handler, move}
use near_real_time_hybrid_se.Flow
use near_real_time_hybrid_se.Flow.System.{
  System, fetch, submit, work, finish, run_handler, step, Reach, here, later,
}
use near_real_time_hybrid_se.Flow.Log.{offsets_of}
use near_real_time_hybrid_se.Flow.Settled.{IsSettled, commit_settles}
use near_real_time_hybrid_se.Tests.PipelineTests.{working}

abbrev first : Message
first = record {
  topic = codes "d";
  partition = 0;
  offset = 4;
  key = codes "7";
  value = codes "row";
}

abbrev second : Message
second = record first { offset = 5; key = codes "8" }

abbrev Reached : System (List Letter) → Type 0
Reached = Reach working 2 1 []

unfoldable both : (s : System (List Letter)) × Reached s
unfolding step move receive Pool.move submit_to route add
both = (
  _,
  later submit (later (fetch second) (later submit (later (fetch first) here refl) refl) refl) refl,
)

unfoldable both_running : (s : System (List Letter)) × Reached s
unfolding step move Pool.move check_quit take_message both
both_running = (
  _,
  later (work (Flow.take 1))
      (later (work (Flow.check 1))
        (later (work (Flow.take 0)) (later (work (Flow.check 0)) both.1 refl) refl) refl)
      refl,
)

unfoldable second_done : (s : System (List Letter)) × Reached s
unfolding step run_handler move Pool.move finish_handler after_handler acknowledge mark_done advance
    process run rounds round index_event conclude both_running
second_done = (_, later (finish 1) both_running.1 refl)

no_commit_yet : second_done.0.consumer.commits ≡ []
unfolding second_done new_tracker
no_commit_yet = refl

unfoldable both_done : (s : System (List Letter)) × Reached s
unfolding step run_handler move Pool.move finish_handler after_handler acknowledge mark_done advance
    process run rounds round index_event conclude second_done
both_done = (_, later (finish 0) second_done.1 refl)

commit_settles_example : IsSettled working 2 1 [] second both_done.0
unfolding both_done offsets_of new_tracker
commit_settles_example =
    commit_settles working 2 1 (key_of first) 5 second both_done.1 (omega arith) (inl refl)
      (inr (inl refl)) refl (omega arith)
