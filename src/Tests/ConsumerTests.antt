-- ===== src/Tests/ConsumerTests.antt =====
-- Consumer.Run against a broker that is down, and against one with three messages.
use near_real_time_hybrid_se.Common.{
  ℕ, suc, ◌≡◌, refl, true, false, [], map, Option, none, some, length, ltb, if◌then◌else◌,
}
use near_real_time_hybrid_se.Common.Bytes.{codes}
use near_real_time_hybrid_se.Errors.{Err, wrap, Sentinel, foreign, sentinel}
use near_real_time_hybrid_se.Kafka.{Message, new_tracker}
use near_real_time_hybrid_se.Kafka.Consumer.{
  Consumer, State, fetch_error, message, rounds, max_fetch_failures, done, key_of,
}
use near_real_time_hybrid_se.Kafka.Fetching.{
  IsDown, IsCancelWait, down_stops, failure, errors_of, last_error,
}

-- Fetch n fails with an error of its own.
abbrev refused : ℕ → Err
refused n = foreign n true

abbrev down : Consumer ℕ
down = record {
  topic = codes "documents";
  fetch = λ n. (fetch_error (refused n), suc n);
  ctx_err = λ n. none;
  retry_wait = λ n. (false, n);
  commit = λ k o n. (none, n);
  submit = λ m s. (none, s);
}

abbrev start : State ℕ
start = record { offsets = new_tracker; world = 0; events = [] }

down-IsDown : IsDown down
down-IsDown = record { fails = λ w. (refused w, refl); open_context = λ w. refl; waits = λ w. refl }

down_stops_example :
    (s' : State ℕ) × (rounds down max_fetch_failures 0 start
      ≡ some (some (wrap (last_error down down-IsDown 9 0)), s'))
    × (s'.events ≡ map (failure down) (errors_of down down-IsDown max_fetch_failures 0))
down_stops_example = down_stops down down-IsDown start

-- Three messages, each finished as it is submitted; then the context ends.
abbrev numbered : ℕ → Message
numbered n = record { topic = codes "documents"; partition = 0; offset = n; key = []; value = [] }

abbrev short : Consumer ℕ
unfolding done
short = record {
  topic = codes "documents";
  fetch = λ n. if ltb n 3 then (message (numbered n), suc n) else (fetch_error (refused n), n);
  ctx_err = λ n. if ltb n 3 then none else some (sentinel Sentinel.canceled);
  retry_wait = λ n. (false, n);
  commit = λ k o n. (none, n);
  submit = λ m s. (none, done down (key_of m) m.offset s);
}

abbrev state_of : Option (Option Err × State ℕ) → State ℕ
state_of none = start
state_of (some x) = x.1

abbrev final : State ℕ
unfolding rounds short
final = state_of (rounds short 4 0 start)

-- Each message is reported as fetched and as committed.
six_events : length final.events ≡ 6
unfolding final new_tracker
six_events = refl

ended : rounds short 4 0 start ≡ some (none, final)
unfolding rounds short final new_tracker
ended = refl

short-IsCancelWait : IsCancelWait short
unfolding short
short-IsCancelWait w h = cc
