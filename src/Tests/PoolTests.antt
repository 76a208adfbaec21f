-- ===== src/Tests/PoolTests.antt =====
-- A pool of two workers with queues of one message: two messages with one key and one with another.
use near_real_time_hybrid_se.Common.{
  ℕ, ◌≡◌, ◌≤◌, ◌⊎◌, refl, arith, ◌==◌, [], none, some, if◌then◌else◌,
}
use near_real_time_hybrid_se.Common.Int.{pos}
use near_real_time_hybrid_se.Common.Bytes.{Bytes, codes}
use near_real_time_hybrid_se.Common.Trim.{is_empty}
use near_real_time_hybrid_se.Kafka.{Message}
use near_real_time_hybrid_se.Pool.{
  Pool, exited, Move, submit, stop, check, take, finish, move, Reach, here, later, started, route,
  submit_to, check_quit, take_message, finish_handler, per_worker, stats,
}
use near_real_time_hybrid_se.Pool.Order.{Kept, Reach-Kept, history}
use near_real_time_hybrid_se.Pool.Keys.{key_order, keyed, worker_of}
use near_real_time_hybrid_se.Pool.Depth.{stats_bounds}
use near_real_time_hybrid_se.Pool.Shutdown.{acts, stopping_ends, steps_of, starts_of}

abbrev event_of : Bytes → ℕ → Message
event_of k n = record { topic = codes "documents"; partition = 0; offset = n; key = k; value = [] }

abbrev first : Message
first = event_of (codes "7") 0

abbrev second : Message
second = event_of (codes "7") 1

abbrev other : Message
other = event_of (codes "8") 2

-- Where the two keys go.
routes : (route 2 first ≡ 0) × (route 2 other ≡ 1) × (route 2 (event_of [] 5) ≡ 1)
unfolding route
routes = (refl, refl, refl)

sizes :
    (per_worker (pos 4) (pos 10) ≡ some 2)
    × (per_worker (pos 4) (pos 2) ≡ some 1)
    × (per_worker (pos 0) (pos 9) ≡ none)
unfolding per_worker
sizes = (refl, refl, refl)

-- Two submissions, and both workers take their message.
unfoldable queued : (s : Pool) × Reach 2 1 started s
unfolding move submit_to route
queued = (_, later (submit other) (later (submit first) here refl) refl)

unfoldable both : (s : Pool) × Reach 2 1 started s
unfolding move check_quit take_message queued
both = (
  _,
  later (take 1) (later (check 1) (later (take 0) (later (check 0) queued.1 refl) refl) refl) refl,
)

-- The first worker is done and gets the second message with its key; then the pool stops.
unfoldable next : (s : Pool) × Reach 2 1 started s
unfolding move submit_to route check_quit take_message finish_handler queued both
next = (_, later (check 0) (later (finish 0 none) (later (submit second) both.1 refl) refl) refl)

Reach-Kept_example : Kept 2 1 0 next.0
Reach-Kept_example = Reach-Kept 2 1 0 next.1

key_order_example :
    keyed (codes "7") (history (next.0.workers 0))
    ≡ (if worker_of 2 (codes "7") == 0 then keyed (codes "7") next.0.submitted else [])
unfolding is_empty
key_order_example = key_order 2 1 0 (codes "7") refl next.1

-- The pool stops while the first worker stands before its second select, so that it still takes its
-- message.
unfoldable stopping : (s : Pool) × Reach 2 1 started s
unfolding move next both queued
stopping = (_, later stop next.1 refl)

unfoldable last_run : (t : Pool) × Reach 2 1 stopping.0 t
unfolding move take_message finish_handler stopping next both queued
last_run = (_, later (finish 0 none) (later (take 0) here refl) refl)

stopping_ends_example :
    (starts_of 0 last_run.1 ≤ 1)
    × (steps_of 0 last_run.1 ≤ 3)
    × (((last_run.0.workers 0).place ≡ exited)
        ⊎ ((v : Move) × (u : Pool) × (acts 0 v ≡ 1) × (move 2 1 v last_run.0 ≡ some u)))
unfolding stopping
stopping_ends_example = stopping_ends 2 1 0 refl (omega arith) last_run.1

late_start : starts_of 0 last_run.1 ≡ 1
unfolding starts_of last_run stopping next both queued
late_start = refl

-- What Stats says while both workers are busy.
busy : stats 2 1 both.0 ≡ record { workers = 2; active = 2; queued = 0; capacity = 2 }
unfolding stats both queued
busy = refl

stats_bounds_example :
    ((stats 2 1 next.0).active ≤ 2)
    × ((stats 2 1 next.0).queued ≤ (stats 2 1 next.0).capacity)
    × (((stats 2 1 next.0).capacity ≤ 1) ⊎ ((stats 2 1 next.0).capacity ≡ 2))
unfolding per_worker
stats_bounds_example = stats_bounds 2 1 1 refl next.1
