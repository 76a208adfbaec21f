-- ===== src/Flow/System.antt =====
-- The consumer process with the world that its handlers act on (cmd/consumer/main.go, run, over
-- internal/indexing/worker.go and internal/indexing/pipeline.go): every worker's handler is
-- Pipeline.Process. `S` is the state of all that it calls. The calls of one run of the handler stand
-- together, in the step with which the run ends, in the state that the runs before it have left.
use near_real_time_hybrid_se.Common.{ℕ, ◌≡◌, List, [], ◌∷◌, ◌++◌, Option, none, some}
use near_real_time_hybrid_se.Retry.{Float64}
use near_real_time_hybrid_se.Kafka.{Message}
use near_real_time_hybrid_se.Pool.{Place, checking, waiting, exited, handling}
use near_real_time_hybrid_se.Pipeline.{Pipeline, Processed, process}
use near_real_time_hybrid_se.Flow.{Process, Work, begun}
use near_real_time_hybrid_se.Flow

-- A run of the handler that has ended: its message, the world in which it ran, and its result.
pub record Ended (S : Type 0) : Type 0 where
  pub message : Message
  pub before : S
  pub result : Processed S

pub record System (S : Type 0) : Type 0 where
  pub consumer : Process
  pub world : S
  pub ended : List (Ended S)

-- A step of Run's loop, of the pool, or the end of worker `i`'s run of the handler.
pub data Act : Type 0 where
  fetch : Message → Act
  submit : Act
  work : Work → Act
  finish : ℕ → Act

module _ {S : Type 0} where
  -- The process before its first step, in a world.
  abbrev pub opened : S → System S
  opened w = record { consumer = begun; world = w; ended = [] }

  abbrev pub with_consumer : Option Process → System S → Option (System S)
  with_consumer none s = none
  with_consumer (some q) s = some (record s { consumer = q })

  abbrev pub with_ended : Message → Processed S → Option Process → System S → Option (System S)
  with_ended m o none s = none
  with_ended m o (some q) s = some (record {
    consumer = q;
    world = o.state;
    ended = s.ended ++ (record { message = m; before = s.world; result = o } ∷ []);
  })

module _ {f : Float64} {Event S : Type 0} (p : Pipeline f Event S) (n cap : ℕ) where
  abbrev pub after_run : ℕ → Message → Option (Processed S) → System S → Option (System S)
  after_run i m none s = none
  after_run i m (some o) s = with_ended m o (Flow.move n cap (Flow.handled i o.err) s.consumer) s

  -- WorkerPool.handle with Pipeline.Process for its handler, where the worker stands in `place`.
  unfoldable pub run_handler : ℕ → Place → System S → Option (System S)
  run_handler i (handling m) s = after_run i m (process p m s.world) s
  run_handler i checking s = none
  run_handler i waiting s = none
  run_handler i exited s = none

  unfoldable pub step : Act → System S → Option (System S)
  unfolding run_handler
  step (fetch m) s = with_consumer (Flow.move n cap (Flow.fetch m) s.consumer) s
  step submit s = with_consumer (Flow.move n cap Flow.submit s.consumer) s
  step (work v) s = with_consumer (Flow.move n cap (Flow.work v) s.consumer) s
  step (finish i) s = run_handler i (s.consumer.pool.workers i).place s

  pub data Reach (w : S) : System S → Type 0 where
    here : Reach w (opened w)
    later : {s t : System S} (v : Act) → Reach w s → step v s ≡ some t → Reach w t
