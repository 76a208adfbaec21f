-- ===== src/Flow.antt =====
-- The consumer process put together (cmd/consumer/main.go, run): Consumer.Run fetches a message, tracks
-- its offset and hands it to WorkerPool.Submit; a worker runs the handler, and its success calls Done,
-- which commits. A move is one step of Run's loop, of the pool or of a handler's end, and any move that
-- is enabled may come next. `Handles m e` says that the handler may answer the message `m` with `e`.
pub mod Carried
pub mod Log
pub mod Offsets
pub mod Answered
pub mod NewCommits
pub mod Commits
pub mod System
pub mod Ended
pub mod Settled
use near_real_time_hybrid_se.Common.{
  ℕ, ◌≡◌, Bool, true, false, List, [], ◌∷◌, ◌++◌, Option, none, some, if◌then◌else◌,
}
use near_real_time_hybrid_se.Errors.{Err}
use near_real_time_hybrid_se.Kafka.{Message, TopicPartition, Tracker, new_tracker, add, mark_done}
use near_real_time_hybrid_se.Kafka.Consumer.{key_of}
use near_real_time_hybrid_se.Kafka.Commits.{Call, fetched, finished}
use near_real_time_hybrid_se.Pool.{Pool, Place, handling, started}
use near_real_time_hybrid_se.Pool

-- `pending` is the message that Run is submitting, `received` all that it has fetched, `calls` the
-- tracker's calls so far, and `commits` the offsets that markDone gave out to be committed.
pub record Process : Type 0 where
  pub offsets : Tracker
  pub pool : Pool
  pub pending : Option Message
  pub received : List Message
  pub calls : List Call
  pub commits : List (TopicPartition × ℕ)

abbrev pub begun : Process
begun = record {
  offsets = new_tracker;
  pool = started;
  pending = none;
  received = [];
  calls = [];
  commits = [];
}

-- `work` is a move of the pool that neither submits nor ends a handler.
pub data Work : Type 0 where
  stop cancel : Work
  check leave take : ℕ → Work

pub data Move : Type 0 where
  fetch : Message → Move
  submit : Move
  work : Work → Move
  handled : ℕ → Option Err → Move

abbrev pub pool_move : Work → Pool.Move
pool_move stop = Pool.stop
pool_move cancel = Pool.cancel
pool_move (check i) = Pool.check i
pool_move (leave i) = Pool.leave i
pool_move (take i) = Pool.take i

-- FetchMessage returned `m`, and track adds its offset.
unfoldable pub receive : Message → Option Message → Process → Option Process
receive m (some p) s = none
receive m none s = some (record s {
  offsets = add s.offsets (key_of m) m.offset;
  pending = some m;
  received = s.received ++ (m ∷ []);
  calls = s.calls ++ (fetched (key_of m) m.offset ∷ []);
})

-- The callback Done of a message.
unfoldable pub acknowledge : Message → Process → Process
acknowledge m s =
    let (t, (c, ready)) = mark_done s.offsets (key_of m) m.offset in
    record s {
      offsets = t;
      calls = s.calls ++ (finished (key_of m) m.offset ∷ []);
      commits = if ready then s.commits ++ ((key_of m, c) ∷ []) else s.commits;
    }

-- The end of handle: Done is called if the handler returned nil.
unfoldable pub after_handler : Place → Option Err → Process → Process
unfolding acknowledge
after_handler (handling m) none s = acknowledge m s
after_handler _ _ s = s

module _ (n cap : ℕ) where
  abbrev pub in_pool : Pool.Move → (Pool → Process) → Pool → Option Process
  in_pool v k p = elim (Pool.move n cap v p) [ none ↦ none | some q ↦ some (k q) ]

  unfoldable pub move : Move → Process → Option Process
  unfolding receive after_handler
  move (fetch m) s = receive m s.pending s
  move submit s = elim s.pending [
    | none ↦ none
    | some m ↦ in_pool (Pool.submit m) (λ q. record s { pool = q; pending = none }) s.pool
  ]
  move (work v) s = in_pool (pool_move v) (λ q. record s { pool = q }) s.pool
  move (handled i e) s =
      in_pool (Pool.finish i e)
        (λ q. after_handler (s.pool.workers i).place e (record s { pool = q })) s.pool

  module _ (Handles : Message → Option Err → Type 0) where
    -- The result with which a handler ends is one that it may answer its message with.
    abbrev pub Answers : Place → Option Err → Type 0
    Answers (handling m) e = Handles m e
    Answers _ e = ⊥

    abbrev pub Permits : Move → Process → Type 0
    Permits (handled i e) s = Answers (s.pool.workers i).place e
    Permits _ s = Unit {0}

    pub data Reach : Process → Type 0 where
      here : Reach begun
      later : {s t : Process} (v : Move) → Reach s → Permits v s → move v s ≡ some t → Reach t
