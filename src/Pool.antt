-- ===== src/Pool.antt =====
-- internal/indexing/worker.go: a pool of workers, each with its own bounded queue of messages.
-- Goroutines and channels are a step relation: a move is one step of the consumer, of a worker or of
-- Shutdown, and any move that is enabled may come next. A closed channel is `true`. The handler's
-- result is part of the move that ends its call. fnv is hash/fnv's New32a. Logging is left out.
pub mod Order
pub mod Keys
pub mod Shutdown
pub mod Depth
use Prim.Native.Nat.{bit_xor}
use near_real_time_hybrid_se.Common.{
  ℕ, zero, suc, ◌≡◌, ◌+◌, ◌*◌, ◌/◌, ◌%◌, ◌^◌, Bool, true, false, not, ◌&&◌, ◌||◌, ◌==◌, List, [],
  ◌∷◌, ◌++◌, Option, none, some, ltb, leb, length, if◌then◌else◌,
}
use near_real_time_hybrid_se.Common.Int.{ℤ, pos, leb_ℤ, pos_part}
use near_real_time_hybrid_se.Common.Bytes.{Bytes}
use near_real_time_hybrid_se.Common.Trim.{is_empty}
use near_real_time_hybrid_se.Errors.{Err}
use near_real_time_hybrid_se.Kafka.{Message}

-- FNV-1a on 32 bits.
unfoldable pub fnv : ℕ → Bytes → ℕ
fnv h [] = h
fnv h (c ∷ cs) = fnv (bit_xor h c * 16777619 % 2 ^ 32) cs

abbrev pub fnv_offset : ℕ
fnv_offset = 2166136261

-- WorkerPool.route, for a pool of `workers` queues.
unfoldable pub route : ℕ → Message → ℕ
unfolding fnv is_empty
route workers m = if is_empty m.key then m.offset % workers else fnv fnv_offset m.key % workers

-- Where a worker stands: before its first select, before its second one, in the handler, or returned.
pub data Place : Type 0 where
  checking waiting exited : Place
  handling : Message → Place

-- `completed` is what the worker has handled so far, with the handler's results.
pub record Worker : Type 0 where
  pub queue : List Message
  pub place : Place
  pub completed : List (Message × Option Err)

-- `submitted` is what Submit has queued, `finished` the messages whose Done was called, `fatal` the
-- errors that onFatal was called with; `cancelled` says whether the handlers' context has ended.
pub record Pool : Type 0 where
  pub workers : ℕ → Worker
  pub quit : Bool
  pub cancelled : Bool
  pub submitted : List Message
  pub finished : List Message
  pub fatal : List Err

-- The capacity of each queue in NewWorkerPool, none if it refuses the sizes.
unfoldable pub per_worker : ℤ → ℤ → Option ℕ
per_worker workers queue_size =
    if leb_ℤ workers (pos 0) || leb_ℤ queue_size (pos 0)
    then none
    else let share = pos_part queue_size / pos_part workers in
      some (if ltb share 1 then 1 else share)

-- The pool that Start has launched.
abbrev pub started : Pool
started = record {
  workers = λ i. record { queue = []; place = checking; completed = [] };
  quit = false;
  cancelled = false;
  submitted = [];
  finished = [];
  fatal = [];
}

abbrev pub update : (ℕ → Worker) → ℕ → Worker → ℕ → Worker
update f i w j = if i == j then w else f j

pub data Move : Type 0 where
  submit : Message → Move
  stop cancel : Move
  check leave take : ℕ → Move
  finish : ℕ → Option Err → Move

-- The second case of Submit's select and the send: it is enabled while the queue has room.
unfoldable pub submit_to : ℕ → ℕ → Message → Pool → Option Pool
submit_to cap i m s =
    let w = s.workers i in
    if ltb (length w.queue) cap
    then some (record s {
      workers = update s.workers i (record w { queue = w.queue ++ (m ∷ []) });
      submitted = s.submitted ++ (m ∷ []);
    })
    else none

abbrev pub set_place : Pool → ℕ → Place → Pool
set_place s i p = record s { workers = update s.workers i (record (s.workers i) { place = p }) }

-- The first select of work: it returns if the pool is stopping, and goes on if not.
unfoldable pub check_quit : ℕ → Place → Pool → Option Pool
check_quit i checking s = some (set_place s i (if s.quit then exited else waiting))
check_quit i waiting s = none
check_quit i exited s = none
check_quit i (handling m) s = none

-- The second select of work, in its two cases: `quit` is closed, or a message is received.
unfoldable pub leave_worker : ℕ → Place → Pool → Option Pool
leave_worker i waiting s = if s.quit then some (set_place s i exited) else none
leave_worker i checking s = none
leave_worker i exited s = none
leave_worker i (handling m) s = none

unfoldable pub take_message : ℕ → Place → List Message → Pool → Option Pool
take_message i waiting (m ∷ ms) s = some (record s {
  workers = update s.workers i (record (s.workers i) { queue = ms; place = handling m });
})
take_message i waiting [] s = none
take_message i checking ms s = none
take_message i exited ms s = none
take_message i (handling m) ms s = none

-- The end of handle, after the handler returned `e`.
abbrev pub record_result : Message → Option Err → Pool → Pool
record_result m none s = record s { finished = s.finished ++ (m ∷ []) }
record_result m (some e) s = if s.cancelled then s else record s { fatal = s.fatal ++ (e ∷ []) }

unfoldable pub finish_handler : ℕ → Place → Option Err → Pool → Option Pool
finish_handler i (handling m) e s =
    let w = s.workers i in
    some (
      record_result m e (record s {
        workers =
            update s.workers i
              (record w { place = checking; completed = w.completed ++ ((m, e) ∷ []) });
      }))
finish_handler i checking e s = none
finish_handler i waiting e s = none
finish_handler i exited e s = none

-- One move of a pool of `n` workers with queues of `cap` messages; none if it is not enabled.
module _ (n cap : ℕ) where
  unfoldable pub move : Move → Pool → Option Pool
  unfolding submit_to check_quit leave_worker take_message finish_handler
  move (submit m) s = submit_to cap (route n m) m s
  move stop s = some (record s { quit = true })
  move cancel s = some (record s { cancelled = true })
  move (check i) s = if ltb i n then check_quit i (s.workers i).place s else none
  move (leave i) s = if ltb i n then leave_worker i (s.workers i).place s else none
  move (take i) s =
      if ltb i n then take_message i (s.workers i).place (s.workers i).queue s else none
  move (finish i e) s = if ltb i n then finish_handler i (s.workers i).place e s else none

  pub data Reach (s : Pool) : Pool → Type 0 where
    here : Reach s s
    later : {t u : Pool} (v : Move) → Reach s t → move v t ≡ some u → Reach s u

-- Stats.
pub record Stats : Type 0 where
  pub workers : ℕ
  pub active : ℕ
  pub queued : ℕ
  pub capacity : ℕ

abbrev pub is_active : Place → ℕ
is_active (handling m) = 1
is_active _ = 0

unfoldable pub total : (Worker → ℕ) → ℕ → (ℕ → Worker) → ℕ
total f zero w = 0
total f (suc n) w = total f n w + f (w n)

unfoldable pub stats : ℕ → ℕ → Pool → Stats
unfolding total
stats n cap s = record {
  workers = n;
  active = total (λ w. is_active w.place) n s.workers;
  queued = total (λ w. length w.queue) n s.workers;
  capacity = total (λ w. cap) n s.workers;
}
