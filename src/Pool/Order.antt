-- ===== src/Pool/Order.antt =====
-- In every reachable state of the pool of internal/indexing/worker.go: where the submitted messages are,
-- and in which order.
use mathlib.Core.List.{append_assoc, map-append}
use near_real_time_hybrid_se.Common.{
  ℕ, ◌≡◌, ◌≤◌, refl, ◌==◌, List, [], ◌∷◌, ◌++◌, map, Option, none, some, arith, length,
  length-append, if◌then◌else◌,
}
use near_real_time_hybrid_se.Errors.{Err}
use near_real_time_hybrid_se.Kafka.{Message}
use near_real_time_hybrid_se.Pool.{
  Pool, Worker, Place, checking, waiting, exited, handling, Move, submit, stop, cancel, check,
  leave, take, finish, move, Reach, here, later, started, route, submit_to, check_quit,
  leave_worker, take_message, finish_handler,
}

-- The messages that are routed to a worker, in order.
unfoldable pub routed : ℕ → ℕ → List Message → List Message
routed n i [] = []
routed n i (m ∷ ms) = let rest = routed n i ms in if route n m == i then m ∷ rest else rest

routed-append :
    (n i : ℕ) (ms : List Message) (m : Message)
    → routed n i (ms ++ (m ∷ []))
      ≡ (if route n m == i then routed n i ms ++ (m ∷ []) else routed n i ms)
unfolding routed
routed-append n i [] m = ground arith
routed-append n i (x ∷ ms) m = ground (arith, routed-append n i ms m)

abbrev pub in_hand : Place → List Message
in_hand (handling m) = m ∷ []
in_hand _ = []

-- What a worker has handled, what it is handling, and what waits in its queue.
abbrev pub history : Worker → List Message
history w = map (λ r. r.0) w.completed ++ (in_hand w.place ++ w.queue)

-- What holds of worker `i`: its history is what was routed to it, and its queue is within bounds.
abbrev pub Kept : ℕ → ℕ → ℕ → Pool → Type 0
Kept n cap i s =
    (routed n i s.submitted ≡ history (s.workers i)) × (length (s.workers i).queue ≤ cap)

history-push :
    (a b q : List Message) (m : Message) → a ++ (b ++ (q ++ (m ∷ []))) ≡ (a ++ (b ++ q)) ++ (m ∷ [])
history-push a b q m = simp append_assoc

history_done :
    (c : List (Message × Option Err)) (m : Message) (e : Option Err) (q : List Message)
    → map (λ r. r.0) (c ++ ((m, e) ∷ [])) ++ q ≡ map (λ r. r.0) c ++ (m ∷ q)
history_done c m e q = simp (map-append, append_assoc)

module _ (n cap i : ℕ) where
  submit-Kept :
      (m : Message) (s : Pool) {t : Pool}
      → submit_to cap (route n m) m s ≡ some t
      → Kept n cap i s
      → Kept n cap i t
  unfolding submit_to
  submit-Kept m s h k =
      let w = s.workers (route n m) in
      ground (
        arith,
        routed-append n i s.submitted m,
        history-push (map (λ r. r.0) w.completed) (in_hand w.place) w.queue m,
        length-append w.queue (m ∷ []),
      )

  check-Kept :
      (j : ℕ) (p : Place) (s : Pool) {t : Pool}
      → p ≡ (s.workers j).place
      → check_quit j p s ≡ some t
      → Kept n cap i s
      → Kept n cap i t
  unfolding check_quit
  check-Kept j checking s e h k = ground (arith, e)
  check-Kept j waiting s e h k = cc
  check-Kept j exited s e h k = cc
  check-Kept j (handling m) s e h k = cc

  leave-Kept :
      (j : ℕ) (p : Place) (s : Pool) {t : Pool}
      → p ≡ (s.workers j).place
      → leave_worker j p s ≡ some t
      → Kept n cap i s
      → Kept n cap i t
  unfolding leave_worker
  leave-Kept j waiting s e h k = ground (arith, e)
  leave-Kept j checking s e h k = cc
  leave-Kept j exited s e h k = cc
  leave-Kept j (handling m) s e h k = cc

  take-Kept :
      (j : ℕ) (p : Place) (q : List Message) (s : Pool) {t : Pool}
      → p ≡ (s.workers j).place
      → q ≡ (s.workers j).queue
      → take_message j p q s ≡ some t
      → Kept n cap i s
      → Kept n cap i t
  unfolding take_message
  take-Kept j waiting (m ∷ ms) s e f h k = ground (arith, e, f)
  take-Kept j waiting [] s e f h k = cc
  take-Kept j checking q s e f h k = cc
  take-Kept j exited q s e f h k = cc
  take-Kept j (handling m) q s e f h k = cc

  finish-Kept :
      (j : ℕ) (p : Place) (x : Option Err) (s : Pool) {t : Pool}
      → p ≡ (s.workers j).place
      → finish_handler j p x s ≡ some t
      → Kept n cap i s
      → Kept n cap i t
  unfolding finish_handler
  finish-Kept j (handling m) none s e h k =
      ground (arith, e, history_done (s.workers j).completed m none (s.workers j).queue)
  finish-Kept j (handling m) (some x) s e h k =
      ground (arith, e, history_done (s.workers j).completed m (some x) (s.workers j).queue)
  finish-Kept j checking x s e h k = cc
  finish-Kept j waiting x s e h k = cc
  finish-Kept j exited x s e h k = cc

  move-Kept :
      (v : Move) (s : Pool) {t : Pool} → move n cap v s ≡ some t → Kept n cap i s → Kept n cap i t
  unfolding move
  move-Kept (submit m) s h k = submit-Kept m s h k
  move-Kept stop s h k = ground (arith, h)
  move-Kept cancel s h k = ground (arith, h)
  move-Kept (check j) s {t} h k =
      check-Kept j (s.workers j).place s {t = t} refl (ground (arith, h)) k
  move-Kept (leave j) s {t} h k =
      leave-Kept j (s.workers j).place s {t = t} refl (ground (arith, h)) k
  move-Kept (take j) s {t} h k =
      take-Kept j (s.workers j).place (s.workers j).queue s {t = t} refl refl (ground (arith, h)) k
  move-Kept (finish j x) s {t} h k =
      finish-Kept j (s.workers j).place x s {t = t} refl (ground (arith, h)) k

  -- In every state that the pool can reach: the messages routed to a worker, in the order in which they
  -- were submitted, are those that it has handled, then the one that it is handling, then those in its
  -- queue, which never holds more than its capacity. So no message is lost, doubled or overtaken.
  pub Reach-Kept : {s : Pool} → Reach n cap started s → Kept n cap i s
  unfolding routed
  Reach-Kept here = (refl, omega arith)
  Reach-Kept (later {t} v r h) = move-Kept v t h (Reach-Kept r)
