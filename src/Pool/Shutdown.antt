-- ===== src/Pool/Shutdown.antt =====
-- What workers still do once the pool of internal/indexing/worker.go is stopping.
use near_real_time_hybrid_se.Common.{
  ℕ, ◌+◌, ◌≡◌, ◌≤◌, ◌<◌, ◌⊎◌, refl, inl, inr, true, ◌==◌, [], ◌∷◌, ◌++◌, none, some, arith,
  if◌then◌else◌,
}
use near_real_time_hybrid_se.Pool.{
  Pool, Place, checking, waiting, exited, handling, Move, submit, stop, cancel, check, leave, take,
  finish, move, Reach, here, later, update, submit_to, check_quit, leave_worker, take_message,
  finish_handler, record_result, set_place,
}

-- Whether a move is one of worker `i`, and whether it starts a message there.
abbrev pub acts : ℕ → Move → ℕ
acts i (check j) = if i == j then 1 else 0
acts i (leave j) = if i == j then 1 else 0
acts i (take j) = if i == j then 1 else 0
acts i (finish j e) = if i == j then 1 else 0
acts i _ = 0

abbrev pub starts : ℕ → Move → ℕ
starts i (take j) = if i == j then 1 else 0
starts i _ = 0

-- The moves that worker `i` made in a run, and the messages that it started.
unfoldable pub steps_of : {n cap : ℕ} {s t : Pool} → ℕ → Reach n cap s t → ℕ
steps_of i here = 0
steps_of i (later v r h) = steps_of i r + acts i v

unfoldable pub starts_of : {n cap : ℕ} {s t : Pool} → ℕ → Reach n cap s t → ℕ
starts_of i here = 0
starts_of i (later v r h) = starts_of i r + starts i v

-- How many moves, and how many starts, a worker has left at most.
abbrev rank : Place → ℕ
rank exited = 0
rank checking = 1
rank (handling m) = 2
rank waiting = 3

abbrev credit : Place → ℕ
credit waiting = 1
credit _ = 0

module _ (n cap i : ℕ) where
  abbrev Spent : Move → Pool → Pool → Type 0
  Spent v s t =
      (t.quit ≡ true)
      × (acts i v + rank (t.workers i).place ≤ rank (s.workers i).place)
      × (starts i v + credit (t.workers i).place ≤ credit (s.workers i).place)

  move-Spent :
      (v : Move) (s : Pool) {t : Pool} → s.quit ≡ true → move n cap v s ≡ some t → Spent v s t
  unfolding move submit_to check_quit leave_worker take_message finish_handler
  move-Spent (submit m) s q h = ground (arith, h)
  move-Spent stop s q h = ground (arith, h)
  move-Spent cancel s q h = ground (arith, h)
  move-Spent (check j) s q h = ground (arith, h)
  move-Spent (leave j) s q h = ground (arith, h)
  move-Spent (take j) s q h = ground (arith, h)
  move-Spent (finish j none) s q h = ground (arith, h)
  move-Spent (finish j (some e)) s q h = ground (arith, h)

  run-Spent :
      {s t : Pool}
      → s.quit ≡ true
      → (r : Reach n cap s t)
      → (t.quit ≡ true)
        × (steps_of i r + rank (t.workers i).place ≤ rank (s.workers i).place)
        × (starts_of i r + credit (t.workers i).place ≤ credit (s.workers i).place)
  unfolding steps_of starts_of
  run-Spent q here = (q, omega arith, omega arith)
  run-Spent q (later {t} v r h) =
      let (a, b, c) = run-Spent q r in
      let (d, e, f) = move-Spent v t a h in (d, omega arith, omega arith)

  rank_small : (p : Place) → (rank p ≤ 3) × (credit p ≤ 1)
  rank_small exited = omega arith
  rank_small checking = omega arith
  rank_small waiting = omega arith
  rank_small (handling m) = omega arith

  -- A worker that has not returned can make a move: its handler may return, and it sees that the pool
  -- is stopping.
  can_move :
      (p : Place) (t : Pool)
      → p ≡ (t.workers i).place
      → t.quit ≡ true
      → i < n
      → (p ≡ exited) ⊎ ((v : Move) × (u : Pool) × (acts i v ≡ 1) × (move n cap v t ≡ some u))
  unfolding move check_quit leave_worker finish_handler
  can_move exited t e q l = inl refl
  can_move checking t e q l =
      inr (check i, set_place t i exited, ground arith, ground (arith, e, q, l))
  can_move waiting t e q l =
      inr (leave i, set_place t i exited, ground arith, ground (arith, e, q, l))
  can_move (handling m) t e q l = inr (
    finish i none,
    record_result m none (record t {
      workers = update t.workers i (record (t.workers i) {
        place = checking;
        completed = (t.workers i).completed ++ ((m, none) ∷ []);
      });
    }),
    ground arith,
    ground (arith, e, l),
  )

  -- Once the pool is stopping, a worker starts at most one more message and makes at most three more
  -- moves, whatever the others do; and until it has returned it can move, as soon as its handler
  -- returns. So the workers that Shutdown waits for return.
  pub stopping_ends :
      {s t : Pool}
      → s.quit ≡ true
      → i < n
      → (r : Reach n cap s t)
      → (starts_of i r ≤ 1)
        × (steps_of i r ≤ 3)
        × (((t.workers i).place ≡ exited)
            ⊎ ((v : Move) × (u : Pool) × (acts i v ≡ 1) × (move n cap v t ≡ some u)))
  stopping_ends {s} {t} q l r =
      let (a, b, c) = run-Spent q r in
      let (d, e) = rank_small (s.workers i).place in
      (omega arith, omega arith, can_move (t.workers i).place t refl a l)
