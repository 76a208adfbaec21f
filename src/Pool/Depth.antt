-- ===== src/Pool/Depth.antt =====
-- How many messages the pool of internal/indexing/worker.go holds.
use native.Mathlib.Nat.{mul-div-le}
use near_real_time_hybrid_se.Common.{ℕ, zero, suc, ◌*◌, ◌≡◌, ◌≤◌, ◌⊎◌, some, arith, length}
use near_real_time_hybrid_se.Common.Int.{pos}
use near_real_time_hybrid_se.Pool.{
  Pool, Worker, Place, checking, waiting, exited, handling, Reach, started, per_worker, is_active,
  total, stats,
}
use near_real_time_hybrid_se.Pool.Order.{Reach-Kept}

total_bound :
    (f : Worker → ℕ) (b n : ℕ) (w : ℕ → Worker) → ((i : ℕ) → f (w i) ≤ b) → total f n w ≤ n * b
unfolding total
total_bound f b zero w h = omega arith
total_bound f b (suc n) w h = ground (arith, total_bound f b n w h, h n)

is_active_bound : (p : Place) → is_active p ≤ 1
is_active_bound checking = omega arith
is_active_bound waiting = omega arith
is_active_bound exited = omega arith
is_active_bound (handling m) = omega arith

total_const : (b n : ℕ) (w : ℕ → Worker) → total (λ x. b) n w ≡ n * b
unfolding total
total_const b zero w = omega arith
total_const b (suc n) w = ground (arith, total_const b n w)

share_bound : (n q cap : ℕ) → per_worker (pos n) (pos q) ≡ some cap → (n * cap ≤ q) ⊎ (n * cap ≡ n)
unfolding per_worker
share_bound n q cap h = ground (arith, h, mul-div-le q n)

-- A pool of `n` workers that was asked to share queues of `q` messages: in every state that it can
-- reach, at most `n` workers are handling a message, no more messages wait than Stats reports as the
-- capacity, and the capacity is at most `q`, or exactly `n` (one for each worker).
pub stats_bounds :
    (n q cap : ℕ) {s : Pool}
    → per_worker (pos n) (pos q) ≡ some cap
    → Reach n cap started s
    → ((stats n cap s).active ≤ n)
      × ((stats n cap s).queued ≤ (stats n cap s).capacity)
      × (((stats n cap s).capacity ≤ q) ⊎ ((stats n cap s).capacity ≡ n))
unfolding stats
stats_bounds n q cap {s} h r = ground (
  arith,
  total_bound (λ w. is_active w.place) 1 n s.workers (λ i. is_active_bound (s.workers i).place),
  total_bound (λ w. length w.queue) cap n s.workers (λ i. (Reach-Kept n cap i r).1),
  total_const cap n s.workers,
  share_bound n q cap h,
)
