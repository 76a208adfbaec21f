-- ===== src/Flow/Carried.antt =====
-- Where a message is between its fetch and its handler's end (cmd/consumer/main.go, run, over the pool of
-- internal/indexing/worker.go).
use mathlib.Core.List.{append-nil}
use near_real_time_hybrid_se.Common.{
  ℕ, ◌≡◌, refl, sym, subst, inl, inr, Bool, true, false, ◌==◌, List, [], ◌∷◌, ◌++◌, map, Option,
  none, some, arith, In, if◌then◌else◌,
}
use near_real_time_hybrid_se.Errors.{Err}
use near_real_time_hybrid_se.Kafka.{Message}
use near_real_time_hybrid_se.Pool.{
  Pool, Place, checking, waiting, exited, handling, submit_to, check_quit, leave_worker,
  take_message, finish_handler, route, started,
}
use near_real_time_hybrid_se.Pool
use near_real_time_hybrid_se.Pool.Order.{routed, history, Reach-Kept}
use near_real_time_hybrid_se.Flow.{
  Process, Work, stop, cancel, check, leave, take, fetch, submit, work, handled, pool_move, receive,
  acknowledge, after_handler, move, Reach, here, later,
}

-- The messages that a move of the pool adds to those whose Done was called.
abbrev pub answered : Place → Option Err → List Message
answered (handling m) none = m ∷ []
answered _ _ = []

-- What `t` keeps of `s`: the submitted messages and the finished ones.
abbrev Keeps : Pool → Pool → Type 0
Keeps s t = (t.submitted ≡ s.submitted) × (t.finished ≡ s.finished)

module _ (i : ℕ) where
  check-Keeps : (p : Place) (s : Pool) {t : Pool} → check_quit i p s ≡ some t → Keeps s t
  unfolding check_quit
  check-Keeps checking s h = ground arith
  check-Keeps waiting s h = cc
  check-Keeps exited s h = cc
  check-Keeps (handling m) s h = cc

  leave-Keeps : (p : Place) (s : Pool) {t : Pool} → leave_worker i p s ≡ some t → Keeps s t
  unfolding leave_worker
  leave-Keeps waiting s h = ground arith
  leave-Keeps checking s h = cc
  leave-Keeps exited s h = cc
  leave-Keeps (handling m) s h = cc

  take-Keeps :
      (p : Place) (q : List Message) (s : Pool) {t : Pool}
      → take_message i p q s ≡ some t
      → Keeps s t
  unfolding take_message
  take-Keeps waiting (m ∷ ms) s h = ground arith
  take-Keeps waiting [] s h = cc
  take-Keeps checking q s h = cc
  take-Keeps exited q s h = cc
  take-Keeps (handling m) q s h = cc

  finish-answered :
      (p : Place) (e : Option Err) (s : Pool) {t : Pool}
      → finish_handler i p e s ≡ some t
      → (t.submitted ≡ s.submitted) × (t.finished ≡ s.finished ++ answered p e)
  unfolding finish_handler
  finish-answered (handling m) none s h = ground arith
  finish-answered (handling m) (some e) s h = ground (arith, append-nil s.finished)
  finish-answered checking e s h = cc
  finish-answered waiting e s h = cc
  finish-answered exited e s h = cc

module _ (n cap : ℕ) where
  pub work-Keeps :
      (v : Work) (s : Pool) {t : Pool} → Pool.move n cap (pool_move v) s ≡ some t → Keeps s t
  unfolding Pool.move
  work-Keeps stop s h = ground arith
  work-Keeps cancel s h = ground arith
  work-Keeps (check i) s {t} h = check-Keeps i (s.workers i).place s {t = t} (ground (arith, h))
  work-Keeps (leave i) s {t} h = leave-Keeps i (s.workers i).place s {t = t} (ground (arith, h))
  work-Keeps (take i) s {t} h =
      take-Keeps i (s.workers i).place (s.workers i).queue s {t = t} (ground (arith, h))

  pub submit-adds :
      (m : Message) (s : Pool) {t : Pool}
      → Pool.move n cap (Pool.submit m) s ≡ some t
      → (t.submitted ≡ s.submitted ++ (m ∷ [])) × (t.finished ≡ s.finished)
  unfolding Pool.move submit_to
  submit-adds m s h = ground arith

  pub finish-adds :
      (i : ℕ) (e : Option Err) (s : Pool) {t : Pool}
      → Pool.move n cap (Pool.finish i e) s ≡ some t
      → (t.submitted ≡ s.submitted) × (t.finished ≡ s.finished ++ answered (s.workers i).place e)
  unfolding Pool.move
  finish-adds i e s {t} h = finish-answered i (s.workers i).place e s {t = t} (ground (arith, h))

-- What a move of the process does to its pool: nothing, or one move of the pool.
pub after_handler-pool :
    (p : Place) (e : Option Err) (s : Process) → (after_handler p e s).pool ≡ s.pool
unfolding after_handler acknowledge
after_handler-pool (handling m) none s = refl
after_handler-pool (handling m) (some e) s = refl
after_handler-pool checking e s = refl
after_handler-pool waiting e s = refl
after_handler-pool exited e s = refl

-- A list that keeps or drops its first entry has no other entries.
In-kept :
    (b : Bool) (m x : Message) (l ms : List Message)
    → (In m l → In m ms)
    → In m (if b then x ∷ l else l)
    → In m (x ∷ ms)
In-kept true m x l ms k (inl e) = inl e
In-kept true m x l ms k (inr h) = inr (k h)
In-kept false m x l ms k h = inr (k h)

In-routed : (n i : ℕ) (m : Message) (ms : List Message) → In m (routed n i ms) → In m ms
unfolding routed
In-routed n i m [] h = h
In-routed n i m (x ∷ ms) h = In-kept (route n x == i) m x (routed n i ms) ms (In-routed n i m ms) h

In-middle : (m : Message) (a b : List Message) → In m (a ++ (m ∷ b))
In-middle m [] b = inl refl
In-middle m (x ∷ a) b = inr (In-middle m a b)

pub receive-keeps :
    (m : Message) (s : Process) {t : Process}
    → receive m none s ≡ some t
    → (t.pool ≡ s.pool) × (t.received ≡ s.received ++ (m ∷ [])) × (t.commits ≡ s.commits)
unfolding receive
receive-keeps m s h = ground arith

module _ (n cap : ℕ) where
  in_pool_moved :
      (v : Pool.Move) (k : Pool → Process) (p : Pool) {t : Process}
      → elim (Pool.move n cap v p) [ none ↦ none | some q ↦ some (k q) ] ≡ some t
      → (q : Pool) × (Pool.move n cap v p ≡ some q) × (k q ≡ t)
  in_pool_moved v k p {t} h = go (Pool.move n cap v p) refl h
    where
      go :
          (o : Option Pool)
          → Pool.move n cap v p ≡ o
          → elim o [ none ↦ none | some q ↦ some (k q) ] ≡ some t
          → (q : Pool) × (Pool.move n cap v p ≡ some q) × (k q ≡ t)
      go none e x = cc
      go (some q) e x = (q, e, cc)

  -- The moves of the process, read backwards.
  pub fetch_moved :
      (m : Message) (s : Process) {t : Process}
      → move n cap (fetch m) s ≡ some t
      → (s.pending ≡ none) × (receive m none s ≡ some t)
  unfolding move receive
  fetch_moved m s {t} h = go s.pending refl h
    where
      go :
          (o : Option Message)
          → s.pending ≡ o
          → receive m o s ≡ some t
          → (s.pending ≡ none) × (receive m none s ≡ some t)
      go none e x = (e, x)
      go (some p) e x = cc

  pub submit_moved :
      (s : Process) {t : Process}
      → move n cap submit s ≡ some t
      → (m : Message) × (q : Pool) × (s.pending ≡ some m)
        × (Pool.move n cap (Pool.submit m) s.pool ≡ some q)
        × (record s { pool = q; pending = none } ≡ t)
  unfolding move
  submit_moved s {t} h = go s.pending refl h
    where
      go :
          (o : Option Message)
          → s.pending ≡ o
          → elim o [
            | none ↦ none
            | some m ↦ elim (Pool.move n cap (Pool.submit m) s.pool) [
              | none ↦ none
              | some q ↦ some (record s { pool = q; pending = none })
            ]
          ]
            ≡ some t
          → (m : Message) × (q : Pool) × (s.pending ≡ some m)
            × (Pool.move n cap (Pool.submit m) s.pool ≡ some q)
            × (record s { pool = q; pending = none } ≡ t)
      go none e x = cc
      go (some m) e x =
          let (q, a, b) =
            in_pool_moved (Pool.submit m) (λ q. record s { pool = q; pending = none }) s.pool x in
          (m, q, e, a, b)

  pub work_moved :
      (v : Work) (s : Process) {t : Process}
      → move n cap (work v) s ≡ some t
      → (q : Pool) × (Pool.move n cap (pool_move v) s.pool ≡ some q) × (record s { pool = q } ≡ t)
  unfolding move
  work_moved v s h = in_pool_moved (pool_move v) (λ q. record s { pool = q }) s.pool h

  pub handled_moved :
      (i : ℕ) (e : Option Err) (s : Process) {t : Process}
      → move n cap (handled i e) s ≡ some t
      → (q : Pool) × (Pool.move n cap (Pool.finish i e) s.pool ≡ some q)
        × (after_handler (s.pool.workers i).place e (record s { pool = q }) ≡ t)
  unfolding move
  handled_moved i e s h =
      in_pool_moved (Pool.finish i e)
        (λ q. after_handler (s.pool.workers i).place e (record s { pool = q })) s.pool h

  module _ (Handles : Message → Option Err → Type 0) where
    -- The pool of a reachable process is a reachable pool.
    Reach-pool : {s : Process} → Reach n cap Handles s → Pool.Reach n cap started s.pool
    unfolding receive
    Reach-pool here = Pool.here
    Reach-pool (later {s} {t} (fetch m) r a h) =
        subst (Pool.Reach n cap started) (ground (arith, fetch_moved m s h)) (Reach-pool r)
    Reach-pool (later {s} {t} submit r a h) =
        let (m, q, e, k, u) = submit_moved s h in
        subst (λ (z : Process). Pool.Reach n cap started z.pool) u
          (Pool.later (Pool.submit m) (Reach-pool r) k)
    Reach-pool (later {s} {t} (work v) r a h) =
        let (q, k, u) = work_moved v s h in
        subst (λ (z : Process). Pool.Reach n cap started z.pool) u
          (Pool.later (pool_move v) (Reach-pool r) k)
    Reach-pool (later {s} {t} (handled i e) r a h) =
        let (q, k, u) = handled_moved i e s h in
        subst (λ (z : Process). Pool.Reach n cap started z.pool) u
          (subst (Pool.Reach n cap started)
            (sym (after_handler-pool (s.pool.workers i).place e (record s { pool = q })))
            (Pool.later (Pool.finish i e) (Reach-pool r) k))

    -- A message in a worker's hands was submitted.
    pub handling_submitted :
        (i : ℕ) (m : Message) {s : Process}
        → Reach n cap Handles s
        → (s.pool.workers i).place ≡ handling m
        → In m s.pool.submitted
    handling_submitted i m {s} r e =
        let w = s.pool.workers i in
        In-routed n i m s.pool.submitted (
          subst (In m) (sym (Reach-Kept n cap i (Reach-pool r)).0) (
            subst (λ p. In m (history (record w { place = p }))) (sym e)
              (In-middle m (map (λ r. r.0) w.completed) w.queue)))
