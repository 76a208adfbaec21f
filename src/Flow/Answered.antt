-- ===== src/Flow/Answered.antt =====
-- A message is acknowledged only after its handler answered nil (cmd/consumer/main.go, run, over
-- internal/indexing/worker.go).
use near_real_time_hybrid_se.Common.{
  ℕ, ◌≡◌, refl, sym, ap, subst, inl, inr, ◌++◌, Option, none, some, In,
}
use near_real_time_hybrid_se.Errors.{Err}
use near_real_time_hybrid_se.Kafka.{Message}
use near_real_time_hybrid_se.Pool.{Pool, Place, checking, waiting, exited, handling}
use near_real_time_hybrid_se.Flow.{
  Process, fetch, submit, work, handled, acknowledge, after_handler, Answers, Reach, here, later,
}
use near_real_time_hybrid_se.Flow.Carried.{
  after_handler-pool, receive-keeps, answered, work-Keeps, submit-adds, finish-adds, fetch_moved,
  submit_moved, work_moved, handled_moved, handling_submitted,
}
use near_real_time_hybrid_se.Flow.Log.{Reach-IsLogged}
use near_real_time_hybrid_se.Flow.Offsets.{In-left, In-cases}

pub after_handler-received :
    (p : Place) (e : Option Err) (s : Process) → (after_handler p e s).received ≡ s.received
unfolding after_handler acknowledge
after_handler-received (handling m) none s = refl
after_handler-received (handling m) (some e) s = refl
after_handler-received checking e s = refl
after_handler-received waiting e s = refl
after_handler-received exited e s = refl

module _ (n cap : ℕ) (Handles : Message → Option Err → Type 0) where
  -- A finished message was received, and its handler answered nil.
  abbrev pub IsAnswered : Process → Type 0
  IsAnswered s = (m : Message) → In m s.pool.finished → In m s.received × Handles m none

  answered_now :
      (p : Place) (e : Option Err) (m : Message)
      → Answers n cap Handles p e
      → In m (answered p e)
      → (p ≡ handling m) × Handles m none
  answered_now (handling x) none m a (inl q) =
      (ap handling (sym q), subst (λ z. Handles z none) (sym q) a)
  answered_now (handling x) none m a (inr h) = elim h [ ]
  answered_now (handling x) (some e) m a h = elim h [ ]
  answered_now checking e m a h = elim h [ ]
  answered_now waiting e m a h = elim h [ ]
  answered_now exited e m a h = elim h [ ]

  pub handling_received :
      (i : ℕ) (m : Message) (s : Process)
      → Reach n cap Handles s
      → (s.pool.workers i).place ≡ handling m
      → In m s.received
  handling_received i m s r p =
      subst (In m) (sym (Reach-IsLogged n cap Handles r).submitted_all)
        (In-left m s.pool.submitted _ (handling_submitted n cap Handles i m r p))

  handled-IsAnswered :
      (i : ℕ) (e : Option Err) (s : Process) (q : Pool)
      → Reach n cap Handles s
      → Answers n cap Handles (s.pool.workers i).place e
      → q.finished ≡ s.pool.finished ++ answered (s.pool.workers i).place e
      → IsAnswered s
      → (m : Message) → In m q.finished
      → In m s.received × Handles m none
  handled-IsAnswered i e s q r a c ih m h = elim (In-cases m s.pool.finished _ (subst (In m) c h)) [
    | inl old ↦ ih m old
    | inr new ↦
        let (p, w) = answered_now (s.pool.workers i).place e m a new in
        (handling_received i m s r p, w)
  ]

  pub Reach-IsAnswered : {s : Process} → Reach n cap Handles s → IsAnswered s
  Reach-IsAnswered here = λ m h. elim h [ ]
  Reach-IsAnswered (later {s} {t} (fetch x) r a h) =
      let (p, q, c) = receive-keeps x s (fetch_moved n cap x s h).1 in
      λ m f.
        let (b, w) = Reach-IsAnswered r m (subst (λ (z : Pool). In m z.finished) p f) in
        (subst (In m) (sym q) (In-left m s.received _ b), w)
  Reach-IsAnswered (later {s} {t} submit r a h) =
      let (m, q, e, k, u) = submit_moved n cap s h in
      let (b, c) = submit-adds n cap m s.pool k in
      subst IsAnswered u (λ x f. Reach-IsAnswered r x (subst (In x) c f))
  Reach-IsAnswered (later {s} {t} (work v) r a h) =
      let (q, k, u) = work_moved n cap v s h in
      let (b, c) = work-Keeps n cap v s.pool k in
      subst IsAnswered u (λ x f. Reach-IsAnswered r x (subst (In x) c f))
  Reach-IsAnswered (later {s} {t} (handled i e) r a h) =
      let (q, k, u) = handled_moved n cap i e s h in
      let (b, c) = finish-adds n cap i e s.pool k in
      let p = (s.pool.workers i).place in
      subst IsAnswered u λ m f.
        let (x, w) = handled-IsAnswered i e s q r a c (Reach-IsAnswered r) m (
          subst (λ (z : Pool). In m z.finished) (after_handler-pool p e (record s { pool = q }))
            f) in
        (subst (In m) (sym (after_handler-received p e (record s { pool = q }))) x, w)
