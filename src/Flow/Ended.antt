-- ===== src/Flow/Ended.antt =====
-- A message whose Done was called has a run of the handler behind it that ended with nil
-- (cmd/consumer/main.go, run, over internal/indexing/worker.go and internal/indexing/pipeline.go).
use near_real_time_hybrid_se.Common.{
  ℕ, ◌≡◌, refl, sym, ap, ◌∙◌, subst, inl, inr, List, [], ◌∷◌, ◌++◌, Option, none, some, In,
}
use near_real_time_hybrid_se.Errors.{Err}
use near_real_time_hybrid_se.Retry.{Float64}
use near_real_time_hybrid_se.Kafka.{Message}
use near_real_time_hybrid_se.Pool.{Pool, Place, checking, waiting, exited, handling}
use near_real_time_hybrid_se.Pipeline.{Pipeline, Processed, process}
use near_real_time_hybrid_se.Flow.{Process, after_handler}
use near_real_time_hybrid_se.Flow
use near_real_time_hybrid_se.Flow.Carried.{
  answered, after_handler-pool, receive-keeps, work-Keeps, submit-adds, finish-adds, fetch_moved,
  submit_moved, work_moved, handled_moved,
}
use near_real_time_hybrid_se.Flow.Offsets.{In-left, In-cases}
use near_real_time_hybrid_se.Flow.System.{
  System, Ended, fetch, submit, work, finish, with_consumer, with_ended, after_run, run_handler,
  step, Reach, here, later,
}

-- Any handler, for what is said of the process whatever its handlers answer.
abbrev pub Anything : Message → Option Err → Type 0
Anything m e = Unit {0}

In-last : {A : Type 0} (x : A) (xs : List A) → In x (xs ++ (x ∷ []))
In-last x [] = inl refl
In-last x (y ∷ xs) = inr (In-last x xs)

module _ (n cap : ℕ) where
  fetch-finished :
      (m : Message) (s : Process) {t : Process}
      → Flow.move n cap (Flow.fetch m) s ≡ some t
      → t.pool.finished ≡ s.pool.finished
  fetch-finished m s h =
      ap (λ (z : Pool). z.finished) (receive-keeps m s (fetch_moved n cap m s h).1).0

  submit-finished :
      (s : Process) {t : Process}
      → Flow.move n cap Flow.submit s ≡ some t
      → t.pool.finished ≡ s.pool.finished
  submit-finished s h =
      let (m, q, e, k, u) = submit_moved n cap s h in
      ap (λ (z : Process). z.pool.finished) (sym u) ∙ (submit-adds n cap m s.pool k).1

  work-finished :
      (v : Flow.Work) (s : Process) {t : Process}
      → Flow.move n cap (Flow.work v) s ≡ some t
      → t.pool.finished ≡ s.pool.finished
  work-finished v s h =
      let (q, k, u) = work_moved n cap v s h in
      ap (λ (z : Process). z.pool.finished) (sym u) ∙ (work-Keeps n cap v s.pool k).1

  handled-finished :
      (i : ℕ) (e : Option Err) (s : Process) {t : Process}
      → Flow.move n cap (Flow.handled i e) s ≡ some t
      → t.pool.finished ≡ s.pool.finished ++ answered (s.pool.workers i).place e
  handled-finished i e s h =
      let (q, k, u) = handled_moved n cap i e s h in
      ap (λ (z : Process). z.pool.finished) (sym u)
      ∙ ap (λ (z : Pool). z.finished)
          (after_handler-pool (s.pool.workers i).place e (record s { pool = q }))
      ∙ (finish-adds n cap i e s.pool k).1

module _ {f : Float64} {Event S : Type 0} (p : Pipeline f Event S) where
  -- The runs follow one another: each starts in the world that the one before it has left.
  abbrev pub IsChain : S → List (Ended S) → S → Type 0
  IsChain w [] v = w ≡ v
  IsChain w (x ∷ xs) v = (x.before ≡ w) × IsChain x.result.state xs v

  IsChain-last :
      (w v : S) (xs : List (Ended S)) (x : Ended S)
      → IsChain w xs v
      → x.before ≡ v
      → IsChain w (xs ++ (x ∷ [])) x.result.state
  IsChain-last w v [] x c e = (e ∙ sym c, refl)
  IsChain-last w v (y ∷ xs) x c e = (c.0, IsChain-last y.result.state v xs x c.1 e)

  -- The run that `x` records is one of Pipeline.Process, for `m`, and returned nil.
  abbrev pub IsRun : Message → List (Ended S) → Type 0
  IsRun m xs =
      (x : Ended S) × In x xs
      × (x.message ≡ m)
      × (process p m x.before ≡ some x.result)
      × (x.result.err ≡ none)

  pub record IsBacked (w : S) (s : System S) : Type 0 where
    pub runs : (m : Message) → In m s.consumer.pool.finished → IsRun m s.ended
    pub chain : IsChain w s.ended s.world

  -- A step of the process without an end of a run.
  quiet-IsBacked :
      (w : S) (o : Option Process) (s t : System S)
      → ((q : Process) → o ≡ some q → q.pool.finished ≡ s.consumer.pool.finished)
      → with_consumer o s ≡ some t
      → IsBacked w s
      → IsBacked w t
  quiet-IsBacked w none s t k h b = cc
  quiet-IsBacked w (some q) s t k h b =
      let e : record s { consumer = q } ≡ t = cc in
      subst (IsBacked w) e
        (record { runs = λ m i. b.runs m (subst (In m) (k q refl) i); chain = b.chain })

  IsRun-earlier :
      (m : Message) (xs : List (Ended S)) (x : Ended S) → IsRun m xs → IsRun m (xs ++ (x ∷ []))
  IsRun-earlier m xs x (y, i, q, r, e) = (y, In-left y xs (x ∷ []) i, q, r, e)

  new-IsRun :
      (m m' : Message) (s : System S) (o : Processed S) (e : Option Err)
      → o.err ≡ e
      → process p m s.world ≡ some o
      → In m' (answered (handling m) e)
      → IsRun m' (s.ended ++ (record { message = m; before = s.world; result = o } ∷ []))
  new-IsRun m m' s o none q h (inl z) = (
    record { message = m; before = s.world; result = o },
    In-last (record { message = m; before = s.world; result = o }) s.ended,
    sym z,
    subst (λ y. process p y s.world ≡ some o) (sym z) h,
    q,
  )
  new-IsRun m m' s o none q h (inr z) = elim z [ ]
  new-IsRun m m' s o (some x) q h z = elim z [ ]

  module _ (n cap : ℕ) where
    ended-IsBacked :
        (w : S) (i : ℕ) (m : Message) (o : Processed S) (c : Option Process) (s t : System S)
        → process p m s.world ≡ some o
        → ((q : Process)
            → c ≡ some q
            → q.pool.finished ≡ s.consumer.pool.finished ++ answered (handling m) o.err)
        → with_ended m o c s ≡ some t
        → IsBacked w s
        → IsBacked w t
    ended-IsBacked w i m o none s t r k h b = cc
    ended-IsBacked w i m o (some q) s t r k h b =
        let x : Ended S = record { message = m; before = s.world; result = o } in
        let u : System S = record { consumer = q; world = o.state; ended = s.ended ++ (x ∷ []) } in
        let e : u ≡ t = cc in
        subst (IsBacked w) e (record {
          runs = λ m' j.
              elim (In-cases m' s.consumer.pool.finished _ (subst (In m') (k q refl) j)) [
                | inl old ↦ IsRun-earlier m' s.ended x (b.runs m' old)
                | inr new ↦ new-IsRun m m' s o o.err refl r new
              ];
          chain = IsChain-last w s.world s.ended x b.chain refl;
        })

    run-IsBacked :
        (w : S) (i : ℕ) (l : Place) (s t : System S)
        → (s.consumer.pool.workers i).place ≡ l
        → run_handler p n cap i l s ≡ some t
        → IsBacked w s
        → IsBacked w t
    unfolding run_handler
    run-IsBacked w i checking s t e h b = cc
    run-IsBacked w i waiting s t e h b = cc
    run-IsBacked w i exited s t e h b = cc
    run-IsBacked w i (handling m) s t e h b = go (process p m s.world) refl h
      where
        go :
            (r : Option (Processed S))
            → process p m s.world ≡ r
            → after_run p n cap i m r s ≡ some t
            → IsBacked w t
        go none q x = cc
        go (some o) q x =
            ended-IsBacked w i m o (Flow.move n cap (Flow.handled i o.err) s.consumer) s t q
              (λ c z.
                subst (λ y. c.pool.finished ≡ s.consumer.pool.finished ++ answered y o.err) e
                  (handled-finished n cap i o.err s.consumer z))
              x b

    -- In every state that the system can reach, a message whose Done was called has a run behind it,
    -- and the runs follow one another from the world in which the process began.
    pub Reach-IsBacked : {w : S} {s : System S} → Reach p n cap w s → IsBacked w s
    unfolding step
    Reach-IsBacked here = record { runs = λ m i. elim i [ ]; chain = refl }
    Reach-IsBacked {w} (later {s} {t} (fetch m) r h) =
        quiet-IsBacked w (Flow.move n cap (Flow.fetch m) s.consumer) s t
          (λ q e. fetch-finished n cap m s.consumer e) h (Reach-IsBacked r)
    Reach-IsBacked {w} (later {s} {t} submit r h) =
        quiet-IsBacked w (Flow.move n cap Flow.submit s.consumer) s t
          (λ q e. submit-finished n cap s.consumer e) h (Reach-IsBacked r)
    Reach-IsBacked {w} (later {s} {t} (work v) r h) =
        quiet-IsBacked w (Flow.move n cap (Flow.work v) s.consumer) s t
          (λ q e. work-finished n cap v s.consumer e) h (Reach-IsBacked r)
    Reach-IsBacked {w} (later {s} {t} (finish i) r h) =
        run-IsBacked w i (s.consumer.pool.workers i).place s t refl h (Reach-IsBacked r)
