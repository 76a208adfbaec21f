-- ===== src/Flow/Settled.antt =====
-- The consumer process with Pipeline.Process for its handler: cmd/consumer/main.go, run, over
-- internal/indexing/pipeline.go.
use near_real_time_hybrid_se.Common.{
  ℕ, ◌≡◌, ◌≤◌, refl, sym, subst, [], ◌∷◌, ◌++◌, Option, none, some, In,
}
use near_real_time_hybrid_se.Retry.{Float64}
use near_real_time_hybrid_se.Kafka.{Message, TopicPartition}
use near_real_time_hybrid_se.Kafka.Consumer.{key_of}
use near_real_time_hybrid_se.Kafka.Commits.{IsIncreasing}
use near_real_time_hybrid_se.Pool.{Place, checking, waiting, exited, handling}
use near_real_time_hybrid_se.Pipeline.{Pipeline, Processed, process}
use near_real_time_hybrid_se.Pipeline.Commit.{Settled, process_commit}
use near_real_time_hybrid_se.Flow.{Process, Answers}
use near_real_time_hybrid_se.Flow
use near_real_time_hybrid_se.Flow.System.{
  System, Ended, fetch, submit, work, finish, with_consumer, with_ended, after_run, run_handler,
  step, Reach, here, later,
}
use near_real_time_hybrid_se.Flow.Ended.{Anything, IsChain, Reach-IsBacked}
use near_real_time_hybrid_se.Flow.Log.{offsets_of}
use near_real_time_hybrid_se.Flow.Commits.{commit_covers}

abbrev Reached : ℕ → ℕ → Process → Type 0
Reached n cap = Flow.Reach n cap Anything

module _ {S : Type 0} (n cap : ℕ) where
  quiet-Reached :
      (o : Option Process) (s t : System S)
      → ((q : Process) → o ≡ some q → Reached n cap q)
      → with_consumer o s ≡ some t
      → Reached n cap t.consumer
  quiet-Reached none s t k h = cc
  quiet-Reached (some q) s t k h =
      let e : record s { consumer = q } ≡ t = cc in
      subst (λ (z : System S). Reached n cap z.consumer) e (k q refl)

  ended-Reached :
      (m : Message) (r : Processed S) (o : Option Process) (s t : System S)
      → ((q : Process) → o ≡ some q → Reached n cap q)
      → with_ended m r o s ≡ some t
      → Reached n cap t.consumer
  ended-Reached m r none s t k h = cc
  ended-Reached m r (some q) s t k h =
      let u : System S = record {
        consumer = q;
        world = r.state;
        ended = s.ended ++ (record { message = m; before = s.world; result = r } ∷ []);
      } in
      let e : u ≡ t = cc in subst (λ (z : System S). Reached n cap z.consumer) e (k q refl)

module _ {f : Float64} {Event S : Type 0} (p : Pipeline f Event S) (n cap : ℕ) where
  run-Reached :
      (i : ℕ) (l : Place) (s t : System S)
      → (s.consumer.pool.workers i).place ≡ l
      → run_handler p n cap i l s ≡ some t
      → Reached n cap s.consumer
      → Reached n cap t.consumer
  unfolding run_handler
  run-Reached i checking s t e h r = cc
  run-Reached i waiting s t e h r = cc
  run-Reached i exited s t e h r = cc
  run-Reached i (handling m) s t e h r = go (process p m s.world) h
    where
      go :
          (c : Option (Processed S)) → after_run p n cap i m c s ≡ some t → Reached n cap t.consumer
      go none x = cc
      go (some o) x =
          ended-Reached n cap m o (Flow.move n cap (Flow.handled i o.err) s.consumer) s t
            (λ q z.
              Flow.later (Flow.handled i o.err) r
                (subst (λ y. Answers n cap Anything y o.err) (sym e) tt) z)
            x

  Reach-consumer : {w : S} {s : System S} → Reach p n cap w s → Reached n cap s.consumer
  unfolding step
  Reach-consumer here = Flow.here
  Reach-consumer (later {s} {t} (fetch m) r h) =
      quiet-Reached n cap (Flow.move n cap (Flow.fetch m) s.consumer) s t
        (λ q e. Flow.later (Flow.fetch m) (Reach-consumer r) tt e) h
  Reach-consumer (later {s} {t} submit r h) =
      quiet-Reached n cap (Flow.move n cap Flow.submit s.consumer) s t
        (λ q e. Flow.later Flow.submit (Reach-consumer r) tt e) h
  Reach-consumer (later {s} {t} (work v) r h) =
      quiet-Reached n cap (Flow.move n cap (Flow.work v) s.consumer) s t
        (λ q e. Flow.later (Flow.work v) (Reach-consumer r) tt e) h
  Reach-consumer (later {s} {t} (finish i) r h) =
      run-Reached i (s.consumer.pool.workers i).place s t refl h (Reach-consumer r)

  -- Done was called for `m`, and a run of the pipeline for it is among those that have ended, which
  -- follow one another from `w` to the present world; it returned nil and left the message settled.
  pub record IsSettled (w : S) (m : Message) (s : System S) : Type 0 where
    pub done : In m s.consumer.pool.finished
    pub run : Ended S
    pub recorded : In run s.ended
    pub of_message : run.message ≡ m
    pub ran : process p m run.before ≡ some run.result
    pub no_error : run.result.err ≡ none
    pub settled : Settled p m run.result.state
    pub chain : IsChain p w s.ended s.world

  -- The consumer process whose workers run Pipeline.Process, from any world. In every state that
  -- it can reach, for every offset that was given out to be committed for a partition whose
  -- offsets were fetched in increasing order: each message fetched from that partition up to the
  -- offset has had Done called, and among the runs of Process that have ended, which follow one
  -- another from that world to the present one, is one for the message that returned nil. After
  -- that run the message is settled: it had nothing to index, or the indexer worked on its event,
  -- or the dead-letter topic took a letter with its key, its place and its payload. So no commit,
  -- in whatever order the workers run and end, skips a message that is queued, in hand or failed.
  pub commit_settles :
      {w : S} {s : System S} (k : TopicPartition) (c : ℕ) (m : Message)
      → Reach p n cap w s
      → IsIncreasing (offsets_of k s.consumer.received)
      → In (k, c) s.consumer.commits
      → In m s.consumer.received
      → key_of m ≡ k
      → m.offset ≤ c
      → IsSettled w m s
  commit_settles k c m r i b h e le =
      let (g, u) = commit_covers n cap Anything k c m (Reach-consumer r) i b h e le in
      let back = Reach-IsBacked p n cap r in
      let (x, a, q, z, v) = back.runs m g in
      record {
        done = g;
        run = x;
        recorded = a;
        of_message = q;
        ran = z;
        no_error = v;
        settled = process_commit p m x.before x.result z v;
        chain = back.chain;
      }
