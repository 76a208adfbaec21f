-- ===== src/Flow/Log.antt =====
-- The histories that the consumer process keeps (cmd/consumer/main.go, run): the tracker's calls are the
-- fetches and the acknowledgements of the messages.
use mathlib.Core.List.{append-nil}
use near_real_time_hybrid_se.Common.{
  ℕ, ◌≡◌, refl, sym, ap, ◌∙◌, subst, List, [], ◌∷◌, ◌++◌, Option, none, some, arith, if◌then◌else◌,
}
use near_real_time_hybrid_se.Errors.{Err}
use near_real_time_hybrid_se.Kafka.{
  Message, TopicPartition, Tracker, new_tracker, same_partition, add, mark_done,
}
use near_real_time_hybrid_se.Kafka.Consumer.{key_of}
use near_real_time_hybrid_se.Kafka.Commits.{Call, fetched, finished, step, run, fetches, finishes}
use near_real_time_hybrid_se.Pool.{Pool, Place, checking, waiting, exited, handling}
use near_real_time_hybrid_se.Flow.{
  Process, fetch, submit, work, handled, receive, acknowledge, after_handler, Reach, here, later,
}
use near_real_time_hybrid_se.Flow.Carried.{
  answered, work-Keeps, submit-adds, finish-adds, fetch_moved, submit_moved, work_moved,
  handled_moved,
}

-- The offsets of a partition's messages, in order.
unfoldable pub offsets_of : TopicPartition → List Message → List ℕ
offsets_of k [] = []
offsets_of k (m ∷ ms) =
    let rest = offsets_of k ms in if same_partition k (key_of m) then m.offset ∷ rest else rest

pub offsets_of-append :
    (k : TopicPartition) (ms : List Message) (m : Message)
    → offsets_of k (ms ++ (m ∷ [])) ≡ (
        if same_partition k (key_of m) then offsets_of k ms ++ (m.offset ∷ []) else offsets_of k ms)
unfolding offsets_of
offsets_of-append k [] m = ground arith
offsets_of-append k (x ∷ ms) m = ground (arith, offsets_of-append k ms m)

fetches-append :
    (k j : TopicPartition) (o : ℕ) (cs : List Call)
    → fetches k (cs ++ (fetched j o ∷ []))
      ≡ (if same_partition k j then fetches k cs ++ (o ∷ []) else fetches k cs)
unfolding fetches
fetches-append k j o [] = ground arith
fetches-append k j o (fetched i x ∷ cs) = ground (arith, fetches-append k j o cs)
fetches-append k j o (finished i x ∷ cs) = fetches-append k j o cs

fetches_unchanged :
    (k j : TopicPartition) (o : ℕ) (cs : List Call)
    → fetches k (cs ++ (finished j o ∷ [])) ≡ fetches k cs
unfolding fetches
fetches_unchanged k j o [] = refl
fetches_unchanged k j o (fetched i x ∷ cs) = ground (arith, fetches_unchanged k j o cs)
fetches_unchanged k j o (finished i x ∷ cs) = fetches_unchanged k j o cs

finishes-append :
    (k j : TopicPartition) (o : ℕ) (cs : List Call)
    → finishes k (cs ++ (finished j o ∷ []))
      ≡ (if same_partition k j then finishes k cs ++ (o ∷ []) else finishes k cs)
unfolding finishes
finishes-append k j o [] = ground arith
finishes-append k j o (finished i x ∷ cs) = ground (arith, finishes-append k j o cs)
finishes-append k j o (fetched i x ∷ cs) = finishes-append k j o cs

finishes_unchanged :
    (k j : TopicPartition) (o : ℕ) (cs : List Call)
    → finishes k (cs ++ (fetched j o ∷ [])) ≡ finishes k cs
unfolding finishes
finishes_unchanged k j o [] = refl
finishes_unchanged k j o (finished i x ∷ cs) = ground (arith, finishes_unchanged k j o cs)
finishes_unchanged k j o (fetched i x ∷ cs) = finishes_unchanged k j o cs

run-append : (t : Tracker) (cs : List Call) (c : Call) → run t (cs ++ (c ∷ [])) ≡ step (run t cs) c
unfolding run
run-append t [] c = refl
run-append t (x ∷ cs) c = run-append (step t x) cs c

unfoldable pub waiting_one : Option Message → List Message
waiting_one none = []
waiting_one (some m) = m ∷ []

-- What the state keeps of its history: the tracker has run its calls, which are those of the received
-- and of the finished messages, and what was received was submitted or is about to be.
pub record IsLogged (s : Process) : Type 0 where
  pub tracked : s.offsets ≡ run new_tracker s.calls
  pub fetch_calls : (k : TopicPartition) → fetches k s.calls ≡ offsets_of k s.received
  pub finish_calls : (k : TopicPartition) → finishes k s.calls ≡ offsets_of k s.pool.finished
  pub submitted_all : s.received ≡ s.pool.submitted ++ waiting_one s.pending

receive-IsLogged :
    (m : Message) (s : Process) {t : Process}
    → s.pending ≡ none
    → receive m none s ≡ some t
    → IsLogged s
    → IsLogged t
unfolding receive waiting_one step
receive-IsLogged m s {t} e h l =
    let u : record s {
      offsets = add s.offsets (key_of m) m.offset;
      pending = some m;
      received = s.received ++ (m ∷ []);
      calls = s.calls ++ (fetched (key_of m) m.offset ∷ []);
    }
        ≡ t =
      cc in
    subst IsLogged u (record {
      tracked =
          ap (λ x. add x (key_of m) m.offset) l.tracked
          ∙ sym (run-append new_tracker s.calls (fetched (key_of m) m.offset));
      fetch_calls = λ k. ground (
        arith,
        fetches-append k (key_of m) m.offset s.calls,
        l.fetch_calls k,
        offsets_of-append k s.received m,
      );
      finish_calls = λ k. finishes_unchanged k (key_of m) m.offset s.calls ∙ l.finish_calls k;
      submitted_all = ground (arith, l.submitted_all, e, append-nil s.pool.submitted);
    })

pool-IsLogged :
    (s : Process) (q : Pool)
    → q.submitted ≡ s.pool.submitted
    → q.finished ≡ s.pool.finished
    → IsLogged s
    → IsLogged (record s { pool = q })
pool-IsLogged s q a b l = record {
  tracked = l.tracked;
  fetch_calls = l.fetch_calls;
  finish_calls = λ k. l.finish_calls k ∙ ap (offsets_of k) (sym b);
  submitted_all = l.submitted_all ∙ ap (λ x. x ++ waiting_one s.pending) (sym a);
}

submit-IsLogged :
    (s : Process) (m : Message) (q : Pool)
    → s.pending ≡ some m
    → q.submitted ≡ s.pool.submitted ++ (m ∷ [])
    → q.finished ≡ s.pool.finished
    → IsLogged s
    → IsLogged (record s { pool = q; pending = none })
unfolding waiting_one
submit-IsLogged s m q e a b l = record {
  tracked = l.tracked;
  fetch_calls = l.fetch_calls;
  finish_calls = λ k. l.finish_calls k ∙ ap (offsets_of k) (sym b);
  submitted_all = ground (arith, l.submitted_all, e, a, append-nil q.submitted);
}

acknowledge-IsLogged :
    (m : Message) (s : Process) (q : Pool)
    → q.submitted ≡ s.pool.submitted
    → q.finished ≡ s.pool.finished ++ (m ∷ [])
    → IsLogged s
    → IsLogged (acknowledge m (record s { pool = q }))
unfolding acknowledge step
acknowledge-IsLogged m s q a b l = record {
  tracked =
      ap (λ x. (mark_done x (key_of m) m.offset).0) l.tracked
      ∙ sym (run-append new_tracker s.calls (finished (key_of m) m.offset));
  fetch_calls = λ k. fetches_unchanged k (key_of m) m.offset s.calls ∙ l.fetch_calls k;
  finish_calls = λ k. ground (
    arith,
    finishes-append k (key_of m) m.offset s.calls,
    l.finish_calls k,
    offsets_of-append k s.pool.finished m,
    ap (offsets_of k) b,
  );
  submitted_all = l.submitted_all ∙ ap (λ x. x ++ waiting_one s.pending) (sym a);
}

-- The end of a handler: Done was called if and only if it answered nil.
after_handler-IsLogged :
    (p : Place) (e : Option Err) (s : Process) (q : Pool)
    → q.submitted ≡ s.pool.submitted
    → q.finished ≡ s.pool.finished ++ answered p e
    → IsLogged s
    → IsLogged (after_handler p e (record s { pool = q }))
unfolding after_handler
after_handler-IsLogged (handling m) none s q a b l = acknowledge-IsLogged m s q a b l
after_handler-IsLogged (handling m) (some e) s q a b l =
    pool-IsLogged s q a (b ∙ append-nil s.pool.finished) l
after_handler-IsLogged checking e s q a b l = pool-IsLogged s q a (b ∙ append-nil s.pool.finished) l
after_handler-IsLogged waiting e s q a b l = pool-IsLogged s q a (b ∙ append-nil s.pool.finished) l
after_handler-IsLogged exited e s q a b l = pool-IsLogged s q a (b ∙ append-nil s.pool.finished) l

module _ (n cap : ℕ) (Handles : Message → Option Err → Type 0) where
  pub Reach-IsLogged : {s : Process} → Reach n cap Handles s → IsLogged s
  unfolding run fetches finishes offsets_of waiting_one
  Reach-IsLogged here = record {
    tracked = refl;
    fetch_calls = λ k. refl;
    finish_calls = λ k. refl;
    submitted_all = refl;
  }
  Reach-IsLogged (later {s} {t} (fetch m) r a h) =
      let (e, k) = fetch_moved n cap m s h in receive-IsLogged m s e k (Reach-IsLogged r)
  Reach-IsLogged (later {s} {t} submit r a h) =
      let (m, q, e, k, u) = submit_moved n cap s h in
      let (b, c) = submit-adds n cap m s.pool k in
      subst IsLogged u (submit-IsLogged s m q e b c (Reach-IsLogged r))
  Reach-IsLogged (later {s} {t} (work v) r a h) =
      let (q, k, u) = work_moved n cap v s h in
      let (b, c) = work-Keeps n cap v s.pool k in
      subst IsLogged u (pool-IsLogged s q b c (Reach-IsLogged r))
  Reach-IsLogged (later {s} {t} (handled i e) r a h) =
      let (q, k, u) = handled_moved n cap i e s h in
      let (b, c) = finish-adds n cap i e s.pool k in
      subst IsLogged u
        (after_handler-IsLogged (s.pool.workers i).place e s q b c (Reach-IsLogged r))
