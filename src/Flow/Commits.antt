-- ===== src/Flow/Commits.antt =====
-- What a committed offset says of the messages of its partition: cmd/consumer/main.go, run, over
-- internal/kafka/consumer.go and internal/indexing/worker.go.
use near_real_time_hybrid_se.Common.{
  ℕ, ◌≡◌, ◌≤◌, refl, sym, ap, ◌∙◌, subst, inl, inr, [], ◌∷◌, ◌++◌, Option, none, some, arith, In,
  Bool-cases,
}
use near_real_time_hybrid_se.Errors.{Err}
use near_real_time_hybrid_se.Kafka.{Message, TopicPartition, same_partition}
use near_real_time_hybrid_se.Kafka.Consumer.{key_of}
use near_real_time_hybrid_se.Kafka.Commits.{IsIncreasing}
use near_real_time_hybrid_se.Pool.{Pool}
use near_real_time_hybrid_se.Flow.{Process, fetch, submit, work, handled, move, Reach, here, later}
use near_real_time_hybrid_se.Flow.Carried.{
  after_handler-pool, receive-keeps, answered, work-Keeps, submit-adds, finish-adds, fetch_moved,
  submit_moved, work_moved, handled_moved,
}
use near_real_time_hybrid_se.Flow.Log.{offsets_of, offsets_of-append}
use near_real_time_hybrid_se.Flow.Answered.{
  after_handler-received, handling_received, Reach-IsAnswered,
}
use near_real_time_hybrid_se.Flow.Offsets.{taken_first, In-left, In-cases, IsIncreasing-front}
use near_real_time_hybrid_se.Flow.NewCommits.{
  In-single, answered_one, after_handler-commits, Covered, new_commit-Covered,
}

module _ (n cap : ℕ) (Handles : Message → Option Err → Type 0) where
  Covered-more :
      (k : TopicPartition) (c : ℕ) (s : Process) (x : Message)
      → IsIncreasing (offsets_of k (s.received ++ (x ∷ [])))
      → (IsIncreasing (offsets_of k s.received) → Covered k c s)
      → In c (offsets_of k (s.received ++ (x ∷ [])))
        × ((m : Message)
            → In m (s.received ++ (x ∷ []))
            → key_of m ≡ k
            → m.offset ≤ c
            → In m s.pool.finished)
  Covered-more k c s x i ih = elim (Bool-cases (same_partition k (key_of x))) [
    | inl t ↦
        let e : offsets_of k (s.received ++ (x ∷ [])) ≡ offsets_of k s.received ++ (x.offset ∷ []) =
          ground (arith, t, offsets_of-append k s.received x) in
        let (j, least) =
          IsIncreasing-front (offsets_of k s.received) x.offset (subst IsIncreasing e i) in
        let (d, all) = ih j in
        (
          subst (In c) (sym e) (In-left c (offsets_of k s.received) _ d),
          λ m b q le. elim (In-cases m s.received _ b) [
            | inl old ↦ all m old q le
            | inr new ↦
                absurd (omega (arith, least c d, ap (λ (z : Message). z.offset) (In-single new)))
          ],
        )
    | inr f ↦
        let e : offsets_of k (s.received ++ (x ∷ [])) ≡ offsets_of k s.received =
          ground (arith, f, offsets_of-append k s.received x) in
        let (d, all) = ih (subst IsIncreasing e i) in
        (
          subst (In c) (sym e) d,
          λ m b q le. elim (In-cases m s.received _ b) [
            | inl old ↦ all m old q le
            | inr new ↦ let t = taken_first k x m (In-single new) q in absurd (cc t)
          ],
        )
  ]

  -- Covered is kept when messages are finished.
  Covered-finished :
      (k : TopicPartition) (c : ℕ) (s t : Process)
      → t.received ≡ s.received
      → ((m : Message) → In m s.pool.finished → In m t.pool.finished)
      → Covered k c s
      → Covered k c t
  Covered-finished k c s t e f w = (
    subst (λ l. In c (offsets_of k l)) (sym e) w.0,
    λ m b q le. f m (w.1 m (subst (In m) e b) q le),
  )

  handled-Covered :
      (i : ℕ) (e : Option Err) (s t : Process) (k : TopicPartition) (c : ℕ)
      → Reach n cap Handles s
      → move n cap (handled i e) s ≡ some t
      → (In (k, c) s.commits → IsIncreasing (offsets_of k s.received) → Covered k c s)
      → In (k, c) t.commits
      → IsIncreasing (offsets_of k t.received)
      → Covered k c t
  handled-Covered i e s t k c r h ih b j =
      let (q, v, u) = handled_moved n cap i e s h in
      let f = (finish-adds n cap i e s.pool v).1 in
      let p = (s.pool.workers i).place in
      let s' : Process = record s { pool = q } in
      let same : t.received ≡ s.received =
        ap (λ (z : Process). z.received) (sym u) ∙ after_handler-received p e s' in
      let now : t.pool.finished ≡ s.pool.finished ++ answered p e =
        ap (λ (z : Process). z.pool.finished) (sym u)
        ∙ ap (λ (z : Pool). z.finished) (after_handler-pool p e s')
        ∙ f in
      let j' = subst (λ l. IsIncreasing (offsets_of k l)) same j in
      elim (after_handler-commits p e s' k c
        (subst (λ (z : Process). In (k, c) z.commits) (sym u) b)) [
          | inl old ↦
              Covered-finished k c s t same
                (λ m x. subst (In m) (sym now) (In-left m s.pool.finished _ x)) (ih old j')
          | inr (m, a, y, z, w) ↦
              let all : t.pool.finished ≡ s.pool.finished ++ (m ∷ []) =
                now ∙ ap (λ l. s.pool.finished ++ l) (answered_one p e m a y) in
              let v =
                new_commit-Covered n cap Handles m c s r (handling_received n cap Handles i m s r a)
                  (subst (λ l. IsIncreasing (offsets_of l s.received)) (sym z) j') w in
              subst (λ l. Covered l c t) z
                (
                  subst (λ l. In c (offsets_of (key_of m) l)) (sym same) v.0,
                  λ x d g le. subst (In x) (sym all) (v.1 x (subst (In x) same d) g le),
                )
        ]

  Reach-Covered :
      {s : Process} (k : TopicPartition) (c : ℕ)
      → Reach n cap Handles s
      → In (k, c) s.commits
      → IsIncreasing (offsets_of k s.received)
      → Covered k c s
  Reach-Covered k c here b j = elim b [ ]
  Reach-Covered k c (later {s} {t} (fetch x) r a h) b j =
      let (p, q, d) = receive-keeps x s (fetch_moved n cap x s h).1 in
      let w =
        Covered-more k c s x (subst (λ l. IsIncreasing (offsets_of k l)) q j)
          (Reach-Covered k c r (subst (In (k, c)) d b)) in
      (
        subst (λ l. In c (offsets_of k l)) (sym q) w.0,
        λ m y e le. subst (λ (z : Pool). In m z.finished) (sym p) (w.1 m (subst (In m) q y) e le),
      )
  Reach-Covered k c (later {s} {t} submit r a h) b j =
      let (m, q, e, v, u) = submit_moved n cap s h in
      let f = (submit-adds n cap m s.pool v).1 in
      let s' : Process = record s { pool = q; pending = none } in
      subst (Covered k c) u (
        Covered-finished k c s s' refl (λ x. subst (In x) (sym f))
          (Reach-Covered k c r (subst (λ (z : Process). In (k, c) z.commits) (sym u) b)
            (subst (λ (z : Process). IsIncreasing (offsets_of k z.received)) (sym u) j)))
  Reach-Covered k c (later {s} {t} (work v) r a h) b j =
      let (q, y, u) = work_moved n cap v s h in
      let f = (work-Keeps n cap v s.pool y).1 in
      let s' : Process = record s { pool = q } in
      subst (Covered k c) u (
        Covered-finished k c s s' refl (λ x. subst (In x) (sym f))
          (Reach-Covered k c r (subst (λ (z : Process). In (k, c) z.commits) (sym u) b)
            (subst (λ (z : Process). IsIncreasing (offsets_of k z.received)) (sym u) j)))
  Reach-Covered k c (later {s} {t} (handled i e) r a h) b j =
      handled-Covered i e s t k c r h (Reach-Covered k c r) b j

  -- Each message up to a committed offset is finished, and its handler answered nil.
  pub commit_covers :
      {s : Process} (k : TopicPartition) (c : ℕ) (m : Message)
      → Reach n cap Handles s
      → IsIncreasing (offsets_of k s.received)
      → In (k, c) s.commits
      → In m s.received
      → key_of m ≡ k
      → m.offset ≤ c
      → In m s.pool.finished × Handles m none
  commit_covers {s} k c m r i b h e le =
      let f = (Reach-Covered k c r b i).1 m h e le in (f, (Reach-IsAnswered n cap Handles r m f).1)
