-- ===== src/Flow/NewCommits.antt =====
-- The offset that a finished handler gives out to be committed (cmd/consumer/main.go, run, over
-- internal/kafka/consumer.go).
use near_real_time_hybrid_se.Common.{
  ℕ, ◌≡◌, ◌≤◌, refl, sym, ap, ◌∙◌, subst, ◌⊎◌, inl, inr, Bool, true, false, List, [], ◌∷◌, ◌++◌,
  Option, none, some, In, if◌then◌else◌,
}
use near_real_time_hybrid_se.Errors.{Err}
use near_real_time_hybrid_se.Kafka.{Message, TopicPartition, new_tracker, mark_done}
use near_real_time_hybrid_se.Kafka.Consumer.{key_of}
use near_real_time_hybrid_se.Kafka.Commits.{
  run, IsIncreasing, commit_is_safe, committed_was_fetched,
}
use near_real_time_hybrid_se.Pool.{Place, checking, waiting, exited, handling}
use near_real_time_hybrid_se.Flow.{Process, acknowledge, after_handler, Reach}
use near_real_time_hybrid_se.Flow.Carried.{answered}
use near_real_time_hybrid_se.Flow.Log.{offsets_of, Reach-IsLogged}
use near_real_time_hybrid_se.Flow.Answered.{Reach-IsAnswered}
use near_real_time_hybrid_se.Flow.Offsets.{
  In-left, In-cases, offset_of-In, message_of-In, same_message,
}

In-last : (m : Message) (ms : List Message) → In m (ms ++ (m ∷ []))
In-last m [] = inl refl
In-last m (x ∷ ms) = inr (In-last m ms)

pub In-single : {A : Type 0} {x y : A} → In x (y ∷ []) → x ≡ y
In-single (inl e) = e
In-single (inr h) = elim h [ ]

pub answered_one :
    (p : Place) (e : Option Err) (m : Message) → p ≡ handling m → e ≡ none → answered p e ≡ m ∷ []
answered_one p e m a b =
    subst (λ z. answered z e ≡ m ∷ []) (sym a)
      (subst (λ z. answered (handling m) z ≡ m ∷ []) (sym b) refl)

-- A commit of the state after a handler's end is an earlier one, or what markDone now gives out.
pub after_handler-commits :
    (p : Place) (e : Option Err) (s : Process) (k : TopicPartition) (c : ℕ)
    → In (k, c) (after_handler p e s).commits
    → In (k, c) s.commits
      ⊎ ((m : Message) × (p ≡ handling m)
          × (e ≡ none)
          × (key_of m ≡ k)
          × ((mark_done s.offsets (key_of m) m.offset).1 ≡ (c, true)))
unfolding after_handler acknowledge
after_handler-commits (handling m) none s k c h = go _ refl h
  where
    go :
        (r : ℕ × Bool)
        → (mark_done s.offsets (key_of m) m.offset).1 ≡ r
        → In (k, c) (if r.1 then s.commits ++ ((key_of m, r.0) ∷ []) else s.commits)
        → In (k, c) s.commits
          ⊎ ((x : Message) × (handling m ≡ handling x)
              × (◌≡◌ {A = Option Err} none none)
              × (key_of x ≡ k)
              × ((mark_done s.offsets (key_of x) x.offset).1 ≡ (c, true)))
    go (d, true) q h = elim (In-cases (k, c) s.commits _ h) [
      | inl a ↦ inl a
      | inr b ↦
          let u = In-single b in
          inr
            (m, refl, refl, sym (ap (λ z. z.0) u), q ∙ ap (λ z. (z, true)) (sym (ap (λ z. z.1) u)))
    ]
    go (d, false) q h = inl h
after_handler-commits (handling m) (some e) s k c h = inl h
after_handler-commits checking e s k c h = inl h
after_handler-commits waiting e s k c h = inl h
after_handler-commits exited e s k c h = inl h

-- All messages of a partition up to an offset that was fetched are finished.
abbrev pub Covered : TopicPartition → ℕ → Process → Type 0
Covered k c s =
    In c (offsets_of k s.received)
    × ((m : Message) → In m s.received → key_of m ≡ k → m.offset ≤ c → In m s.pool.finished)

module _ (n cap : ℕ) (Handles : Message → Option Err → Type 0) where
  -- A commit that markDone gives out when the handler of `m` has answered nil.
  pub new_commit-Covered :
      (m : Message) (c : ℕ) (s : Process)
      → Reach n cap Handles s
      → In m s.received
      → IsIncreasing (offsets_of (key_of m) s.received)
      → (mark_done s.offsets (key_of m) m.offset).1 ≡ (c, true)
      → In c (offsets_of (key_of m) s.received)
        × ((x : Message)
            → In x s.received
            → key_of x ≡ key_of m
            → x.offset ≤ c
            → In x (s.pool.finished ++ (m ∷ [])))
  new_commit-Covered m c s r a i h =
      let l = Reach-IsLogged n cap Handles r in
      let k = key_of m in
      let h' : (mark_done (run new_tracker s.calls) k m.offset).1 ≡ (c, true) =
        subst (λ t. (mark_done t k m.offset).1 ≡ (c, true)) l.tracked h in
      (
        subst (In c) (l.fetch_calls k) (committed_was_fetched s.calls k m.offset c h'),
        λ x b e le.
            elim (In-cases x.offset _ _ (
              subst (λ d. In x.offset (d ++ (m.offset ∷ []))) (l.finish_calls k)
                (commit_is_safe s.calls k m.offset c x.offset
                  (subst IsIncreasing (sym (l.fetch_calls k)) i) h'
                  (subst (In x.offset) (sym (l.fetch_calls k)) (offset_of-In k x s.received b e))
                  le))) [
                    | inl d ↦
                        let (y, f, e', q) = message_of-In k x.offset s.pool.finished d in
                        let g = (Reach-IsAnswered n cap Handles r y f).0 in
                        In-left x s.pool.finished _ (
                          subst (λ z. In z s.pool.finished)
                            (same_message k y x s.received i g b e' e q) f)
                    | inr d ↦
                        subst (λ z. In z (s.pool.finished ++ (m ∷ [])))
                          (sym (same_message k x m s.received i b a e refl (In-single d)))
                          (In-last m s.pool.finished)
                  ],
      )
