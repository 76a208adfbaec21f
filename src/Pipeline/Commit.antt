-- ===== src/Pipeline/Commit.antt =====
-- The commit rules of the pipeline: what has happened to a message whose offset may be committed.
use near_real_time_hybrid_se.Common.{
  ℕ, ◌≡◌, refl, sym, subst, ◌∙◌, ◌⊎◌, inl, inr, Bool, true, false, List, [], ◌∷◌, Option, none,
  some, arith, Option-cases,
}
use near_real_time_hybrid_se.Errors.{Err, Sentinel, is}
use near_real_time_hybrid_se.Retry.{Float64, Kind, unknown, non_retryable, Result, run, validate}
use near_real_time_hybrid_se.Retry.Runs.{Returns, Returns-mono, run_total}
use near_real_time_hybrid_se.Retry.Success.{run_success}
use near_real_time_hybrid_se.Kafka.{Message}
use near_real_time_hybrid_se.Cdc.{Effect, no_effect}
use near_real_time_hybrid_se.Dlq.{Letter}
use near_real_time_hybrid_se.Dlq
use near_real_time_hybrid_se.Pipeline.{
  Outcome, indexed, skipped, dead_lettered, cancelled, failed, Report, Decoded, decoded, undecoded,
  Processed, Pipeline, with_effect, runner, index_event, letter_of, report, dead_letter, conclude,
  process,
}

-- The outcomes that allow a commit.
abbrev pub may_commit : Outcome → Bool
may_commit indexed = true
may_commit skipped = true
may_commit dead_lettered = true
may_commit cancelled = false
may_commit failed = false

abbrev pub is_nil : Option Err → Bool
is_nil none = true
is_nil (some e) = false

-- Exactly one report, and an error exactly for the outcomes that forbid a commit.
abbrev pub Reported : List Report → Option Err → Type 0
Reported [] e = ⊥
Reported (r ∷ []) e = may_commit r.outcome ≡ is_nil e
Reported (r ∷ q ∷ rs) e = ⊥

-- What has become of a message that is finished in state `s'`: there was nothing to index, or the
-- indexer worked on its event, or the dead-letter topic took a letter with its key, place and payload.
abbrev pub Settled : {f : Float64} {Event S : Type 0} → Pipeline f Event S → Message → S → Type 0
Settled {Event = Event} {S = S} p msg s' =
    ((e : Err) × (p.decode msg.value ≡ undecoded e) × (is Sentinel.skip_message e ≡ true))
    ⊎ ((ev : Event) × (s : S) × (fx : Effect) × (p.decode msg.value ≡ decoded ev)
        × (p.index ev s ≡ ((fx, none), s')))
    ⊎ ((l : Letter) × (s : S) × (p.publish l s ≡ (none, s'))
        × (l.payload ≡ msg.value)
        × (l.event_key ≡ msg.key)
        × (l.original_topic ≡ msg.topic)
        × (l.original_partition ≡ msg.partition)
        × (l.original_offset ≡ msg.offset))

-- What is said of a run of Process: it returns, and its result satisfies `P`.
abbrev pub Processes : {S : Type 0} → (Processed S → Type 0) → Option (Processed S) → Type 0
Processes P none = ⊥
Processes P (some o) = P o

module _ {f : Float64} {Event S : Type 0} (p : Pipeline f Event S) where
  dead_letter_stored :
      (msg : Message) (cause : Err) (kind : Kind) (n : ℕ) (s : S)
      → (dead_letter p msg cause kind n s).err ≡ none
      → p.publish (letter_of p msg cause kind n s) s
        ≡ (none, (dead_letter p msg cause kind n s).state)
  unfolding dead_letter
  dead_letter_stored msg cause kind n s h = ground arith

  dead_letter-Settled :
      (msg : Message) (cause : Err) (kind : Kind) (n : ℕ) (s : S)
      → (dead_letter p msg cause kind n s).err ≡ none
      → Settled p msg (dead_letter p msg cause kind n s).state
  unfolding Dlq.new
  dead_letter-Settled msg cause kind n s h = inr (
      inr (
        letter_of p msg cause kind n s,
        s,
        dead_letter_stored msg cause kind n s h,
        refl,
        refl,
        refl,
        refl,
        refl,
      ))

  dead_letter-Reported :
      (msg : Message) (cause : Err) (kind : Kind) (n : ℕ) (s : S)
      → let o = dead_letter p msg cause kind n s in Reported o.reports o.err
  unfolding dead_letter
  dead_letter-Reported msg cause kind n s = ground arith

  conclude-Reported :
      (msg : Message) (x : Result) (s : S) (fx : Effect)
      → let o = conclude p msg x s fx in Reported o.reports o.err
  unfolding conclude
  conclude-Reported msg x s fx = elim (Option-cases x.err) [
    | inl h ↦ rw (h, conclude) refl
    | inr (e, h) ↦ ground (arith, dead_letter-Reported msg e x.kind x.attempts s)
  ]

  index_event_worked :
      (ev : Event) (t₀ t : S × Effect)
      → index_event p ev t₀ ≡ (none, t)
      → p.index ev t₀.0 ≡ ((t.1, none), t.0)
  unfolding index_event
  index_event_worked ev t₀ t h = ground arith

  conclude_success :
      (msg : Message) (x : Result) (s : S) (fx : Effect)
      → x.err ≡ none
      → (conclude p msg x s fx).state ≡ s
  unfolding conclude
  conclude_success msg x s fx h = ground arith

  conclude_failure :
      (msg : Message) (x : Result) (s : S) (fx : Effect) (e : Err)
      → x.err ≡ some e
      → (conclude p msg x s fx).err ≡ none
      → conclude p msg x s fx ≡ dead_letter p msg e x.kind x.attempts s
  unfolding conclude
  conclude_failure msg x s fx e k h = ground arith

  conclude-Settled :
      (msg : Message) (ev : Event) (x : Result) (t : S × Effect)
      → p.decode msg.value ≡ decoded ev
      → (x.err ≡ none → (t₀ : S × Effect) × (index_event p ev t₀ ≡ (none, t)))
      → (conclude p msg x t.0 t.1).err ≡ none
      → Settled p msg (conclude p msg x t.0 t.1).state
  conclude-Settled msg ev x t d w h = elim (Option-cases x.err) [
    | inl k ↦
        let (t₀, q) = w k in
        subst (Settled p msg) (sym (conclude_success msg x t.0 t.1 k))
          (inr (inl (ev, t₀.0, t.1, d, index_event_worked ev t₀ t q)))
    | inr (e, k) ↦
        let q = conclude_failure msg x t.0 t.1 e k h in
        subst (λ o. Settled p msg o.state) (sym q)
          (dead_letter-Settled msg e x.kind x.attempts t.0 (subst (λ o. o.err ≡ none) q h))
  ]

  pub process_undecoded :
      (msg : Message) (e : Err) (s : S)
      → p.decode msg.value ≡ undecoded e
      → (is Sentinel.skip_message e ≡ true)
          × (process p msg s
              ≡ some (record {
                err = none;
                reports = report p skipped 0 unknown none ∷ [];
                state = s;
              }))
        ⊎ (process p msg s ≡ some (dead_letter p msg e non_retryable 0 s))
  unfolding process
  process_undecoded msg e s d = ground arith

  pub process_decoded :
      (msg : Message) (ev : Event) (s : S)
      → p.decode msg.value ≡ decoded ev
      → process p msg s
        ≡ elim (run f (with_effect p.context) (runner p) (index_event p ev) (s, no_effect)) [
          | none ↦ none
          | some (x, t) ↦ some (conclude p msg x t.0 t.1)
        ]
  unfolding process
  process_decoded msg ev s d = rw (d, process)

  -- Under a policy that NewPipeline accepts Process always returns; it makes exactly one report, and
  -- it returns nil exactly for the outcomes indexed, skipped and dead_lettered.
  pub process_reports :
      (msg : Message) (s : S)
      → validate f p.policy ≡ none
      → Processes (λ o. Reported o.reports o.err) (process p msg s)
  process_reports msg s v = go (p.decode msg.value) refl
    where
      finish :
          (r : Option (Result × (S × Effect)))
          → Returns (λ x t. Unit {0}) r
          → Processes
              (λ o. Reported o.reports o.err)
              (elim r [ none ↦ none | some (x, t) ↦ some (conclude p msg x t.0 t.1) ])
      finish none h = h
      finish (some (x, t)) h = conclude-Reported msg x t.0 t.1

      go :
          (d : Decoded Event)
          → p.decode msg.value ≡ d
          → Processes (λ o. Reported o.reports o.err) (process p msg s)
      go (undecoded e) d = elim (process_undecoded msg e s d) [
        | inl (_, q) ↦ rw q refl
        | inr q ↦ rw q (dead_letter-Reported msg e non_retryable 0 s)
      ]
      go (decoded ev) d = rw (process_decoded msg ev s d) (
          finish _ (
            Returns-mono _ _
              (run_total f (with_effect p.context) (runner p) (index_event p ev) (s, no_effect)
                (unfold runner in v))
              λ x t h. tt))

  -- When Process returns nil, so that the offset is committed, the message is settled: it had nothing
  -- to index, or the indexer worked on its event, or the dead-letter topic took a letter with its key,
  -- its place and its payload.
  pub process_commit :
      (msg : Message) (s : S) (o : Processed S)
      → process p msg s ≡ some o
      → o.err ≡ none
      → Settled p msg o.state
  process_commit msg s o e h = go (p.decode msg.value) refl
    where
      finish :
          (ev : Event) (r : Option (Result × (S × Effect)))
          → p.decode msg.value ≡ decoded ev
          → run f (with_effect p.context) (runner p) (index_event p ev) (s, no_effect) ≡ r
          → elim r [ none ↦ none | some (x, t) ↦ some (conclude p msg x t.0 t.1) ] ≡ some o
          → Settled p msg o.state
      finish ev none d k q = cc
      finish ev (some (x, t)) d k q =
          let u : conclude p msg x t.0 t.1 ≡ o = cc in
          subst (λ z. Settled p msg z.state) u
            (conclude-Settled msg ev x t d
              (run_success f (with_effect p.context) (runner p) (index_event p ev) (s, no_effect) x
                t k)
              (subst (λ z. z.err ≡ none) (sym u) h))

      go : (d : Decoded Event) → p.decode msg.value ≡ d → Settled p msg o.state
      go (undecoded x) d = elim (process_undecoded msg x s d) [
        | inl (k, q) ↦ inl (x, d, k)
        | inr q ↦
            let u : dead_letter p msg x non_retryable 0 s ≡ o = cc in
            subst (λ z. Settled p msg z.state) u
              (dead_letter-Settled msg x non_retryable 0 s (subst (λ z. z.err ≡ none) (sym u) h))
      ]
      go (decoded ev) d = finish ev _ d refl (sym (process_decoded msg ev s d) ∙ e)
