-- ===== src/Kafka/Fetching.antt =====
-- When Consumer.Run returns, and with what (internal/kafka/consumer.go).
use near_real_time_hybrid_se.Common.{
  ℕ, zero, suc, ◌+◌, ◌≡◌, ◌<◌, refl, ◌∙◌, inl, inr, true, false, not, List, [], ◌∷◌, ◌++◌, ◌⊎◌, map,
  Option, none, some, arith,
}
use mathlib.Core.List.{append_assoc}
use near_real_time_hybrid_se.Errors.{Err, is_some, wrap}
use near_real_time_hybrid_se.Kafka.Consumer.{
  Consumer, State, Event, fetch_failed, fetch_error, report, after_fetch_error, after_fetch, round,
  rounds, max_fetch_failures,
}

pair_cases :
    {A B C : Type 0} (p : (A ⊎ B) × C)
    → ((a : A) × (x : C) × (p ≡ (inl a, x))) ⊎ ((b : B) × (x : C) × (p ≡ (inr b, x)))
pair_cases (inl a, x) = inl (a, x, refl)
pair_cases (inr b, x) = inr (b, x, refl)

module _ {S : Type 0} (c : Consumer S) where
  -- The wait before the next fetch ends early only because the context did.
  abbrev pub IsCancelWait : Type 0
  IsCancelWait = (w : S) → (c.retry_wait w).0 ≡ true → is_some (c.ctx_err (c.retry_wait w).1) ≡ true

  round_outcome :
      IsCancelWait
      → (n : ℕ) (s : State S) {out : Option Err} {s' : State S} → round c n s ≡ (inl out, s')
      → is_some out ≡ not (is_some (c.ctx_err s'.world))
  unfolding round after_fetch_error after_fetch report
  round_outcome i n s h = ground (arith, h, i (c.fetch s.world).1)

  -- If the wait between fetches ends early only because the context did: when Run returns, it returns an
  -- error exactly if the context has not ended, and nil exactly if it has.
  rounds_outcome :
      IsCancelWait
      → (fuel n : ℕ) (s : State S) {out : Option Err} {s' : State S}
      → rounds c fuel n s ≡ some (out, s')
      → is_some out ≡ not (is_some (c.ctx_err s'.world))
  unfolding rounds
  rounds_outcome i zero n s h = cc
  rounds_outcome i (suc fuel) n s {out} {s'} h = elim (pair_cases (round c n s)) [
    | inl (x, t, e) ↦ ground (arith, e, h, round_outcome i n s e)
    | inr (m, t, e) ↦ rounds_outcome i fuel m t {out = out} {s' = s'} (ground (arith, e, h))
  ]

  -- A broker that is down: every fetch fails, while the context stays open.
  pub record IsDown : Type 0 where
    pub fails : (w : S) → (e : Err) × ((c.fetch w).0 ≡ fetch_error e)
    pub open_context : (w : S) → c.ctx_err w ≡ none
    pub waits : (w : S) → (c.retry_wait w).0 ≡ false

  -- The report of a fetch that failed with `e`.
  abbrev pub failure : Err → Event
  failure e = record { kind = fetch_failed; topic = c.topic; err = some e }

  -- The errors of k fetches in a row from a state of the world, with the waits between them.
  abbrev pub errors_of : IsDown → ℕ → S → List Err
  errors_of d zero w = []
  errors_of d (suc k) w = (d.fails w).0 ∷ errors_of d k (c.retry_wait (c.fetch w).1).1

  -- The last of k + 1 such errors.
  abbrev pub last_error : IsDown → ℕ → S → Err
  last_error d zero w = (d.fails w).0
  last_error d (suc k) w = last_error d k (c.retry_wait (c.fetch w).1).1

  down_round :
      (d : IsDown) (n : ℕ) (s : State S)
      → suc n < max_fetch_failures
      → round c n s ≡ (
        inr (suc n),
        record {
          offsets = s.offsets;
          world = (c.retry_wait (c.fetch s.world).1).1;
          events = s.events ++ (failure (d.fails s.world).0 ∷ []);
        },
      )
  unfolding round after_fetch_error report
  down_round d n s l =
      let w = (c.fetch s.world).1 in
      ground (arith, (d.fails s.world).1, d.open_context w, d.waits w, l)

  last_round :
      (d : IsDown) (n : ℕ) (s : State S)
      → suc n ≡ max_fetch_failures
      → round c n s ≡ (
        inl (some (wrap (d.fails s.world).0)),
        record {
          offsets = s.offsets;
          world = (c.fetch s.world).1;
          events = s.events ++ (failure (d.fails s.world).0 ∷ []);
        },
      )
  unfolding round after_fetch_error report
  last_round d n s l = ground (arith, (d.fails s.world).1, d.open_context (c.fetch s.world).1, l)

  -- What is said of k + 1 failures: Run returns the last one, and has reported all.
  abbrev Stops : IsDown → ℕ → ℕ → State S → Type 0
  Stops d k n s =
      (s' : State S) × (rounds c (suc k) n s ≡ some (some (wrap (last_error d k s.world)), s'))
      × (s'.events ≡ s.events ++ map failure (errors_of d (suc k) s.world))

  down_rounds :
      (d : IsDown) (k n : ℕ) (s : State S) → n + suc k ≡ max_fetch_failures → Stops d k n s
  unfolding rounds
  down_rounds d zero n s l =
      let q = last_round d n s (omega (arith, l)) in
      (
        record {
          offsets = s.offsets;
          world = (c.fetch s.world).1;
          events = s.events ++ (failure (d.fails s.world).0 ∷ []);
        },
        ground (arith, q),
        refl,
      )
  down_rounds d (suc k) n s l =
      let q = down_round d n s (omega (arith, l)) in
      let (u, r, x) =
        down_rounds d k (suc n)
          (record {
            offsets = s.offsets;
            world = (c.retry_wait (c.fetch s.world).1).1;
            events = s.events ++ (failure (d.fails s.world).0 ∷ []);
          })
          (omega (arith, l)) in
      (
        u,
        ground (arith, q, r),
        x
            ∙ append_assoc s.events (failure (d.fails s.world).0 ∷ [])
                (map failure (errors_of d (suc k) (c.retry_wait (c.fetch s.world).1).1)),
      )

  -- While the broker is down Run does not go on for ever: after ten fetches in a row have failed
  -- it returns the last one's error, wrapped. It has reported exactly these ten failures, each
  -- with its error, in their order.
  pub down_stops :
      (d : IsDown) (s : State S)
      → (s' : State S) × (rounds c max_fetch_failures 0 s
          ≡ some (some (wrap (last_error d 9 s.world)), s'))
        × (s'.events ≡ s.events ++ map failure (errors_of d max_fetch_failures s.world))
  down_stops d s = down_rounds d 9 0 s refl
