-- ===== src/Loadtest/Watch/Accounts.antt =====
-- Every document that Watcher.Wait (internal/loadtest/indexes.go) waits for is measured once or pending.
use near_real_time_hybrid_se.Common.{
  ℕ, ◌≡◌, ◌+◌, refl, ◌∙◌, subst, List, [], ◌∷◌, Option, none, some, ◌⊎◌, inl, inr, arith, All, In,
  length, length-append, ◌≢◌, not, Option-cases, Bool-cases,
}
use near_real_time_hybrid_se.Common.Int.{ℤ}
use near_real_time_hybrid_se.Common.Bytes.{Bytes}
use near_real_time_hybrid_se.Errors.{Err, is_some}
use near_real_time_hybrid_se.Loadtest.Stats.{record_sample}
use near_real_time_hybrid_se.Loadtest.Watch.{
  Arrival, pending_of, remove, inserted_of, Round, check_all, Watched, absorb, none_left,
  wait_rounds, watching, wait,
}
use near_real_time_hybrid_se.Loadtest.Watch.Pending.{
  ids, IsDistinct, pending_of-IsDistinct, remove-IsDistinct, length-remove, check_all-All,
  check_all-IsDistinct, All-In-self, still_pending,
}

-- Samples and pending documents together.
abbrev pub total : Watched → ℕ
total w = length w.samples + length w.pending

absorb-total :
    (sub : ℤ → ℤ → ℤ) (t : ℤ) (found : List Bytes) (w : Watched)
    → IsDistinct found
    → All (λ i. In i (ids w.pending)) found
    → total (absorb sub t found w) ≡ total w
unfolding absorb
absorb-total sub t [] w d h = refl
absorb-total sub t (i ∷ found) w d h =
    let w' : Watched = record {
      samples = record_sample (sub t (inserted_of i w.pending)) w.samples;
      last = some t;
      pending = remove i w.pending;
    } in
    let step : total w' ≡ total w =
      unfold record_sample in
      omega (
        arith,
        length-append w.samples (sub t (inserted_of i w.pending) ∷ []),
        length-remove i w.pending h.0,
      ) in
    absorb-total sub t found w' d.1 (still_pending i found w.pending d.0 h.1) ∙ step

absorb-IsDistinct :
    (sub : ℤ → ℤ → ℤ) (t : ℤ) (found : List Bytes) (w : Watched)
    → IsDistinct (ids w.pending)
    → IsDistinct (ids (absorb sub t found w).pending)
unfolding absorb
absorb-IsDistinct sub t [] w d = d
absorb-IsDistinct sub t (i ∷ found) w d =
    absorb-IsDistinct sub t found _ (remove-IsDistinct i w.pending d)

-- The context ends in one of the rounds.
abbrev pub EndsIn : List Round → Type 0
EndsIn [] = ⊥
EndsIn (r ∷ rs) = (r.ended ≢ none) ⊎ EndsIn rs

-- Wait returned: `n` documents are measured or pending, and there is an error exactly if some are pending.
abbrev pub Accounted : ℕ → Option (Watched × Option Err) → Type 0
Accounted n none = ⊥
Accounted n (some (w, e)) = (total w ≡ n) × (none_left w.pending ≡ not (is_some e))

later_end : (r : Round) (rs : List Round) → EndsIn (r ∷ rs) → r.ended ≡ none → EndsIn rs
later_end r rs (inl n) c = absurd (n c)
later_end r rs (inr h) c = h

rounds-Accounted :
    (sub : ℤ → ℤ → ℤ) (rounds : List Round) (w : Watched)
    → EndsIn rounds
    → IsDistinct (ids w.pending)
    → Accounted (total w) (wait_rounds sub rounds w)
unfolding wait_rounds
rounds-Accounted sub [] w h d = elim h [ ]
rounds-Accounted sub (r ∷ rs) w h d =
    let found = (check_all r w.pending none).0 in
    let w' = absorb sub r.seen_at found w in
    let same : total w' ≡ total w =
      absorb-total sub r.seen_at found w (check_all-IsDistinct r w.pending none d) (
        check_all-All (λ i. In i (ids w.pending)) r w.pending none (All-In-self (ids w.pending))) in
    elim (Bool-cases (none_left w.pending)) [
      | inl a ↦ rw a (refl, a)
      | inr a ↦ elim (Option-cases (check_all r w.pending none).1) [
        | inr (x, e) ↦ rw (a, e) (refl, a)
        | inl e ↦ elim (Bool-cases (none_left w'.pending)) [
          | inl b ↦ rw (a, e, b) (same, b)
          | inr b ↦ elim (Option-cases r.ended) [
            | inr (x, c) ↦ rw (a, e, b, c) (same, b)
            | inl c ↦
                rw (a, e, b, c)
                  (subst (λ n. Accounted n (wait_rounds sub rs w')) same
                    (rounds-Accounted sub rs w' (later_end r rs h c)
                      (absorb-IsDistinct sub r.seen_at found w d)))
          ]
        ]
      ]
    ]

-- If the context ends in one of the rounds, Wait returns. Then there are as many samples and pending
-- documents together as documents with distinct IDs were given, and Wait returns an error exactly if
-- some are pending.
pub wait-Accounted :
    (sub : ℤ → ℤ → ℤ) (rounds : List Round) (arrivals : List Arrival)
    → EndsIn rounds
    → Accounted (length (pending_of arrivals [])) (wait sub rounds arrivals)
unfolding wait watching
wait-Accounted sub rounds arrivals h =
    let w : Watched = record { samples = []; last = none; pending = pending_of arrivals [] } in
    let n : total w ≡ length (pending_of arrivals []) = omega arith in
    subst (λ m. Accounted m (wait_rounds sub rounds w)) n
      (rounds-Accounted sub rounds w h (pending_of-IsDistinct arrivals [] tt))
