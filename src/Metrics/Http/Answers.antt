-- ===== src/Metrics/Http/Answers.antt =====
-- What the middleware of internal/metrics/http.go counts of the answers that clients get from the router
-- of internal/api/routes.go.
use mathlib.Core.List.{append_assoc}
use near_real_time_hybrid_se.Common.{
  ℕ, ◌≡◌, ◌+◌, refl, sym, ap, ◌∙◌, Bool, true, false, List, [], ◌∷◌, ◌++◌, Option, none, some,
  length,
}
use near_real_time_hybrid_se.Common.Bytes.{Bytes, codes}
use near_real_time_hybrid_se.Rrf.{Scores}
use near_real_time_hybrid_se.Api.{
  Call, set_header, write_header, write, returned, panicked, Request,
}
use near_real_time_hybrid_se.Api.Response.{
  Marshal, internal, text, write_body, write_json, write_error, internal_error_body, error_body,
}
use near_real_time_hybrid_se.Api.Middleware.{
  Recorder, new_recorder, record_call, record_calls, with_logging, with_recovery, Entry,
}
use near_real_time_hybrid_se.Metrics.{Series, http_requests, http_duration}
use near_real_time_hybrid_se.Metrics.Http.{route_label, record_class, with_metrics, measured}

record_calls-append :
    (r : Recorder) (cs ds : List Call)
    → record_calls r (cs ++ ds) ≡ (
      (record_calls (record_calls r cs).0 ds).0,
      (record_calls r cs).1 ++ (record_calls (record_calls r cs).0 ds).1,
    )
unfolding record_calls
record_calls-append r [] ds = refl
record_calls-append r (c ∷ cs) ds =
    let one = record_call r c in
    ap (λ (q : Recorder × List Call). (q.0, one.1 ++ q.1)) (record_calls-append one.0 cs ds)
    ∙ ap (λ z. ((record_calls (record_calls one.0 cs).0 ds).0, z))
        (sym (
          append_assoc one.1 (record_calls one.0 cs).1
            (record_calls (record_calls one.0 cs).0 ds).1))

-- What a recorder passes on makes a second recorder the same as the first.
calls_again :
    (n k : ℕ) (w : Bool) (cs : List Call)
    → let r : Recorder = record { status = n; bytes = k; wrote_header = w } in
      record_calls r (record_calls r cs).1 ≡ record_calls r cs
unfolding record_calls record_call
calls_again n k w [] = refl
calls_again n k w (set_header h v ∷ cs) =
    ap (λ (q : Recorder × List Call). (q.0, set_header h v ∷ q.1)) (calls_again n k w cs)
calls_again n k true (write_header i ∷ cs) =
    ap (λ (q : Recorder × List Call). (q.0, write_header i ∷ q.1)) (calls_again n k true cs)
calls_again n k false (write_header i ∷ cs) =
    ap (λ (q : Recorder × List Call). (q.0, write_header i ∷ q.1)) (calls_again i k true cs)
calls_again n k true (write b ∷ cs) =
    ap (λ (q : Recorder × List Call). (q.0, write b ∷ q.1)) (calls_again n (k + length b) true cs)
calls_again n k false (write b ∷ cs) =
    ap (λ (q : Recorder × List Call). (q.0, write_header 200 ∷ write b ∷ q.1))
      (calls_again 200 (k + length b) true cs)

record_calls-again :
    (r : Recorder) (cs : List Call) → record_calls r (record_calls r cs).1 ≡ record_calls r cs
record_calls-again r cs = calls_again r.status r.bytes r.wrote_header cs

-- A request whose handler returned: the status that is counted is the one in the access log.
abbrev pub IsMeasured : Request → Option Entry × List Series → Type 0
IsMeasured r (none, updates) = ⊥
IsMeasured r (some e, updates) =
    let label = route_label r.path in
    updates
    ≡ http_requests r.method label e.status
      ∷ http_duration r.method label
      ∷ record_class label e.status

-- A request that is answered with status 500 and not counted.
abbrev pub IsMissed : Option Entry × List Series → Type 0
IsMissed (none, updates) = ⊥
IsMissed (some e, updates) = (e.status ≡ 500) × (e.failed ≡ true) × (updates ≡ [])

module _ (f : Scores) (m : Marshal f) where
  -- A request whose handler returned is counted once, by its method and its route's label, with the
  -- status of the answer that the access log shows, and as an error of its class from 400 on.
  measured_end :
      (uuid : Bytes) (r : Request) (calls : List Call)
      → IsMeasured r (measured f m uuid r (record { calls = calls; end = returned })).1
  unfolding measured with_metrics with_recovery with_logging
  measured_end uuid r calls = let e = record_calls-again new_recorder calls in rw e (rw e refl)

  -- The body that a panic is answered with goes out with status 500.
  status_after :
      (r : Recorder) (body : Bytes)
      → r.wrote_header ≡ false
      → let q = record_calls r (write_body 500 body) in
        (q.0.status ≡ 500) × (q.0.wrote_header ≡ true)
  unfolding record_calls record_call
  status_after r body h = rw h (refl, refl)

  panic_status :
      (r : Recorder)
      → r.wrote_header ≡ false
      → let q = record_calls r (write_error f m 500 internal (text (codes "internal error"))) in
        (q.0.status ≡ 500) × (q.0.wrote_header ≡ true)
  unfolding write_error write_json
  panic_status r h =
      elim (m (error_body internal (text (codes "internal error"))))
        as (λ o.
          let q = record_calls r (reply o) in (q.0.status ≡ 500) × (q.0.wrote_header ≡ true)) [
            | none ↦ status_after r internal_error_body h
            | some b ↦ status_after r (b ++ (10 ∷ [])) h
          ]
    where
      reply : Option Bytes → List Call
      reply none = write_body 500 internal_error_body
      reply (some b) = write_body 500 (b ++ (10 ∷ []))

  again_after :
      (calls body : List Call)
      → let r = (record_calls new_recorder calls).0 in
        (record_calls new_recorder
          ((record_calls new_recorder calls).1 ++ (record_calls r body).1)).0
        ≡ (record_calls r body).0
  again_after calls body =
      let q = record_calls new_recorder calls in
      ap (λ (x : Recorder × List Call). x.0)
        (record_calls-append new_recorder q.1 (record_calls q.0 body).1)
      ∙ ap (λ (x : Recorder × List Call). (record_calls x.0 (record_calls q.0 body).1).0)
          (record_calls-again new_recorder calls)
      ∙ ap (λ (x : Recorder × List Call). x.0) (record_calls-again q.0 body)

  -- A request whose handler panics before it answers is answered with status 500, and its access log
  -- entry is an error with that status; but it is not counted at all.
  pub panic-IsMissed :
      (uuid : Bytes) (r : Request) (calls : List Call)
      → (record_calls new_recorder calls).0.wrote_header ≡ false
      → IsMissed (measured f m uuid r (record { calls = calls; end = panicked })).1
  unfolding measured with_metrics with_recovery with_logging
  panic-IsMissed uuid r calls h =
      let body = write_error f m 500 internal (text (codes "internal error")) in
      let a = again_after calls body in
      let k = panic_status (record_calls new_recorder calls).0 h in
      rw (record_calls-again new_recorder calls) (rw h (rw a (rw (k.1, k.0) (refl, refl, refl))))
