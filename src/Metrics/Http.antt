-- ===== src/Metrics/Http.antt =====
-- internal/metrics/http.go: the middleware that counts requests, and where NewRouter puts it. The gauge of
-- requests in flight and the durations are left out; `promhttp` serves the endpoint and is not modelled.
pub mod Answers
use near_real_time_hybrid_se.Common.{
  ℕ, ◌≡◌, refl, sym, ap, ◌∙◌, subst, Bool, true, false, List, [], ◌∷◌, ◌++◌, Option, none, some,
  arith, leb, Bool-cases, if◌then◌else◌,
}
use near_real_time_hybrid_se.Common.Bytes.{Bytes, bytes_eq, codes}
use near_real_time_hybrid_se.Rrf.{Scores}
use near_real_time_hybrid_se.Api.{
  Call, set_header, write_header, write, Handled, returned, aborted, panicked, Request,
}
use near_real_time_hybrid_se.Api.Response.{Marshal}
use near_real_time_hybrid_se.Api.Middleware.{
  Recorder, new_recorder, record_call, record_calls, status_or_ok, with_request_id, with_logging,
  with_recovery, Entry,
}
use near_real_time_hybrid_se.Api.Router.{Server, route_handler}
use near_real_time_hybrid_se.Metrics.{Series, http_requests, http_duration, http_responses}

-- routeLabel.
unfoldable pub route_label : Bytes → Bytes
unfolding bytes_eq
route_label path =
    if bytes_eq path (codes "/api/v1/search")
    then path
    else if bytes_eq path (codes "/health")
    then path
    else if bytes_eq path (codes "/ready")
    then path
    else if bytes_eq path (codes "/metrics")
    then path
    else codes "other"

-- The counter of error responses: the class of statusClass, 4 or 5.
unfoldable pub record_class : Bytes → ℕ → List Series
record_class route code =
    if leb 500 code
    then http_responses route 5 ∷ []
    else if leb 400 code
    then http_responses route 4 ∷ []
    else []

-- Middleware, around a run of the next handler: what follows the call of that handler is not reached if
-- it panics.
unfoldable pub with_metrics : Request → Handled → Handled × List Series
unfolding route_label record_calls record_class
with_metrics r out =
    let (rec, calls) = record_calls new_recorder out.calls in
    let route = route_label r.path in
    let code = status_or_ok rec in
    (
      record { calls = calls; end = out.end },
      elim out.end [
        | returned ↦
            http_requests r.method route code
            ∷ http_duration r.method route
            ∷ record_class route code
        | aborted ↦ []
        | panicked ↦ []
      ],
    )

module _ (f : Scores) (m : Marshal f) where
  -- The handler of NewRouter with Options.Middleware, around a run of the routes.
  unfoldable pub measured : Bytes → Request → Handled → Handled × (Option Entry × List Series)
  unfolding with_request_id with_logging with_recovery with_metrics
  measured uuid r out =
      let (inner, updates) = with_metrics r out in
      let (logged, entry) = with_logging (with_recovery f m inner) in
      (with_request_id uuid (λ x. logged) r, (entry, updates))

  -- The requests that serve answers, measured.
  unfoldable pub serve_measured : Server f → Request → Handled × (Option Entry × List Series)
  unfolding measured route_handler
  serve_measured s r = measured s.uuid r (route_handler f m s r (s.pick r.path))
