-- ===== src/Api/Router.antt =====
-- internal/api/routes.go: the endpoints, and the whole handler of the server. ServeMux is a parameter:
-- the pattern that it picks for a path. The metrics endpoint is left out; the
-- middleware of Options stands in Metrics/Http.
use near_real_time_hybrid_se.Common.{not, ◌&&◌, List, ◌∷◌, Option, if◌then◌else◌}
use near_real_time_hybrid_se.Common.Bytes.{Bytes, bytes_eq, codes}
use near_real_time_hybrid_se.Errors.{Err}
use near_real_time_hybrid_se.Cdc.Mapping.{Result}
use near_real_time_hybrid_se.Rrf.{Scores}
use near_real_time_hybrid_se.Hybrid.{Hit}
use near_real_time_hybrid_se.Hybrid.Requests.{SearchRequest}
use near_real_time_hybrid_se.Api.{set_header, Handled, Request}
use near_real_time_hybrid_se.Api.Response.{
  text, not_found, method_not_allowed, Marshal, write_error, answer,
}
use near_real_time_hybrid_se.Api.Search.{Http, Contexts, Outcome, search_handler}
use near_real_time_hybrid_se.Api.Health.{health, ready}
use near_real_time_hybrid_se.Api.Middleware.{with_request_id, with_logging, with_recovery, Entry}

-- The patterns of RegisterRoutes.
pub data Route : Type 0 where
  search_route health_route ready_route other_route : Route

-- What a request meets: the service, the contexts after a search, and what the readiness checks return.
pub record Server (f : Scores) : Type 0 where
  pub http : Http
  pub pick : Bytes → Route
  pub service : SearchRequest → Outcome (Result (List (Hit f)))
  pub contexts : Contexts
  pub checks : List (Option Err)
  pub uuid : Bytes

module _ (f : Scores) (m : Marshal f) where
  -- allowMethods with GET.
  unfoldable pub allow_get : Request → Handled → Handled
  unfolding write_error
  allow_get r next =
      if not (bytes_eq r.method (codes "GET")) && not (bytes_eq r.method (codes "HEAD"))
      then answer f m (
          set_header (codes "Allow") (codes "GET, HEAD")
          ∷ write_error f m 405 method_not_allowed (text (codes "method not allowed")))
      else next

  -- The handlers of RegisterRoutes.
  unfoldable pub route_handler : Server f → Request → Route → Handled
  unfolding allow_get search_handler health ready write_error
  route_handler s r search_route = allow_get r (search_handler f m s.http s.service s.contexts r)
  route_handler s r health_route = allow_get r (health f m)
  route_handler s r ready_route = allow_get r (ready f m s.checks)
  route_handler s r other_route =
      answer f m (write_error f m 404 not_found (text (codes "not found")))

  -- The handler of NewRouter, with the access log's entry.
  unfoldable pub serve : Server f → Request → Handled × Option Entry
  unfolding route_handler with_request_id with_logging with_recovery
  serve s r =
      let inner = with_logging (with_recovery f m (route_handler s r (s.pick r.path))) in
      (with_request_id s.uuid (λ x. inner.0) r, inner.1)
