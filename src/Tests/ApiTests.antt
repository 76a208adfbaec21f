-- ===== src/Tests/ApiTests.antt =====
-- Requests to the server: a search that panics, one without a query, and a readiness check that fails.
use near_real_time_hybrid_se.Common.{
  ◌≡◌, ◌≢◌, ◌↔◌, ◌⊎◌, refl, true, not, ◌&&◌, if◌then◌else◌, List, [], ◌∷◌, Option, none, some,
}
use near_real_time_hybrid_se.Common.Bytes.{Bytes, bytes_eq, codes}
use near_real_time_hybrid_se.Common.Trim.{is_empty}
use near_real_time_hybrid_se.Errors.{Err, foreign}
use near_real_time_hybrid_se.Cdc.Mapping.{err}
use near_real_time_hybrid_se.Hybrid.{search}
use near_real_time_hybrid_se.Hybrid.Requests.{SearchRequest, validate}
use near_real_time_hybrid_se.Api.{Call, set_header, Request}
use near_real_time_hybrid_se.Api.Response.{Body}
use near_real_time_hybrid_se.Api.Search.{
  Http, Contexts, answered, aborts, panics, refused, parsed, RequestError, query_required,
  parse_search_request, search_handler,
}
use near_real_time_hybrid_se.Api.Middleware.{valid_request_id}
use near_real_time_hybrid_se.Api.Router.{Server, search_route, ready_route, serve}
use near_real_time_hybrid_se.Api.Answers.{IsLogged, statuses, serve-IsLogged}
use near_real_time_hybrid_se.Api.Statuses.{IsForeignRun, IsClean, bad_request_iff}
use near_real_time_hybrid_se.Tests.HybridTests.{scores, config, utf8}
use near_real_time_hybrid_se.Tests.HybridTests

-- Every body is encoded as two bytes; a query string that is not empty is the parameter q.
abbrev pub brief : Body scores → Option Bytes
brief b = some (codes "{}")

abbrev http : Http
http = record {
  parse_query = λ raw.
      some
        (λ key. if bytes_eq key (codes "q") && not (is_empty raw) then some (raw ∷ []) else none);
  atoi = λ raw. none;
}

abbrev pub asked : Bytes → Request
asked query = record {
  method = codes "GET";
  path = codes "/api/v1/search";
  raw_query = query;
  request_id = codes "two words";
}

abbrev open_contexts : Contexts
open_contexts = record { request_err = none; search_err = none }

abbrev panicking : Server scores
panicking = record {
  http = http;
  pick = λ path. search_route;
  service = λ req. panics;
  contexts = open_contexts;
  checks = [];
  uuid = codes "6ba7b810-9dad";
}

panicking_calm : (req : SearchRequest) → panicking.service req ≢ aborts
panicking_calm req h = cc

serve-IsLogged_example :
    IsLogged scores brief (serve scores brief panicking (asked (codes "go")))
    × ((id : Bytes) × (rest : List Call) × (valid_request_id id ≡ true)
        × ((serve scores brief panicking (asked (codes "go"))).0.calls
            ≡ set_header (codes "X-Request-ID") id ∷ rest))
unfolding valid_request_id
serve-IsLogged_example =
    serve-IsLogged scores brief panicking (asked (codes "go")) panicking_calm refl

panic_status : statuses (serve scores brief panicking (asked (codes "go"))).0.calls ≡ 500 ∷ []
unfolding serve statuses bytes_eq is_empty
panic_status = refl

not_ready :
    statuses
      (serve scores brief
        (record panicking {
          pick = λ path. ready_route;
          checks = none ∷ some (foreign 1 true) ∷ [];
        })
        (asked [])).0.calls
    ≡ 503 ∷ []
unfolding serve statuses bytes_eq
not_ready = refl

-- The run of the search tests, whose calls all work.
answered-IsForeignRun : IsForeignRun HybridTests.answered
unfolding IsClean
answered-IsForeignRun = record {
  keyword = λ q n. tt;
  embedding = λ t. tt;
  vector = λ v n. tt;
  context = λ e h. cc;
}

bad_request_iff_example :
    (statuses
        (search_handler scores brief http
          (λ req. answered (search config HybridTests.answered scores utf8 req).0)
          open_contexts
          (asked [])).calls
      ≡ 400 ∷ [])
    ↔ (((x : RequestError) × (parse_search_request http (asked []) ≡ refused x))
        ⊎ ((req : SearchRequest) × (e : Err) × (parse_search_request http (asked []) ≡ parsed req)
            × (validate utf8 config req ≡ err e)))
bad_request_iff_example =
    bad_request_iff config HybridTests.answered scores brief utf8 open_contexts (λ c x. refl)
      answered-IsForeignRun http (asked [])

-- Without a query it is one.
no_query : parse_search_request http (asked []) ≡ refused query_required
unfolding parse_search_request is_empty bytes_eq
no_query = refl
