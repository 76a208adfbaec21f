-- ===== src/Api/Answers.antt =====
-- Every request to internal/api gets one answer, whatever the search service does.
use near_real_time_hybrid_se.Common.{
  ℕ, ◌≡◌, ◌≢◌, ◌⊎◌, inl, inr, refl, sym, subst, arith, Bool, true, false, not, ◌&&◌, List, [], ◌∷◌,
  ◌++◌, Option, none, some, Bool-cases, if◌then◌else◌,
}
use near_real_time_hybrid_se.Common.Bytes.{Bytes, bytes_eq, codes}
use near_real_time_hybrid_se.Errors.{is_some}
use near_real_time_hybrid_se.Cdc.Mapping.{Result, ok, err}
use near_real_time_hybrid_se.Rrf.{Scores}
use near_real_time_hybrid_se.Hybrid.{Hit}
use near_real_time_hybrid_se.Hybrid.Requests.{SearchRequest}
use near_real_time_hybrid_se.Api.{
  Call, set_header, write_header, write, returned, panicked, Handled, Request,
}
use near_real_time_hybrid_se.Api.Response.{
  Marshal, Body, ErrorCode, Message, write_body, write_json, write_error, internal_error_body,
}
use near_real_time_hybrid_se.Api.Search.{
  Contexts, Outcome, answered, aborts, panics, Parsed, refused, parsed, finish_search,
  search_handler, write_search_error, search_error_answer, search_parsed, timed_out,
}
use near_real_time_hybrid_se.Api.Health.{health, ready}
use near_real_time_hybrid_se.Api.Middleware.{
  with_request_id, with_logging, with_recovery, Entry, valid_request_id, pick_request_id,
  record_calls, new_recorder,
}
use near_real_time_hybrid_se.Api.Router.{
  Server, Route, search_route, health_route, ready_route, other_route, allow_get, route_handler,
  serve,
}

-- The statuses that are written.
unfoldable pub statuses : List Call → List ℕ
statuses [] = []
statuses (set_header k v ∷ cs) = statuses cs
statuses (write_header n ∷ cs) = n ∷ statuses cs
statuses (write b ∷ cs) = statuses cs

-- The calls of one JSON answer.
abbrev IsBody : List Call → Type 0
IsBody calls = (status : ℕ) × (body : Bytes) × (calls ≡ write_body status body)

pub if_both :
    {A : Type 0} (P : A → Type 0) (b : Bool) {x y : A} → P x → P y → P (if b then x else y)
if_both P true p q = p
if_both P false p q = q

-- A run that writes one answer, perhaps after one more header, or that panics before it writes.
abbrev IsGood : Handled → Type 0
IsGood h =
    ((calls : List Call) × IsBody calls × (h ≡ record { calls = calls; end = returned }))
    ⊎ ((calls : List Call) × (k : Bytes) × (v : Bytes) × IsBody calls
        × (h ≡ record { calls = set_header k v ∷ calls; end = returned }))
    ⊎ (h ≡ record { calls = []; end = panicked })

good : {calls : List Call} → IsBody calls → IsGood (record { calls = calls; end = returned })
good {calls} b = inl (calls, b, refl)

module _ (f : Scores) (m : Marshal f) where
  encoded :
      (status : ℕ) (o : Option Bytes)
      → IsBody (elim o [
        | none ↦ write_body 500 internal_error_body
        | some b ↦ write_body status (b ++ (10 ∷ []))
      ])
  encoded status none = (_, _, refl)
  encoded status (some b) = (_, _, refl)

  json : (status : ℕ) (v : Body f) → IsBody (write_json f m status v)
  unfolding write_json
  json status v = encoded status (m v)

  error : (status : ℕ) (c : ErrorCode) (t : Message) → IsBody (write_error f m status c t)
  unfolding write_error
  error status c t = json status _

  search_error : (c : Contexts) (o : Option ℕ) → IsBody (search_error_answer f m c o)
  unfolding search_error_answer
  search_error c (some n) = error 400 _ _
  search_error c none =
      if_both IsBody (is_some c.request_err) (error 499 _ _)
        (if_both IsBody (timed_out c.search_err) (error 504 _ _) (error 500 _ _))

  finish-IsGood :
      (c : Contexts) (req : SearchRequest) (o : Outcome (Result (List (Hit f))))
      → o ≢ aborts
      → IsGood (finish_search f m c req o)
  unfolding finish_search write_search_error
  finish-IsGood c req (answered (err e)) n = good (search_error c _)
  finish-IsGood c req (answered (ok hits)) n = good (json 200 _)
  finish-IsGood c req aborts n = elim (n refl) [ ]
  finish-IsGood c req panics n = inr (inr refl)

  module _ (s : Server f) (calm : (req : SearchRequest) → s.service req ≢ aborts) where
    search-IsGood : (p : Parsed) → IsGood (search_parsed f m s.service s.contexts p)
    unfolding search_parsed
    search-IsGood (refused e) = good (error 400 _ _)
    search-IsGood (parsed req) = finish-IsGood s.contexts req (s.service req) (calm req)

    allowed-IsGood : (r : Request) {h : Handled} → IsGood h → IsGood (allow_get f m r h)
    unfolding allow_get
    allowed-IsGood r g =
        if_both IsGood
          (not (bytes_eq r.method (codes "GET")) && not (bytes_eq r.method (codes "HEAD")))
          (inr (inl (_, _, _, error 405 _ _, refl))) g

    route-IsGood : (r : Request) (to : Route) → IsGood (route_handler f m s r to)
    unfolding route_handler search_handler health ready
    route-IsGood r search_route = allowed-IsGood r (search-IsGood _)
    route-IsGood r health_route = allowed-IsGood r (good (json 200 _))
    route-IsGood r ready_route =
        allowed-IsGood r (good (if_both IsBody _ (json 200 _) (json 503 _)))
    route-IsGood r other_route = good (error 404 _ _)

  -- One status is written, the handler returns, and the access log has that status.
  abbrev pub IsLogged : Handled × Option Entry → Type 0
  IsLogged out =
      (status : ℕ) × (statuses out.0.calls ≡ status ∷ [])
      × (out.0.end ≡ returned)
      × ((e : Entry) × (out.1 ≡ some e) × (e.status ≡ status))

  plain-IsLogged :
      (status : ℕ) (body : Bytes)
      → IsLogged (
          with_logging
            (with_recovery f m (record { calls = write_body status body; end = returned })))
  unfolding with_logging with_recovery statuses
  plain-IsLogged status body = (status, refl, refl, (_, refl, refl))

  headed-IsLogged :
      (status : ℕ) (body k v : Bytes)
      → IsLogged (
          with_logging (
            with_recovery f m
              (record { calls = set_header k v ∷ write_body status body; end = returned })))
  unfolding with_logging with_recovery statuses
  headed-IsLogged status body k v = (status, refl, refl, (_, refl, refl))

  recovered-IsLogged :
      (calls : List Call)
      → IsBody calls
      → IsLogged
          (with_logging (record { calls = (record_calls new_recorder calls).1; end = returned }))
  unfolding with_logging statuses
  recovered-IsLogged calls (status, body, e) =
      subst
        (λ c.
          IsLogged
            (with_logging (record { calls = (record_calls new_recorder c).1; end = returned })))
        (sym e) (written status body)
    where
      written :
          (status : ℕ) (body : Bytes)
          → IsLogged (
              with_logging (record {
                calls = (record_calls new_recorder (write_body status body)).1;
                end = returned;
              }))
      written status body = (status, refl, refl, (_, refl, refl))

  logged : (h : Handled) → IsGood h → IsLogged (with_logging (with_recovery f m h))
  unfolding with_recovery
  logged h (inl (calls, (status, body, e), q)) =
      subst (λ x. IsLogged (with_logging (with_recovery f m x))) (sym q)
        (subst
          (λ c. IsLogged (with_logging (with_recovery f m (record { calls = c; end = returned }))))
          (sym e) (plain-IsLogged status body))
  logged h (inr (inl (calls, k, v, (status, body, e), q))) =
      subst (λ x. IsLogged (with_logging (with_recovery f m x))) (sym q)
        (subst
          (λ c. IsLogged (
            with_logging
              (with_recovery f m (record { calls = set_header k v ∷ c; end = returned }))))
          (sym e) (headed-IsLogged status body k v))
  logged h (inr (inr q)) =
      subst (λ x. IsLogged (with_logging (with_recovery f m x))) (sym q)
        (recovered-IsLogged _ (error 500 _ _))

  picked :
      (uuid given : Bytes)
      → valid_request_id uuid ≡ true
      → valid_request_id (pick_request_id uuid given) ≡ true
  unfolding pick_request_id
  picked uuid given h = elim (Bool-cases (valid_request_id given)) [
    | inl q ↦ ground (arith, q)
    | inr q ↦ ground (arith, q, h)
  ]

  -- If the search service never aborts a response on purpose, then every request gets exactly one
  -- status, even if the service panics: the handler returns, one status is written, and the access
  -- log's entry has that status. The first header that is set is the request's ID, and it has 1 to 128
  -- letters, digits and marks, as the generated ones do.
  pub serve-IsLogged :
      (s : Server f) (r : Request)
      → ((req : SearchRequest) → s.service req ≢ aborts)
      → valid_request_id s.uuid ≡ true
      → IsLogged (serve f m s r)
        × ((id : Bytes) × (rest : List Call) × (valid_request_id id ≡ true)
            × ((serve f m s r).0.calls ≡ set_header (codes "X-Request-ID") id ∷ rest))
  unfolding serve with_request_id statuses
  serve-IsLogged s r calm u = (
    logged _ (route-IsGood s calm r (s.pick r.path)),
    (pick_request_id s.uuid r.request_id, _, picked s.uuid r.request_id u, refl),
  )
