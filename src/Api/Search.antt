-- ===== src/Api/Search.antt =====
-- internal/api/request.go and handler.go: GET /api/v1/search. url.ParseQuery and strconv.Atoi are
-- parameters; the search service is one too, and so is what both contexts say after it returned.
use near_real_time_hybrid_se.Common.{
  ℕ, Bool, false, List, [], ◌∷◌, Option, none, some, if◌then◌else◌,
}
use near_real_time_hybrid_se.Common.Int.{ℤ, pos}
use near_real_time_hybrid_se.Common.Bytes.{Bytes, codes}
use near_real_time_hybrid_se.Common.Trim.{trim_space, is_empty}
use near_real_time_hybrid_se.Errors.{Err, Sentinel, validation_error, find, is, is_some}
use near_real_time_hybrid_se.Cdc.Mapping.{Result, ok, err}
use near_real_time_hybrid_se.Rrf.{Scores}
use near_real_time_hybrid_se.Hybrid.{Hit}
use near_real_time_hybrid_se.Hybrid.Requests.{SearchRequest}
use near_real_time_hybrid_se.Api.{Call, Handled, aborted, panicked, Request}
use near_real_time_hybrid_se.Api.Response.{
  text, reason, invalid_request, request_cancelled, timeout, internal, Marshal, search_body,
  new_search_response, write_json, write_error, answer,
}

-- url.Values: the values of a parameter, none if it is absent.
abbrev pub Values : Type 0
Values = Bytes → Option (List Bytes)

-- Values.Get.
abbrev pub get : Values → Bytes → Bytes
get v key = elim (v key) [ none ↦ [] | some vs ↦ elim vs [ [] ↦ [] | x ∷ xs ↦ x ] ]

pub record Http : Type 0 where
  pub parse_query : Bytes → Option Values
  pub atoi : Bytes → Option ℤ

-- The reasons of requestError.
pub data RequestError : Type 0 where
  malformed_query query_required limit_not_number : RequestError

pub data Parsed : Type 0 where
  refused : RequestError → Parsed
  parsed : SearchRequest → Parsed

unfoldable pub parse_search_request : Http → Request → Parsed
unfolding is_empty
parse_search_request h r = elim (h.parse_query r.raw_query) [
  | none ↦ refused malformed_query
  | some params ↦ elim (params (codes "q")) [
    | none ↦ refused query_required
    | some vs ↦
        let query = get params (codes "q") in
        let raw = get params (codes "limit") in
        if is_empty raw
        then parsed (record { query = query; limit = pos 0 })
        else elim (h.atoi raw) [
          | none ↦ refused limit_not_number
          | some limit ↦ parsed (record { query = query; limit = limit })
        ]
  ]
]

abbrev pub request_error_text : RequestError → Bytes
request_error_text malformed_query = codes "query string is malformed"
request_error_text query_required = codes "query parameter q is required"
request_error_text limit_not_number = codes "limit must be a whole number"

-- errors.As with *hybrid.ValidationError.
abbrev pub pick_validation : Err → Option ℕ
pick_validation (validation_error n) = some n
pick_validation _ = none

-- `r.Context().Err()`, and the `Err()` of the context with the timeout, after the search returned.
pub record Contexts : Type 0 where
  pub request_err : Option Err
  pub search_err : Option Err

abbrev pub timed_out : Option Err → Bool
unfolding is
timed_out none = false
timed_out (some e) = is Sentinel.deadline_exceeded e

-- What a call of the service does: it returns, or it panics.
pub data Outcome (A : Type 0) : Type 0 where
  answered : A → Outcome A
  aborts panics : Outcome A

module _ (f : Scores) (m : Marshal f) where
  -- The cases of writeSearchError: the reason of a ValidationError in the tree, or none.
  unfoldable pub search_error_answer : Contexts → Option ℕ → List Call
  unfolding timed_out write_error
  search_error_answer c (some n) = write_error f m 400 invalid_request (reason n)
  search_error_answer c none =
      if is_some c.request_err
      then write_error f m 499 request_cancelled (text (codes "request cancelled"))
      else if timed_out c.search_err
      then write_error f m 504 timeout (text (codes "search timed out"))
      else write_error f m 500 internal (text (codes "search failed; please try again later"))

  unfoldable pub write_search_error : Contexts → Err → List Call
  unfolding find search_error_answer
  write_search_error c e = search_error_answer c (find pick_validation e)

  -- What follows the call of the service.
  unfoldable pub finish_search :
      Contexts → SearchRequest → Outcome (Result (List (Hit f))) → Handled
  unfolding write_search_error write_json new_search_response trim_space
  finish_search c req (answered (err e)) = answer f m (write_search_error c e)
  finish_search c req (answered (ok hits)) =
      answer f m
        (write_json f m 200 (search_body (new_search_response f (trim_space req.query) hits)))
  finish_search c req aborts = record { calls = []; end = aborted }
  finish_search c req panics = record { calls = []; end = panicked }

  -- SearchHandler.Search, after the request is parsed.
  unfoldable pub search_parsed :
      (SearchRequest → Outcome (Result (List (Hit f)))) → Contexts → Parsed → Handled
  unfolding finish_search write_error
  search_parsed service c (refused e) =
      answer f m (write_error f m 400 invalid_request (text (request_error_text e)))
  search_parsed service c (parsed req) = finish_search c req (service req)

  unfoldable pub search_handler :
      Http → (SearchRequest → Outcome (Result (List (Hit f)))) → Contexts → Request → Handled
  unfolding parse_search_request search_parsed
  search_handler h service c r = search_parsed service c (parse_search_request h r)
