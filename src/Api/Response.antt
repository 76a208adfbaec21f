-- ===== src/Api/Response.antt =====
-- internal/api/response.go: the bodies of answers, and how they are written. json.Marshal is a parameter;
-- `none` is an error of it.
use near_real_time_hybrid_se.Common.{ℕ, List, [], ◌∷◌, ◌++◌, map, Option, none, some, length}
use near_real_time_hybrid_se.Common.Bytes.{Bytes, codes}
use near_real_time_hybrid_se.Rrf.{Scores}
use near_real_time_hybrid_se.Hybrid.{Hit}
use near_real_time_hybrid_se.Api.{Call, set_header, write_header, write, Handled, returned}

-- The message of an error: a fixed text, or the reason of a ValidationError, which is a number here.
pub data Message : Type 0 where
  text : Bytes → Message
  reason : ℕ → Message

-- The error codes.
pub data ErrorCode : Type 0 where
  invalid_request not_found method_not_allowed request_cancelled timeout internal : ErrorCode

module _ (f : Scores) where
  pub record SearchResult : Type 0 where
    pub id : Bytes
    pub title : Bytes
    pub content : Bytes
    pub url : Bytes
    pub score : f.Score

  pub record SearchResponse : Type 0 where
    pub query : Bytes
    pub results : List SearchResult
    pub total : ℕ

  -- SearchResponse, ErrorResponse and statusResponse.
  pub data Body : Type 0 where
    search_body : SearchResponse → Body
    error_body : ErrorCode → Message → Body
    status_body : Bytes → Body

  abbrev pub result_of : Hit f → SearchResult
  result_of h = record {
    id = h.id;
    title = h.title;
    content = h.content;
    url = h.url;
    score = h.score;
  }

  unfoldable pub new_search_response : Bytes → List (Hit f) → SearchResponse
  new_search_response query hits =
      let out = map result_of hits in record { query = query; results = out; total = length out }

  abbrev pub Marshal : Type 0
  Marshal = Body → Option Bytes

-- internalErrorBody, with its double quotes and the newline.
abbrev pub internal_error_body : Bytes
internal_error_body =
    codes "{\"error\":{\"code\":\"INTERNAL_ERROR\",\"message\":\"internal error\"}}" ++ (10 ∷ [])

-- The calls of writeJSON after the body is encoded.
abbrev pub write_body : ℕ → Bytes → List Call
write_body status body =
    set_header (codes "Content-Type") (codes "application/json")
    ∷ set_header (codes "X-Content-Type-Options") (codes "nosniff")
    ∷ write_header status
    ∷ write body
    ∷ []

module _ (f : Scores) (m : Marshal f) where
  unfoldable pub write_json : ℕ → Body f → List Call
  write_json status v = elim (m v) [
    | none ↦ write_body 500 internal_error_body
    | some body ↦ write_body status (body ++ (10 ∷ []))
  ]

  unfoldable pub write_error : ℕ → ErrorCode → Message → List Call
  unfolding write_json
  write_error status code message = write_json status (error_body code message)

  abbrev pub answer : List Call → Handled
  answer calls = record { calls = calls; end = returned }
