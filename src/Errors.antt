-- ===== src/Errors.antt =====
-- Go errors as trees: what `errors.Is` and `errors.As` see of them (internal/*).
-- The packages' sentinel values and error types are the constructors; `wrap` is `fmt.Errorf` with
-- one `%w`, `wraps` is `errors.Join` or `fmt.Errorf` with several. Error texts are not part of the
-- tree. An error of code outside the repository is `foreign`, with the answer of its `Temporary`
-- method if it has one, or `foreign_wrap` if it wraps another error.
use near_real_time_hybrid_se.Common.{
  ℕ, Bool, true, false, ◌||◌, ◌==◌, Option, none, some, leb, if◌then◌else◌,
}
use near_real_time_hybrid_se.Common.Bytes.{Bytes}

-- The package-level values that the code compares errors with.
pub data Sentinel : Type 0 where
  malformed_event unknown_operation missing_id tombstone no_embedding_text : Sentinel
  malformed_message skip_message : Sentinel
  canceled deadline_exceeded : Sentinel
  invalid_document empty_query invalid_search_limit : Sentinel
  invalid_point invalid_vector : Sentinel
  empty_text dimension_mismatch invalid_response unauthenticated rate_limited unavailable : Sentinel
  row_not_found : Sentinel
  invalid_k invalid_limit : Sentinel
  invalid_request : Sentinel

abbrev pub tag : Sentinel → ℕ
tag malformed_event = 0
tag unknown_operation = 1
tag missing_id = 2
tag tombstone = 3
tag no_embedding_text = 4
tag malformed_message = 5
tag skip_message = 6
tag canceled = 7
tag deadline_exceeded = 8
tag invalid_document = 9
tag empty_query = 10
tag invalid_search_limit = 11
tag invalid_point = 12
tag invalid_vector = 13
tag empty_text = 14
tag dimension_mismatch = 15
tag invalid_response = 16
tag unauthenticated = 17
tag rate_limited = 18
tag unavailable = 19
tag row_not_found = 20
tag invalid_k = 21
tag invalid_limit = 22
tag invalid_request = 23

-- The downstream systems of package cdc.
pub data Store : Type 0 where
  keyword_store vector_store embedder_store : Store

-- The gRPC status codes that qdrant.RequestError tells apart.
pub data Code : Type 0 where
  unavailable_code deadline_code exhausted_code aborted_code internal_code : Code
  unknown_code canceled_code other_code : Code

-- The stages of a hybrid search.
pub data Stage : Type 0 where
  keyword_stage embedding_stage vector_stage fusion_stage : Stage

mutual
  pub data Err : Type 0 where
    sentinel : Sentinel → Err
    named : Sentinel → Err → Err
    opaque : ℕ → Err
    foreign : ℕ → Bool → Err
    foreign_wrap : ℕ → Option Bool → Err → Err
    wrap : Err → Err
    wraps : Errs → Err
    permanent_error : Err → Err
    store_error : Store → Bytes → Err → Err
    keyword_request : ℕ → Err → Err
    vector_request : Code → Err → Err
    api_error : ℕ → Err
    stage_error : Stage → Err → Err
    validation_error : ℕ → Err

  pub data Errs : Type 0 where
    nil : Errs
    cons : Err → Errs → Errs

abbrev pub or_else : {A : Type 0} → Option A → Option A → Option A
or_else none b = b
or_else (some a) b = some a

abbrev pub is_some : {A : Type 0} → Option A → Bool
is_some none = false
is_some (some a) = true

-- The preorder walk of `errors.Is` and `errors.As`: the error itself, then what it unwraps to.
unfoldable mutual
  pub find : {A : Type 0} → (Err → Option A) → Err → Option A
  find pick (sentinel s) = pick (sentinel s)
  find pick (named s e) = or_else (pick (named s e)) (find pick e)
  find pick (opaque n) = pick (opaque n)
  find pick (foreign n t) = pick (foreign n t)
  find pick (foreign_wrap n t e) = or_else (pick (foreign_wrap n t e)) (find pick e)
  find pick (wrap e) = or_else (pick (wrap e)) (find pick e)
  find pick (wraps es) = or_else (pick (wraps es)) (find_in pick es)
  find pick (permanent_error e) = or_else (pick (permanent_error e)) (find pick e)
  find pick (store_error s i e) = or_else (pick (store_error s i e)) (find pick e)
  find pick (keyword_request c e) = or_else (pick (keyword_request c e)) (find pick e)
  find pick (vector_request c e) = or_else (pick (vector_request c e)) (find pick e)
  find pick (api_error c) = pick (api_error c)
  find pick (stage_error s e) = or_else (pick (stage_error s e)) (find pick e)
  find pick (validation_error n) = pick (validation_error n)

  pub find_in : {A : Type 0} → (Err → Option A) → Errs → Option A
  find_in pick nil = none
  find_in pick (cons e es) = or_else (find pick e) (find_in pick es)

-- `e == target`, or the answer of the error's own `Is` method.
abbrev pub matches : Sentinel → Err → Option (Unit {0})
matches s (sentinel t) = if tag s == tag t then some tt else none
matches s (named t e) = if tag s == tag t then some tt else none
matches unauthenticated (api_error c) = if (c == 401) || (c == 403) then some tt else none
matches rate_limited (api_error c) = if c == 429 then some tt else none
matches unavailable (api_error c) = if (c == 408) || leb 500 c then some tt else none
matches invalid_request (validation_error n) = some tt
matches s e = none

-- `errors.Is` with a sentinel.
unfoldable pub is : Sentinel → Err → Bool
unfolding find
is s e = is_some (find (matches s) e)

-- RequestError.Temporary of the OpenSearch client, and APIError.Temporary.
unfoldable pub status_temporary : ℕ → Bool
status_temporary c = (c == 0) || (c == 408) || (c == 429) || leb 500 c

-- RequestError.Temporary of the Qdrant client.
unfoldable pub code_temporary : Code → Bool
code_temporary other_code = false
code_temporary _ = true

abbrev pub pick_permanent : Err → Option (Unit {0})
pick_permanent (permanent_error e) = some tt
pick_permanent _ = none

-- isPermanent: some error of the tree is a permanentError.
unfoldable pub is_permanent : Err → Bool
unfolding find
is_permanent e = is_some (find pick_permanent e)

-- The error's own Temporary method; that of context.DeadlineExceeded says yes.
abbrev pub pick_temporary : Err → Option Bool
unfolding status_temporary code_temporary
pick_temporary (sentinel Sentinel.deadline_exceeded) = some true
pick_temporary (foreign n t) = some t
pick_temporary (foreign_wrap n t e) = t
pick_temporary (keyword_request c e) = some (status_temporary c)
pick_temporary (vector_request c e) = some (code_temporary c)
pick_temporary (api_error c) = some (status_temporary c)
pick_temporary _ = none

-- `errors.As` with `interface{ Temporary() bool }`, then the answer of that method.
unfoldable pub as_temporary : Err → Option Bool
unfolding find
as_temporary = find pick_temporary

abbrev pub pick_keyword_request : Err → Option ℕ
pick_keyword_request (keyword_request c e) = some c
pick_keyword_request _ = none

abbrev pub pick_vector_request : Err → Option Code
pick_vector_request (vector_request c e) = some c
pick_vector_request _ = none

abbrev pub pick_api : Err → Option ℕ
pick_api (api_error c) = some c
pick_api _ = none

abbrev pub pick_store : Err → Option Store
pick_store (store_error s i e) = some s
pick_store _ = none

unfoldable pub as_keyword_request : Err → Option ℕ
unfolding find
as_keyword_request = find pick_keyword_request

unfoldable pub as_vector_request : Err → Option Code
unfolding find
as_vector_request = find pick_vector_request

unfoldable pub as_api : Err → Option ℕ
unfolding find
as_api = find pick_api

unfoldable pub as_store : Err → Option Store
unfolding find
as_store = find pick_store
