-- ===== src/Classify.antt =====
-- Which failures are retried: ClassifyError and isPermanent (internal/indexing/pipeline.go,
-- event.go), the rules for each store (internal/indexing/indexer.go) and classifyChange
-- (internal/indexing/cdc_pipeline.go), with storeErr (internal/indexing/cdc/event.go).
pub mod Stores
pub mod Deletes
use near_real_time_hybrid_se.Common.{
  Bool, true, false, not, ◌&&◌, ◌||◌, List, [], ◌∷◌, ◌++◌, Option, none, some, if◌then◌else◌,
}
use near_real_time_hybrid_se.Common.Bytes.{Bytes}
use near_real_time_hybrid_se.Errors.{
  Err, Errs, Sentinel, Store, permanent_error, store_error, wraps, sentinel, named, nil, cons,
  keyword_store, vector_store, embedder_store, is, is_permanent, as_temporary, as_keyword_request,
  as_vector_request, as_api, as_store, status_temporary, code_temporary,
}
use near_real_time_hybrid_se.Retry.{Kind, unknown, retryable, non_retryable}

-- The errors of package cdc that wrap ErrMalformedEvent.
abbrev pub unknown_operation_error : Err
unknown_operation_error = named Sentinel.unknown_operation (sentinel Sentinel.malformed_event)

abbrev pub missing_id_error : Err
missing_id_error = named Sentinel.missing_id (sentinel Sentinel.malformed_event)

abbrev pub no_text_error : Err
no_text_error = named Sentinel.no_embedding_text (sentinel Sentinel.malformed_event)

unfoldable pub classify_error : Option Err → Kind
unfolding is_permanent as_temporary
classify_error none = unknown
classify_error (some e) =
    if is_permanent e
    then non_retryable
    else elim (as_temporary e) [ none ↦ unknown | some t ↦ if t then retryable else non_retryable ]

-- `errors.As` finds a request error, and its Temporary method says no.
abbrev pub refused : {A : Type 0} → (A → Bool) → Option A → Bool
refused temporary none = false
refused temporary (some c) = not (temporary c)

unfoldable pub classify_embedding : Err → Err
unfolding is as_api status_temporary
classify_embedding e =
    if is Sentinel.empty_text e || is Sentinel.dimension_mismatch e
    then permanent_error e
    else if refused status_temporary (as_api e)
    then permanent_error e
    else e

unfoldable pub classify_keyword : Err → Err
unfolding is as_keyword_request status_temporary
classify_keyword e =
    if is Sentinel.invalid_document e || refused status_temporary (as_keyword_request e)
    then permanent_error e
    else e

unfoldable pub classify_vector : Err → Err
unfolding is as_vector_request code_temporary
classify_vector e =
    if is Sentinel.invalid_point e
      || is Sentinel.invalid_vector e
      || refused code_temporary (as_vector_request e)
    then permanent_error e
    else e

abbrev pub by_store : Option Store → Err → Err
by_store none e = e
by_store (some keyword_store) e = classify_keyword e
by_store (some vector_store) e = classify_vector e
by_store (some embedder_store) e = classify_embedding e

unfoldable pub classify_store : Err → Err
unfolding as_store classify_keyword classify_vector classify_embedding
classify_store e = by_store (as_store e) e

-- An error with `Unwrap() []error` is a join; any other stands for itself.
unfoldable mutual
  pub flatten_errors : Err → List Err
  flatten_errors (wraps es) = flatten_all es
  flatten_errors e = e ∷ []

  pub flatten_all : Errs → List Err
  flatten_all nil = []
  flatten_all (cons e es) = flatten_errors e ++ flatten_all es

-- The loop of classifyChange: every failure is permanent for the store that reported it.
unfoldable pub all_permanent : List Err → Bool
unfolding classify_store is_permanent
all_permanent [] = true
all_permanent (e ∷ es) = is_permanent (classify_store e) && all_permanent es

unfoldable pub classify_change : Option Err → Option Err
unfolding is_permanent is flatten_errors all_permanent
classify_change none = none
classify_change (some e) = some (
    if is_permanent e
    then e
    else if is Sentinel.malformed_event e
    then permanent_error e
    else if all_permanent (flatten_errors e)
    then permanent_error e
    else e)

unfoldable pub store_err : Store → Bytes → Option Err → Option Err
store_err s id none = none
store_err s id (some e) = some (store_error s id e)

-- `errors.Join` of two errors.
unfoldable pub join : Option Err → Option Err → Option Err
join none none = none
join (some a) none = some (wraps (cons a nil))
join none (some b) = some (wraps (cons b nil))
join (some a) (some b) = some (wraps (cons a (cons b nil)))
