-- ===== src/Classify/Stores.antt =====
-- How the failure of an upsert is classified, by the system that reported it.
use near_real_time_hybrid_se.Common.{ℕ, ◌≡◌, Bool, true, ◌||◌, some, arith, if◌then◌else◌}
use near_real_time_hybrid_se.Common.Bytes.{Bytes}
use near_real_time_hybrid_se.Errors.{
  Err, Sentinel, Code, Store, is, keyword_request, vector_request, api_error, wrap, keyword_store,
  vector_store, embedder_store, status_temporary, code_temporary,
}
use near_real_time_hybrid_se.Retry.{Kind, retryable, non_retryable}
use near_real_time_hybrid_se.Classify.{classify_error, classify_change, store_err}
use near_real_time_hybrid_se.Classify.Deletes.{IsForeign}

-- Retried if the answer is temporary, and dead-lettered at once if it is not.
abbrev pub kind_of : Bool → Kind
kind_of temporary = if temporary then retryable else non_retryable

-- A request that a store refused or that failed is retried exactly if its status is temporary: the
-- HTTP status of OpenSearch, the gRPC code of Qdrant, the HTTP status of the embedding provider.
upsert_kind :
    (id : Bytes) (c : ℕ) (d : Code) (x : Err)
    → IsForeign x
    → (classify_error
          (classify_change (store_err keyword_store id (some (wrap (keyword_request c x)))))
        ≡ kind_of (status_temporary c))
      × (classify_error
            (classify_change (store_err vector_store id (some (wrap (vector_request d x)))))
          ≡ kind_of (code_temporary d))
      × (classify_error (classify_change (store_err embedder_store id (some (api_error c))))
          ≡ kind_of (status_temporary c))
unfolding classify_error classify_change store_err
upsert_kind id c d x f = (ground arith, ground arith, ground arith)

-- What a store's own code rejects without a request: an invalid document, an invalid point or
-- vector, a text that cannot be embedded or a vector of the wrong length.
abbrev pub rejects : Store → Err → Bool
rejects keyword_store e = is Sentinel.invalid_document e
rejects vector_store e = is Sentinel.invalid_point e || is Sentinel.invalid_vector e
rejects embedder_store e = is Sentinel.empty_text e || is Sentinel.dimension_mismatch e

-- A rejection by a store's own code is never retried, however it is wrapped, and neither is a failure
-- that is due to a malformed event.
rejected_kind :
    (s : Store) (id : Bytes) (e : Err)
    → (is Sentinel.malformed_event e || rejects s e) ≡ true
    → classify_error (classify_change (store_err s id (some e))) ≡ non_retryable
unfolding classify_error classify_change store_err
rejected_kind keyword_store id e h = ground arith
rejected_kind vector_store id e h = ground arith
rejected_kind embedder_store id e h = ground arith
