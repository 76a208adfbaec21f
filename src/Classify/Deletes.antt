-- ===== src/Classify/Deletes.antt =====
-- How a delete that failed is classified: Service.delete joins the failures of both stores.
use near_real_time_hybrid_se.Common.{ℕ, ◌≡◌, Bool, false, not, ◌&&◌, Option, none, some, arith}
use near_real_time_hybrid_se.Common.Bytes.{Bytes}
use near_real_time_hybrid_se.Errors.{
  Err, Sentinel, Code, keyword_request, vector_request, wrap, keyword_store, vector_store, is,
  is_permanent, status_temporary, code_temporary,
}
use near_real_time_hybrid_se.Classify.{classify_change, store_err, join}

-- What a store's client reports, with the cause `x` from its SDK; the cause is no error of ours.
pub record IsForeign (x : Err) : Type 0 where
  pub not_permanent : is_permanent x ≡ false
  pub not_malformed : is Sentinel.malformed_event x ≡ false
  pub not_invalid_document : is Sentinel.invalid_document x ≡ false
  pub not_invalid_point : is Sentinel.invalid_point x ≡ false
  pub not_invalid_vector : is Sentinel.invalid_vector x ≡ false

abbrev pub marked : Option Err → Bool
unfolding is_permanent
marked none = false
marked (some e) = is_permanent e

-- The error of a delete that OpenSearch answered with status `c` and Qdrant with code `d`.
abbrev pub both_failed : Bytes → ℕ → Err → Code → Err → Option Err
both_failed id c x d y =
    join (store_err keyword_store id (some (wrap (keyword_request c x))))
      (store_err vector_store id (some (wrap (vector_request d y))))

-- classifyChange marks a delete that both stores failed as permanent exactly if neither failure is
-- temporary: if OpenSearch's status and Qdrant's code both say that a retry cannot help.
pub both_failed-is_permanent :
    (id : Bytes) (c : ℕ) (x : Err) (d : Code) (y : Err)
    → IsForeign x
    → IsForeign y
    → marked (classify_change (both_failed id c x d y))
      ≡ (not (status_temporary c) && not (code_temporary d))
unfolding classify_change store_err join
both_failed-is_permanent id c x d y f g = ground arith
