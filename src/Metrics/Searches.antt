-- ===== src/Metrics/Searches.antt =====
-- The counters of searches against what the search service answered (internal/metrics/search.go,
-- internal/search/hybrid/service.go).
use near_real_time_hybrid_se.Common.{
  ℕ, ◌≡◌, ◌≤◌, ◌+◌, refl, Bool, true, false, ◌&&◌, if◌then◌else◌, List, [], ◌∷◌, ◌++◌, Option, none,
  some, arith,
}
use near_real_time_hybrid_se.Common.Int.{pos, ltb_ℤ}
use near_real_time_hybrid_se.Errors.{
  Err, Stage, keyword_stage, embedding_stage, vector_stage, fusion_stage,
}
use near_real_time_hybrid_se.Cdc.Mapping.{Result, ok, err}
use near_real_time_hybrid_se.Rrf.{Scores}
use near_real_time_hybrid_se.Hybrid.Requests.{SearchConfig, SearchRequest, Valid, Utf8, validate}
use near_real_time_hybrid_se.Hybrid.{Hit, Run, SearchStats, search, search_both, record_stats}
use near_real_time_hybrid_se.Metrics.{
  Series, search_requests, search_errors, dependency_errors, success, cancelled_search, count,
  StageTimes, record_search, record_search_stage, record_search_outcome, search_status, same_stage,
  record_dependency, stage_name, opensearch, qdrant,
}
use near_real_time_hybrid_se.Common.Bytes.{bytes_eq}

abbrev pub is_request : Series → Bool
is_request (search_requests s) = true
is_request _ = false

abbrev pub is_success : Series → Bool
is_success (search_requests success) = true
is_success _ = false

abbrev pub is_cancelled : Series → Bool
is_cancelled (search_requests cancelled_search) = true
is_cancelled _ = false

abbrev pub is_search_error : Series → Bool
is_search_error (search_errors s) = true
is_search_error _ = false

abbrev pub is_dependency_error : Series → Bool
is_dependency_error (dependency_errors d op) = true
is_dependency_error _ = false

-- An error counted for the keyword index or for the vector index.
abbrev pub is_index_error : Series → Bool
is_index_error (dependency_errors opensearch op) = true
is_index_error (dependency_errors qdrant op) = true
is_index_error _ = false

-- The updates for the statistics that a search reports.
unfoldable pub observed_search : StageTimes → List SearchStats → List Series
unfolding record_search
observed_search t [] = []
observed_search t (st ∷ sts) = record_search t st ++ observed_search t sts

-- One success without an error.
abbrev pub IsSuccess : List Series → Type 0
IsSuccess us =
    (count is_request us ≡ 1)
    × (count is_success us ≡ 1)
    × (count is_search_error us ≡ 0)
    × (count is_dependency_error us ≡ 0)

-- A cancellation, a failure with one search error, or a request that is not counted; a dependency's
-- error only comes with a search error, and is the embedder's.
abbrev pub IsFailure : List Series → Type 0
IsFailure us =
    (count is_success us ≡ 0)
    × (count is_request us ≡ count is_cancelled us + count is_search_error us)
    × (count is_request us ≤ 1)
    × (count is_dependency_error us ≤ count is_search_error us)
    × (count is_index_error us ≡ 0)

abbrev pub IsCounted : {A : Type 0} → Result A → List Series → Type 0
IsCounted (ok hits) us = IsSuccess us
IsCounted (err e) us = IsFailure us

answered-IsSuccess :
    (t : StageTimes) (st : SearchStats)
    → st.err ≡ none
    → st.stage ≡ none
    → IsSuccess (observed_search t (st ∷ []))
unfolding observed_search count search_status record_search_stage record_dependency same_stage
    stage_name bytes_eq record_search_outcome
answered-IsSuccess t st h q = ground (arith, h, q)

cancelled-IsFailure :
    (t : StageTimes) (st : SearchStats) (x : Err)
    → st.err ≡ some x
    → st.stage ≡ none
    → st.cancelled ≡ true
    → IsFailure (observed_search t (st ∷ []))
unfolding observed_search count search_status record_search_stage record_dependency same_stage
    stage_name bytes_eq record_search_outcome
cancelled-IsFailure t st x h q c = ground (arith, h, q, c)

failed-IsFailure :
    (t : StageTimes) (st : SearchStats) (x : Err) (stage : Option Stage)
    → st.err ≡ some x
    → st.stage ≡ stage
    → st.cancelled ≡ false
    → IsFailure (observed_search t (st ∷ []))
unfolding observed_search count search_status record_search_stage record_dependency same_stage
    stage_name bytes_eq record_search_outcome
failed-IsFailure t st x none h q c = ground (arith, h, q, c)
failed-IsFailure t st x (some keyword_stage) h q c = ground (arith, h, q, c)
failed-IsFailure t st x (some embedding_stage) h q c = ground (arith, h, q, c)
failed-IsFailure t st x (some vector_stage) h q c = ground (arith, h, q, c)
failed-IsFailure t st x (some fusion_stage) h q c = ground (arith, h, q, c)

nothing-IsFailure : (t : StageTimes) → IsFailure (observed_search t [])
unfolding observed_search count
nothing-IsFailure t = (refl, refl, omega arith, omega arith, refl)

-- The reference: how many searches are reported with the embedding as the stage that failed, with a call
-- of the embedder that took time.
abbrev pub is_embedding : Option Stage → Bool
is_embedding (some embedding_stage) = true
is_embedding _ = false

abbrev pub embedder_failures : StageTimes → List SearchStats → ℕ
embedder_failures t [] = 0
embedder_failures t (st ∷ sts) =
    (if is_embedding st.stage && ltb_ℤ (pos 0) t.embedding then 1 else 0) + embedder_failures t sts

count-append :
    (p : Series → Bool) (us vs : List Series) → count p (us ++ vs) ≡ count p us + count p vs
unfolding count
count-append p [] vs = omega arith
count-append p (u ∷ us) vs = omega (arith, count-append p us vs)

recorded_failures :
    (t : StageTimes) (st : SearchStats) (stage : Option Stage)
    → st.stage ≡ stage
    → count is_dependency_error (record_search t st)
      ≡ (if is_embedding stage && ltb_ℤ (pos 0) t.embedding then 1 else 0)
unfolding record_search count search_status record_search_stage record_dependency same_stage
    stage_name bytes_eq record_search_outcome
recorded_failures t st none q = ground (arith, q)
recorded_failures t st (some keyword_stage) q = ground (arith, q)
recorded_failures t st (some embedding_stage) q = ground (arith, q)
recorded_failures t st (some vector_stage) q = ground (arith, q)
recorded_failures t st (some fusion_stage) q = ground (arith, q)

counted_failures :
    (t : StageTimes) (sts : List SearchStats)
    → count is_dependency_error (observed_search t sts) ≡ embedder_failures t sts
unfolding observed_search count
counted_failures t [] = refl
counted_failures t (st ∷ sts) = omega (
  arith,
  count-append is_dependency_error (record_search t st) (observed_search t sts),
  recorded_failures t st st.stage refl,
  counted_failures t sts,
)

module _ {Vec : Type 0} (cfg : SearchConfig) (r : Run Vec) (f : Scores) where
  stats-IsCounted :
      (t : StageTimes) (u : Utf8) (v : Valid) (answer : Result (List (Hit f))) (n : ℕ × ℕ)
      (later : Option Err)
      → r.ctx_err_later ≡ later
      → IsCounted answer (observed_search t (record_stats cfg r f u v (answer, n) ∷ []))
  unfolding record_stats
  stats-IsCounted t u v (ok hits) n later h = answered-IsSuccess t _ refl refl
  stats-IsCounted t u v (err e) n (some x) h = rw h (cancelled-IsFailure t _ e refl refl refl)
  stats-IsCounted t u v (err e) n none h = rw h (failed-IsFailure t _ e _ refl refl refl)

  answers-IsCounted :
      (t : StageTimes) (u : Utf8) (req : SearchRequest)
      → IsCounted (search cfg r f u req).0 (observed_search t (search cfg r f u req).1)
  unfolding search
  answers-IsCounted t u req =
      elim (validate u cfg req)
        as (λ (w : Result Valid).
          let out : Result (List (Hit f)) × List SearchStats = elim w [
            | err e ↦ (err e, [])
            | ok v ↦
                let o = search_both cfg r f v.query v.limit in
                (o.0, record_stats cfg r f u v o ∷ [])
          ] in
          IsCounted out.0 (observed_search t out.1)) [
            | err e ↦ nothing-IsFailure t
            | ok v ↦
                stats-IsCounted t u v (search_both cfg r f v.query v.limit).0
                  (search_both cfg r f v.query v.limit).1 r.ctx_err_later refl
          ]

  -- The counters agree with what Search returns, for any request and any times: an answer counts
  -- as one success and as no error; an error is counted at most once, as a cancellation or with
  -- one search error, never as a success. A dependency's error is counted, with the search error,
  -- exactly when Search reports the embedding as the stage that failed and its call took time:
  -- never for the keyword index or the vector index, whatever failed, since the metrics compare
  -- the reported stage with "keyword" and "vector", where the service reports "keyword_search"
  -- and "vector_search".
  pub search-IsCounted :
      (t : StageTimes) (u : Utf8) (req : SearchRequest)
      → let (answer, stats) = search cfg r f u req in
        IsCounted answer (observed_search t stats)
        × (count is_dependency_error (observed_search t stats) ≡ embedder_failures t stats)
  search-IsCounted t u req =
      (answers-IsCounted t u req, counted_failures t (search cfg r f u req).1)
