-- ===== src/Hybrid.antt =====
-- internal/search/hybrid/service.go and types.go: a query to both search indexes, and their fused answer.
-- Keyword search and vector search run side by side in the source. A `Run` holds what their calls
-- answer, the cancellation of the other side included, which of them failed first, and what the
-- caller's context says after both have returned and when the search is recorded. Logging and
-- durations are left out.
pub mod Requests
pub mod Answers
use near_real_time_hybrid_se.Common.{
  ℕ, Bool, true, false, not, ◌||◌, List, [], ◌∷◌, ◌++◌, map, Option, none, some, ltb, length,
  if◌then◌else◌,
}
use near_real_time_hybrid_se.Common.Int.{ℤ, pos, ltb_ℤ, eqb_ℤ}
use near_real_time_hybrid_se.Common.Bytes.{Bytes, codes}
use near_real_time_hybrid_se.Common.Trim.{trim_space, is_empty}
use near_real_time_hybrid_se.Errors.{
  Err, Stage, keyword_stage, embedding_stage, vector_stage, fusion_stage, stage_error,
  validation_error, opaque, wrap, find, is_some,
}
use near_real_time_hybrid_se.OpenSearch.{Document}
use near_real_time_hybrid_se.Cdc.{Value, text_value}
use near_real_time_hybrid_se.Cdc.Mapping.{Result, ok, err}
use near_real_time_hybrid_se.Rrf.{Scores, RankedResult, Fusion, fused, rejected, fuse}
use near_real_time_hybrid_se.Rrf
use near_real_time_hybrid_se.Hybrid.Requests.{SearchConfig, SearchRequest, Valid, Utf8, validate}

unfoldable pub query_embedding_text : Bytes → Bytes
query_embedding_text query = codes "task: search result | query: " ++ query

-- The payload that the fusion keeps: an opensearch.Document, or a map[string]any.
pub data Payload : Type 0 where
  document_payload : Document → Payload
  vector_payload : (Bytes → Option Value) → Payload

pub record KeywordHit : Type 0 where
  pub id : Bytes
  pub document : Document

pub record VectorHit : Type 0 where
  pub id : Bytes
  pub payload : Bytes → Option Value

pub record Run (Vec : Type 0) : Type 0 where
  pub keyword_search : Bytes → ℤ → Result (List KeywordHit)
  pub embed : Bytes → Result (List Vec)
  pub vector_search : List Vec → ℤ → Result (List VectorHit)
  pub keyword_failed_first : Bool
  pub ctx_err : Option Err
  pub ctx_err_later : Option Err

pub record SearchStats : Type 0 where
  pub query_length : ℕ
  pub limit : ℤ
  pub keyword_hits : ℕ
  pub vector_hits : ℕ
  pub results : ℕ
  pub stage : Option Stage
  pub cancelled : Bool
  pub err : Option Err

-- The value of a column if it is a string, and "" if not.
abbrev pub text_or_empty : Option Value → Bytes
text_or_empty (some (text_value s)) = s
text_or_empty _ = []

abbrev pub pick_stage : Err → Option Stage
pick_stage (stage_error s e) = some s
pick_stage _ = none

module _ (f : Scores) where
  pub record Hit : Type 0 where
    pub id : Bytes
    pub title : Bytes
    pub content : Bytes
    pub url : Bytes
    pub score : f.Score

  unfoldable pub to_result : RankedResult f Payload → Hit
  to_result r = elim r.payload [
    | none ↦ record { id = r.id; title = []; content = []; url = []; score = r.score }
    | some (document_payload d) ↦ record {
      id = r.id;
      title = d.title;
      content = d.content;
      url = d.url;
      score = r.score;
    }
    | some (vector_payload m) ↦ record {
      id = r.id;
      title = text_or_empty (m (codes "title"));
      content = [];
      url = text_or_empty (m (codes "url"));
      score = r.score;
    }
  ]

  abbrev pub keyword_list : List KeywordHit → List (Rrf.Result Payload)
  keyword_list = map λ h. record { id = h.id; payload = some (document_payload h.document) }

  abbrev pub vector_list : List VectorHit → List (Rrf.Result Payload)
  vector_list = map λ h. record { id = h.id; payload = some (vector_payload h.payload) }

  -- Service.fuse.
  unfoldable pub fuse_hits : SearchConfig → List KeywordHit → List VectorHit → ℤ → Result (List Hit)
  unfolding to_result
  fuse_hits cfg ks vs limit =
      elim (fuse f (keyword_list ks ∷ vector_list vs ∷ []) cfg.rrf_k limit) [
        | rejected e ↦ err (stage_error fusion_stage e)
        | fused ranked ↦ ok (map to_result ranked)
      ]

module _ {Vec : Type 0} (cfg : SearchConfig) (r : Run Vec) where
  -- Service.searchKeyword.
  unfoldable pub search_keyword : Bytes → Result (List KeywordHit)
  search_keyword query = elim (r.keyword_search query cfg.candidate_limit) [
    | err e ↦ err (stage_error keyword_stage e)
    | ok hits ↦ ok hits
  ]

  -- The error of an empty vector is a new one.
  unfoldable pub search_vector : Bytes → Result (List VectorHit)
  unfolding query_embedding_text
  search_vector query = elim (r.embed (query_embedding_text query)) [
    | err e ↦ err (stage_error embedding_stage e)
    | ok [] ↦ err (stage_error embedding_stage (opaque 2))
    | ok (x ∷ v) ↦ elim (r.vector_search (x ∷ v) cfg.candidate_limit) [
      | err e ↦ err (stage_error vector_stage e)
      | ok hits ↦ ok hits
    ]
  ]

  -- The error of errgroup's Wait: the first one.
  abbrev pub wait : Result (List KeywordHit) → Result (List VectorHit) → Option Err
  wait (ok ks) (ok vs) = none
  wait (ok ks) (err y) = some y
  wait (err x) (ok vs) = some x
  wait (err x) (err y) = some (if r.keyword_failed_first then x else y)

  abbrev pub hits_of : {A : Type 0} → Result (List A) → List A
  hits_of (ok hits) = hits
  hits_of (err e) = []

  module _ (f : Scores) where
    -- The rest of search, after Wait: what `ctx.Err()` says then, and what both sides returned. The
    -- answer comes with the numbers of hits that the statistics hold.
    unfoldable pub after_wait :
        ℤ
        → Option Err
        → Result (List KeywordHit)
        → Result (List VectorHit)
        → Result (List (Hit f)) × (ℕ × ℕ)
    unfolding fuse_hits
    after_wait limit (some x) ks vs = (err (wrap x), (0, 0))
    after_wait limit none ks vs = elim (wait ks vs) [
      | some e ↦ (err e, (0, 0))
      | none ↦ (
        fuse_hits f cfg (hits_of ks) (hits_of vs) limit,
        (length (hits_of ks), length (hits_of vs)),
      )
    ]

    -- Service.search.
    unfoldable pub search_both : Bytes → ℤ → Result (List (Hit f)) × (ℕ × ℕ)
    unfolding search_keyword search_vector after_wait
    search_both query limit =
        after_wait limit r.ctx_err (search_keyword query) (search_vector query)

    -- What record reports to the observer; `stage` is none where the source leaves it empty or has
    -- "unknown".
    unfoldable pub record_stats : Utf8 → Valid → Result (List (Hit f)) × (ℕ × ℕ) → SearchStats
    unfolding find
    record_stats u v out =
        let stats : Option Stage → Bool → Option Err → ℕ → SearchStats = λ stage cancelled e n.
          record {
            query_length = u.rune_count v.query;
            limit = v.limit;
            keyword_hits = out.1.0;
            vector_hits = out.1.1;
            results = n;
            stage = stage;
            cancelled = cancelled;
            err = e;
          } in
        elim out.0 [
          | ok hits ↦ stats none false none (length hits)
          | err e ↦ elim r.ctx_err_later [
            | some x ↦ stats none true (some e) 0
            | none ↦ stats (find pick_stage e) false (some e) 0
          ]
        ]

    -- Service.Search, with what it reports to the observer.
    unfoldable pub search : Utf8 → SearchRequest → Result (List (Hit f)) × List SearchStats
    unfolding validate search_both record_stats
    search u req = elim (validate u cfg req) [
      | err e ↦ (err e, [])
      | ok v ↦ let out = search_both v.query v.limit in (out.0, record_stats u v out ∷ [])
    ]
