-- ===== src/OpenSearch/Search.antt =====
-- internal/search/opensearch/search.go: Client.Search. The SDK's Search, encoding/json and float32 are
-- parameters.
use near_real_time_hybrid_se.Common.{◌||◌, List, [], ◌∷◌, Option, none, some, if◌then◌else◌}
use near_real_time_hybrid_se.Common.Int.{ℤ, pos, ltb_ℤ}
use near_real_time_hybrid_se.Common.Bytes.{Bytes, codes}
use near_real_time_hybrid_se.Common.Trim.{trim_space, is_empty}
use near_real_time_hybrid_se.Errors.{Err, Sentinel, sentinel, wrap, keyword_request}
use near_real_time_hybrid_se.Cdc.Mapping.{Result, ok, err}
use near_real_time_hybrid_se.OpenSearch.{Document, Reply, answer, failure}

-- searchRequest, with the fields of its multi_match query.
pub record SearchRequest : Type 0 where
  pub size : ℤ
  pub query : Bytes
  pub fields : List Bytes
  pub kind : Bytes

-- opensearchapi.SearchHit.
pub record SearchHit (F : Type 0) : Type 0 where
  pub id : Bytes
  pub score : F
  pub source : Bytes

pub record SearchResult (F : Type 0) : Type 0 where
  pub id : Bytes
  pub score : F
  pub document : Document

-- The error of json.Marshal, the SDK's Search on the client's index, and json.Unmarshal.
pub record SearchApi (F : Type 0) : Type 0 where
  pub encode : SearchRequest → Option Err
  pub search : SearchRequest → Reply (List (SearchHit F))
  pub decode : Bytes → Result Document

abbrev pub max_search_limit : ℤ
max_search_limit = pos 100

abbrev pub new_search_request : Bytes → ℤ → SearchRequest
new_search_request query limit = record {
  size = limit;
  query = query;
  fields = codes "title^2" ∷ codes "content" ∷ [];
  kind = codes "best_fields";
}

module _ {F : Type 0} (api : SearchApi F) where
  unfoldable pub result_of : SearchHit F → Document → SearchResult F
  unfolding is_empty
  result_of hit doc = record {
    id = hit.id;
    score = hit.score;
    document = if is_empty doc.id then record doc { id = hit.id } else doc;
  }

  unfoldable pub to_results : List (SearchHit F) → Result (List (SearchResult F))
  unfolding result_of
  to_results [] = ok []
  to_results (hit ∷ hits) = elim (api.decode hit.source) [
    | err e ↦ err (wrap e)
    | ok doc ↦ elim (to_results hits) [ err e ↦ err e | ok rs ↦ ok (result_of hit doc ∷ rs) ]
  ]

  -- Client.Search after its checks.
  unfoldable pub send : Bytes → ℤ → Result (List (SearchResult F))
  unfolding to_results
  send query limit = elim (api.encode (new_search_request query limit)) [
    | some e ↦ err (wrap e)
    | none ↦ elim (api.search (new_search_request query limit)) [
      | failure code e ↦ err (wrap (keyword_request code e))
      | answer hits ↦ to_results hits
    ]
  ]

  unfoldable pub search : Bytes → ℤ → Result (List (SearchResult F))
  unfolding send trim_space is_empty
  search text limit =
      let query = trim_space text in
      if is_empty query
      then err (sentinel Sentinel.empty_query)
      else if ltb_ℤ limit (pos 1) || ltb_ℤ max_search_limit limit
      then err (wrap (sentinel Sentinel.invalid_search_limit))
      else send query limit
