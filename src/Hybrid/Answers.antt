-- ===== src/Hybrid/Answers.antt =====
-- Which requests are searched, and what an answer of Service.Search rests on.
use near_real_time_hybrid_se.Common.{
  ℕ, ◌≡◌, ◌≤◌, refl, sym, subst, ◌∙◌, true, false, List, [], ◌∷◌, map, Option, none, some, arith,
  All, length, length-take, length-map,
}
use near_real_time_hybrid_se.Common.Int.{ℤ, pos, ◌≤ℤ◌, pos_part}
use near_real_time_hybrid_se.Common.Trim.{trim_space, is_empty}
use near_real_time_hybrid_se.Errors.{Err, is, find, Sentinel}
use near_real_time_hybrid_se.Cdc.Mapping.{Result, ok, err}
use near_real_time_hybrid_se.Rrf.{
  Scores, Fusion, fused, rejected, fuse, results, RankedResult, gather, ranked, sort, score,
}
use near_real_time_hybrid_se.Rrf.Ranks.{first_ranks}
use near_real_time_hybrid_se.Rrf.Best.{Scored, results-Scored}
use near_real_time_hybrid_se.Rrf
use near_real_time_hybrid_se.Hybrid.Requests.{
  SearchConfig, SearchRequest, Valid, Utf8, validate_config, validate, max_query_length,
}
use near_real_time_hybrid_se.Hybrid.{
  Run, Hit, Payload, document_payload, vector_payload, KeywordHit, VectorHit, fuse_hits,
  search_keyword, search_vector, search_both, after_wait, search, to_result, keyword_list,
  vector_list,
}

-- What validate may return.
abbrev pub Checks : Utf8 → SearchConfig → Result Valid → Type 0
unfolding trim_space is_empty is
Checks u cfg (ok v) =
    (is_empty v.query ≡ false)
    × (u.rune_count v.query ≤ max_query_length)
    × (pos 1 ≤ℤ v.limit)
    × (v.limit ≤ℤ cfg.max_limit)
Checks u cfg (err e) = is Sentinel.invalid_request e ≡ true

-- Under a configuration that New accepts: a request that passes has a query with text and of at most 1024
-- characters, and its limit lies between 1 and the configured maximum; any other request is an
-- ErrInvalidRequest.
pub validate-Checks :
    (u : Utf8) (cfg : SearchConfig) (req : SearchRequest)
    → validate_config cfg ≡ none
    → Checks u cfg (validate u cfg req)
unfolding Checks validate validate_config is find is_empty
validate-Checks u cfg req h = ground (arith, h)

results_bound :
    (f : Scores) {P : Type 0} (sets : List (List (Rrf.Result P))) (k limit : ℕ)
    → length (results f sets k limit) ≤ limit
unfolding results
results_bound f sets k limit =
    ground (arith, length-take limit (sort f (map (ranked f k) (gather sets []))))

-- The results of both lists.
abbrev fused_hits :
    (f : Scores) → SearchConfig → List KeywordHit → List VectorHit → ℤ → List (Hit f)
fused_hits f cfg ks vs limit =
    map (to_result f)
      (results f (keyword_list f ks ∷ vector_list f vs ∷ []) (pos_part cfg.rrf_k) (pos_part limit))

fuse_hits_answers :
    (f : Scores) (cfg : SearchConfig) (ks : List KeywordHit) (vs : List VectorHit) (limit : ℤ)
    → pos 1 ≤ℤ cfg.rrf_k
    → pos 1 ≤ℤ limit
    → (hits : List (Hit f)) × (fuse_hits f cfg ks vs limit ≡ ok hits)
      × (hits ≡ fused_hits f cfg ks vs limit)
unfolding fuse_hits fuse
fuse_hits_answers f cfg ks vs limit k l = (fused_hits f cfg ks vs limit, ground (arith, k, l), refl)

result-Ranked :
    (f : Scores) (r : RankedResult f Payload)
    → ((to_result f r).id ≡ r.id) × ((to_result f r).score ≡ r.score)
unfolding to_result
result-Ranked f r =
    elim r.payload
      as (λ (p : Option Payload).
        ((to_result f (record r { payload = p })).id ≡ r.id)
        × ((to_result f (record r { payload = p })).score ≡ r.score)) [
          | none ↦ (refl, refl)
          | some (document_payload d) ↦ (refl, refl)
          | some (vector_payload m) ↦ (refl, refl)
        ]

-- The score of a hit is that of its first positions in the two lists.
abbrev pub FromBoth :
    (f : Scores) → SearchConfig → List KeywordHit → List VectorHit → Hit f → Type 0
FromBoth f cfg ks vs h =
    (is_empty h.id ≡ false)
    × (h.score
        ≡ score f (first_ranks h.id (keyword_list f ks ∷ vector_list f vs ∷ []))
            (pos_part cfg.rrf_k))

hits-FromBoth :
    (f : Scores) (cfg : SearchConfig) (ks : List KeywordHit) (vs : List VectorHit)
    (rs : List (RankedResult f Payload))
    → All (Scored f (keyword_list f ks ∷ vector_list f vs ∷ []) (pos_part cfg.rrf_k)) rs
    → All (FromBoth f cfg ks vs) (map (to_result f) rs)
hits-FromBoth f cfg ks vs [] a = tt
hits-FromBoth f cfg ks vs (r ∷ rs) a =
    let (i, e) = result-Ranked f r in
    ((rw i a.0.0, e ∙ rw i a.0.1), hits-FromBoth f cfg ks vs rs a.1)

-- What the two sides and the context were when an answer was given, and how its hits come from the lists
-- of both.
pub record IsWhole (f : Scores) (cfg : SearchConfig) (limit : ℤ) (c : Option Err)
    (ks : Result (List KeywordHit)) (vs : Result (List VectorHit)) (hits : List (Hit f))
    : Type 0 where
  pub open_context : c ≡ none
  pub keyword_hits : List KeywordHit
  pub vector_hits : List VectorHit
  pub keyword_side : ks ≡ ok keyword_hits
  pub vector_side : vs ≡ ok vector_hits
  pub fusion : hits ≡ fused_hits f cfg keyword_hits vector_hits limit
  pub from_both : All (FromBoth f cfg keyword_hits vector_hits) hits
  pub few : length hits ≤ pos_part limit

fused-IsWhole :
    (f : Scores) (cfg : SearchConfig) (limit : ℤ) (ks : List KeywordHit) (vs : List VectorHit)
    (hits : List (Hit f))
    → hits ≡ fused_hits f cfg ks vs limit
    → IsWhole f cfg limit none (ok ks) (ok vs) hits
fused-IsWhole f cfg limit ks vs hits e =
    let sets = keyword_list f ks ∷ vector_list f vs ∷ [] in
    let rs = results f sets (pos_part cfg.rrf_k) (pos_part limit) in
    record {
      open_context = refl;
      keyword_hits = ks;
      vector_hits = vs;
      keyword_side = refl;
      vector_side = refl;
      fusion = e;
      from_both = rw e (
          hits-FromBoth f cfg ks vs rs
            (results-Scored f sets (pos_part cfg.rrf_k) (pos_part limit)));
      few = rw e (
          omega (
            arith,
            length-map (to_result f) rs,
            results_bound f sets (pos_part cfg.rrf_k) (pos_part limit),
          ));
    }

module _ {Vec : Type 0} (cfg : SearchConfig) (r : Run Vec) (f : Scores) where
  after_wait-IsWhole :
      (limit : ℤ) (c : Option Err) (ks : Result (List KeywordHit)) (vs : Result (List VectorHit))
      (hits : List (Hit f))
      → pos 1 ≤ℤ cfg.rrf_k
      → pos 1 ≤ℤ limit
      → (after_wait cfg r f limit c ks vs).0 ≡ ok hits
      → IsWhole f cfg limit c ks vs hits
  unfolding after_wait
  after_wait-IsWhole limit (some x) ks vs hits k l h = cc
  after_wait-IsWhole limit none (err x) (err y) hits k l h = cc
  after_wait-IsWhole limit none (err x) (ok vs) hits k l h = cc
  after_wait-IsWhole limit none (ok ks) (err y) hits k l h = cc
  after_wait-IsWhole limit none (ok ks) (ok vs) hits k l h =
      let (xs, e, q) = fuse_hits_answers f cfg ks vs limit k l in
      fused-IsWhole f cfg limit ks vs hits (ground (arith, q, sym e ∙ h))

  after_wait_answers :
      (limit : ℤ) {ks : List KeywordHit} {vs : List VectorHit} {c : Option Err}
      {x : Result (List KeywordHit)} {y : Result (List VectorHit)}
      → pos 1 ≤ℤ cfg.rrf_k
      → pos 1 ≤ℤ limit
      → c ≡ none
      → x ≡ ok ks
      → y ≡ ok vs
      → (hits : List (Hit f)) × ((after_wait cfg r f limit c x y).0 ≡ ok hits)
  unfolding after_wait
  after_wait_answers limit {ks} {vs} {c} {x} {y} k l q a b =
      let (xs, e, n) = fuse_hits_answers f cfg ks vs limit k l in (xs, ground (arith, e, q, a, b))

  pub search_valid :
      (u : Utf8) (req : SearchRequest) {v : Valid}
      → validate u cfg req ≡ ok v
      → (search cfg r f u req).0
        ≡ (after_wait cfg r f v.limit r.ctx_err
            (search_keyword cfg r v.query)
            (search_vector cfg r v.query)).0
  unfolding search search_both
  search_valid u req e = ground (arith, e)

  positive_k : validate_config cfg ≡ none → pos 1 ≤ℤ cfg.rrf_k
  unfolding validate_config
  positive_k h = ground (arith, h)

  positive_limit :
      (u : Utf8) (req : SearchRequest) {v : Valid}
      → validate_config cfg ≡ none
      → validate u cfg req ≡ ok v
      → pos 1 ≤ℤ v.limit
  unfolding Checks
  positive_limit u req h e = (subst (Checks u cfg) e (validate-Checks u cfg req h)).2

  -- Under a configuration that New accepts: Search answers only if both retrievers did and the
  -- caller's context was still open, with at most as many results as were asked for. The hits are
  -- the results of the fusion of both lists, never of one side alone: each has an ID, and its
  -- score is that of the ID's first positions in the keyword list and in the vector list.
  pub search-IsWhole :
      (u : Utf8) (req : SearchRequest) (v : Valid) (hits : List (Hit f))
      → validate_config cfg ≡ none
      → validate u cfg req ≡ ok v
      → (search cfg r f u req).0 ≡ ok hits
      → IsWhole f cfg v.limit r.ctx_err
          (search_keyword cfg r v.query)
          (search_vector cfg r v.query)
          hits
  search-IsWhole u req v hits h e q =
      after_wait-IsWhole v.limit r.ctx_err (search_keyword cfg r v.query)
        (search_vector cfg r v.query) hits (positive_k h) (positive_limit u req h e)
        (sym (search_valid u req e) ∙ q)

  -- Under such a configuration: if both retrievers answer a request that passes and the context is open,
  -- Search answers; the fusion does not fail.
  pub search_answers :
      (u : Utf8) (req : SearchRequest) (v : Valid) (ks : List KeywordHit) (vs : List VectorHit)
      → validate_config cfg ≡ none
      → validate u cfg req ≡ ok v
      → r.ctx_err ≡ none
      → search_keyword cfg r v.query ≡ ok ks
      → search_vector cfg r v.query ≡ ok vs
      → (hits : List (Hit f)) × ((search cfg r f u req).0 ≡ ok hits)
  search_answers u req v ks vs h e c a b =
      let (hits, q) = after_wait_answers v.limit (positive_k h) (positive_limit u req h e) c a b in
      (hits, search_valid u req e ∙ q)
