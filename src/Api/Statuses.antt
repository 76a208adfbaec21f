-- ===== src/Api/Statuses.antt =====
-- Which searches are answered as bad requests: internal/api together with internal/search/hybrid.
use near_real_time_hybrid_se.Common.{
  ℕ, ◌≡◌, ◌≢◌, ◌↔◌, ◌⊎◌, inl, inr, refl, sym, subst, ap, ◌∙◌, arith, Bool, true, List, [], ◌∷◌, map,
  Option, none, some, if◌then◌else◌,
}
use near_real_time_hybrid_se.Common.Int.{ℤ, pos, ltb_ℤ}
use near_real_time_hybrid_se.Common.Bytes.{Bytes, codes}
use near_real_time_hybrid_se.Common.Trim.{trim_space}
use near_real_time_hybrid_se.Errors.{
  Err, find, is_some, validation_error, opaque, stage_error, Stage, keyword_stage, embedding_stage,
  vector_stage, fusion_stage,
}
use near_real_time_hybrid_se.Cdc.Mapping.{Result, ok, err}
use near_real_time_hybrid_se.Rrf.{Scores, fuse, rejected, fused, Fusion}
use near_real_time_hybrid_se.Hybrid.{
  Run, Hit, KeywordHit, VectorHit, fuse_hits, search_keyword, search_vector, after_wait, search,
  query_embedding_text, to_result, Payload,
}
use near_real_time_hybrid_se.Hybrid.Requests.{SearchConfig, SearchRequest, Valid, Utf8, validate}
use near_real_time_hybrid_se.Api.{Request}
use near_real_time_hybrid_se.Api.Response.{
  Marshal, ErrorCode, Message, reason, text, invalid_request, request_cancelled, timeout, internal,
  error_body, search_body, new_search_response, write_json, write_error,
}
use near_real_time_hybrid_se.Api.Search.{
  Http, Contexts, answered, Parsed, RequestError, refused, parsed, parse_search_request,
  finish_search, search_handler, search_parsed, write_search_error, search_error_answer,
  pick_validation,
}
use near_real_time_hybrid_se.Api.Answers.{statuses, if_both}
use near_real_time_hybrid_se.Hybrid.Answers.{search_valid}

-- No ValidationError is in the tree of an error.
unfoldable pub IsClean : {A : Type 0} → Result A → Type 0
unfolding find
IsClean (ok a) = Unit
IsClean (err e) = find pick_validation e ≡ none

-- The errors of both stores, of the embedder and of the context are not ValidationErrors.
pub record IsForeignRun {Vec : Type 0} (r : Run Vec) : Type 0 where
  pub keyword : (q : Bytes) (n : ℤ) → IsClean (r.keyword_search q n)
  pub embedding : (t : Bytes) → IsClean (r.embed t)
  pub vector : (v : List Vec) (n : ℤ) → IsClean (r.vector_search v n)
  pub context : (e : Err) → r.ctx_err ≡ some e → find pick_validation e ≡ none

-- The error of a stage wraps the one below it.
staged-IsClean :
    {A B : Type 0} (t : Stage) (x : Result A) (next : A → Result B)
    → IsClean x
    → ((a : A) → IsClean (next a))
    → IsClean (elim x [ err e ↦ err (stage_error t e) | ok a ↦ next a ])
unfolding find IsClean
staged-IsClean t (ok a) next h n = n a
staged-IsClean t (err e) next h n = h

module _ {Vec : Type 0} (cfg : SearchConfig) (r : Run Vec) (c : IsForeignRun r) where
  keyword-IsClean : (q : Bytes) → IsClean (search_keyword cfg r q)
  unfolding search_keyword IsClean
  keyword-IsClean q =
      staged-IsClean keyword_stage (r.keyword_search q cfg.candidate_limit) ok
        (c.keyword q cfg.candidate_limit) (λ a. tt)

  vector-IsClean : (q : Bytes) → IsClean (search_vector cfg r q)
  unfolding search_vector IsClean
  vector-IsClean q =
      of_embedding (r.embed (query_embedding_text q)) (c.embedding (query_embedding_text q))
    where
      of_embedding :
          (x : Result (List Vec))
          → IsClean x
          → IsClean (elim x [
            | err e ↦ err (stage_error embedding_stage e)
            | ok [] ↦ err (stage_error embedding_stage (opaque 2))
            | ok (a ∷ v) ↦ elim (r.vector_search (a ∷ v) cfg.candidate_limit) [
              | err e ↦ err (stage_error vector_stage e)
              | ok hits ↦ ok hits
            ]
          ])
      of_embedding (err e) h = h
      of_embedding (ok []) h = refl
      of_embedding (ok (a ∷ v)) h =
          staged-IsClean vector_stage (r.vector_search (a ∷ v) cfg.candidate_limit) ok
            (c.vector (a ∷ v) cfg.candidate_limit) (λ a. tt)

  module _ (f : Scores) where
    fuse-IsClean :
        (ks : List KeywordHit) (vs : List VectorHit) (limit : ℤ)
        → IsClean (fuse_hits f cfg ks vs limit)
    unfolding fuse_hits fuse IsClean
    fuse-IsClean ks vs limit =
        let P : Fusion f Payload → Type 0 = λ x. IsClean (elim x [
          | rejected e ↦ err (stage_error fusion_stage e)
          | fused ranked ↦ ok (map (to_result f) ranked)
        ]) in
        if_both P (ltb_ℤ cfg.rrf_k (pos 1)) refl (if_both P (ltb_ℤ limit (pos 1)) refl tt)

    wait-IsClean :
        (limit : ℤ) (x : Option Err) (ks : Result (List KeywordHit)) (vs : Result (List VectorHit))
        → ((e : Err) → x ≡ some e → find pick_validation e ≡ none)
        → IsClean ks
        → IsClean vs
        → IsClean (after_wait cfg r f limit x ks vs).0
    unfolding after_wait IsClean
    wait-IsClean limit (some x) ks vs n k v = n x refl
    wait-IsClean limit none (ok ks) (ok vs) n k v = fuse-IsClean ks vs limit
    wait-IsClean limit none (ok ks) (err y) n k v = v
    wait-IsClean limit none (err x) (ok vs) n k v = k
    wait-IsClean limit none (err x) (err y) n k v =
        if_both (λ e. find pick_validation e ≡ none) r.keyword_failed_first k v

    search-IsClean :
        (u : Utf8) (req : SearchRequest) {v : Valid}
        → validate u cfg req ≡ ok v
        → IsClean (search cfg r f u req).0
    search-IsClean u req {v} e = subst IsClean (sym (search_valid cfg r f u req e)) (
        wait-IsClean v.limit r.ctx_err (search_keyword cfg r v.query) (search_vector cfg r v.query)
          c.context (keyword-IsClean v.query) (vector-IsClean v.query))

-- What the handler of a search answers.
module _ (f : Scores) (m : Marshal f) where
  -- json.Marshal works on the body of an error, which holds two strings.
  abbrev pub Encodes : Type 0
  Encodes = (code : ErrorCode) (message : Message) → is_some (m (error_body code message)) ≡ true

  error_status :
      (status : ℕ) (code : ErrorCode) (message : Message)
      → Encodes
      → statuses (write_error f m status code message) ≡ status ∷ []
  unfolding write_error write_json statuses
  error_status status code message h = ground (arith, h code message)

  body_status :
      (hits : List (Hit f)) (query : Bytes)
      → statuses (write_json f m 200 (search_body (new_search_response f query hits))) ≢ 400 ∷ []
  unfolding write_json statuses
  body_status hits query = ground arith

  failure_status : (c : Contexts) → Encodes → statuses (search_error_answer f m c none) ≢ 400 ∷ []
  unfolding search_error_answer
  failure_status c h = ground (
    arith,
    error_status 499 request_cancelled (text (codes "request cancelled")) h,
    error_status 504 timeout (text (codes "search timed out")) h,
    error_status 500 internal (text (codes "search failed; please try again later")) h,
  )

  clean_status :
      (c : Contexts) (req : SearchRequest) (x : Result (List (Hit f)))
      → Encodes
      → IsClean x
      → statuses (finish_search f m c req (answered x)).calls ≢ 400 ∷ []
  unfolding finish_search write_search_error IsClean
  clean_status c req (ok hits) h k = body_status hits (trim_space req.query)
  clean_status c req (err e) h k = ground (arith, failure_status c h, k)

  reason_status :
      (c : Contexts) (req : SearchRequest) (e : Err) (n : ℕ)
      → Encodes
      → find pick_validation e ≡ some n
      → statuses (finish_search f m c req (answered (err e))).calls ≡ 400 ∷ []
  unfolding finish_search write_search_error search_error_answer
  reason_status c req e n h k = ground (arith, k, error_status 400 invalid_request (reason n) h)

-- A request that the service refuses is a ValidationError.
abbrev IsReason : Result Valid → Type 0
unfolding find
IsReason (ok v) = Unit
IsReason (err e) = (n : ℕ) × (find pick_validation e ≡ some n)

parsed_injective : {a b : SearchRequest} → parsed a ≡ parsed b → a ≡ b
parsed_injective h = cc

refused-IsReason :
    (n : ℕ) (b : Bool) (rest : Result Valid)
    → IsReason rest
    → IsReason (if b then err (validation_error n) else rest)
unfolding IsReason
refused-IsReason n b rest h = if_both IsReason b (n, refl) h

passed-IsReason : (v : Valid) → IsReason (ok v)
unfolding IsReason
passed-IsReason v = tt

validate-IsReason :
    (u : Utf8) (cfg : SearchConfig) (req : SearchRequest) → IsReason (validate u cfg req)
unfolding validate
validate-IsReason u cfg req = refused-IsReason 0 _ _ (
    refused-IsReason 1 _ _ (
      refused-IsReason 2 _ _ (refused-IsReason 3 _ _ (refused-IsReason 4 _ _ (passed-IsReason _)))))

module _ {Vec : Type 0} (cfg : SearchConfig) (r : Run Vec) (f : Scores) (m : Marshal f)
    (u : Utf8) where
  search_invalid :
      (req : SearchRequest) {e : Err}
      → validate u cfg req ≡ err e
      → (search cfg r f u req).0 ≡ err e
  unfolding search
  search_invalid req q = ground (arith, q)

  module _ (c : Contexts) (h : Encodes f m) (k : IsForeignRun r) where
    checked :
        (req : SearchRequest) (x : Result Valid)
        → validate u cfg req ≡ x
        → IsReason x
        → (statuses (finish_search f m c req (answered (search cfg r f u req).0)).calls ≡ 400 ∷ [])
          ↔ ((e : Err) × (x ≡ err e))
    unfolding IsReason
    checked req (ok v) q n = (
      (λ p. elim (clean_status f m c req _ h (search-IsClean cfg r k f u req q) p) [ ]),
      (λ p. cc),
    )
    checked req (err e) q (n, t) = (
      (λ p. (e, refl)),
      (λ p.
          subst (λ x. statuses (finish_search f m c req (answered x)).calls ≡ 400 ∷ [])
            (sym (search_invalid req q)) (reason_status f m c req e n h t)),
    )

    judged :
        (p : Parsed)
        → (statuses (search_parsed f m (λ req. answered (search cfg r f u req).0) c p).calls
            ≡ 400 ∷ [])
          ↔ (((x : RequestError) × (p ≡ refused x))
              ⊎ ((req : SearchRequest) × (e : Err) × (p ≡ parsed req)
                  × (validate u cfg req ≡ err e)))
    unfolding search_parsed
    judged (refused x) = ((λ q. inl (x, refl)), (λ q. error_status f m 400 _ _ h))
    judged (parsed req) =
        let (there, back) = checked req (validate u cfg req) refl (validate-IsReason u cfg req) in
        (
          (λ q. let (e, b) = there q in inr (req, e, refl, b)),
          (λ q. elim q [
            | inl a ↦ cc
            | inr (req', e, a, b) ↦ back (e, ap (validate u cfg) (parsed_injective a) ∙ b)
          ]),
        )

    -- A search is answered with status 400 exactly if its parameters cannot be read, or the service's
    -- check refuses them, if json.Marshal works on error bodies and no store, embedder or context makes
    -- a ValidationError: no failure of a dependency, no time-out and no cancellation is blamed on the
    -- client.
    pub bad_request_iff :
        (t : Http) (rq : Request)
        → (statuses (search_handler f m t (λ req. answered (search cfg r f u req).0) c rq).calls
            ≡ 400 ∷ [])
          ↔ (((x : RequestError) × (parse_search_request t rq ≡ refused x))
              ⊎ ((req : SearchRequest) × (e : Err) × (parse_search_request t rq ≡ parsed req)
                  × (validate u cfg req ≡ err e)))
    unfolding search_handler
    bad_request_iff t rq = judged (parse_search_request t rq)
