-- ===== src/Config/Accepted.antt =====
-- What the rest of the program may rely on in settings that Load returns: internal/config/config.go
-- together with the checks of internal/retry, internal/indexing and internal/search/hybrid.
use near_real_time_hybrid_se.Common.{
  ℕ, ◌/◌, ltb, ◌≡◌, ◌↔◌, ◌⊎◌, inl, inr, refl, subst, not, List, [], ◌∷◌, ◌++◌, Option, none, some,
  arith, All, if◌then◌else◌,
}
use near_real_time_hybrid_se.Common.Int.{
  ℤ, pos, pos_part, ltb_ℤ, leb_ℤ, eqb_ℤ, eqb_ℤ→eq, ◌<ℤ◌, ◌≤ℤ◌,
}
use near_real_time_hybrid_se.Common.Bytes.{Bytes, codes}
use near_real_time_hybrid_se.Retry.{Float64, Policy}
use near_real_time_hybrid_se.Retry
use near_real_time_hybrid_se.Pool.{per_worker}
use near_real_time_hybrid_se.Hybrid.Requests.{SearchConfig, validate_config, max_candidates}
use near_real_time_hybrid_se.Config.{Config, RetryConfig}
use near_real_time_hybrid_se.Config.Env.{ConfigError, invalid, Sys}
use near_real_time_hybrid_se.Config.Validate.{
  validate, checks, positive, collect, durations, numbers, error_if, check_retry,
}
use near_real_time_hybrid_se.Config.Load.{
  load, finish_load, load_settings, split_endpoint, with_endpoint, unless_errors, Endpoint,
}

-- retryPolicy of cmd/consumer/main.go.
abbrev pub retry_policy : (f : Float64) → RetryConfig f.F → Policy f
retry_policy f c = record {
  max_attempts = c.max_attempts;
  initial_backoff = c.initial_backoff;
  max_backoff = c.max_backoff;
  multiplier = c.multiplier;
}

append_empty : {A : Type 0} (xs ys : List A) → xs ++ ys ≡ [] → (xs ≡ []) × (ys ≡ [])
append_empty [] ys h = (refl, h)
append_empty (x ∷ xs) ys h = cc

collect_empty : (es : List (List ConfigError)) → collect es ≡ [] → All (λ e. e ≡ []) es
unfolding collect
collect_empty [] h = tt
collect_empty (e ∷ es) h = let (a, b) = append_empty e (collect es) h in (a, collect_empty es b)

positive-All : (xs : List (Bytes × ℤ)) → positive xs ≡ [] → All (λ x. pos 0 <ℤ x.1) xs
unfolding positive
positive-All [] h = tt
positive-All (x ∷ xs) h = ground (arith, positive-All xs, h)

module _ (a b : ℤ) (x : ConfigError) where
  not_above : error_if (ltb_ℤ a b) x ≡ [] → b ≤ℤ a
  not_above h = ground (arith, h)

  above : error_if (leb_ℤ a b) x ≡ [] → b <ℤ a
  above h = ground (arith, h)

  sizes_agree : error_if (not (eqb_ℤ a b)) x ≡ [] → a ≡ b
  sizes_agree h = eqb_ℤ→eq a b (ground (arith, h))

retry_accepted :
    (f : Float64) (c : RetryConfig f.F)
    → pos 0 <ℤ c.max_attempts
    → pos 0 <ℤ c.initial_backoff
    → pos 0 <ℤ c.max_backoff
    → check_retry f c ≡ []
    → Retry.validate f (retry_policy f c) ≡ none
unfolding Retry.validate check_retry
retry_accepted f c a b d h = ground (arith, h)

pool_accepted : (n q : ℤ) → pos 0 <ℤ n → pos 0 <ℤ q → (cap : ℕ) × (per_worker n q ≡ some cap)
unfolding per_worker
pool_accepted n q a b =
    let share = pos_part q / pos_part n in
    ((if ltb share 1 then 1 else share), ground (arith, a, b))

search_accepted :
    (c : SearchConfig)
    → pos 0 <ℤ c.default_limit
    → c.default_limit ≤ℤ c.max_limit
    → c.max_limit ≤ℤ c.candidate_limit
    → pos 0 <ℤ c.rrf_k
    → (validate_config c ≡ none) ↔ (c.candidate_limit ≤ℤ max_candidates)
unfolding validate_config
search_accepted c a b d k = (λ h. ground arith, λ h. ground arith)

-- The settings that Load's checks leave, as far as other components need them.
record Accepted (f : Float64) (c : Config f.F) : Type 0 where
  attempts : pos 0 <ℤ c.kafka.retry.max_attempts
  initial : pos 0 <ℤ c.kafka.retry.initial_backoff
  cap : pos 0 <ℤ c.kafka.retry.max_backoff
  retry : check_retry f c.kafka.retry ≡ []
  workers : pos 0 <ℤ c.indexing.workers
  queue : pos 0 <ℤ c.indexing.queue_size
  default : pos 0 <ℤ c.search.default_limit
  rrf_k : pos 0 <ℤ c.search.rrf_k
  page : c.search.default_limit ≤ℤ c.search.max_limit
  candidates : c.search.max_limit ≤ℤ c.search.candidate_limit
  timeout : c.search.timeout <ℤ c.server.write_timeout
  size : c.qdrant.vector_size ≡ c.embedding.dimension

passed :
    {E A : Type 0} (es : List E) (rest : List E ⊎ A) {a : A}
    → unless_errors es rest ≡ inr a
    → (es ≡ []) × (rest ≡ inr a)
unfolding unless_errors
passed [] rest h = (refl, h)
passed (e ∷ es) rest h = cc

inr_injective : {E A : Type 0} {a b : A} → ◌≡◌ {A = E ⊎ A} (inr a) (inr b) → a ≡ b
inr_injective h = cc

module _ (f : Float64) (s : Sys f.F) where
  ended :
      (c : Config f.F) (o : Option Endpoint) {cfg : Config f.F}
      → elim o [
        | none ↦ inl (invalid (codes "QDRANT_URL") ∷ [])
        | some e ↦
            unless_errors (validate f s (with_endpoint f s c e)) (inr (with_endpoint f s c e))
      ]
        ≡ inr cfg
      → validate f s cfg ≡ []
  ended c none h = cc
  ended c (some e) h =
      let (a, b) = passed (validate f s (with_endpoint f s c e)) (inr (with_endpoint f s c e)) h in
      subst (λ x. validate f s x ≡ []) (inr_injective b) a

  load_checked : {cfg : Config f.F} → load f s ≡ inr cfg → validate f s cfg ≡ []
  unfolding load finish_load
  load_checked {cfg} h =
      let c = (load_settings f s).0 in
      let (a, b) = passed (load_settings f s).1 (finish_load f s c) h in
      ended c (split_endpoint s c.qdrant.url (pos 6334)) b

  validated : (c : Config f.F) → validate f s c ≡ [] → Accepted f c
  unfolding validate
  validated c h =
      let e = collect_empty (checks f s c) h in
      let ds = positive-All (durations f c) e.1.0 in
      let ns = positive-All (numbers f c) e.1.1.0 in
      record {
        attempts = ns.1.1.1.1.1.0;
        initial = ds.1.1.1.1.1.1.1.1.1.1.1.0;
        cap = ds.1.1.1.1.1.1.1.1.1.1.1.1.0;
        retry = e.1.1.1.1.0;
        workers = ns.1.1.0;
        queue = ns.1.1.1.0;
        default = ns.1.1.1.1.1.1.1.1.0;
        rrf_k = ns.1.1.1.1.1.1.1.1.1.1.1.0;
        page = not_above c.search.max_limit c.search.default_limit _ e.1.1.1.1.1.1.1.1.1.1.1.0;
        candidates =
            not_above c.search.candidate_limit c.search.max_limit _ e.1.1.1.1.1.1.1.1.1.1.1.1.1.0;
        timeout = above c.server.write_timeout c.search.timeout _ e.1.1.1.1.1.1.1.1.1.1.1.1.0;
        size = sizes_agree c.qdrant.vector_size c.embedding.dimension _ e.1.1.1.1.1.1.1.1.1.0;
      }

  -- Settings that Load returns fit the rest of the program: the retry policy made of them is one that
  -- Validate accepts, the worker pool accepts its sizes, a vector of the embedder's dimension is one of
  -- Qdrant's, a search ends before the server gives up its answer, and the search service accepts its
  -- settings exactly if no more candidates are asked for than the clients return.
  pub load_fits :
      {cfg : Config f.F}
      → load f s ≡ inr cfg
      → (Retry.validate f (retry_policy f cfg.kafka.retry) ≡ none)
        × ((cap : ℕ) × (per_worker cfg.indexing.workers cfg.indexing.queue_size ≡ some cap))
        × (cfg.qdrant.vector_size ≡ cfg.embedding.dimension)
        × (cfg.search.timeout <ℤ cfg.server.write_timeout)
        × ((validate_config cfg.search ≡ none) ↔ (cfg.search.candidate_limit ≤ℤ max_candidates))
  load_fits {cfg} h =
      let a = validated cfg (load_checked h) in
      (
        retry_accepted f cfg.kafka.retry a.attempts a.initial a.cap a.retry,
        pool_accepted _ _ a.workers a.queue,
        a.size,
        a.timeout,
        search_accepted cfg.search a.default a.page a.candidates a.rrf_k,
      )
