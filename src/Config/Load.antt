-- ===== src/Config/Load.antt =====
-- internal/config/config.go: splitEndpoint and Load.
use near_real_time_hybrid_se.Common.{
  Bool, true, false, ◌||◌, List, [], ◌∷◌, Option, none, some, if◌then◌else◌, ◌⊎◌, inl, inr,
}
use near_real_time_hybrid_se.Common.Int.{ℤ, pos}
use near_real_time_hybrid_se.Common.Bytes.{Bytes, bytes_eq, codes}
use near_real_time_hybrid_se.Common.Trim.{is_empty}
use near_real_time_hybrid_se.Retry.{Float64}
use near_real_time_hybrid_se.Config.{Config}
use near_real_time_hybrid_se.Config.Env.{
  ConfigError, invalid, Sys, Lookup, pure, ◌>>=◌, get_env, lookup_required, lookup,
}
use near_real_time_hybrid_se.Config.Groups.{
  load_app, load_server, load_postgres, load_kafka, load_opensearch, load_indexing, load_metrics,
  load_embedding, load_search,
}
use near_real_time_hybrid_se.Config.Validate.{validate}

-- The schemes of splitEndpoint: `some true` with TLS, `none` for one that is not supported.
unfoldable pub scheme_tls : Bytes → Option Bool
scheme_tls scheme =
    if bytes_eq scheme (codes "https") || bytes_eq scheme (codes "grpcs")
    then some true
    else if bytes_eq scheme (codes "http") || bytes_eq scheme (codes "grpc")
    then some false
    else none

-- What Load returns: the errors that were collected, or else the rest of its body.
unfoldable pub unless_errors : {E A : Type 0} → List E → List E ⊎ A → List E ⊎ A
unless_errors [] rest = rest
unless_errors (e ∷ es) rest = inl (e ∷ es)

pub record Endpoint : Type 0 where
  pub host : Bytes
  pub port : ℤ
  pub use_tls : Bool

-- splitEndpoint; none is an error.
unfoldable pub split_endpoint : {F : Type 0} → Sys F → Bytes → ℤ → Option Endpoint
unfolding is_empty scheme_tls
split_endpoint s raw default_port = elim (s.parse_url raw) [
  | none ↦ none
  | some u ↦
      if is_empty u.host
      then none
      else elim (if is_empty u.port then some default_port else s.atoi u.port) [
        | none ↦ none
        | some port ↦ elim (scheme_tls u.scheme) [
          | none ↦ none
          | some use_tls ↦ some (record { host = u.hostname; port = port; use_tls = use_tls })
        ]
      ]
]

module _ (f : Float64) (s : Sys f.F) where
  -- The lookups of Load. The endpoint of Qdrant is filled in later.
  unfoldable pub load_settings : Lookup (Config f.F)
  unfolding load_app load_server load_postgres load_kafka load_opensearch load_indexing load_metrics
      load_embedding load_search lookup_required lookup get_env
  load_settings = do
    app ← load_app f s
    server ← load_server f s
    postgres ← load_postgres f s
    kafka ← load_kafka f s
    opensearch ← load_opensearch f s
    qdrant_url ← lookup_required s (codes "QDRANT_URL")
    indexing ← load_indexing f s
    metrics ← load_metrics f s
    embedding ← load_embedding f s
    search ← load_search f s
    vector_size ← lookup s s.atoi (pos 0) (codes "QDRANT_VECTOR_SIZE") embedding.dimension
    pure (record {
      app = app;
      server = server;
      postgres = postgres;
      kafka = kafka;
      opensearch = opensearch;
      qdrant = record {
        url = qdrant_url;
        api_key = s.getenv (codes "QDRANT_API_KEY");
        collection = get_env s (codes "QDRANT_COLLECTION") (codes "documents");
        vector_size = vector_size;
        host = [];
        port = pos 0;
        use_tls = false;
      };
      indexing = indexing;
      metrics = metrics;
      embedding = embedding;
      search = search;
    })

  abbrev pub with_endpoint : Config f.F → Endpoint → Config f.F
  with_endpoint cfg e = record cfg {
    qdrant = record cfg.qdrant { host = e.host; port = e.port; use_tls = e.use_tls };
  }

  unfoldable pub finish_load : Config f.F → List ConfigError ⊎ Config f.F
  unfolding split_endpoint validate unless_errors
  finish_load cfg = elim (split_endpoint s cfg.qdrant.url (pos 6334)) [
    | none ↦ inl (invalid (codes "QDRANT_URL") ∷ [])
    | some e ↦ unless_errors (validate f s (with_endpoint cfg e)) (inr (with_endpoint cfg e))
  ]

  unfoldable pub load : List ConfigError ⊎ Config f.F
  unfolding load_settings finish_load unless_errors
  load = let (cfg, errs) = load_settings in unless_errors errs (finish_load cfg)
