-- ===== src/Config/Missing.antt =====
-- Load of internal/config/config.go reports every required variable that is missing.
use mathlib.Core.List.{append-nil}
use near_real_time_hybrid_se.Common.{
  ℕ, zero, suc, ◌≡◌, ◌⊎◌, inl, inr, refl, sym, subst, List, [], ◌∷◌, ◌++◌, In, if◌then◌else◌,
}
use near_real_time_hybrid_se.Common.Int.{pos}
use near_real_time_hybrid_se.Common.Bytes.{Bytes, codes}
use near_real_time_hybrid_se.Common.Trim.{trim_space, is_empty}
use near_real_time_hybrid_se.Retry.{Float64}
use near_real_time_hybrid_se.Config.Env.{
  ConfigError, required, Lookup, Sys, lookup_required, lookup_list, lookup, split_commas,
  trimmed_items,
}
use near_real_time_hybrid_se.Config.Groups.{
  load_app, load_server, load_postgres, load_retry, load_kafka, load_opensearch, load_indexing,
  load_metrics, load_embedding, load_search, seconds,
}
use near_real_time_hybrid_se.Config.Validate.{collect}
use near_real_time_hybrid_se.Config.Load.{load, load_settings, unless_errors}

-- The required variables that hold one value.
abbrev pub required_keys : List Bytes
required_keys =
    codes "DATABASE_URL"
    ∷ codes "KAFKA_TOPIC"
    ∷ codes "KAFKA_CONSUMER_GROUP"
    ∷ codes "OPENSEARCH_URL"
    ∷ codes "QDRANT_URL"
    ∷ []

In-left : (x : ConfigError) (xs ys : List ConfigError) → In x xs → In x (xs ++ ys)
In-left x [] ys h = elim h [ ]
In-left x (y ∷ xs) ys (inl e) = inl e
In-left x (y ∷ xs) ys (inr h) = inr (In-left x xs ys h)

In-right : (x : ConfigError) (xs ys : List ConfigError) → In x ys → In x (xs ++ ys)
In-right x [] ys h = h
In-right x (y ∷ xs) ys h = inr (In-right x xs ys h)

-- Part `i` of a list of parts; an error of it is one of all.
abbrev nth : ℕ → List (List ConfigError) → List ConfigError
nth i [] = []
nth zero (p ∷ ps) = p
nth (suc i) (p ∷ ps) = nth i ps

In-part :
    (x : ConfigError) (i : ℕ) (ps : List (List ConfigError)) → In x (nth i ps) → In x (collect ps)
unfolding collect
In-part x i [] h = elim h [ ]
In-part x zero (p ∷ ps) h = In-left x p (collect ps) h
In-part x (suc i) (p ∷ ps) h = In-right x p (collect ps) (In-part x i ps h)

reported_there :
    {A B : Type 0} (es : List A) (rest : List A ⊎ B) {x : A}
    → In x es
    → (out : List A) × (unless_errors es rest ≡ inl out) × In x out
unfolding unless_errors
reported_there [] rest h = elim h [ ]
reported_there (e ∷ es) rest h = (e ∷ es, refl, h)

blank :
    (v key : Bytes)
    → v ≡ []
    → In
        (required key)
        (let r : Lookup Bytes = if is_empty v then ([], required key ∷ []) else (v, []) in r.1)
unfolding is_empty
blank [] key h = inl refl
blank (c ∷ cs) key h = cc

no_items :
    (items : List Bytes) (key : Bytes)
    → items ≡ []
    → In (required key) (
        let r : Lookup (List Bytes) = elim items [
          | [] ↦ ([], required key ∷ [])
          | x ∷ xs ↦ (x ∷ xs, [])
        ] in
        r.1)
no_items [] key h = inl refl
no_items (x ∷ xs) key h = cc

trimmed_items-blank :
    (xs : List Bytes) → ((x : Bytes) → In x xs → trim_space x ≡ []) → trimmed_items xs ≡ []
unfolding trimmed_items is_empty
trimmed_items-blank [] h = refl
trimmed_items-blank (x ∷ xs) h = rw (h x (inl refl), trimmed_items-blank xs (λ y i. h y (inr i)))

module _ (f : Float64) (s : Sys f.F) where
  -- A required variable is missing if its text is blank; the list of brokers, if each item between its
  -- commas is blank.
  abbrev pub IsMissing : Bytes → Type 0
  IsMissing key =
      (In key required_keys × (trim_space (s.getenv key) ≡ []))
      ⊎ ((key ≡ codes "KAFKA_BROKERS")
          × ((x : Bytes) → In x (split_commas [] (s.getenv key)) → trim_space x ≡ []))

  missing_list :
      (key : Bytes)
      → ((x : Bytes) → In x (split_commas [] (s.getenv key)) → trim_space x ≡ [])
      → In (required key) (lookup_list s key).1
  unfolding lookup_list
  missing_list key h =
      no_items (trimmed_items (split_commas [] (s.getenv key))) key
        (trimmed_items-blank (split_commas [] (s.getenv key)) h)

  missing :
      (key : Bytes) → trim_space (s.getenv key) ≡ [] → In (required key) (lookup_required s key).1
  unfolding lookup_required
  missing key h = blank (trim_space (s.getenv key)) key h

  -- A missing variable's error is one of those that the lookups of Load collect.
  abbrev Collected : List ConfigError → Bytes → Type 0
  Collected es key = trim_space (s.getenv key) ≡ [] → In (required key) es

  -- The errors of the lookups of three groups, and of all, part by part.
  abbrev postgres_parts : List (List ConfigError)
  postgres_parts =
      (lookup_required s (codes "DATABASE_URL")).1
      ∷ (lookup s s.atoi (pos 0) (codes "DATABASE_MAX_CONNS") (pos 25)).1
      ∷ (lookup s s.atoi (pos 0) (codes "DATABASE_MIN_CONNS") (pos 2)).1
      ∷ (lookup s s.parse_duration (pos 0) (codes "DATABASE_MAX_CONN_LIFETIME") (seconds 3600)).1
      ∷ (lookup s s.parse_duration (pos 0) (codes "DATABASE_MAX_CONN_IDLE_TIME") (seconds 1800)).1
      ∷ (lookup s s.parse_duration (pos 0) (codes "DATABASE_HEALTH_CHECK_PERIOD") (seconds 60)).1
      ∷ (lookup s s.parse_duration (pos 0) (codes "DATABASE_CONNECT_TIMEOUT") (seconds 5)).1
      ∷ []

  abbrev kafka_parts : List (List ConfigError)
  kafka_parts =
      (lookup_list s (codes "KAFKA_BROKERS")).1
      ∷ (lookup_required s (codes "KAFKA_TOPIC")).1
      ∷ (lookup_required s (codes "KAFKA_CONSUMER_GROUP")).1
      ∷ (lookup s s.atoi (pos 0) (codes "KAFKA_WORKERS") (pos 10)).1
      ∷ (load_retry f s).1
      ∷ []

  abbrev parts : List (List ConfigError)
  parts =
      (load_app f s).1
      ∷ (load_server f s).1
      ∷ collect postgres_parts
      ∷ collect kafka_parts
      ∷ (lookup_required s (codes "OPENSEARCH_URL")).1
      ∷ (lookup_required s (codes "QDRANT_URL")).1
      ∷ (load_indexing f s).1
      ∷ (load_metrics f s).1
      ∷ (load_embedding f s).1
      ∷ (load_search f s).1
      ∷ (lookup s s.atoi (pos 0) (codes "QDRANT_VECTOR_SIZE") (load_embedding f s).0.dimension).1
      ∷ []

  collected : (load_settings f s).1 ≡ collect parts
  unfolding load_settings load_postgres load_kafka load_opensearch collect
  collected = simp append-nil

  missing-Collected : (key : Bytes) → In key required_keys → Collected (collect parts) key
  missing-Collected key (inl e) =
      subst (Collected (collect parts)) (sym e)
        (λ b. In-part _ 2 parts (In-part _ 0 postgres_parts (missing _ b)))
  missing-Collected key (inr (inl e)) =
      subst (Collected (collect parts)) (sym e)
        (λ b. In-part _ 3 parts (In-part _ 1 kafka_parts (missing _ b)))
  missing-Collected key (inr (inr (inl e))) =
      subst (Collected (collect parts)) (sym e)
        (λ b. In-part _ 3 parts (In-part _ 2 kafka_parts (missing _ b)))
  missing-Collected key (inr (inr (inr (inl e)))) =
      subst (Collected (collect parts)) (sym e) (λ b. In-part _ 4 parts (missing _ b))
  missing-Collected key (inr (inr (inr (inr (inl e))))) =
      subst (Collected (collect parts)) (sym e) (λ b. In-part _ 5 parts (missing _ b))
  missing-Collected key (inr (inr (inr (inr (inr h))))) = elim h [ ]

  missing-IsCollected : (key : Bytes) → IsMissing key → In (required key) (collect parts)
  missing-IsCollected key (inl (h, b)) = missing-Collected key h b
  missing-IsCollected key (inr (e, h)) =
      subst (λ k. In (required k) (collect parts)) (sym e)
        (In-part _ 3 parts (
          In-part _ 0 kafka_parts (
            missing_list (codes "KAFKA_BROKERS") (
              subst (λ k. (x : Bytes) → In x (split_commas [] (s.getenv k)) → trim_space x ≡ []) e
                h))))

  -- Load fails if one of the six required variables is missing, and its error names that
  -- variable, whatever else is wrong: no problem hides another one of these. Five of them are
  -- missing if they are not set or blank, and the list KAFKA_BROKERS if every item between its
  -- commas is blank, as in one that is not set.
  pub missing_reported :
      (key : Bytes)
      → IsMissing key
      → (errs : List ConfigError) × (load f s ≡ inl errs) × In (required key) errs
  unfolding load
  missing_reported key h =
      reported_there (load_settings f s).1 _
        (subst (In (required key)) (sym collected) (missing-IsCollected key h))
