-- ===== src/Config/Env.antt =====
-- internal/config/config.go: the lookups of environment variables, and the errors that they collect.
-- os.Getenv, strconv, time.ParseDuration, slog's level names and net/url are parameters; `none` is an
-- error of theirs. An error keeps its kind and the key that its text names.
use near_real_time_hybrid_se.Common.{
  Bool, ◌==◌, List, [], ◌∷◌, ◌++◌, Option, none, some, if◌then◌else◌,
}
use near_real_time_hybrid_se.Common.Int.{ℤ}
use near_real_time_hybrid_se.Common.Bytes.{Bytes}
use near_real_time_hybrid_se.Common.Trim.{trim_space, is_empty}

pub data ConfigError : Type 0 where
  required invalid : Bytes → ConfigError
  not_positive empty : Bytes → ConfigError
  bad_port min_conns_negative min_conns_above_max cap_below_initial bad_multiplier : ConfigError
  bad_metrics_path size_mismatch default_above_max timeout_too_long max_above_candidates :
      ConfigError

pub record Url : Type 0 where
  pub scheme : Bytes
  pub host : Bytes
  pub hostname : Bytes
  pub port : Bytes

pub record Sys (F : Type 0) : Type 0 where
  pub getenv : Bytes → Bytes
  pub atoi : Bytes → Option ℤ
  pub parse_float : Bytes → Option F
  pub parse_duration : Bytes → Option ℤ
  pub parse_bool : Bytes → Option Bool
  pub parse_level : Bytes → Option ℤ
  pub parse_url : Bytes → Option Url
  pub to_lower : Bytes → Bytes

-- A lookup's value and the errors that it adds to those of `env`.
abbrev pub Lookup : Type 0 → Type 0
Lookup A = A × List ConfigError

module _ {A : Type 0} where
  abbrev pub pure : A → Lookup A
  pure a = (a, [])

infixl 5 ◌>>=◌
abbrev pub ◌>>=◌ : {A B : Type 0} → Lookup A → (A → Lookup B) → Lookup B
◌>>=◌ m k = let (b, es) = k m.0 in (b, m.1 ++ es)

-- strings.Split(s, ","): the part that is being read is kept in reverse.
unfoldable pub split_commas : Bytes → Bytes → List Bytes
split_commas part [] = part ∷ []
split_commas part (c ∷ cs) =
    let next = split_commas (part ++ (c ∷ [])) cs in
    let rest = split_commas [] cs in if c == 44 then part ∷ rest else next

-- The items that are not blank.
unfoldable pub trimmed_items : List Bytes → List Bytes
unfolding trim_space is_empty
trimmed_items [] = []
trimmed_items (x ∷ xs) =
    let item = trim_space x in
    let rest = trimmed_items xs in if is_empty item then rest else item ∷ rest

module _ {F : Type 0} (s : Sys F) where
  unfoldable pub get_env : Bytes → Bytes → Bytes
  unfolding trim_space is_empty
  get_env key fallback = let v = trim_space (s.getenv key) in if is_empty v then fallback else v

  unfoldable pub lookup_required : Bytes → Lookup Bytes
  unfolding trim_space is_empty
  lookup_required key =
      let v = trim_space (s.getenv key) in if is_empty v then ([], required key ∷ []) else (v, [])

  unfoldable pub lookup_list : Bytes → Lookup (List Bytes)
  unfolding split_commas trimmed_items
  lookup_list key = elim (trimmed_items (split_commas [] (s.getenv key))) [
    | [] ↦ ([], required key ∷ [])
    | x ∷ xs ↦ (x ∷ xs, [])
  ]

  -- What getEnvInt, getEnvFloat and getEnvDuration share: a value that does not parse counts as `zero`.
  unfoldable pub lookup : {A : Type 0} → (Bytes → Option A) → A → Bytes → A → Lookup A
  unfolding get_env is_empty
  lookup parse zero_value key fallback =
      let raw = get_env key [] in
      if is_empty raw
      then (fallback, [])
      else elim (parse raw) [ none ↦ (zero_value, invalid key ∷ []) | some v ↦ (v, []) ]
