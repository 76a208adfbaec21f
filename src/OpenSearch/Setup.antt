-- ===== src/OpenSearch/Setup.antt =====
-- internal/search/opensearch/client.go and index.go: the checks of the client's settings, and EnsureIndex.
-- net/url, strings.ToLower and the SDK are parameters; a configuration error stands without its text.
use near_real_time_hybrid_se.Common.{
  ℕ, Bool, true, false, not, ◌&&◌, ◌||◌, ◌==◌, [], ◌∷◌, Option, none, some, ltb, length,
  if◌then◌else◌,
}
use near_real_time_hybrid_se.Common.Bytes.{Bytes, bytes_eq, codes}
use near_real_time_hybrid_se.Common.Trim.{is_empty}
use near_real_time_hybrid_se.Errors.{Err, wrap, keyword_request}
use near_real_time_hybrid_se.Cdc.Mapping.{Result, ok, err}
use near_real_time_hybrid_se.Config.{OpenSearchConfig}
use near_real_time_hybrid_se.Config.Env.{Url}
use near_real_time_hybrid_se.OpenSearch.{Reply, answer, failure}

-- strings.ContainsAny on ASCII characters.
unfoldable pub contains_any : Bytes → Bytes → Bool
contains_any [] chars = false
contains_any (c ∷ cs) chars = let rest = contains_any cs chars in has c chars || rest
  where
    has : ℕ → Bytes → Bool
    has c [] = false
    has c (x ∷ xs) = let rest = has c xs in (c == x) || rest

-- `name[:1]`.
abbrev first_byte : Bytes → Bytes
first_byte [] = []
first_byte (c ∷ cs) = c ∷ []

-- The refusals, in the source's order.
pub data SetupError : Type 0 where
  bad_url url_credentials half_credentials : SetupError
  no_name long_name mixed_case reserved_name bad_start bad_character : SetupError

unfoldable pub validate_index_name : (Bytes → Bytes) → Bytes → Option SetupError
unfolding is_empty bytes_eq contains_any
validate_index_name to_lower name =
    if is_empty name
    then some no_name
    else if ltb 255 (length name)
    then some long_name
    else if not (bytes_eq name (to_lower name))
    then some mixed_case
    else if bytes_eq name (codes ".") || bytes_eq name (codes "..")
    then some reserved_name
    else if contains_any (first_byte name) (codes "-_+")
    then some bad_start
    else if contains_any name (codes "\\/*?\"<>| ,#:")
    then some bad_character
    else none

-- validateConfig; the parameter says of a URL also whether it names a user.
unfoldable pub validate_config :
    (Bytes → Option (Url × Bool)) → (Bytes → Bytes) → OpenSearchConfig → Option SetupError
unfolding is_empty bytes_eq validate_index_name
validate_config parse_url to_lower cfg = elim (parse_url cfg.url) [
  | none ↦ some bad_url
  | some (u, has_user) ↦
      if is_empty u.host
        || (not (bytes_eq u.scheme (codes "http")) && not (bytes_eq u.scheme (codes "https")))
      then some bad_url
      else if has_user
      then some url_credentials
      else if not (is_empty cfg.username) && is_empty cfg.password
          || is_empty cfg.username && not (is_empty cfg.password)
      then some half_credentials
      else validate_index_name to_lower cfg.index
]

-- The SDK's calls for the client's index.
pub record IndexApi (S : Type 0) : Type 0 where
  pub exists : S → Reply (Unit {0}) × S
  pub create : S → Reply (Unit {0}) × S

module _ {S : Type 0} (api : IndexApi S) where
  abbrev pub read_exists : Reply (Unit {0}) → Result Bool
  read_exists (answer _) = ok true
  read_exists (failure c e) = if c == 404 then ok false else err (keyword_request c e)

  unfoldable pub index_exists : S → Result Bool × S
  index_exists s = let (reply, s') = api.exists s in (read_exists reply, s')

  -- The end of EnsureIndex after a refused creation.
  abbrev pub after_conflict : ℕ → Err → Result Bool → Option Err
  after_conflict c e (ok true) = none
  after_conflict c e (ok false) = some (wrap (keyword_request c e))
  after_conflict c e (err x) = some (wrap (keyword_request c e))

  unfoldable pub create_index : S → Option Err × S
  unfolding index_exists
  create_index s =
      let (reply, s') = api.create s in
      elim reply [
        | answer _ ↦ (none, s')
        | failure c e ↦ let (found, s'') = index_exists s' in (after_conflict c e found, s'')
      ]

  unfoldable pub ensure_index : S → Option Err × S
  unfolding index_exists create_index
  ensure_index s =
      let (found, s') = index_exists s in
      elim found [ err e ↦ (some (wrap e), s') | ok true ↦ (none, s') | ok false ↦ create_index s' ]
