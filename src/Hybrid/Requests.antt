-- ===== src/Hybrid/Requests.antt =====
-- internal/search/hybrid/service.go and types.go: the checks of a configuration and of a request.
-- utf8 is a parameter.
use near_real_time_hybrid_se.Common.{ℕ, Bool, not, Option, none, some, ltb, if◌then◌else◌}
use near_real_time_hybrid_se.Common.Int.{ℤ, pos, ltb_ℤ, eqb_ℤ}
use near_real_time_hybrid_se.Common.Bytes.{Bytes}
use near_real_time_hybrid_se.Common.Trim.{trim_space, is_empty}
use near_real_time_hybrid_se.Errors.{validation_error}
use near_real_time_hybrid_se.Cdc.Mapping.{Result, ok, err}

pub record SearchConfig : Type 0 where
  pub default_limit : ℤ
  pub max_limit : ℤ
  pub candidate_limit : ℤ
  pub rrf_k : ℤ
  pub timeout : ℤ

-- The minimum of both clients' MaxSearchLimit, which are equal.
abbrev pub max_candidates : ℤ
max_candidates = pos 100

pub data ConfigError : Type 0 where
  bad_default bad_max bad_candidates too_many_candidates bad_k : ConfigError

unfoldable pub validate_config : SearchConfig → Option ConfigError
validate_config cfg =
    if ltb_ℤ cfg.default_limit (pos 1)
    then some bad_default
    else if ltb_ℤ cfg.max_limit cfg.default_limit
    then some bad_max
    else if ltb_ℤ cfg.candidate_limit cfg.max_limit
    then some bad_candidates
    else if ltb_ℤ max_candidates cfg.candidate_limit
    then some too_many_candidates
    else if ltb_ℤ cfg.rrf_k (pos 1)
    then some bad_k
    else none

-- utf8.ValidString and utf8.RuneCountInString.
pub record Utf8 : Type 0 where
  pub valid_string : Bytes → Bool
  pub rune_count : Bytes → ℕ

abbrev pub max_query_length : ℕ
max_query_length = 1024

pub record SearchRequest : Type 0 where
  pub query : Bytes
  pub limit : ℤ

pub record Valid : Type 0 where
  pub query : Bytes
  pub limit : ℤ

-- The number of a validation error stands for its reason.
unfoldable pub validate : Utf8 → SearchConfig → SearchRequest → Result Valid
unfolding trim_space is_empty
validate u cfg req =
    let query = trim_space req.query in
    if is_empty query
    then err (validation_error 0)
    else if not (u.valid_string query)
    then err (validation_error 1)
    else if ltb max_query_length (u.rune_count query)
    then err (validation_error 2)
    else if ltb_ℤ req.limit (pos 0)
    then err (validation_error 3)
    else if ltb_ℤ cfg.max_limit req.limit
    then err (validation_error 4)
    else ok (record {
      query = query;
      limit = if eqb_ℤ req.limit (pos 0) then cfg.default_limit else req.limit;
    })
