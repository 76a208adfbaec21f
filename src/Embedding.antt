-- ===== src/Embedding.antt =====
-- internal/embedding/provider.go and gemini.go: the checks of a provider's settings and vectors, and
-- GeminiProvider.Embed with its errors. The SDK, the contexts and float32 are parameters; an API error
-- of the SDK keeps its code, and a network error says so.
pub mod Vectors
pub mod Fake
use near_real_time_hybrid_se.Common.{
  ℕ, Bool, true, false, not, ◌||◌, ◌==◌, List, [], ◌∷◌, Option, none, some, ◌⊎◌, inl, inr, length,
  if◌then◌else◌,
}
use near_real_time_hybrid_se.Common.Int.{ℤ, pos, leb_ℤ, ltb_ℤ}
use near_real_time_hybrid_se.Common.Bytes.{Bytes, bytes_eq, codes}
use near_real_time_hybrid_se.Common.Trim.{trim_space, is_empty}
use near_real_time_hybrid_se.Errors.{
  Err, Sentinel, sentinel, wrap, wraps, cons, nil, api_error, opaque,
}
use near_real_time_hybrid_se.Cdc.Mapping.{Result, ok, err}
use near_real_time_hybrid_se.Config.{EmbeddingConfig}
use near_real_time_hybrid_se.Qdrant.{Float32}

-- math.MaxInt32.
abbrev pub max_dimension : ℤ
max_dimension = pos 2147483647

unfoldable pub validate_dimension : ℤ → Bool
validate_dimension d = not (leb_ℤ d (pos 0) || ltb_ℤ max_dimension d)

-- The cases of New, with the constructors of the providers.
pub data Choice : Type 0 where
  gemini fake unknown : Choice

unfoldable pub choose : Bytes → Choice
unfolding bytes_eq
choose provider =
    if bytes_eq provider (codes "gemini")
    then gemini
    else if bytes_eq provider (codes "fake")
    then fake
    else unknown

-- The checks of newGeminiProvider, by the error that they find first.
pub data SetupError : Type 0 where
  no_api_key no_model bad_timeout bad_dimension : SetupError

unfoldable pub check_gemini : EmbeddingConfig → Option SetupError
unfolding is_empty trim_space validate_dimension
check_gemini cfg =
    if is_empty cfg.api_key
    then some no_api_key
    else if is_empty (trim_space cfg.model)
    then some no_model
    else if leb_ℤ cfg.timeout (pos 0)
    then some bad_timeout
    else if validate_dimension cfg.dimension
    then none
    else some bad_dimension

-- An error of the SDK.
pub data SdkError : Type 0 where
  api : ℕ → SdkError
  network : Err → SdkError
  other : Err → SdkError

-- requestError, with what both contexts say.
unfoldable pub request_error : Option Err → Option Err → SdkError → Err
request_error (some x) req e = wrap x
request_error none (some y) e = wraps (cons (sentinel Sentinel.unavailable) (cons y nil))
request_error none none (api code) = wrap (api_error code)
request_error none none (network e) = wraps (cons (sentinel Sentinel.unavailable) (cons e nil))
request_error none none (other e) = wrap e

module _ (f : Float32) where
  -- The loop of checkVector.
  unfoldable pub all_finite : List f.Value → Bool
  all_finite [] = true
  all_finite (x ∷ xs) = let rest = all_finite xs in if f.is_nan x || f.is_inf x then false else rest

  unfoldable pub check_vector : List f.Value → ℕ → Option Err
  unfolding all_finite
  check_vector v dimension =
      if length v == dimension
      then if all_finite v then none else some (wrap (sentinel Sentinel.invalid_response))
      else some (wrap (sentinel Sentinel.dimension_mismatch))

  -- What a call of Embed meets: the caller's context before and after the request, the context with the
  -- time-out, and the SDK's answer, which is the vectors of the response.
  pub record Call : Type 0 where
    pub before : Option Err
    pub after : Option Err
    pub timed : Option Err
    pub reply : SdkError ⊎ List (List f.Value)

  -- The checks of the response: exactly one embedding, and of the dimension.
  unfoldable pub read_reply : ℕ → List (List f.Value) → Result (List f.Value)
  unfolding check_vector
  read_reply dimension [] = err (wrap (sentinel Sentinel.invalid_response))
  read_reply dimension (v ∷ []) = elim (check_vector v dimension) [
    | some e ↦ err (wrap e)
    | none ↦ ok v
  ]
  read_reply dimension (v ∷ w ∷ vs) = err (wrap (sentinel Sentinel.invalid_response))

  -- GeminiProvider.Embed.
  unfoldable pub embed : ℕ → Call → Bytes → Result (List f.Value)
  unfolding trim_space is_empty request_error read_reply
  embed dimension c text =
      if is_empty (trim_space text) then err (sentinel Sentinel.empty_text) else elim c.before [
        | some x ↦ err (wrap x)
        | none ↦ elim c.reply [
          | inl e ↦ err (request_error c.after c.timed e)
          | inr vectors ↦ read_reply dimension vectors
        ]
      ]
