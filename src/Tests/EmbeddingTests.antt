-- ===== src/Tests/EmbeddingTests.antt =====
-- Embeddings of two numbers, and how the provider's settings are checked.
use near_real_time_hybrid_se.Common.{ℕ, ◌≡◌, refl, List, [], ◌∷◌, none, some, inr}
use near_real_time_hybrid_se.Common.Int.{pos}
use near_real_time_hybrid_se.Common.Bytes.{codes}
use near_real_time_hybrid_se.Errors.{Sentinel, sentinel, status_temporary, code_temporary}
use near_real_time_hybrid_se.Retry.{retryable, non_retryable}
use near_real_time_hybrid_se.Classify.{classify_error, classify_embedding}
use near_real_time_hybrid_se.Config.{EmbeddingConfig}
use near_real_time_hybrid_se.Cdc.Mapping.{ok}
use near_real_time_hybrid_se.Embedding.{
  Call, embed, api, request_error, check_gemini, bad_timeout, choose, fake, unknown,
}
use near_real_time_hybrid_se.Tests.QdrantTests.{floats}

abbrev pub numbers : List ℕ
numbers = 1 ∷ 3 ∷ []

abbrev pub answered : Call floats
answered = record { before = none; after = none; timed = none; reply = inr (numbers ∷ []) }

pub embedded : embed floats 2 answered (codes "go") ≡ ok numbers
unfolding embed
embedded = refl

-- The provider's own time-out is retried; a refused key is not.
kinds :
    (classify_error (
        some (
          classify_embedding
            (request_error none (some (sentinel Sentinel.deadline_exceeded)) (api 0))))
      ≡ retryable)
    × (classify_error (some (classify_embedding (request_error none none (api 401))))
        ≡ non_retryable)
unfolding classify_error classify_embedding request_error status_temporary code_temporary
kinds = (refl, refl)

abbrev config : EmbeddingConfig
config = record {
  provider = codes "gemini";
  api_key = codes "k";
  model = codes "m";
  dimension = pos 2;
  timeout = pos 0;
}

setup :
    (check_gemini config ≡ some bad_timeout)
    × (choose (codes "fake") ≡ fake)
    × (choose [] ≡ unknown)
unfolding check_gemini choose
setup = (refl, refl, refl)
