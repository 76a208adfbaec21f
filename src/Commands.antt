-- ===== src/Commands.antt =====
-- cmd/consumer/main.go and cmd/api/main.go: the checks of the embedding provider when a process starts,
-- and the embedding of a text by the provider that was chosen. The rest of the commands is wiring.
pub mod Fits
use near_real_time_hybrid_se.Common.{ℕ, ◌&&◌, not, Option, none, some, if◌then◌else◌, List}
use near_real_time_hybrid_se.Common.Int.{ℤ, eqb_ℤ, pos_part}
use near_real_time_hybrid_se.Common.Bytes.{Bytes, bytes_eq, codes}
use near_real_time_hybrid_se.Errors.{Err}
use near_real_time_hybrid_se.Cdc.Mapping.{Result}
use near_real_time_hybrid_se.Qdrant.{Float32}
use near_real_time_hybrid_se.Embedding.{Call, embed}
use near_real_time_hybrid_se.Embedding.Fake.{Generator, fake_embed}

-- A Provider: GeminiProvider with what a call of it meets, or FakeProvider with what the context says.
pub data Provider (f : Float32) : Type 1 where
  gemini : ℤ → Call f → Provider f
  fake : ℤ → Generator f → Option Err → Provider f

pub data StartError : Type 0 where
  fake_in_production dimension_differs : StartError

module _ {f : Float32} where
  -- Name and Dimension of a provider.
  abbrev pub name : Provider f → Bytes
  name (gemini d c) = codes "gemini"
  name (fake d g ctx) = codes "fake"

  abbrev pub dimension : Provider f → ℤ
  dimension (gemini d c) = d
  dimension (fake d g ctx) = d

  -- Embed of a provider.
  unfoldable pub provider_embed : Provider f → Bytes → Result (List f.Value)
  unfolding embed fake_embed
  provider_embed (gemini d c) text = embed f (pos_part d) c text
  provider_embed (fake d g ctx) text = fake_embed f g (pos_part d) ctx text

  -- The checks after embedding.New in run.
  unfoldable pub check_embedder : Bytes → ℤ → Provider f → Option StartError
  unfolding bytes_eq
  check_embedder env vector_size p =
      if bytes_eq env (codes "production") && bytes_eq (name p) (codes "fake")
      then some fake_in_production
      else if not (eqb_ℤ (dimension p) vector_size)
      then some dimension_differs
      else none
