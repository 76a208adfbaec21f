-- ===== src/Commands/Fits.antt =====
-- After a start without error the provider's vectors fit the collection (cmd/consumer/main.go, run).
use near_real_time_hybrid_se.Common.{
  ℕ, ◌≡◌, ◌∙◌, subst, inl, inr, arith, List, Option, none, some, Bool-cases, Option-cases, length,
  if◌then◌else◌,
}
use near_real_time_hybrid_se.Common.Int.{pos, pos_part}
use near_real_time_hybrid_se.Common.Bytes.{Bytes}
use near_real_time_hybrid_se.Common.Trim.{trim_space, is_empty}
use near_real_time_hybrid_se.Errors.{Err}
use near_real_time_hybrid_se.Cdc.Mapping.{ok}
use near_real_time_hybrid_se.Qdrant.{Float32, validate_vector, invalid_vector}
use near_real_time_hybrid_se.Qdrant.Points.{some_nonzero}
use near_real_time_hybrid_se.Qdrant.Collection.{CollectionApi, wanted, ensure_collection}
use near_real_time_hybrid_se.Qdrant.Collection.Sized.{Laws, ensure_collection-sized}
use near_real_time_hybrid_se.Embedding.{check_vector}
use near_real_time_hybrid_se.Embedding.Vectors.{embed_fits, check_vector_fits}
use near_real_time_hybrid_se.Embedding.Fake.{
  Generator, words, noughts, add_words, normalise, fake_embed,
}
use near_real_time_hybrid_se.Commands.{
  Provider, gemini, fake, dimension, provider_embed, check_embedder,
}

module _ {f : Float32} where
  normalise-ok :
      (g : Generator f) (d : ℕ) (sum : List g.F) {v : List f.Value}
      → normalise f g d sum ≡ ok v
      → check_vector f v d ≡ none
  unfolding normalise
  normalise-ok g d sum h = ground (arith, h)

  fake_checked :
      (g : Generator f) (d : ℕ) (ctx : Option Err) (text : Bytes) {v : List f.Value}
      → fake_embed f g d ctx text ≡ ok v
      → check_vector f v d ≡ none
  unfolding fake_embed
  fake_checked g d ctx text {v} h = elim (Bool-cases (is_empty (trim_space text))) [
    | inl e ↦ cc
    | inr e ↦ elim (Option-cases ctx) [
      | inr (x, q) ↦ cc
      | inl q ↦
          normalise-ok g d (add_words f g (words f g text) (noughts f g d)) {v = v}
            (ground (arith, e, q, h))
    ]
  ]

  provider_fits :
      (p : Provider f) (text : Bytes) (v : List f.Value)
      → provider_embed p text ≡ ok v
      → let d = pos_part (dimension p) in
        (length v ≡ d)
        × (validate_vector f d v ≡ (if some_nonzero f v then none else invalid_vector))
  unfolding provider_embed
  provider_fits (gemini d c) text v h = embed_fits f (pos_part d) c text v h
  provider_fits (fake d g ctx) text v h =
      check_vector_fits f (pos_part d) v (fake_checked g (pos_part d) ctx text h)

  same_dimension :
      (env : Bytes) (size : ℕ) (p : Provider f)
      → check_embedder env (pos size) p ≡ none
      → pos_part (dimension p) ≡ size
  unfolding check_embedder
  same_dimension env size p h = ground (arith, h)

  -- After a start in which EnsureCollection and the checks of the provider found no error: the
  -- collection takes vectors of one size, compared by the cosine; every vector that the provider
  -- returns, whichever provider it is, has that size, and the vector index accepts it, unless all of
  -- its numbers are zero; then it refuses it with ErrInvalidVector.
  pub start_fits :
      {S : Type 0} (api : CollectionApi S) (laws : Laws api) (s : S) (env : Bytes) (size : ℕ)
      (p : Provider f) (text : Bytes) (v : List f.Value)
      → (ensure_collection api size s).0 ≡ none
      → check_embedder env (pos size) p ≡ none
      → provider_embed p text ≡ ok v
      → (laws.collection (ensure_collection api size s).1 ≡ some (some (wanted api size)))
        × (length v ≡ size)
        × (validate_vector f size v ≡ (if some_nonzero f v then none else invalid_vector))
  start_fits api laws s env size p text v h c e =
      let q = same_dimension env size p c in
      let w = provider_fits p text v e in
      (
        ensure_collection-sized api size laws s h,
        w.0 ∙ q,
        subst (λ d. validate_vector f d v ≡ (if some_nonzero f v then none else invalid_vector)) q
            w.1,
      )
