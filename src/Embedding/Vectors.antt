-- ===== src/Embedding/Vectors.antt =====
-- What the vectors of internal/embedding/gemini.go are to the vector index, and which failures are
-- retried.
use near_real_time_hybrid_se.Common.{
  ℕ, ◌≡◌, ◌⊎◌, inl, inr, refl, arith, Bool-cases, Option-cases, true, ◌==◌, List, [], ◌∷◌, none,
  length, if◌then◌else◌,
}
use near_real_time_hybrid_se.Common.Bytes.{Bytes}
use near_real_time_hybrid_se.Common.Trim.{trim_space, is_empty}
use near_real_time_hybrid_se.Cdc.Mapping.{ok}
use near_real_time_hybrid_se.Qdrant.{Float32, validate_vector, invalid_vector}
use near_real_time_hybrid_se.Qdrant.Points.{validate_vector_lem, usable, some_nonzero}
use near_real_time_hybrid_se.Qdrant.Points
use near_real_time_hybrid_se.Embedding.{Call, embed, read_reply, check_vector, all_finite}

module _ (f : Float32) where
  finite_lem : (v : List f.Value) → all_finite f v ≡ Points.all_finite f v
  unfolding all_finite
  finite_lem [] = refl
  finite_lem (x ∷ xs) = ground (arith, finite_lem xs)

  checked :
      (d : ℕ) (v : List f.Value)
      → check_vector f v d ≡ none
      → ((length v == d) ≡ true) × (all_finite f v ≡ true)
  unfolding check_vector
  checked d v h = ground (arith, h)

  read_checked :
      (d : ℕ) (vs : List (List f.Value)) {v : List f.Value}
      → read_reply f d vs ≡ ok v
      → check_vector f v d ≡ none
  unfolding read_reply
  read_checked d [] h = cc
  read_checked d (w ∷ x ∷ vs) h = cc
  read_checked d (w ∷ []) h = ground (arith, h)

  -- An answer of Embed is what the check of the response let pass.
  embed_read :
      (d : ℕ) (c : Call f) (text : Bytes) {v : List f.Value}
      → embed f d c text ≡ ok v
      → (vs : List (List f.Value)) × (read_reply f d vs ≡ ok v)
  unfolding embed
  embed_read d c text h = elim (Bool-cases (is_empty (trim_space text))) [
    | inl e ↦ cc
    | inr e ↦ elim (Option-cases c.before) [
      | inr (x, q) ↦ cc
      | inl q ↦ elim (reply_cases c.reply) [
        | inl (x, p) ↦ cc
        | inr (vs, p) ↦ (vs, ground (arith, e, q, p, h))
      ]
    ]
  ]
    where
      reply_cases : {A B : Type 0} (r : A ⊎ B) → ((a : A) × (r ≡ inl a)) ⊎ ((b : B) × (r ≡ inr b))
      reply_cases (inl a) = inl (a, refl)
      reply_cases (inr b) = inr (b, refl)

  -- What the check of a vector makes sure of.
  pub check_vector_fits :
      (d : ℕ) (v : List f.Value)
      → check_vector f v d ≡ none
      → (length v ≡ d)
        × (validate_vector f d v ≡ (if some_nonzero f v then none else invalid_vector))
  check_vector_fits d v h =
      let (a, b) = checked d v h in
      (ground (arith, a), ground (arith, a, b, validate_vector_lem f d v, finite_lem v))

  -- A vector that Embed returns has the provider's dimension, and in a collection of that dimension the
  -- vector index accepts it, unless all of its numbers are zero; then it refuses it with
  -- ErrInvalidVector.
  pub embed_fits :
      (d : ℕ) (c : Call f) (text : Bytes) (v : List f.Value)
      → embed f d c text ≡ ok v
      → (length v ≡ d)
        × (validate_vector f d v ≡ (if some_nonzero f v then none else invalid_vector))
  embed_fits d c text v h =
      let (vs, e) = embed_read d c text h in check_vector_fits d v (read_checked d vs e)
