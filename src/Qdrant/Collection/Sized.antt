-- ===== src/Qdrant/Collection/Sized.antt =====
-- What EnsureCollection makes sure of (internal/search/qdrant/collection.go).
use near_real_time_hybrid_se.Common.{
  ℕ, ◌≡◌, refl, ap, ◌∙◌, Bool, true, false, Option, none, some, ◌⊎◌, inl, inr, arith,
}
use near_real_time_hybrid_se.Errors.{Err, Code}
use near_real_time_hybrid_se.Qdrant.Collection.{
  VectorParams, CollectionApi, check_vector_params, wanted, read_params, after_failure,
  after_create, after_exists, check_collection, create_collection, ensure_collection,
}

-- Documented behaviour of the SDK, for what the collection is in a state, none if there is no
-- collection: a creation that works has made it with its parameters, and what is read is its parameters.
pub record Laws {S : Type 0} (api : CollectionApi S) : Type 0 where
  pub collection : S → Option (Option VectorParams)
  pub created :
      (p : VectorParams) (s : S)
      → (api.create p s).0 ≡ none
      → collection (api.create p s).1 ≡ some (some p)
  pub read :
      (s : S) (p : Option VectorParams)
      → (api.info s).0 ≡ inr p
      → collection (api.info s).1 ≡ some p

-- While no other client acts, the questions leave the collection as it is and say whether there is one.
pub record Alone {S : Type 0} (api : CollectionApi S) (laws : Laws api) : Type 0 where
  pub exists_keeps : (s : S) → laws.collection (api.exists s).1 ≡ laws.collection s
  pub found : (s : S) → (api.exists s).0 ≡ inr false → laws.collection s ≡ none
  pub info_keeps : (s : S) → laws.collection (api.info s).1 ≡ laws.collection s

module _ {S : Type 0} (api : CollectionApi S) (size : ℕ) (laws : Laws api) where
  params_lem :
      (p : Option VectorParams) → check_vector_params p size ≡ true → p ≡ some (wanted api size)
  unfolding check_vector_params
  params_lem p h = ground (arith, h)

  read_params-none :
      (r : (Code × Err) ⊎ Option VectorParams)
      → read_params api size r ≡ none
      → r ≡ inr (some (wanted api size))
  read_params-none (inl f) h = cc
  read_params-none (inr p) h = ap inr (params_lem p (ground (arith, h)))

  check_collection-sized :
      (s : S)
      → (check_collection api size s).0 ≡ none
      → laws.collection (check_collection api size s).1 ≡ some (some (wanted api size))
  unfolding check_collection
  check_collection-sized s h =
      laws.read s (some (wanted api size)) (read_params-none (api.info s).0 h)

  create_collection-sized :
      (s : S)
      → (create_collection api size s).0 ≡ none
      → laws.collection (create_collection api size s).1 ≡ some (some (wanted api size))
  unfolding create_collection
  create_collection-sized s h = go (api.create (wanted api size) s).0 refl h
    where
      s' : S
      s' = (api.create (wanted api size) s).1

      again :
          (f : Code × Err) (r : (Code × Err) ⊎ Bool)
          → (api.exists s').0 ≡ r
          → (after_failure api size f r (api.exists s').1).0 ≡ none
          → laws.collection (after_failure api size f r (api.exists s').1).1
            ≡ some (some (wanted api size))
      again f (inl e) q k = cc
      again f (inr true) q k = check_collection-sized (api.exists s').1 k
      again f (inr false) q k = cc

      go :
          (r : Option (Code × Err))
          → (api.create (wanted api size) s).0 ≡ r
          → (after_create api size r s').0 ≡ none
          → laws.collection (after_create api size r s').1 ≡ some (some (wanted api size))
      go none e k = laws.created (wanted api size) s e
      go (some f) e k = again f (api.exists s').0 refl k

  -- When EnsureCollection returns nil, the collection exists, and its points have one unnamed vector of
  -- the configured size that is compared by the cosine.
  pub ensure_collection-sized :
      (s : S)
      → (ensure_collection api size s).0 ≡ none
      → laws.collection (ensure_collection api size s).1 ≡ some (some (wanted api size))
  unfolding ensure_collection
  ensure_collection-sized s h = go (api.exists s).0 h
    where
      s' : S
      s' = (api.exists s).1

      go :
          (r : (Code × Err) ⊎ Bool)
          → (after_exists api size r s').0 ≡ none
          → laws.collection (after_exists api size r s').1 ≡ some (some (wanted api size))
      go (inl f) k = cc
      go (inr true) k = check_collection-sized s' k
      go (inr false) k = create_collection-sized s' k

  -- While no other client acts, a collection that exists is the same afterwards, whatever
  -- EnsureCollection returns.
  ensure_collection-keeps :
      Alone api laws
      → (s : S) (p : Option VectorParams) → laws.collection s ≡ some p
      → laws.collection (ensure_collection api size s).1 ≡ some p
  unfolding ensure_collection
  ensure_collection-keeps a s p e = kept (api.exists s).0 refl
    where
      s' : S
      s' = (api.exists s).1

      kept :
          (r : (Code × Err) ⊎ Bool)
          → (api.exists s).0 ≡ r
          → laws.collection (after_exists api size r s').1 ≡ some p
      kept (inl f) q = a.exists_keeps s ∙ e
      kept (inr true) q = unfold check_collection in a.info_keeps s' ∙ a.exists_keeps s ∙ e
      kept (inr false) q = let n = a.found s q in absurd (cc n)
