-- ===== src/Indexer/Setup.antt =====
-- internal/indexing/indexer.go, EnsureStores: the keyword index, then the vector collection. The two
-- servers are states of their own.
use near_real_time_hybrid_se.Common.{ℕ, ◌≡◌, refl, Bool, true, Option, none, some, arith}
use near_real_time_hybrid_se.Errors.{Err, wrap}
use near_real_time_hybrid_se.Cdc.Mapping.{ok}
use near_real_time_hybrid_se.OpenSearch.{Reply, answer, failure}
use near_real_time_hybrid_se.OpenSearch.Setup.{
  IndexApi, ensure_index, index_exists, create_index, read_exists,
}
use near_real_time_hybrid_se.Qdrant.Collection.{CollectionApi, wanted, ensure_collection}
use near_real_time_hybrid_se.Qdrant.Collection.Sized.{Laws, ensure_collection-sized}

abbrev pub wrapped : Option Err → Option Err
wrapped none = none
wrapped (some e) = some (wrap e)

-- Documented behaviour of the SDK: a question that is answered without an error has found the index, and
-- a creation that works has made it.
pub record IndexLaws {K : Type 0} (api : IndexApi K) : Type 0 where
  pub has_index : K → Bool
  pub found :
      (k : K) (u : Unit {0}) → (api.exists k).0 ≡ answer u → has_index (api.exists k).1 ≡ true
  pub created :
      (k : K) (u : Unit {0}) → (api.create k).0 ≡ answer u → has_index (api.create k).1 ≡ true

module _ {K V : Type 0} (kw : IndexApi K) (api : CollectionApi V) (size : ℕ) where
  unfoldable pub ensure_stores : K × V → Option Err × (K × V)
  unfolding ensure_index ensure_collection
  ensure_stores (k, v) =
      let (e, k') = ensure_index kw k in
      elim e [
        | some x ↦ (some (wrap x), (k', v))
        | none ↦ let (y, v') = ensure_collection api size v in (wrapped y, (k', v'))
      ]

  module _ (found : IndexLaws kw) (laws : Laws api) where
    exists_found :
        (k : K) → (index_exists kw k).0 ≡ ok true → found.has_index (index_exists kw k).1 ≡ true
    unfolding index_exists
    exists_found k h = go (kw.exists k).0 refl h
      where
        go :
            (r : Reply (Unit {0}))
            → (kw.exists k).0 ≡ r
            → read_exists kw r ≡ ok true
            → found.has_index (kw.exists k).1 ≡ true
        go (answer u) q w = found.found k u q
        go (failure c e) q w = absurd (ground (arith, w))

    create_found :
        (k : K) → (create_index kw k).0 ≡ none → found.has_index (create_index kw k).1 ≡ true
    unfolding create_index
    create_found k h = ground (arith, h, found.created k tt, exists_found (kw.create k).1)

    index_found :
        (k : K) → (ensure_index kw k).0 ≡ none → found.has_index (ensure_index kw k).1 ≡ true
    unfolding ensure_index
    index_found k h = ground (arith, h, exists_found k, create_found (index_exists kw k).1)

    -- When EnsureStores returns nil, the keyword index exists, and the collection exists with one
    -- unnamed vector of the configured size that is compared by the cosine.
    pub ensure_stores_ready :
        (k : K) (v : V)
        → (ensure_stores (k, v)).0 ≡ none
        → (found.has_index (ensure_stores (k, v)).1.0 ≡ true)
          × (laws.collection (ensure_stores (k, v)).1.1 ≡ some (some (wanted api size)))
    unfolding ensure_stores
    ensure_stores_ready k v h =
        ground (arith, h, index_found k, ensure_collection-sized api size laws v)
