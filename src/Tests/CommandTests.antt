-- ===== src/Tests/CommandTests.antt =====
-- A start with Gemini's vectors of two numbers, against a server that has no collection yet.
use near_real_time_hybrid_se.Common.{
  arith, true, false, ◌≡◌, refl, Bool, length, Option, none, some, inl, inr, if◌then◌else◌,
}
use near_real_time_hybrid_se.Common.Int.{pos}
use near_real_time_hybrid_se.Common.Bytes.{codes}
use near_real_time_hybrid_se.Errors.{Code, foreign, wrap}
use near_real_time_hybrid_se.OpenSearch.Setup.{contains_any}
use near_real_time_hybrid_se.Qdrant.{validate_vector, invalid_vector}
use near_real_time_hybrid_se.Qdrant.Points.{some_nonzero}
use near_real_time_hybrid_se.Qdrant.Collection.{
  VectorParams, CollectionApi, wanted, ensure_collection, create_collection, check_collection,
  validate_collection_name, bad_character, other_metric, check_vector_params, mismatch,
}
use near_real_time_hybrid_se.Qdrant.Collection.Sized.{Laws}
use near_real_time_hybrid_se.Commands.{gemini, check_embedder, provider_embed}
use near_real_time_hybrid_se.OpenSearch.{answer, failure}
use near_real_time_hybrid_se.OpenSearch.Setup.{IndexApi, ensure_index, index_exists, create_index}
use near_real_time_hybrid_se.Indexer.Setup.{IndexLaws, ensure_stores, ensure_stores_ready}
use near_real_time_hybrid_se.Commands.Fits.{start_fits}
use near_real_time_hybrid_se.Tests.QdrantTests.{floats}
use near_real_time_hybrid_se.Tests.EmbeddingTests.{numbers, answered, embedded}

-- The state is the parameters of the collection, if there is one.
abbrev server : CollectionApi (Option VectorParams)
server = record {
  exists = λ s. elim s [ none ↦ (inr Bool.false, none) | some p ↦ (inr Bool.true, some p) ];
  create = λ p s. (none, some p);
  info = λ s. elim s [
    | none ↦ (inl (Code.other_code, foreign 1 Bool.true), none)
    | some p ↦ (inr (some p), some p)
  ];
}

abbrev held : Option VectorParams → Option (Option VectorParams)
held none = none
held (some p) = some (some p)

held_read :
    (s : Option VectorParams) (p : Option VectorParams)
    → (server.info s).0 ≡ inr p
    → held (server.info s).1 ≡ some p
held_read none p h = cc
held_read (some q) p h = cc

server-Laws : Laws server
server-Laws = record { collection = held; created = λ p s h. refl; read = held_read }

created : (ensure_collection server 2 none).0 ≡ none
unfolding ensure_collection create_collection
created = refl

start_fits_example :
    (server-Laws.collection (ensure_collection server 2 none).1 ≡ some (some (wanted server 2)))
    × (length numbers ≡ 2)
    × (validate_vector floats 2 numbers
        ≡ (if some_nonzero floats numbers then none else invalid_vector))
unfolding check_embedder provider_embed
start_fits_example =
    start_fits server server-Laws none (codes "production") 2 (gemini (pos 2) answered) (codes "go")
      numbers created refl embedded

-- A collection of other vectors is refused.
other_vectors :
    (ensure_collection server 2 (some (record { size = 3; metric = other_metric }))).0
    ≡ some (wrap mismatch)
unfolding ensure_collection check_collection check_vector_params
other_vectors = refl

names :
    (validate_collection_name (codes "a/b") ≡ some bad_character)
    × (validate_collection_name (codes "documents") ≡ none)
unfolding validate_collection_name contains_any
names = (refl, refl)

-- A keyword index that is there or not, and both stores made at the start.
abbrev documents : IndexApi Bool
documents = record {
  exists = λ k. if k then (answer tt, k) else (failure 404 (foreign 2 false), k);
  create = λ k. (answer tt, true);
}

documents-IndexLaws : IndexLaws documents
documents-IndexLaws = record {
  has_index = λ k. k;
  found = λ k u h. ground arith;
  created = λ k u h. refl;
}

both_ready :
    (documents-IndexLaws.has_index (ensure_stores documents server 2 (false, none)).1.0 ≡ true)
    × (server-Laws.collection (ensure_stores documents server 2 (false, none)).1.1
        ≡ some (some (wanted server 2)))
unfolding ensure_stores ensure_index index_exists create_index ensure_collection create_collection
both_ready = ensure_stores_ready documents server 2 documents-IndexLaws server-Laws false none refl
