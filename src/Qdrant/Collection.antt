-- ===== src/Qdrant/Collection.antt =====
-- internal/search/qdrant/collection.go and client.go: EnsureCollection, and the checks of the settings.
-- The SDK's calls for the client's collection are a parameter over a state `S`. A metric other than the
-- client's own is `other_metric`; an error of the settings stands without its text.
pub mod Sized
use near_real_time_hybrid_se.Common.{
  ℕ, ◌≡◌, Bool, true, false, not, ◌||◌, ◌==◌, Option, none, some, ◌⊎◌, inl, inr, ltb, length,
  if◌then◌else◌,
}
use near_real_time_hybrid_se.Common.Int.{ℤ, pos, ltb_ℤ}
use near_real_time_hybrid_se.Common.Bytes.{Bytes, codes}
use near_real_time_hybrid_se.Common.Trim.{trim_space, is_empty}
use near_real_time_hybrid_se.Errors.{Err, Code, wrap, opaque}
use near_real_time_hybrid_se.Config.{QdrantConfig}
use near_real_time_hybrid_se.OpenSearch.Setup.{contains_any}
use near_real_time_hybrid_se.Qdrant.{request_error}

-- maxVectorSize.
abbrev pub max_vector_size : ℤ
max_vector_size = pos 65536

-- The refusals of validateConfig and validateCollectionName, in the source's order.
pub data SetupError : Type 0 where
  no_host bad_port bad_vector_size no_name long_name bad_character : SetupError

unfoldable pub validate_collection_name : Bytes → Option SetupError
unfolding is_empty trim_space contains_any
validate_collection_name name =
    if is_empty (trim_space name)
    then some no_name
    else if ltb 255 (length name)
    then some long_name
    else if contains_any name (codes "<>:\"/\\|?*\0")
    then some bad_character
    else none

unfoldable pub validate_config : QdrantConfig → Option SetupError
unfolding is_empty validate_collection_name
validate_config cfg =
    if is_empty cfg.host
    then some no_host
    else if ltb_ℤ cfg.port (pos 1) || ltb_ℤ (pos 65535) cfg.port
    then some bad_port
    else if ltb_ℤ cfg.vector_size (pos 1) || ltb_ℤ max_vector_size cfg.vector_size
    then some bad_vector_size
    else validate_collection_name cfg.collection

pub data Metric : Type 0 where
  cosine other_metric : Metric

-- `distance`.
abbrev pub distance : Metric
distance = cosine

unfoldable pub is_distance : Metric → Bool
is_distance cosine = true
is_distance other_metric = false

-- The parameters of a collection's unnamed vector.
pub record VectorParams : Type 0 where
  pub size : ℕ
  pub metric : Metric

-- CollectionExists, CreateCollection and GetCollectionInfo, which finds no parameters if the vectors of
-- the collection are named.
pub record CollectionApi (S : Type 0) : Type 0 where
  pub exists : S → ((Code × Err) ⊎ Bool) × S
  pub create : VectorParams → S → Option (Code × Err) × S
  pub info : S → ((Code × Err) ⊎ Option VectorParams) × S

-- checkVectorParams, and whether it is satisfied.
unfoldable pub check_vector_params : Option VectorParams → ℕ → Bool
unfolding is_distance
check_vector_params none size = false
check_vector_params (some p) size =
    if not (p.size == size) then false else if not (is_distance p.metric) then false else true

-- The error of checkVectorParams.
abbrev pub mismatch : Err
mismatch = opaque 5

module _ {S : Type 0} (api : CollectionApi S) (size : ℕ) where
  abbrev pub wanted : VectorParams
  wanted = record { size = size; metric = distance }

  -- The end of EnsureCollection: an existing collection is only read.
  abbrev pub read_params : (Code × Err) ⊎ Option VectorParams → Option Err
  read_params (inl f) = request_error (some f)
  read_params (inr p) = if check_vector_params p size then none else some (wrap mismatch)

  unfoldable pub check_collection : S → Option Err × S
  unfolding check_vector_params
  check_collection s = let (reply, s') = api.info s in (read_params reply, s')

  -- After a refused creation another instance may have made the collection.
  abbrev pub after_failure : Code × Err → (Code × Err) ⊎ Bool → S → Option Err × S
  after_failure f (inl _) s = (request_error (some f), s)
  after_failure f (inr true) s = check_collection s
  after_failure f (inr false) s = (request_error (some f), s)

  abbrev pub after_create : Option (Code × Err) → S → Option Err × S
  after_create none s = (none, s)
  after_create (some f) s = let (reply, s') = api.exists s in after_failure f reply s'

  unfoldable pub create_collection : S → Option Err × S
  unfolding check_collection
  create_collection s = let (failure, s') = api.create wanted s in after_create failure s'

  abbrev pub after_exists : (Code × Err) ⊎ Bool → S → Option Err × S
  after_exists (inl f) s = (request_error (some f), s)
  after_exists (inr true) s = check_collection s
  after_exists (inr false) s = create_collection s

  unfoldable pub ensure_collection : S → Option Err × S
  unfolding create_collection check_collection
  ensure_collection s = let (reply, s') = api.exists s in after_exists reply s'
