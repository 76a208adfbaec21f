-- ===== src/Qdrant/Search.antt =====
-- internal/search/qdrant/search.go: Client.Search, and the conversion of payloads. float32 and float64
-- are parameters, and so are strconv.FormatUint and the SDK's Query. Go walks a payload's map in no
-- particular order; here it is a list, and an error stands for the one of any field.
use near_real_time_hybrid_se.Common.{
  ℕ, Bool, ◌||◌, List, [], ◌∷◌, Option, none, some, ◌⊎◌, inl, inr, if◌then◌else◌,
}
use near_real_time_hybrid_se.Common.Int.{ℤ, pos, ltb_ℤ}
use near_real_time_hybrid_se.Common.Bytes.{Bytes, bytes_eq}
use near_real_time_hybrid_se.Common.Trim.{is_empty}
use near_real_time_hybrid_se.Errors.{Err, Code, Sentinel, sentinel, wrap, opaque, vector_request}
use near_real_time_hybrid_se.Cdc.Mapping.{Result, ok, err}
use near_real_time_hybrid_se.Qdrant.{Float32, validate_vector, document_id_key}

-- qd.Value, with `unset_value` for any other kind, and the payload map.
mutual
  pub data Value (F : Type 0) : Type 0 where
    null_value unset_value : Value F
    bool_value : Bool → Value F
    integer_value : ℤ → Value F
    double_value : F → Value F
    string_value : Bytes → Value F
    struct_value : Fields F → Value F
    list_value : Values F → Value F

  pub data Fields (F : Type 0) : Type 0 where
    end_fields : Fields F
    field : Bytes → Value F → Fields F → Fields F

  pub data Values (F : Type 0) : Type 0 where
    end_values : Values F
    item : Value F → Values F → Values F

-- The plain Go values, with map[string]any and []any.
mutual
  pub data Any (F : Type 0) : Type 0 where
    nil_any : Any F
    bool_any : Bool → Any F
    int_any : ℤ → Any F
    float_any : F → Any F
    string_any : Bytes → Any F
    map_any : AnyMap F → Any F
    list_any : AnyList F → Any F

  pub data AnyMap (F : Type 0) : Type 0 where
    empty_map : AnyMap F
    entry : Bytes → Any F → AnyMap F → AnyMap F

  pub data AnyList (F : Type 0) : Type 0 where
    empty_list : AnyList F
    element : Any F → AnyList F → AnyList F

abbrev pub bind : {A B : Type 0} → Option A → (A → Option B) → Option B
bind none k = none
bind (some a) k = k a

-- fromValue and fromValueMap; none is an error.
unfoldable mutual
  pub from_value : {F : Type 0} → Value F → Option (Any F)
  from_value null_value = some nil_any
  from_value unset_value = none
  from_value (bool_value b) = some (bool_any b)
  from_value (integer_value n) = some (int_any n)
  from_value (double_value x) = some (float_any x)
  from_value (string_value s) = some (string_any s)
  from_value (struct_value fs) = bind (from_value_map fs) (λ m. some (map_any m))
  from_value (list_value vs) = bind (from_values vs) (λ l. some (list_any l))

  pub from_value_map : {F : Type 0} → Fields F → Option (AnyMap F)
  from_value_map end_fields = some empty_map
  from_value_map (field k v fs) =
      bind (from_value v) (λ a. bind (from_value_map fs) (λ m. some (entry k a m)))

  pub from_values : {F : Type 0} → Values F → Option (AnyList F)
  from_values end_values = some empty_list
  from_values (item v vs) =
      bind (from_value v) (λ a. bind (from_values vs) (λ l. some (element a l)))

-- `payload[key].(string)`: "" if the key is missing or no string.
abbrev string_or_empty : {F : Type 0} → Any F → Bytes
string_or_empty (string_any s) = s
string_or_empty a = []

unfoldable pub get_string : {F : Type 0} → Bytes → AnyMap F → Bytes
unfolding bytes_eq
get_string key empty_map = []
get_string key (entry k a m) =
    let rest = get_string key m in if bytes_eq k key then string_or_empty a else rest

-- qd.PointId, with formatPointID: GetUuid is "" for a number, and GetNum 0 for a UUID.
pub data PointId : Type 0 where
  uuid : Bytes → PointId
  num : ℕ → PointId

unfoldable pub format_point_id : (ℕ → Bytes) → PointId → Bytes
unfolding is_empty
format_point_id format_uint (uuid u) = if is_empty u then format_uint 0 else u
format_point_id format_uint (num n) = format_uint n

pub record ScoredPoint (F : Type 0) : Type 0 where
  pub id : PointId
  pub score : F
  pub payload : Fields F

pub record SearchResult (F : Type 0) : Type 0 where
  pub id : Bytes
  pub score : F
  pub payload : AnyMap F

module _ {F : Type 0} (format_uint : ℕ → Bytes) where
  unfoldable pub result_of : ScoredPoint F → AnyMap F → SearchResult F
  unfolding get_string is_empty format_point_id
  result_of p m =
      let id = get_string document_id_key m in
      record {
        id = if is_empty id then format_point_id format_uint p.id else id;
        score = p.score;
        payload = m;
      }

  unfoldable pub to_results : List (ScoredPoint F) → Result (List (SearchResult F))
  unfolding from_value_map result_of
  to_results [] = ok []
  to_results (p ∷ ps) = elim (from_value_map p.payload) [
    | none ↦ err (wrap (opaque 3))
    | some m ↦ elim (to_results ps) [ err e ↦ err e | ok rs ↦ ok (result_of p m ∷ rs) ]
  ]

abbrev pub max_search_limit : ℤ
max_search_limit = pos 100

abbrev pub invalid_limit : {A : Type 0} → Result A
invalid_limit = err (wrap (sentinel Sentinel.invalid_search_limit))

-- The SDK's Query for the collection: the points, or a gRPC code and a cause.
abbrev pub Query : Type 0 → Type 0 → Type 0
Query V F = List V → ℤ → (Code × Err) ⊎ List (ScoredPoint F)

module _ (f : Float32) {F : Type 0} (format_uint : ℕ → Bytes) (query : Query f.Value F) where
  -- Client.Search, with the dimension of the collection.
  unfoldable pub search : ℕ → List f.Value → ℤ → Result (List (SearchResult F))
  unfolding validate_vector to_results
  search size vector limit = elim (validate_vector f size vector) [
    | some e ↦ err e
    | none ↦
        if ltb_ℤ limit (pos 1) || ltb_ℤ max_search_limit limit
        then invalid_limit
        else elim (query vector limit) [
          | inl (c, e) ↦ err (wrap (vector_request c e))
          | inr points ↦ to_results format_uint points
        ]
  ]
