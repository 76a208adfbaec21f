-- ===== src/Qdrant.antt =====
-- internal/search/qdrant/point.go and client.go: points of documents in the vector index.
-- The SDK is a parameter with the state `S` of the collection; each call works, or fails with a gRPC
-- code. float32 and the UUIDs of package uuid are parameters too. `A` is the type `any` of the values of a
-- payload, which is a list of keys and values, and `Values` that of the SDK's payloads.
pub mod Payload
pub mod Points
pub mod Search
pub mod RoundTrip
pub mod Collection
use near_real_time_hybrid_se.Common.{
  ℕ, Bool, true, false, not, ◌&&◌, ◌||◌, ◌==◌, List, [], ◌∷◌, Option, none, some, length,
  if◌then◌else◌,
}
use near_real_time_hybrid_se.Common.Bytes.{Bytes, bytes_eq, codes}
use near_real_time_hybrid_se.Common.Trim.{trim_space, is_empty}
use near_real_time_hybrid_se.Errors.{
  Err, Code, Sentinel, sentinel, wrap, wraps, cons, nil, vector_request,
}
use near_real_time_hybrid_se.Cdc.Mapping.{Result, ok, err}

-- float32: the tests of validateVector.
pub record Float32 : Type 1 where
  pub Value : Type 0
  pub is_nan : Value → Bool
  pub is_inf : Value → Bool
  pub is_zero : Value → Bool

-- `canonical` is uuid.Parse followed by String; `name_uuid` is uuid.NewSHA1 in idNamespace.
pub record Uuids : Type 0 where
  pub canonical : Bytes → Option Bytes
  pub name_uuid : Bytes → Bytes

unfoldable pub point_id : Uuids → Bytes → Bytes
unfolding bytes_eq
point_id u id = elim (u.canonical id) [
  | some c ↦ if bytes_eq c id then id else u.name_uuid id
  | none ↦ u.name_uuid id
]

-- The payload field that holds the document's ID.
abbrev pub document_id_key : Bytes
document_id_key = codes "document_id"

pub record Point (Vec A : Type 0) : Type 0 where
  pub id : Bytes
  pub vector : Vec
  pub payload : List (Bytes × A)

pub record PointStruct (Vec Values : Type 0) : Type 0 where
  pub id : Bytes
  pub vector : Vec
  pub payload : Values

-- The SDK for the collection; `values` is TryValueMap. `text` is a string as an `any`.
pub record Api (Vec A Values S : Type 0) : Type 0 where
  pub text : Bytes → A
  pub values : List (Bytes × A) → Result Values
  pub upsert : PointStruct Vec Values → S → Option (Code × Err) × S
  pub delete : Bytes → S → Option (Code × Err) × S

-- payload[key] = value.
unfoldable pub set_entry : {A : Type 0} → Bytes → A → List (Bytes × A) → List (Bytes × A)
unfolding bytes_eq
set_entry key value [] = (key, value) ∷ []
set_entry key value (e ∷ es) =
    let rest = set_entry key value es in if bytes_eq e.0 key then (key, value) ∷ es else e ∷ rest

-- The loop of toPointStruct that copies the entries into a new map.
unfoldable pub copy_entries : {A : Type 0} → List (Bytes × A) → List (Bytes × A) → List (Bytes × A)
unfolding set_entry
copy_entries [] payload = payload
copy_entries (e ∷ es) payload = copy_entries es (set_entry e.0 e.1 payload)

unfoldable pub validate_id : Bytes → Option Err
unfolding trim_space is_empty
validate_id id =
    if is_empty (trim_space id) then some (wrap (sentinel Sentinel.invalid_point)) else none

-- newRequestError inside fmt.Errorf.
abbrev pub request_error : Option (Code × Err) → Option Err
request_error none = none
request_error (some f) = some (wrap (vector_request f.0 f.1))

abbrev pub invalid_vector : Option Err
invalid_vector = some (wrap (sentinel Sentinel.invalid_vector))

module _ (f : Float32) where
  -- The loop of validateVector, with its variable `allZero`.
  unfoldable pub scan_values : Bool → List f.Value → Option Err
  scan_values all_zero [] = if all_zero then invalid_vector else none
  scan_values all_zero (x ∷ xs) =
      let rest = scan_values (all_zero && f.is_zero x) xs in
      if f.is_nan x || f.is_inf x then invalid_vector else rest

  unfoldable pub validate_vector : ℕ → List f.Value → Option Err
  unfolding scan_values
  validate_vector size v = if length v == size then scan_values true v else invalid_vector

  module _ {A Values S : Type 0} (u : Uuids) (api : Api (List f.Value) A Values S) where
    -- The payload that toPointStruct converts.
    unfoldable pub payload_of : Point (List f.Value) A → List (Bytes × A)
    unfolding set_entry copy_entries
    payload_of p = set_entry document_id_key (api.text p.id) (copy_entries p.payload [])

    unfoldable pub to_point_struct :
        Point (List f.Value) A → Result (PointStruct (List f.Value) Values)
    unfolding point_id payload_of
    to_point_struct p = elim (api.values (payload_of p)) [
      | err e ↦ err (wraps (cons (sentinel Sentinel.invalid_point) (cons e nil)))
      | ok vs ↦ ok (record { id = point_id u p.id; vector = p.vector; payload = vs })
    ]

    -- Client.Upsert.
    unfoldable pub upsert : ℕ → Point (List f.Value) A → S → Option Err × S
    unfolding validate_id validate_vector to_point_struct
    upsert size p s = elim (validate_id p.id) [
      | some e ↦ (some e, s)
      | none ↦ elim (validate_vector size p.vector) [
        | some e ↦ (some (wrap e), s)
        | none ↦ elim (to_point_struct p) [
          | err e ↦ (some (wrap e), s)
          | ok point ↦ let (r, s') = api.upsert point s in (request_error r, s')
        ]
      ]
    ]

    -- Client.Delete.
    unfoldable pub delete : Bytes → S → Option Err × S
    unfolding validate_id point_id
    delete id s = elim (validate_id id) [
      | some e ↦ (some e, s)
      | none ↦ let (r, s') = api.delete (point_id u id) s in (request_error r, s')
    ]
