-- ===== src/Tests/QdrantTests.antt =====
-- A collection as an association list, with vectors of numbers in which 9 is no number.
use near_real_time_hybrid_se.Common.{
  ℕ, ◌≡◌, ◌≢◌, refl, ◌==◌, List, length, [], ◌∷◌, Option, none, some, arith, if◌then◌else◌,
}
use near_real_time_hybrid_se.Common.Bytes.{Bytes, codes, bytes_eq, bytes_eq_iff}
use near_real_time_hybrid_se.Common.Trim.{trim_space}
use near_real_time_hybrid_se.Cdc.Mapping.{ok}
use near_real_time_hybrid_se.Qdrant.{
  Float32, Uuids, Point, PointStruct, Api, point_id, payload_of, document_id_key, set_entry,
  copy_entries, upsert, delete,
}
use near_real_time_hybrid_se.Qdrant.Payload.{entry_of, IsMap}
use near_real_time_hybrid_se.Qdrant.Points.{IsCollection, point_of, upsert_replaces}

abbrev pub floats : Float32
floats = record { Value = ℕ; is_nan = λ x. x == 9; is_inf = λ x. x == 8; is_zero = λ x. x == 0 }

-- No ID is a UUID here; the derived ones start with 0.
abbrev pub uuids : Uuids
uuids = record { canonical = λ id. none; name_uuid = λ id. 0 ∷ id }

abbrev Payload : Type 0
Payload = List (Bytes × ℕ)

abbrev Entry : Type 0
Entry = PointStruct (List ℕ) Payload

abbrev find_point : Bytes → List Entry → Option Entry
unfolding bytes_eq
find_point j [] = none
find_point j (p ∷ ps) = if bytes_eq p.id j then some p else find_point j ps

abbrev drop_point : Bytes → List Entry → List Entry
unfolding bytes_eq
drop_point j [] = []
drop_point j (p ∷ ps) = let rest = drop_point j ps in if bytes_eq p.id j then rest else p ∷ rest

-- A value is a number, and a string its length.
abbrev api : Api (List ℕ) ℕ Payload (List Entry)
unfolding drop_point
api = record {
  text = length;
  values = λ m. ok m;
  upsert = λ p s. (none, p ∷ s);
  delete = λ j s. (none, drop_point j s);
}

find_dropped : (j : Bytes) (s : List Entry) → find_point j (drop_point j s) ≡ none
unfolding find_point drop_point
find_dropped j [] = refl
find_dropped j (p ∷ ps) = ground (arith, find_dropped j ps)

find_kept : (i j : Bytes) (s : List Entry) → j ≢ i → find_point j (drop_point i s) ≡ find_point j s
unfolding find_point drop_point
find_kept i j [] n = refl
find_kept i j (p ∷ ps) n =
    ground (arith, find_kept i j ps n, bytes_eq_iff p.id j, bytes_eq_iff p.id i, n)

api-IsCollection : IsCollection floats uuids api
unfolding api find_point
api-IsCollection = record {
  lookup = find_point;
  upsert_same = λ p s h. ground (arith, bytes_eq_iff p.id p.id);
  upsert_other = λ p s j h n. ground (arith, bytes_eq_iff p.id j, n);
  delete_same = λ j s h. find_dropped j s;
  delete_other = λ i s j h n. find_kept i j s n;
}

abbrev point : Point (List ℕ) ℕ
point = record { id = codes "d1"; vector = 0 ∷ 3 ∷ []; payload = (codes "page", 5) ∷ [] }

upserted : (upsert floats uuids api 2 point []).0 ≡ none
unfolding upsert api
upserted = refl

-- The IDs d1 and d2 and the UUIDs derived from them differ.
derived_apart : uuids.name_uuid (codes "d2") ≢ uuids.name_uuid (codes "d1")
derived_apart h = ground (arith, h)

second_apart : codes "d2" ≢ uuids.name_uuid (codes "d1")
second_apart h = ground (arith, h)

first_apart : codes "d1" ≢ uuids.name_uuid (codes "d2")
first_apart h = ground (arith, h)

other_key : codes "page" ≢ document_id_key
other_key h = ground (arith, h)

point-IsMap : IsMap point.payload
unfolding entry_of
point-IsMap = (refl, tt)

upsert_replaces_example :
    let payload = payload_of floats uuids api point in
    (vs : Payload) × (api.values payload ≡ ok vs)
    × (entry_of document_id_key payload ≡ some 2)
    × (entry_of (codes "page") payload ≡ entry_of (codes "page") point.payload)
    × (api-IsCollection.lookup (point_id uuids (codes "d1")) (upsert floats uuids api 2 point []).1
        ≡ some (point_of floats uuids api point vs))
    × (api-IsCollection.lookup (point_id uuids (codes "d2")) (upsert floats uuids api 2 point []).1
        ≡ api-IsCollection.lookup (point_id uuids (codes "d2")) [])
unfolding api
upsert_replaces_example =
    upsert_replaces floats uuids api api-IsCollection 2 point (codes "page") (codes "d2") []
      upserted point-IsMap other_key derived_apart second_apart first_apart

-- The document's ID is set, whatever the payload had there, and the caller's entries stay.
payload_test :
    payload_of floats uuids api
      (record point { payload = (codes "document_id", 7) ∷ (codes "page", 5) ∷ [] })
    ≡ (codes "document_id", 2) ∷ (codes "page", 5) ∷ []
unfolding payload_of set_entry copy_entries bytes_eq
payload_test = refl

deleted : (delete floats uuids api (codes "d1") []).0 ≡ none
unfolding delete api trim_space
deleted = refl

abbrev directionless : Point (List ℕ) ℕ
directionless = record { id = codes "d1"; vector = 0 ∷ 0 ∷ []; payload = (codes "page", 5) ∷ [] }
