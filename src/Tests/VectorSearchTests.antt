-- ===== src/Tests/VectorSearchTests.antt =====
-- A search that finds a document which was stored with one more column.
use near_real_time_hybrid_se.Common.{
  ℕ, ◌≡◌, refl, arith, Bool, true, false, List, [], ◌∷◌, map, none, some, subst, ◌∙◌, inr,
  if◌then◌else◌,
}
use near_real_time_hybrid_se.Errors.{opaque}
use near_real_time_hybrid_se.Common.Int.{pos}
use near_real_time_hybrid_se.Common.Bytes.{Bytes, bytes_eq, codes}
use near_real_time_hybrid_se.Common.Trim.{trim_space}
use near_real_time_hybrid_se.Cdc.Mapping.{Result, ok, err}
use near_real_time_hybrid_se.Qdrant.{
  Api, to_point_struct, validate_id, validate_vector, document_id_key,
}
use near_real_time_hybrid_se.Qdrant.Search.{
  string_value, integer_value, unset_value, Fields, field, end_fields, SearchResult, Query, search,
  Value,
}
use near_real_time_hybrid_se.Qdrant.Payload.{entry_of}
use near_real_time_hybrid_se.Qdrant.RoundTrip.{
  supported_map, field_of, IsValueMap, Found, scored, search_finds_ids,
}
use near_real_time_hybrid_se.Tests.QdrantTests.{floats, uuids}

-- The SDK: a payload's values are those of the index already, and one of no known kind is refused.
abbrev to_fields : List (Bytes × Value ℕ) → Fields ℕ
to_fields [] = end_fields
to_fields (e ∷ es) = field e.0 e.1 (to_fields es)

abbrev sdk : Api (List ℕ) (Value ℕ) (Fields ℕ) (Unit {0})
unfolding supported_map
sdk = record {
  text = string_value;
  values = λ m. if supported_map (to_fields m) then ok (to_fields m) else err (opaque 1);
  upsert = λ p s. (none, s);
  delete = λ j s. (none, s);
}

fields_lookup :
    (key : Bytes) (m : List (Bytes × Value ℕ)) → field_of key (to_fields m) ≡ entry_of key m
unfolding field_of entry_of bytes_eq
fields_lookup key [] = refl
fields_lookup key (e ∷ es) = rw (fields_lookup key es) refl

chosen :
    (b : Bool) (x y : Fields ℕ) → (if b then ok x else err (opaque 1)) ≡ ok y → (b ≡ true) × (x ≡ y)
chosen true x y h = (refl, ground (arith, h))
chosen false x y h = cc

accepted :
    (m : List (Bytes × Value ℕ)) (fs : Fields ℕ)
    → sdk.values m ≡ ok fs
    → (supported_map (to_fields m) ≡ true) × (to_fields m ≡ fs)
unfolding sdk
accepted m fs h = chosen (supported_map (to_fields m)) (to_fields m) fs h

sdk-IsValueMap : IsValueMap floats uuids sdk
unfolding sdk
sdk-IsValueMap = record {
  string_field = λ m fs key t h e.
      subst (λ x. field_of key x ≡ some (string_value t)) (accepted m fs h).1
        (fields_lookup key m ∙ e);
  readable = λ m fs h. let (q, e) = accepted m fs h in subst (λ x. supported_map x ≡ true) e q;
}

abbrev found : Found floats uuids sdk
unfolding validate_id trim_space to_point_struct bytes_eq sdk
found = record {
  point = record {
    id = codes "d1";
    vector = 0 ∷ 3 ∷ [];
    payload = (codes "page", integer_value (pos 5)) ∷ [];
  };
  fields =
      field (codes "page") (integer_value (pos 5))
        (field document_id_key (string_value (codes "d1")) end_fields);
  score = 7;
  has_id = refl;
  sent = refl;
}

abbrev finds : Query ℕ ℕ
finds v n = inr (scored floats uuids sdk found ∷ [])

search_finds_ids_example :
    (rs : List (SearchResult ℕ)) × (search floats (λ n. n ∷ []) finds 2 (1 ∷ 1 ∷ []) (pos 10)
      ≡ ok rs)
    × (map (λ x. x.id) rs ≡ codes "d1" ∷ [])
unfolding validate_vector found sdk
search_finds_ids_example =
    search_finds_ids floats uuids sdk sdk-IsValueMap (λ n. n ∷ []) finds 2 (1 ∷ 1 ∷ []) (pos 10)
      (found ∷ []) refl (omega arith) (omega arith) refl

-- A value of a kind that is not known fails the search, and the limit is checked.
abbrev strange : Query ℕ ℕ
strange v n = inr (
    record (scored floats uuids sdk found) { payload = field (codes "x") unset_value end_fields }
    ∷ [])

abbrev is_ok : {A : Type 0} → Result A → Bool
is_ok (ok a) = true
is_ok (err e) = false

refusals :
    (is_ok (search floats (λ n. n ∷ []) strange 2 (1 ∷ 1 ∷ []) (pos 10)) ≡ false)
    × (is_ok (search floats (λ n. n ∷ []) finds 2 (1 ∷ 1 ∷ []) (pos 101)) ≡ false)
unfolding search found sdk
refusals = (refl, refl)
