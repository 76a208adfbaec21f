-- ===== src/Qdrant/RoundTrip.antt =====
-- Points that Upsert of internal/search/qdrant sent and that Search finds again.
use near_real_time_hybrid_se.Common.{
  ℕ, ◌≡◌, inl, inr, refl, ap, arith, Bool, true, false, ◌&&◌, List, [], ◌∷◌, map, Option, none,
  some, Bool-cases, if◌then◌else◌,
}
use near_real_time_hybrid_se.Common.Int.{ℤ, pos, ◌≤ℤ◌}
use near_real_time_hybrid_se.Common.Bytes.{Bytes, bytes_eq}
use near_real_time_hybrid_se.Common.Trim.{trim_space, is_empty}
use near_real_time_hybrid_se.Cdc.Mapping.{ok}
use near_real_time_hybrid_se.Qdrant.{
  Float32, Uuids, Point, Api, point_id, validate_id, validate_vector, to_point_struct,
  document_id_key, payload_of,
}
use near_real_time_hybrid_se.Qdrant.Payload.{entry_of, id_entry}
use near_real_time_hybrid_se.Qdrant.Search.{
  Value, null_value, unset_value, bool_value, integer_value, double_value, string_value,
  struct_value, list_value, Fields, end_fields, field, Values, end_values, item, Any, string_any,
  AnyMap, AnyList, map_any, list_any, entry, element, bind, from_value, from_value_map, from_values,
  get_string, uuid, ScoredPoint, SearchResult, result_of, to_results, Query, search,
  max_search_limit,
}

-- The kinds that fromValue converts.
unfoldable mutual
  pub supported : {F : Type 0} → Value F → Bool
  supported unset_value = false
  supported null_value = true
  supported (bool_value b) = true
  supported (integer_value n) = true
  supported (double_value x) = true
  supported (string_value s) = true
  supported (struct_value fs) = supported_map fs
  supported (list_value vs) = supported_all vs

  pub supported_map : {F : Type 0} → Fields F → Bool
  supported_map end_fields = true
  supported_map (field k v fs) = supported v && supported_map fs

  pub supported_all : {F : Type 0} → Values F → Bool
  supported_all end_values = true
  supported_all (item v vs) = supported v && supported_all vs

both : (a b : Bool) → (a && b) ≡ true → (a ≡ true) × (b ≡ true)
both a b h = ground arith

bound :
    {A B : Type 0} {o : Option A} {a : A} (k : A → Option B) {b : B}
    → o ≡ some a
    → k a ≡ some b
    → bind o k ≡ some b
bound k e h = ground (arith, e, h)

mutual
  unfolding supported from_value supported_map from_value_map supported_all from_values

  converted :
      {F : Type 0} (v : Value F) → supported v ≡ true → (a : Any F) × (from_value v ≡ some a)
  converted unset_value h = cc
  converted null_value h = (_, refl)
  converted (bool_value b) h = (_, refl)
  converted (integer_value n) h = (_, refl)
  converted (double_value x) h = (_, refl)
  converted (string_value s) h = (_, refl)
  converted (struct_value fs) h = let (m, e) = converted_map fs h in (map_any m, bound _ e refl)
  converted (list_value vs) h = let (l, e) = converted_all vs h in (list_any l, bound _ e refl)

  converted_map :
      {F : Type 0} (fs : Fields F)
      → supported_map fs ≡ true
      → (m : AnyMap F) × (from_value_map fs ≡ some m)
  converted_map end_fields h = (_, refl)
  converted_map (field k v fs) h =
      let (a, b) = both (supported v) (supported_map fs) h in
      let (x, p) = converted v a in
      let (m, q) = converted_map fs b in (entry k x m, bound _ p (bound _ q refl))

  converted_all :
      {F : Type 0} (vs : Values F)
      → supported_all vs ≡ true
      → (l : AnyList F) × (from_values vs ≡ some l)
  converted_all end_values h = (_, refl)
  converted_all (item v vs) h =
      let (a, b) = both (supported v) (supported_all vs) h in
      let (x, p) = converted v a in
      let (l, q) = converted_all vs b in (element x l, bound _ p (bound _ q refl))

-- A field of a payload.
unfoldable pub field_of : {F : Type 0} → Bytes → Fields F → Option (Value F)
unfolding bytes_eq
field_of key end_fields = none
field_of key (field k v fs) = let rest = field_of key fs in if bytes_eq k key then some v else rest

-- The string of a field survives the conversion.
kept :
    {F : Type 0} (key s : Bytes) (fs : Fields F)
    → supported_map fs ≡ true
    → field_of key fs ≡ some (string_value s)
    → (m : AnyMap F) × (from_value_map fs ≡ some m) × (get_string key m ≡ s)
unfolding field_of get_string from_value_map supported_map
kept key s end_fields h e = cc
kept key s (field k v fs) h e =
    let (a, b) = both (supported v) (supported_map fs) h in
    elim (Bool-cases (bytes_eq k key)) [
      | inl t ↦
          let same : v ≡ string_value s = ground (arith, t, e) in
          let (m, q) = converted_map fs b in
          (
            entry k (string_any s) m,
            bound _ (ap from_value same) (bound _ q refl),
            ground (arith, t),
          )
      | inr t ↦
          let (x, p) = converted v a in
          let (m, q, g) = kept key s fs b (ground (arith, t, e)) in
          (entry k x m, bound _ p (bound _ q refl), ground (arith, t, g))
    ]

blank_id : (id : Bytes) → validate_id id ≡ none → is_empty id ≡ false
unfolding validate_id trim_space is_empty
blank_id [] h = cc
blank_id (c ∷ cs) h = refl

module _ (f : Float32) {A S F : Type 0} (u : Uuids) (api : Api (List f.Value) A (Fields F) S) where
  -- What the SDK documents of TryValueMap: a string becomes a string value under its key, and every
  -- value is of a kind that can be read back.
  pub record IsValueMap : Type 0 where
    pub string_field :
        (payload : List (Bytes × A)) (fs : Fields F) (key text : Bytes)
        → api.values payload ≡ ok fs
        → entry_of key payload ≡ some (api.text text)
        → field_of key fs ≡ some (string_value text)
    pub readable :
        (payload : List (Bytes × A)) (fs : Fields F)
        → api.values payload ≡ ok fs
        → supported_map fs ≡ true

  -- A document's point as Upsert sends it, and its score in a search.
  pub record Found : Type 0 where
    pub point : Point (List f.Value) A
    pub fields : Fields F
    pub score : F
    pub has_id : validate_id point.id ≡ none
    pub sent :
        to_point_struct f u api point
        ≡ ok (record { id = point_id u point.id; vector = point.vector; payload = fields })

  abbrev pub scored : Found → ScoredPoint F
  scored d = record { id = uuid (point_id u d.point.id); score = d.score; payload = d.fields }

  values_sent : (d : Found) → api.values (payload_of f u api d.point) ≡ ok d.fields
  unfolding to_point_struct
  values_sent d = ground (arith, d.sent)

  module _ (w : IsValueMap) (format_uint : ℕ → Bytes) where
    payload_read :
        (d : Found)
        → (m : AnyMap F) × (from_value_map d.fields ≡ some m)
          × ((result_of format_uint (scored d) m).id ≡ d.point.id)
    unfolding result_of
    payload_read d =
        let e = values_sent d in
        let (m, q, g) =
          kept document_id_key d.point.id d.fields
            (w.readable (payload_of f u api d.point) d.fields e)
            (w.string_field (payload_of f u api d.point) d.fields document_id_key d.point.id e
              (id_entry f u api d.point)) in
        (m, q, ground (arith, g, blank_id d.point.id d.has_id))

    results_read :
        (ds : List Found)
        → (rs : List (SearchResult F)) × (to_results format_uint (map scored ds) ≡ ok rs)
          × (map (λ x. x.id) rs ≡ map (λ d. d.point.id) ds)
    unfolding to_results
    results_read [] = ([], refl, refl)
    results_read (d ∷ ds) =
        let (m, q, g) = payload_read d in
        let (rs, p, i) = results_read ds in
        (result_of format_uint (scored d) m ∷ rs, ground (arith, q, p), ground (arith, g, i))

    -- If the collection answers a search with points that Upsert sent for documents whose IDs it
    -- accepts, then Search, called with a vector that it accepts and a limit from 1 to 100, returns
    -- results with the IDs of those documents, as they were given to Upsert, in the order of the
    -- answer; the UUIDs of the points do not show.
    pub search_finds_ids :
        (query : Query f.Value F) (size : ℕ) (vector : List f.Value) (limit : ℤ) (ds : List Found)
        → validate_vector f size vector ≡ none
        → pos 1 ≤ℤ limit
        → limit ≤ℤ max_search_limit
        → query vector limit ≡ inr (map scored ds)
        → (rs : List (SearchResult F)) × (search f format_uint query size vector limit ≡ ok rs)
          × (map (λ x. x.id) rs ≡ map (λ d. d.point.id) ds)
    unfolding search
    search_finds_ids query size vector limit ds a l b q =
        let (rs, p, i) = results_read ds in (rs, ground (arith, a, l, b, q, p), i)
