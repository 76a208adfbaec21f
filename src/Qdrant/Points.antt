-- ===== src/Qdrant/Points.antt =====
-- Which points are sent to Qdrant, and what the collection holds for a document afterwards.
use near_real_time_hybrid_se.Common.{
  ℕ, ◌≡◌, ◌≢◌, refl, sym, ap, ◌∙◌, ◌⊎◌, inl, inr, Bool, true, false, not, ◌&&◌, ◌||◌, ◌==◌, List,
  [], ◌∷◌, Option, none, some, arith, length, if◌then◌else◌, Bool-cases, Option-cases,
}
use near_real_time_hybrid_se.Common.Bytes.{Bytes, bytes_eq_iff}
use near_real_time_hybrid_se.Common.Trim.{is_empty, trim_space}
use near_real_time_hybrid_se.Errors.{Err, Sentinel, sentinel, wrap, is, find}
use near_real_time_hybrid_se.Retry.{non_retryable}
use near_real_time_hybrid_se.Classify.{classify_error, classify_vector}
use near_real_time_hybrid_se.Cdc.Mapping.{ok, Result-cases}
use near_real_time_hybrid_se.Qdrant.{
  Float32, Uuids, Point, PointStruct, Api, point_id, validate_id, validate_vector, scan_values,
  invalid_vector, payload_of, document_id_key, to_point_struct, upsert, delete,
}
use near_real_time_hybrid_se.Qdrant.Payload.{entry_of, IsMap, id_entry, payload_of-other}

module _ (f : Float32) where
  -- The reference: every value is a number and finite, and some value is not zero.
  abbrev pub all_finite : List f.Value → Bool
  all_finite [] = true
  all_finite (x ∷ xs) = not (f.is_nan x) && not (f.is_inf x) && all_finite xs

  abbrev pub some_nonzero : List f.Value → Bool
  some_nonzero [] = false
  some_nonzero (x ∷ xs) = not (f.is_zero x) || some_nonzero xs

  abbrev pub usable : ℕ → List f.Value → Bool
  usable size v = (length v == size) && all_finite v && some_nonzero v

  scan_values_lem :
      (z : Bool) (v : List f.Value)
      → scan_values f z v
        ≡ (if all_finite v && (not z || some_nonzero v) then none else invalid_vector)
  unfolding scan_values
  scan_values_lem z [] = ground arith
  scan_values_lem z (x ∷ xs) = ground (arith, scan_values_lem (z && f.is_zero x) xs)

  -- validateVector accepts exactly the vectors that have the collection's dimension, hold only finite
  -- numbers and are not all zero; it refuses any other with ErrInvalidVector.
  pub validate_vector_lem :
      (size : ℕ) (v : List f.Value)
      → validate_vector f size v ≡ (if usable size v then none else invalid_vector)
  unfolding validate_vector
  validate_vector_lem size v = ground (arith, scan_values_lem true v)

point_id_cases : (u : Uuids) (a : Bytes) → (point_id u a ≡ a) ⊎ (point_id u a ≡ u.name_uuid a)
unfolding point_id
point_id_cases u a = elim (Option-cases (u.canonical a)) [
  | inl e ↦ ground (arith, e)
  | inr (c, e) ↦ ground (arith, e, bytes_eq_iff c a)
]

-- Two documents have different points if the UUIDs derived from their IDs differ, and no ID is the UUID
-- derived from the other.
points_apart :
    (u : Uuids) (a b : Bytes)
    → u.name_uuid b ≢ u.name_uuid a
    → b ≢ u.name_uuid a
    → a ≢ u.name_uuid b
    → point_id u b ≢ point_id u a
points_apart u a b n x y h = elim (point_id_cases u a) [
  | inl p ↦ elim (point_id_cases u b) [
    | inl q ↦ n (ap u.name_uuid (sym q ∙ h ∙ p))
    | inr q ↦ y (sym p ∙ sym h ∙ q)
  ]
  | inr p ↦ elim (point_id_cases u b) [ inl q ↦ x (sym q ∙ h ∙ p) | inr q ↦ n (sym q ∙ h ∙ p) ]
]

module _ (f : Float32) {A Values S : Type 0} (u : Uuids) (api : Api (List f.Value) A Values S) where
  -- A point without an ID or with a vector that is not usable is not sent, and the failure is never
  -- retried.
  upsert_refuses :
      (size : ℕ) (p : Point (List f.Value) A) (s : S)
      → (is_empty (trim_space p.id) || not (usable f size p.vector)) ≡ true
      → (e : Err) × (upsert f u api size p s ≡ (some e, s))
        × (classify_error (some (wrap (classify_vector e))) ≡ non_retryable)
  unfolding upsert validate_id classify_error classify_vector is find
  upsert_refuses size p s h = elim (Bool-cases (is_empty (trim_space p.id))) [
    | inl b ↦ (wrap (sentinel Sentinel.invalid_point), ground (arith, b), refl)
    | inr b ↦ (
      wrap (wrap (sentinel Sentinel.invalid_vector)),
      ground (arith, b, h, validate_vector_lem f size p.vector),
      refl,
    )
  ]

  -- What Qdrant documents of points: an upsert that worked replaces the point with its ID, a delete
  -- that worked removes the point with the ID, and neither touches another point.
  pub record IsCollection : Type 0 where
    pub lookup : Bytes → S → Option (PointStruct (List f.Value) Values)
    pub upsert_same :
        (p : PointStruct (List f.Value) Values) (s : S)
        → (api.upsert p s).0 ≡ none
        → lookup p.id (api.upsert p s).1 ≡ some p
    pub upsert_other :
        (p : PointStruct (List f.Value) Values) (s : S) (j : Bytes)
        → (api.upsert p s).0 ≡ none
        → j ≢ p.id
        → lookup j (api.upsert p s).1 ≡ lookup j s
    pub delete_same :
        (j : Bytes) (s : S) → (api.delete j s).0 ≡ none → lookup j (api.delete j s).1 ≡ none
    pub delete_other :
        (i : Bytes) (s : S) (j : Bytes)
        → (api.delete i s).0 ≡ none
        → j ≢ i
        → lookup j (api.delete i s).1 ≡ lookup j s

  abbrev pub point_of : Point (List f.Value) A → Values → PointStruct (List f.Value) Values
  point_of p vs = record { id = point_id u p.id; vector = p.vector; payload = vs }

  upsert_sent :
      (size : ℕ) (p : Point (List f.Value) A) (s : S)
      → (upsert f u api size p s).0 ≡ none
      → (vs : Values) × (api.values (payload_of f u api p) ≡ ok vs)
        × ((api.upsert (point_of p vs) s).0 ≡ none)
        × ((upsert f u api size p s).1 ≡ (api.upsert (point_of p vs) s).1)
  unfolding upsert to_point_struct
  upsert_sent size p s h = elim (Result-cases (api.values (payload_of f u api p))) [
    | inl (vs, e) ↦ (vs, e, ground (arith, e, h), ground (arith, e, h))
    | inr (x, e) ↦ ground (arith, e, h)
  ]

  -- For a collection that keeps points as Qdrant documents it, and another document: after an
  -- upsert that reports no error the collection holds under the document's point its vector and a
  -- payload that is converted from one with the document's ID under document_id and with the
  -- caller's entry under any other key. The other document has its point as it was, if the UUIDs
  -- derived from the two IDs differ and neither ID is the UUID derived from the other.
  pub upsert_replaces :
      (col : IsCollection) (size : ℕ) (p : Point (List f.Value) A) (key b : Bytes) (s : S)
      → (upsert f u api size p s).0 ≡ none
      → IsMap p.payload
      → key ≢ document_id_key
      → u.name_uuid b ≢ u.name_uuid p.id
      → b ≢ u.name_uuid p.id
      → p.id ≢ u.name_uuid b
      → let payload = payload_of f u api p in
        (vs : Values) × (api.values payload ≡ ok vs)
        × (entry_of document_id_key payload ≡ some (api.text p.id))
        × (entry_of key payload ≡ entry_of key p.payload)
        × (col.lookup (point_id u p.id) (upsert f u api size p s).1 ≡ some (point_of p vs))
        × (col.lookup (point_id u b) (upsert f u api size p s).1 ≡ col.lookup (point_id u b) s)
  upsert_replaces col size p key b s h w k n x y =
      let (vs, e, q, t) = upsert_sent size p s h in
      (
        vs,
        e,
        id_entry f u api p,
        payload_of-other f u api p key w k,
        ap (col.lookup (point_id u p.id)) t ∙ col.upsert_same (point_of p vs) s q,
        ap (col.lookup (point_id u b)) t
            ∙ col.upsert_other (point_of p vs) s (point_id u b) q (points_apart u p.id b n x y),
      )

  delete_sent :
      (id : Bytes) (s : S)
      → (delete f u api id s).0 ≡ none
      → ((api.delete (point_id u id) s).0 ≡ none)
        × ((delete f u api id s).1 ≡ (api.delete (point_id u id) s).1)
  unfolding delete
  delete_sent id s h = ground (arith, h)

  -- For such a collection: after a delete that reports no error the document has no point.
  pub delete_removes :
      (col : IsCollection) (id : Bytes) (s : S)
      → (delete f u api id s).0 ≡ none
      → col.lookup (point_id u id) (delete f u api id s).1 ≡ none
  delete_removes col id s h =
      let (q, t) = delete_sent id s h in
      ap (col.lookup (point_id u id)) t ∙ col.delete_same (point_id u id) s q

  -- For such a collection: an upsert and a delete that report no error leave every document with another
  -- point as it was.
  pub others_kept :
      (col : IsCollection) (size : ℕ) (p : Point (List f.Value) A) (s : S) (b : Bytes)
      → (upsert f u api size p s).0 ≡ none
      → (delete f u api p.id s).0 ≡ none
      → point_id u b ≢ point_id u p.id
      → (col.lookup (point_id u b) (upsert f u api size p s).1 ≡ col.lookup (point_id u b) s)
        × (col.lookup (point_id u b) (delete f u api p.id s).1 ≡ col.lookup (point_id u b) s)
  others_kept col size p s b h k n =
      let (vs, e, q, t) = upsert_sent size p s h in
      let (x, y) = delete_sent p.id s k in
      (
        ap (col.lookup (point_id u b)) t ∙ col.upsert_other (point_of p vs) s (point_id u b) q n,
        ap (col.lookup (point_id u b)) y ∙ col.delete_other (point_id u p.id) s (point_id u b) x n,
      )
