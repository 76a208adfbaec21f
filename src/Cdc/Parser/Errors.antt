-- ===== src/Cdc/Parser/Errors.antt =====
-- What Parse of internal/indexing/cdc/parser.go returns: valid events, and two kinds of errors.
use near_real_time_hybrid_se.Common.{
  ◌≡◌, refl, inl, inr, Bool, true, false, not, ◌&&◌, ltb, length, List, [], ◌∷◌, none, arith,
  if◌then◌else◌,
}
use near_real_time_hybrid_se.Common.Bytes.{Bytes, codes}
use near_real_time_hybrid_se.Errors.{Err, Sentinel, sentinel, wrap, wraps, cons, nil, is, find}
use near_real_time_hybrid_se.Cdc.{
  Operation, Row, ChangeEvent, is_upsert, valid, validate, is_delete, Value, null_value, text_value,
  number_value, bool_value, other_value,
}
use near_real_time_hybrid_se.Cdc.Mapping.{
  Result, ok, err, Result-cases, cell, malformed, malformed_by,
}
use near_real_time_hybrid_se.Cdc.Parser.{
  Json, Envelope, is_null_value, parse_operation, document_id, key_part, key_parts, key_string,
  key_fields, decode_row, decode_envelope, read_envelope, parse, decode_change_event,
}
use near_real_time_hybrid_se.Cdc.Parser.Keys.{document_id_full}

parse_operation-valid : (op : Bytes) {o : Operation} → parse_operation op ≡ ok o → valid o ≡ true
unfolding parse_operation valid is_upsert
parse_operation-valid op h = ground arith

module _ (json : Json) where
  read_envelope_valid :
      (fields : List Bytes) (env : Envelope) {ev : ChangeEvent}
      → read_envelope json fields env ≡ ok ev
      → validate ev ≡ none
  unfolding read_envelope validate
  read_envelope_valid fields env {ev} h = elim (Result-cases (parse_operation env.op)) [
    | inr (x, e) ↦ ground (arith, h, e)
    | inl (op, e) ↦
        elim (Result-cases (decode_row json (if is_delete op then env.before else env.after))) [
          | inr (x, f) ↦ ground (arith, h, e, f)
          | inl (row, f) ↦ elim (Result-cases (document_id fields row)) [
            | inr (x, g) ↦ ground (arith, h, e, f, g)
            | inl (id, g) ↦
                ground
                  (arith, h, e, f, g, document_id_full fields row g, parse_operation-valid env.op e)
          ]
        ]
  ]

-- The error of a malformed message: it wraps ErrMalformedEvent, and it marks no message to skip.
unfoldable pub is_fault : Err → Bool
unfolding is
is_fault e =
    is Sentinel.malformed_event e
    && not (is Sentinel.tombstone e)
    && not (is Sentinel.skip_message e)

parse_operation_fault : (op : Bytes) {e : Err} → parse_operation op ≡ err e → is_fault e ≡ true
unfolding parse_operation is_fault is find
parse_operation_fault op h = ground arith

key_part_fault : (c : Bool) (v : Value) {e : Err} → key_part c v ≡ err e → is_fault e ≡ true
unfolding key_part key_string is_fault is find
key_part_fault c null_value h = ground arith
key_part_fault c (text_value s) h = ground arith
key_part_fault c (number_value s) h = ground arith
key_part_fault c (bool_value b) h = ground arith
key_part_fault c other_value h = ground arith

key_parts_fault :
    (c : Bool) (row : Row) (fs : List Bytes) {e : Err}
    → key_parts c row fs ≡ err e
    → is_fault e ≡ true
unfolding key_parts
key_parts_fault c row [] h = cc
key_parts_fault c row (f ∷ fs) h = elim (Result-cases (key_part c (cell row f))) [
  | inr (x, e) ↦ ground (arith, e, h, key_part_fault c (cell row f) e)
  | inl (p, e) ↦ elim (Result-cases (key_parts c row fs)) [
    | inr (y, g) ↦ ground (arith, e, g, h, key_parts_fault c row fs g)
    | inl (ps, g) ↦ ground (arith, e, g, h)
  ]
]

document_id_fault :
    (fields : List Bytes) (row : Row) {e : Err} → document_id fields row ≡ err e → is_fault e ≡ true
unfolding document_id
document_id_fault fields row h =
    elim (Result-cases (key_parts (ltb 1 (length (key_fields fields))) row (key_fields fields))) [
      | inr (y, g) ↦ ground (
        arith,
        g,
        h,
        key_parts_fault (ltb 1 (length (key_fields fields))) row (key_fields fields) g,
      )
      | inl (ps, g) ↦ ground (arith, g, h)
    ]

-- No error of encoding/json is one of this repository's.
unfoldable pub is_foreign : Err → Bool
unfolding is
is_foreign e = not (is Sentinel.tombstone e) && not (is Sentinel.skip_message e)

pub record IsForeign (json : Json) : Type 0 where
  pub envelope : (b : Bytes) (e : Err) → json.envelope b ≡ err e → is_foreign e ≡ true
  pub object : (b : Bytes) (e : Err) → json.object b ≡ err e → is_foreign e ≡ true

malformed_by_fault : (e : Err) → is_foreign e ≡ true → is_fault (malformed_by e) ≡ true
unfolding is find is_fault is_foreign
malformed_by_fault e h = ground (arith, h)

malformed_fault : is_fault malformed ≡ true
unfolding is find is_fault
malformed_fault = refl

module _ (json : Json) (j : IsForeign json) where
  decode_envelope_fault : (b : Bytes) {e : Err} → decode_envelope json b ≡ err e → is_fault e ≡ true
  unfolding decode_envelope
  decode_envelope_fault b h = elim (Result-cases (json.envelope b)) [
    | inr (x, e) ↦ ground (arith, e, h, malformed_by_fault x (j.envelope b x e))
    | inl (env, e) ↦ elim (Result-cases (json.envelope env.payload)) [
      | inr (y, g) ↦ ground (arith, e, g, h, malformed_by_fault y (j.envelope env.payload y g))
      | inl (inner, g) ↦ ground (arith, e, g, h)
    ]
  ]

  decode_row_fault : (b : Bytes) {e : Err} → decode_row json b ≡ err e → is_fault e ≡ true
  unfolding decode_row
  decode_row_fault b h = elim (Result-cases (json.object b)) [
    | inr (x, e) ↦ ground (arith, e, h, malformed_fault, malformed_by_fault x (j.object b x e))
    | inl (row, e) ↦ ground (arith, e, h, malformed_fault)
  ]

  read_envelope_fault :
      (fields : List Bytes) (env : Envelope) {e : Err}
      → read_envelope json fields env ≡ err e
      → is_fault e ≡ true
  unfolding read_envelope
  read_envelope_fault fields env h = elim (Result-cases (parse_operation env.op)) [
    | inr (x, e) ↦ ground (arith, h, e, parse_operation_fault env.op e)
    | inl (op, e) ↦
        let raw = if is_delete op then env.before else env.after in
        elim (Result-cases (decode_row json raw)) [
          | inr (x, f) ↦ ground (arith, h, e, f, decode_row_fault raw f)
          | inl (row, f) ↦ elim (Result-cases (document_id fields row)) [
            | inr (x, g) ↦ ground (arith, h, e, f, g, document_id_fault fields row g)
            | inl (id, g) ↦ ground (arith, h, e, f, g)
          ]
        ]
  ]

-- What decodeChangeEvent may return: for a tombstone an error that marks the message to skip, and
-- else a valid event or the error of a malformed message.
abbrev pub Decodes : Bool → Result ChangeEvent → Type 0
unfolding is validate is_fault
Decodes true (ok ev) = ⊥
Decodes true (err e) = is Sentinel.skip_message e ≡ true
Decodes false (ok ev) = validate ev ≡ none
Decodes false (err e) = is_fault e ≡ true

by_null_lem :
    (c : Bool) (r : Result ChangeEvent)
    → (c ≡ true → (e : Err) × (r ≡ err e) × (is Sentinel.skip_message e ≡ true))
    → ((ev : ChangeEvent) → c ≡ false → r ≡ ok ev → validate ev ≡ none)
    → ((e : Err) → c ≡ false → r ≡ err e → is_fault e ≡ true)
    → Decodes c r
unfolding Decodes
by_null_lem true (ok ev) h k l = let (e, q, t) = h refl in ground (arith, q)
by_null_lem true (err x) h k l = let (e, q, t) = h refl in ground (arith, q, t)
by_null_lem false (ok ev) h k l = k ev refl refl
by_null_lem false (err e) h k l = l e refl refl

module _ (json : Json) where
  skips_null :
      (b : Bytes)
      → is_null_value b ≡ true
      → (e : Err) × (decode_change_event json b ≡ err e) × (is Sentinel.skip_message e ≡ true)
  unfolding decode_change_event parse is find
  skips_null b h = (
    wraps (cons (sentinel Sentinel.skip_message) (cons (wrap (sentinel Sentinel.tombstone)) nil)),
    ground (arith, h),
    refl,
  )

  decoded_validate :
      (b : Bytes) {ev : ChangeEvent}
      → is_null_value b ≡ false
      → decode_change_event json b ≡ ok ev
      → validate ev ≡ none
  unfolding decode_change_event parse
  decoded_validate b h k = elim (Result-cases (decode_envelope json b)) [
    | inr (x, e) ↦ ground (arith, h, k, e)
    | inl (env, e) ↦ elim (Result-cases (read_envelope json (codes "id" ∷ []) env)) [
      | inr (x, f) ↦ ground (arith, h, k, e, f)
      | inl (ev, f) ↦ ground (arith, h, k, e, f, read_envelope_valid json (codes "id" ∷ []) env f)
    ]
  ]

  undecoded_fault :
      IsForeign json
      → (b : Bytes) {e : Err} → is_null_value b ≡ false
      → decode_change_event json b ≡ err e
      → is_fault e ≡ true
  unfolding decode_change_event parse is_fault
  undecoded_fault j b h k = elim (Result-cases (decode_envelope json b)) [
    | inr (x, e) ↦ ground (arith, h, k, e, decode_envelope_fault json j b e)
    | inl (env, e) ↦ elim (Result-cases (read_envelope json (codes "id" ∷ []) env)) [
      | inr (x, f) ↦ ground (arith, h, k, e, f, read_envelope_fault json j (codes "id" ∷ []) env f)
      | inl (ev, f) ↦ ground (arith, h, k, e, f)
    ]
  ]

-- A null message is one to skip. Any other becomes an event that Validate accepts, or fails with an
-- error that wraps ErrMalformedEvent and that marks no message to skip, where encoding/json returns
-- none of this repository's errors.
pub decode_change_event-Decodes :
    (json : Json)
    → IsForeign json
    → (b : Bytes) → Decodes (is_null_value b) (decode_change_event json b)
decode_change_event-Decodes json j b =
    by_null_lem (is_null_value b) (decode_change_event json b) (skips_null json b)
      (λ ev. decoded_validate json b {ev = ev}) λ e. undecoded_fault json j b {e = e}
