-- ===== src/Cdc/Parser/Keys.antt =====
-- documentID of internal/indexing/cdc/parser.go: rows with the same document ID have the same key.
use near_real_time_hybrid_se.Common.{
  suc, subst, inl, inr, ◌≡◌, refl, ap, Bool, true, false, List, [], ◌∷◌, map, arith, length, ltb,
  All,
}
use near_real_time_hybrid_se.Common.Bytes.{Bytes}
use near_real_time_hybrid_se.Common.Trim.{is_empty}
use near_real_time_hybrid_se.Cdc.{
  Value, null_value, text_value, number_value, bool_value, other_value, Row,
}
use near_real_time_hybrid_se.Cdc.Mapping.{Result, ok, err, ◌>>=◌, cell, Result-cases}
use near_real_time_hybrid_se.Cdc.Parser.{
  key_string, key_part, key_parts, join_parts, key_fields, document_id, contains_separator,
}

abbrev pub Plain : Bytes → Type 0
Plain p = contains_separator p ≡ false

key_part_ok :
    (c : Bool) (v : Value) {p : Bytes}
    → key_part c v ≡ ok p
    → (key_string v ≡ ok p) × (is_empty p ≡ false) × (c ≡ true → contains_separator p ≡ false)
unfolding key_part
key_part_ok c null_value h = cc
key_part_ok c (text_value s) h = ground arith
key_part_ok c (number_value s) h = ground arith
key_part_ok c (bool_value b) h = ground arith
key_part_ok c other_value h = ground arith

abbrev pub Full : Bytes → Type 0
Full p = is_empty p ≡ false

pub record Split (c : Bool) (row : Row) (fields ps : List Bytes) : Type 0 where
  pub same_length : length ps ≡ length fields
  pub full : All Full ps
  pub plain : c ≡ true → All Plain ps
  pub texts : map (λ f. key_string (cell row f)) fields ≡ map (λ p. ok p) ps

cons_texts :
    {x : Result Bytes} {p : Bytes} {xs : List (Result Bytes)} (ps : List Bytes)
    → x ≡ ok p
    → xs ≡ map (λ q. ok q) ps
    → x ∷ xs ≡ map (λ q. ok q) (p ∷ ps)
cons_texts ps e h = cc

abbrev Splits : Bool → Row → List Bytes → Result (List Bytes) → Type 0
Splits c row fields (ok ps) = Split c row fields ps
Splits c row fields (err e) = Unit

take_field :
    (c : Bool) (row : Row) (f : Bytes) (fs : List Bytes) {p : Bytes} (r : Result (List Bytes))
    → key_part c (cell row f) ≡ ok p
    → Splits c row fs r
    → Splits c row (f ∷ fs) (r >>= λ ps. ok (p ∷ ps))
take_field c row f fs {p} (ok ps) e h =
    let k = key_part_ok c (cell row f) e in
    record {
      same_length = ap suc h.same_length;
      full = (k.1, h.full);
      plain = λ t. (k.2 t, h.plain t);
      texts = cons_texts ps k.0 h.texts;
    }
take_field c row f fs {p} (err x) e h = tt

key_parts-Splits :
    (c : Bool) (row : Row) (fields : List Bytes) → Splits c row fields (key_parts c row fields)
unfolding key_parts
key_parts-Splits c row [] = record { same_length = refl; full = tt; plain = λ t. tt; texts = refl }
key_parts-Splits c row (f ∷ fs) = elim (Result-cases (key_part c (cell row f))) [
  | inl (p, e) ↦ rw e (take_field c row f fs (key_parts c row fs) e (key_parts-Splits c row fs))
  | inr (x, e) ↦ rw e tt
]

pub key_parts-Split :
    (c : Bool) (row : Row) (fields : List Bytes) {ps : List Bytes}
    → key_parts c row fields ≡ ok ps
    → Split c row fields ps
key_parts-Split c row fields e = subst (Splits c row fields) e (key_parts-Splits c row fields)

-- What documentID returns is the join of the parts.
pub document_id_parts :
    (fields : List Bytes) (row : Row) {id : Bytes}
    → document_id fields row ≡ ok id
    → (ps : List Bytes) × (key_parts (ltb 1 (length (key_fields fields))) row (key_fields fields)
        ≡ ok ps)
      × (join_parts ps ≡ id)
unfolding document_id
document_id_parts fields row h =
    elim (Result-cases (key_parts (ltb 1 (length (key_fields fields))) row (key_fields fields))) [
      | inl (ps, e) ↦ (ps, e, ground (arith, h, e))
      | inr (x, e) ↦ ground (arith, h, e)
    ]

join_parts-Full :
    (fs ps : List Bytes)
    → length ps ≡ length (key_fields fs)
    → All Full ps
    → is_empty (join_parts ps) ≡ false
unfolding join_parts is_empty
join_parts-Full [] [] l a = absurd (omega (arith, l))
join_parts-Full (f ∷ fs) [] l a = absurd (omega (arith, l))
join_parts-Full fs (p ∷ []) l a = a.0
join_parts-Full fs ((c ∷ p) ∷ q ∷ ps) l a = refl
join_parts-Full fs ([] ∷ q ∷ ps) l a = ground (arith, a)

-- A document ID is never empty.
pub document_id_full :
    (fields : List Bytes) (row : Row) {id : Bytes}
    → document_id fields row ≡ ok id
    → is_empty id ≡ false
document_id_full fields row h =
    let (ps, e, j) = document_id_parts fields row h in
    let x = key_parts-Split (ltb 1 (length (key_fields fields))) row (key_fields fields) e in
    subst (λ i. is_empty i ≡ false) j (join_parts-Full fields ps x.same_length x.full)
