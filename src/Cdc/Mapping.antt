-- ===== src/Cdc/Mapping.antt =====
-- internal/indexing/cdc/document.go: FieldMapping, the document of a row, and the text that is
-- embedded for it. json.Number.Int64 is written out; time.Parse is the parameter `parse_time`, which
-- returns nanoseconds.
use near_real_time_hybrid_se.Common.{
  ◌≡◌, refl, ◌⊎◌, inl, inr, ℕ, suc, zero, ◌+◌, ◌*◌, ◌-◌, ◌^◌, Bool, true, false, ◌&&◌, ◌==◌, [],
  ◌∷◌, ◌++◌, Option, none, some, leb, if◌then◌else◌,
}
use near_real_time_hybrid_se.Common.Int.{ℤ, pos, negsuc}
use near_real_time_hybrid_se.Common.Bytes.{Bytes, codes}
use near_real_time_hybrid_se.Common.Trim.{trim_space, is_empty}
use near_real_time_hybrid_se.Errors.{Err, Sentinel, sentinel, wrap, wraps, cons, nil, opaque}
use near_real_time_hybrid_se.OpenSearch.{Document}
use near_real_time_hybrid_se.Cdc.{
  Value, null_value, text_value, number_value, bool_value, other_value, Row, ChangeEvent,
}

pub record FieldMapping : Type 0 where
  pub title : Bytes
  pub content : Bytes
  pub url : Bytes
  pub version : Bytes
  pub updated_at : Bytes

abbrev pub default_mapping : FieldMapping
default_mapping = record {
  title = codes "title";
  content = codes "body";
  url = codes "url";
  version = codes "version";
  updated_at = codes "updated_at";
}

pub data Result (A : Type 0) : Type 0 where
  ok : A → Result A
  err : Err → Result A

infixl 5 ◌>>=◌
abbrev pub ◌>>=◌ : {A B : Type 0} → Result A → (A → Result B) → Result B
ok a >>= f = f a
err e >>= f = err e

pub Result-cases : {A : Type 0} (r : Result A) → ((a : A) × (r ≡ ok a)) ⊎ ((e : Err) × (r ≡ err e))
Result-cases (ok a) = inl (a, refl)
Result-cases (err e) = inr (e, refl)

-- `fmt.Errorf("%w: …", ErrMalformedEvent, …)`, with and without a second `%w`.
abbrev pub malformed : Err
malformed = wrap (sentinel Sentinel.malformed_event)

abbrev pub malformed_by : Err → Err
malformed_by e = wraps (cons (sentinel Sentinel.malformed_event) (cons e nil))

-- strconv.ParseInt in base 10: the value of a run of digits.
unfoldable pub digits_value : ℕ → Bytes → Option ℕ
digits_value acc [] = some acc
digits_value acc (c ∷ cs) =
    let rest = digits_value (acc * 10 + (c - 48)) cs in if leb 48 c && leb c 57 then rest else none

abbrev pub in_int64 : Bool → ℕ → Option ℤ
in_int64 true zero = some (pos 0)
in_int64 true (suc n) = if leb (suc n) (2 ^ 63) then some (negsuc n) else none
in_int64 false n = if leb (suc n) (2 ^ 63) then some (pos n) else none

abbrev pub unsigned : Bool → Bytes → Option ℤ
unfolding digits_value
unsigned negative [] = none
unsigned negative (c ∷ cs) = elim (digits_value 0 (c ∷ cs)) [
  | none ↦ none
  | some n ↦ in_int64 negative n
]

-- json.Number.Int64; none for its error.
unfoldable pub parse_int64 : Bytes → Option ℤ
unfolding digits_value
parse_int64 [] = none
parse_int64 (c ∷ cs) =
    if c == 45
    then unsigned true cs
    else if c == 43
    then unsigned false cs
    else unsigned false (c ∷ cs)

-- A count of microseconds as nanoseconds.
abbrev pub micros : ℤ → ℤ
micros (pos n) = pos (1000 * n)
micros (negsuc n) = negsuc (1000 * n + 999)

-- `row[column]`, where a missing column reads as nil.
abbrev pub cell : Row → Bytes → Value
cell row column = elim (row column) [ none ↦ null_value | some v ↦ v ]

abbrev pub text_of : Value → Result Bytes
text_of null_value = ok []
text_of (text_value s) = ok s
text_of (number_value s) = ok s
text_of (bool_value b) = err malformed
text_of other_value = err malformed

unfoldable pub text : Row → Bytes → Result Bytes
unfolding is_empty
text row column = if is_empty column then ok [] else text_of (cell row column)

-- The error of strconv.ParseInt and of time.Parse.
abbrev pub parse_error : Err
parse_error = opaque 0

abbrev pub version_of : Value → Result ℤ
unfolding parse_int64
version_of null_value = ok (pos 0)
version_of (number_value s) = elim (parse_int64 s) [
  | none ↦ err (malformed_by parse_error)
  | some n ↦ ok n
]
version_of (text_value s) = err malformed
version_of (bool_value b) = err malformed
version_of other_value = err malformed

unfoldable pub version : FieldMapping → Row → Result ℤ
unfolding is_empty parse_int64
version m row = if is_empty m.version then ok (pos 0) else version_of (cell row m.version)

module _ (parse_time : Bytes → Option ℤ) where
  abbrev pub time_of : Value → Result (Option ℤ)
  unfolding parse_int64 trim_space is_empty
  time_of null_value = ok none
  time_of (text_value s) =
      if is_empty (trim_space s)
      then ok none
      else elim (parse_time s) [ none ↦ err (malformed_by parse_error) | some t ↦ ok (some t) ]
  time_of (number_value s) = elim (parse_int64 s) [
    | none ↦ err (malformed_by parse_error)
    | some n ↦ ok (some (micros n))
  ]
  time_of (bool_value b) = err malformed
  time_of other_value = err malformed

  unfoldable pub updated_at : FieldMapping → Row → Result (Option ℤ)
  unfolding parse_int64 trim_space is_empty
  updated_at m row = if is_empty m.updated_at then ok none else time_of (cell row m.updated_at)

  -- FieldMapping.Document.
  unfoldable pub document : FieldMapping → ChangeEvent → Result Document
  unfolding text version updated_at
  document m ev = do
    title ← text ev.row m.title
    content ← text ev.row m.content
    url ← text ev.row m.url
    number ← version m ev.row
    time ← updated_at m ev.row
    ok (record {
      id = ev.id;
      title = title;
      content = content;
      url = url;
      updated_at = time;
      version = number;
    })

-- The metadata of a vector: `url` only if there is one.
pub record Payload : Type 0 where
  pub title : Bytes
  pub version : ℤ
  pub url : Option Bytes

unfoldable pub vector_payload : Document → Payload
unfolding is_empty
vector_payload doc = record {
  title = doc.title;
  version = doc.version;
  url = if is_empty doc.url then none else some doc.url;
}

unfoldable pub build_embedding_text : Document → Bytes
unfolding trim_space is_empty
build_embedding_text doc =
    let title = trim_space doc.title in
    let content = trim_space doc.content in
    if is_empty title && is_empty content
    then []
    else codes "title: "
      ++ (if is_empty title then codes "none" else title)
      ++ codes " | text: "
      ++ content
