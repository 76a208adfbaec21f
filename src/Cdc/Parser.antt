-- ===== src/Cdc/Parser.antt =====
-- internal/indexing/cdc/parser.go: a Debezium message value as a change event; and decodeChangeEvent
-- of internal/indexing/cdc_pipeline.go. encoding/json is the parameter `json`: it decodes an envelope,
-- or the object of a row with its numbers kept as text.
pub mod Keys
pub mod Errors
use near_real_time_hybrid_se.Common.{
  ℕ, suc, ◌+◌, ◌*◌, Bool, true, false, not, ◌&&◌, ◌||◌, ◌==◌, List, [], ◌∷◌, ◌++◌, Option, none,
  some, ltb, length, if◌then◌else◌,
}
use near_real_time_hybrid_se.Common.Int.{ℤ, pos, negsuc}
use near_real_time_hybrid_se.Common.Bytes.{Bytes, codes, bytes_eq}
use near_real_time_hybrid_se.Common.Trim.{trim_space, is_empty}
use near_real_time_hybrid_se.Errors.{Err, Sentinel, sentinel, wrap, wraps, cons, nil, opaque, is}
use near_real_time_hybrid_se.Classify.{unknown_operation_error, missing_id_error}
use near_real_time_hybrid_se.Cdc.{
  Operation, create, update, delete, read, is_delete, Value, null_value, text_value, number_value,
  bool_value, other_value, Row, ChangeEvent,
}
use near_real_time_hybrid_se.Cdc.Mapping.{Result, ok, err, ◌>>=◌, malformed, malformed_by, cell}

-- An absent number is none, and an absent or unknown kind of `snapshot` is `null_value`.
pub record Source : Type 0 where
  pub schema : Bytes
  pub table : Bytes
  pub ts_ms : Option ℤ
  pub db : Bytes
  pub lsn : Option ℤ
  pub tx_id : Option ℤ
  pub snapshot : Value

-- `before`, `after` and `payload` are raw JSON.
pub record Envelope : Type 0 where
  pub op : Bytes
  pub before : Bytes
  pub after : Bytes
  pub source : Source
  pub ts_ms : Option ℤ
  pub payload : Bytes

pub record Json : Type 0 where
  pub envelope : Bytes → Result Envelope
  pub object : Bytes → Result Row

unfoldable pub is_null_value : Bytes → Bool
unfolding trim_space is_empty bytes_eq
is_null_value raw =
    let trimmed = trim_space raw in is_empty trimmed || bytes_eq trimmed (codes "null")

unfoldable pub from_snapshot : Source → Bool
unfolding is_empty bytes_eq
from_snapshot s = elim s.snapshot [
  | bool_value b ↦ b
  | text_value v ↦
      not (is_empty v) && not (bytes_eq v (codes "false")) && not (bytes_eq v (codes "incremental"))
  | _ ↦ false
]

-- The function `value`.
unfoldable pub number : Option ℤ → ℤ
number none = pos 0
number (some n) = n

-- time.UnixMilli, in nanoseconds.
abbrev pub unix_milli : ℤ → ℤ
unix_milli (pos n) = pos (1000000 * n)
unix_milli (negsuc n) = negsuc (1000000 * n + 999999)

unfoldable pub change_time : Envelope → Option ℤ
change_time e = elim e.source.ts_ms [
  | some ms ↦ some (unix_milli ms)
  | none ↦ elim e.ts_ms [ some ms ↦ some (unix_milli ms) | none ↦ none ]
]

unfoldable pub parse_operation : Bytes → Result Operation
unfolding bytes_eq is_empty
parse_operation op =
    if bytes_eq op (codes "c")
    then ok create
    else if bytes_eq op (codes "u")
    then ok update
    else if bytes_eq op (codes "d")
    then ok delete
    else if bytes_eq op (codes "r")
    then ok read
    else if is_empty op
    then err malformed
    else err (wrap unknown_operation_error)

-- The text of a value in a key; the error's own text is left out.
unfoldable pub key_string : Value → Result Bytes
unfolding trim_space
key_string (text_value s) = ok (trim_space s)
key_string (number_value s) = ok s
key_string (bool_value b) = err (opaque 1)
key_string null_value = err (opaque 1)
key_string other_value = err (opaque 1)

-- compositeKeySeparator.
abbrev pub separator : ℕ
separator = 124

unfoldable pub contains_separator : Bytes → Bool
contains_separator [] = false
contains_separator (c ∷ cs) = (c == separator) || contains_separator cs

-- The body of the loop of documentID, for a key of one column or of several.
unfoldable pub key_part : Bool → Value → Result Bytes
unfolding key_string is_empty contains_separator
key_part composite null_value = err (wrap missing_id_error)
key_part composite v = elim (key_string v) [
  | err e ↦ err (wraps (cons missing_id_error (cons e nil)))
  | ok part ↦
      if is_empty part
      then err (wrap missing_id_error)
      else if composite && contains_separator part
      then err (wrap missing_id_error)
      else ok part
]

unfoldable pub key_parts : Bool → Row → List Bytes → Result (List Bytes)
unfolding key_part
key_parts composite row [] = ok []
key_parts composite row (field ∷ fields) = do
  part ← key_part composite (cell row field)
  parts ← key_parts composite row fields
  ok (part ∷ parts)

-- strings.Join with the separator.
unfoldable pub join_parts : List Bytes → Bytes
join_parts [] = []
join_parts (p ∷ []) = p
join_parts (p ∷ q ∷ ps) = p ++ (separator ∷ join_parts (q ∷ ps))

abbrev pub key_fields : List Bytes → List Bytes
key_fields [] = codes "id" ∷ []
key_fields (f ∷ fs) = f ∷ fs

-- documentID of a Parser with these KeyFields.
unfoldable pub document_id : List Bytes → Row → Result Bytes
unfolding key_parts join_parts
document_id fields row = do
  parts ← key_parts (ltb 1 (length (key_fields fields))) row (key_fields fields)
  ok (join_parts parts)

module _ (json : Json) where
  unfoldable pub decode_envelope : Bytes → Result Envelope
  unfolding is_empty is_null_value
  decode_envelope data_bytes = elim (json.envelope data_bytes) [
    | err e ↦ err (malformed_by e)
    | ok env ↦
        if not (is_empty env.op) || is_null_value env.payload
        then ok env
        else elim (json.envelope env.payload) [ err e ↦ err (malformed_by e) | ok inner ↦ ok inner ]
  ]

  -- decodeRow, and the errors of Parse for a row that is absent or cannot be read.
  unfoldable pub decode_row : Bytes → Result Row
  unfolding is_null_value
  decode_row raw =
      if is_null_value raw
      then err malformed
      else elim (json.object raw) [ err e ↦ err (malformed_by e) | ok row ↦ ok row ]

  -- Parse, once the envelope is decoded.
  unfoldable pub read_envelope : List Bytes → Envelope → Result ChangeEvent
  unfolding parse_operation decode_row document_id change_time number from_snapshot
  read_envelope fields env = do
    op ← parse_operation env.op
    row ← decode_row (if is_delete op then env.before else env.after)
    id ← document_id fields row
    ok (record {
      id = id;
      operation = op;
      schema = env.source.schema;
      table = env.source.table;
      row = row;
      timestamp = change_time env;
      database = env.source.db;
      lsn = number env.source.lsn;
      tx_id = number env.source.tx_id;
      snapshot = from_snapshot env.source;
    })

  -- Parser.Parse.
  unfoldable pub parse : List Bytes → Bytes → Result ChangeEvent
  unfolding is_null_value decode_envelope read_envelope
  parse fields data_bytes =
      if is_null_value data_bytes
      then err (wrap (sentinel Sentinel.tombstone))
      else decode_envelope data_bytes >>= read_envelope fields

  -- decodeChangeEvent, with the key of DefaultParser.
  unfoldable pub decode_change_event : Bytes → Result ChangeEvent
  unfolding parse is
  decode_change_event data_bytes = elim (parse (codes "id" ∷ []) data_bytes) [
    | ok ev ↦ ok ev
    | err e ↦ err (
        if is Sentinel.tombstone e
        then wraps (cons (sentinel Sentinel.skip_message) (cons e nil))
        else e)
  ]
