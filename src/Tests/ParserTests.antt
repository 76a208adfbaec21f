-- ===== src/Tests/ParserTests.antt =====
-- Parsing with a decoder that knows one envelope and one row.
use near_real_time_hybrid_se.Common.{false, List, [], ◌∷◌, none, some, arith, if◌then◌else◌}
use near_real_time_hybrid_se.Common.Int.{pos}
use near_real_time_hybrid_se.Common.Bytes.{Bytes, codes, bytes_eq}
use near_real_time_hybrid_se.Common.Trim.{is_empty}
use near_real_time_hybrid_se.Errors.{opaque, is, find}
use near_real_time_hybrid_se.Cdc.{Row, text_value, number_value}
use near_real_time_hybrid_se.Cdc.Mapping.{ok, err}
use near_real_time_hybrid_se.Cdc.Parser.{Json, Envelope, is_null_value, decode_change_event}
use near_real_time_hybrid_se.Cdc.Parser.Errors.{
  IsForeign, Decodes, is_foreign, decode_change_event-Decodes,
}

-- The columns `tenant` and `id`.
abbrev row_of : Bytes → Row
unfolding bytes_eq
row_of tenant column =
    if bytes_eq column (codes "tenant")
    then some (text_value tenant)
    else if bytes_eq column (codes "id")
    then some (number_value (codes "7"))
    else none

abbrev both : List Bytes
both = codes "tenant" ∷ codes "id" ∷ []

abbrev deletion : Envelope
deletion = record {
  op = codes "d";
  before = codes "{}";
  after = codes "null";
  source = record {
    schema = codes "public";
    table = codes "documents";
    ts_ms = some (pos 1700000000000);
    db = codes "app";
    lsn = some (pos 24100912);
    tx_id = none;
    snapshot = text_value (codes "false");
  };
  ts_ms = none;
  payload = [];
}

abbrev json : Json
unfolding is_empty row_of
json = record {
  envelope = λ b. if is_empty b then err (opaque 7) else ok deletion;
  object = λ b. ok (row_of (codes "a"));
}

json-IsForeign : IsForeign json
unfolding json is_foreign is find
json-IsForeign = record {
  envelope = λ b e h. ground (arith, h);
  object = λ b e h. ground (arith, h);
}

abbrev message : Bytes
message = codes "{...}"

decode_change_event-Decodes_example : Decodes false (decode_change_event json message)
unfolding is_null_value
decode_change_event-Decodes_example = decode_change_event-Decodes json json-IsForeign message
