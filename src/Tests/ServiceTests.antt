-- ===== src/Tests/ServiceTests.antt =====
-- One row against an index that holds version 5 of its document, and the classification of failures.
use near_real_time_hybrid_se.Common.{
  ℕ, suc, ◌≡◌, refl, Bool, true, false, [], Option, none, some, arith, length, if◌then◌else◌,
}
use near_real_time_hybrid_se.Common.Int.{ℤ, pos, leb_ℤ}
use near_real_time_hybrid_se.Common.Bytes.{codes, bytes_eq}
use near_real_time_hybrid_se.Common.Trim.{trim_space, is_empty}
use near_real_time_hybrid_se.Errors.{Err, foreign}
use near_real_time_hybrid_se.OpenSearch.{Document, Api, answer, failure, validate_id}
use near_real_time_hybrid_se.Cdc.{
  Operation, ChangeEvent, Row, text_value, number_value, update, stale, reapplied, validate,
}
use near_real_time_hybrid_se.Cdc.Mapping.{default_mapping, document, build_embedding_text}
use near_real_time_hybrid_se.Cdc.Service.{Service, Stores, Point, embedded, process}
use near_real_time_hybrid_se.Cdc.Service.Effects.{Backed, Ordered, process-Backed, process-Ordered}
use near_real_time_hybrid_se.Cdc.Service.Stale.{
  IsReady, keyword_client, late_event_stops, unreadable_conflict_is_applied,
}

abbrev cause : Err
cause = foreign 7 true

-- The state is the version that the index holds; `readable` says whether it can be read back.
abbrev versioned : Bool → Api ℤ
versioned readable = record {
  encode = λ _. none;
  index = λ id doc v k. elim v [
    | none ↦ (answer tt, pos 0)
    | some n ↦ if leb_ℤ n k then (failure 409 cause, k) else (answer tt, n)
  ];
  get = λ id k.
      (if readable then answer (record { found = true; version = k }) else failure 503 cause, k);
  delete = λ id k. (answer tt, pos 0);
}

abbrev row : Row
row column =
    if bytes_eq column (codes "title")
    then some (text_value (codes "Go"))
    else if bytes_eq column (codes "version")
    then some (number_value (codes "3"))
    else none

abbrev event : Operation → ChangeEvent
event op = record {
  id = codes "d1";
  operation = op;
  schema = codes "public";
  table = codes "documents";
  row = row;
  timestamp = none;
  database = [];
  lsn = pos 9;
  tx_id = pos 1;
  snapshot = false;
}

abbrev service : Bool → Service ℕ ℤ (Option (Point ℕ)) ℕ
service readable = record {
  keyword = keyword_client (versioned readable);
  vectors = record { upsert = λ p v. (none, some p); delete = λ id v. (none, none) };
  embedder = record { embed = λ t e. (embedded (length t), suc e) };
  mapping = default_mapping;
  parse_time = λ _. none;
}

abbrev holding : Stores ℤ (Option (Point ℕ)) ℕ
holding = record { keyword = pos 5; vectors = none; embedder = 0 }

abbrev old_document : Document
old_document = record {
  id = codes "d1";
  title = codes "Go";
  content = [];
  url = [];
  updated_at = none;
  version = pos 3;
}

ready :
    (readable : Bool) → IsReady (service readable) (versioned readable) (event update) old_document
unfolding document build_embedding_text is_empty trim_space validate_id validate bytes_eq
ready readable = record {
  over_client = refl;
  event_valid = refl;
  no_delete = refl;
  mapped = refl;
  has_text = refl;
  id_valid = refl;
  encodes = refl;
  versioned = omega arith;
}

process-Backed_example :
    let o = process (service true) none (event update) holding in Backed o.effect o
process-Backed_example = process-Backed (service true) none (event update) holding

process-Ordered_example :
    let o = process (service true) none (event update) holding in Ordered o.calls holding o.stores
process-Ordered_example = process-Ordered (service true) none (event update) holding refl

late_event_stops_example : (process (service true) none (event update) holding).effect ≡ stale
late_event_stops_example =
    (late_event_stops (service true) (versioned true) (event update) old_document holding
      (record { found = true; version = pos 5 }) (ready true) refl refl refl (omega arith)).0

unreadable_conflict_is_applied_example :
    (process (service false) none (event update) holding).effect ≡ reapplied
unreadable_conflict_is_applied_example =
    (unreadable_conflict_is_applied (service false) (versioned false) (event update) old_document
      holding 503 (length (build_embedding_text old_document)) (ready false) refl refl (omega arith)
      refl refl).0
