-- ===== src/Tests/IndexerTests.antt =====
-- The indexer of rows over one row and stores that take everything.
use near_real_time_hybrid_se.Common.{ℕ, suc, ◌≡◌, refl, false, Option, none, some, length}
use near_real_time_hybrid_se.Common.Int.{pos}
use near_real_time_hybrid_se.Common.Bytes.{codes}
use near_real_time_hybrid_se.OpenSearch.{WriteResult}
use near_real_time_hybrid_se.Cdc.{reapplied}
use near_real_time_hybrid_se.Cdc.Mapping.{ok, default_mapping, build_embedding_text}
use near_real_time_hybrid_se.Cdc.Service.{Point, Stores, embedded, write_mapped}
use near_real_time_hybrid_se.Indexer.{Indexer, Row, Event, document_of, index_row, index}
use near_real_time_hybrid_se.Indexer.Agreement.{service_of, index_row_agrees}

abbrev row : Row
row = record {
  id = codes "d1";
  title = codes "Go";
  body = codes "channels";
  version = pos 3;
  updated_at = none;
}

-- The keyword index already holds the document; its state counts the writes.
abbrev indexer : Indexer ℕ ℕ ℕ (Option (Point ℕ)) ℕ
indexer = record {
  query_row = λ id d. (ok row, suc d);
  is_no_rows = λ e. false;
  embedder = record { embed = λ t e. (embedded (length t), suc e) };
  keyword = record {
    index_document = λ doc k. ((WriteResult.duplicate, none), suc k);
    delete_document = λ id k. (none, k);
  };
  vectors = record { upsert = λ p v. (none, some p); delete = λ id v. (none, none) };
}

abbrev stores : Stores ℕ (Option (Point ℕ)) ℕ
stores = record { keyword = 0; vectors = none; embedder = 0 }

abbrev event : Event
event = record {
  event_id = codes "e1";
  document_id = codes "d1";
  operation = codes "upsert";
  version = pos 3;
}

-- A replayed event writes its vector again.
replayed : (index indexer event 0 stores).effect ≡ reapplied
unfolding index build_embedding_text
replayed = refl

index_row_agrees_example :
    let x = index_row indexer row 0 stores in
    let y =
      write_mapped
        (service_of indexer default_mapping (λ b. none))
        (codes "d1")
        (ok (document_of indexer row))
        stores in
    (x.effect ≡ y.effect) × (x.stores ≡ y.stores)
index_row_agrees_example =
    index_row_agrees indexer default_mapping (λ b. none) (codes "d1") row 0 stores
