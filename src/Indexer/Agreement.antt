-- ===== src/Indexer/Agreement.antt =====
-- Indexer.Index against Service.Process: what both ingestion paths do to the search indexes.
use near_real_time_hybrid_se.Common.{◌≡◌, Option, arith}
use near_real_time_hybrid_se.Common.Bytes.{Bytes}
use near_real_time_hybrid_se.Cdc.Mapping.{FieldMapping, ok, vector_payload}
use near_real_time_hybrid_se.Cdc.Service.{Service, Stores, write_document, write_mapped}
use near_real_time_hybrid_se.Common.Int.{ℤ}
use near_real_time_hybrid_se.Indexer.{Indexer, Row, document_of, index_row}

module _ {Vec D K V E : Type 0} (ix : Indexer Vec D K V E) (m : FieldMapping)
    (pt : Bytes → Option ℤ) where
  -- The change event service over the indexer's clients.
  abbrev pub service_of : Service Vec K V E
  service_of = record {
    keyword = ix.keyword;
    vectors = ix.vectors;
    embedder = ix.embedder;
    mapping = m;
    parse_time = pt;
  }

  -- For a row that is found, Index does the same to both indexes and to the embedder as the change event
  -- service does for an event that maps to the document of the row, and it reports the same effect.
  pub index_row_agrees :
      (id : Bytes) (row : Row) (d : D) (w : Stores K V E)
      → let x = index_row ix row d w in
        let y = write_mapped service_of id (ok (document_of ix row)) w in
        (x.effect ≡ y.effect) × (x.stores ≡ y.stores)
  unfolding index_row write_mapped write_document vector_payload
  index_row_agrees id row d w = ground arith
