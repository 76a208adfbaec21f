-- ===== src/Indexer.antt =====
-- internal/indexing/indexer.go: Indexer.Index, which reads a row from PostgreSQL and brings both search
-- indexes in line with it; and DecodeEvent of internal/indexing/event.go.
-- GetDocument of internal/postgres/repository.go asks the database, whose state is `D`: the query and
-- the test for pgx.ErrNoRows are parameters, and so are json.Unmarshal and uuid.Validate. The clients
-- and the embedder are the records of the change event service.
pub mod Agreement
pub mod Setup
use near_real_time_hybrid_se.Common.{
  ℕ, Bool, true, false, not, ◌&&◌, List, [], ◌∷◌, Option, none, some, if◌then◌else◌,
}
use near_real_time_hybrid_se.Common.Int.{ℤ, pos, leb_ℤ}
use near_real_time_hybrid_se.Common.Bytes.{Bytes, codes, bytes_eq}
use near_real_time_hybrid_se.Common.Trim.{is_empty}
use near_real_time_hybrid_se.Errors.{
  Err, Sentinel, sentinel, wrap, wraps, cons, nil, permanent_error, is,
}
use near_real_time_hybrid_se.Classify.{classify_embedding, classify_keyword, classify_vector}
use near_real_time_hybrid_se.OpenSearch.{Document, WriteResult}
use near_real_time_hybrid_se.Cdc.{Effect, no_effect, indexed, reapplied, stale, deleted}
use near_real_time_hybrid_se.Cdc.Mapping.{Result, ok, err, build_embedding_text}
use near_real_time_hybrid_se.Cdc.Service.{
  KeywordIndex, VectorIndex, Embedder, Stores, embedded, not_embedded,
}

-- An Event; its operation is a Go string.
pub record Event : Type 0 where
  pub event_id : Bytes
  pub document_id : Bytes
  pub operation : Bytes
  pub version : ℤ

-- The documents row as the repository returns it.
pub record Row : Type 0 where
  pub id : Bytes
  pub title : Bytes
  pub body : Bytes
  pub version : ℤ
  pub updated_at : Option ℤ

abbrev pub malformed : Err
malformed = wrap (sentinel Sentinel.malformed_message)

abbrev pub malformed_by : Err → Err
malformed_by e = wraps (cons (sentinel Sentinel.malformed_message) (cons e nil))

-- DecodeEvent.
unfoldable pub decode_event : (Bytes → Result Event) → (Bytes → Option Err) → Bytes → Result Event
unfolding is_empty bytes_eq
decode_event unmarshal validate_uuid data_bytes = elim (unmarshal data_bytes) [
  | err e ↦ err (malformed_by e)
  | ok ev ↦ if is_empty ev.event_id then err malformed else elim (validate_uuid ev.document_id) [
    | some e ↦ err (malformed_by e)
    | none ↦
        if not (bytes_eq ev.operation (codes "upsert"))
          && not (bytes_eq ev.operation (codes "delete"))
        then err malformed
        else if leb_ℤ ev.version (pos 0)
        then err malformed
        else ok ev
  ]
]

-- What Index returns, and the state after it.
pub record Indexed (D K V E : Type 0) : Type 0 where
  pub effect : Effect
  pub err : Option Err
  pub documents : D
  pub stores : Stores K V E

pub record Indexer (Vec D K V E : Type 0) : Type 0 where
  pub query_row : Bytes → D → Result Row × D
  pub is_no_rows : Err → Bool
  pub embedder : Embedder Vec E
  pub keyword : KeywordIndex K
  pub vectors : VectorIndex Vec V

module _ {Vec D K V E : Type 0} (ix : Indexer Vec D K V E) where
  -- Repository.GetDocument.
  unfoldable pub get_document : Bytes → D → Result Row × D
  get_document id d =
      let (r, d') = ix.query_row id d in
      (
        elim r [
          | ok row ↦ ok row
          | err e ↦ err (if ix.is_no_rows e then sentinel Sentinel.row_not_found else wrap e)
        ],
        d',
      )

  abbrev pub failed : Err → D → Stores K V E → Indexed D K V E
  failed e d w = record { effect = no_effect; err = some e; documents = d; stores = w }

  abbrev pub finished : Effect → D → Stores K V E → Indexed D K V E
  finished fx d w = record { effect = fx; err = none; documents = d; stores = w }

  unfoldable pub index_vector : Document → WriteResult → Vec → D → Stores K V E → Indexed D K V E
  unfolding classify_vector
  index_vector doc written vector d w =
      let (e, v') =
        ix.vectors.upsert
          (record {
            id = doc.id;
            vector = vector;
            payload = record { title = doc.title; version = doc.version; url = none };
          })
          w.vectors in
      let w' : Stores K V E = record w { vectors = v' } in
      elim e [
        | some x ↦ failed (wrap (classify_vector x)) d w'
        | none ↦ elim written [
          | WriteResult.duplicate ↦ finished reapplied d w'
          | _ ↦ finished indexed d w'
        ]
      ]

  unfoldable pub index_embedding :
      Document → Bytes → WriteResult → D → Stores K V E → Indexed D K V E
  unfolding index_vector classify_embedding
  index_embedding doc text written d w =
      let (r, e') = ix.embedder.embed text w.embedder in
      let w' : Stores K V E = record w { embedder = e' } in
      elim r [
        | not_embedded x ↦ failed (wrap (classify_embedding x)) d w'
        | embedded vector ↦ index_vector doc written vector d w'
      ]

  abbrev pub document_of : Row → Document
  document_of row = record {
    id = row.id;
    title = row.title;
    content = row.body;
    url = [];
    updated_at = row.updated_at;
    version = row.version;
  }

  -- The rest of Index, once the row is read.
  unfoldable pub index_row : Row → D → Stores K V E → Indexed D K V E
  unfolding is_empty index_embedding classify_keyword
  index_row row d w =
      let doc = document_of row in
      let text = build_embedding_text doc in
      if is_empty text
      then failed (permanent_error (wrap (sentinel Sentinel.empty_text))) d w
      else let ((written, e), k') = ix.keyword.index_document doc w.keyword in
        let w' : Stores K V E = record w { keyword = k' } in
        elim e [
          | some x ↦ failed (wrap (classify_keyword x)) d w'
          | none ↦ elim written [
            | WriteResult.stale ↦ finished stale d w'
            | other ↦ index_embedding doc text other d w'
          ]
        ]

  unfoldable pub delete : Bytes → D → Stores K V E → Indexed D K V E
  unfolding classify_keyword classify_vector
  delete id d w =
      let (e, k') = ix.keyword.delete_document id w.keyword in
      let w' : Stores K V E = record w { keyword = k' } in
      elim e [
        | some x ↦ failed (wrap (classify_keyword x)) d w'
        | none ↦
            let (f, v') = ix.vectors.delete id w'.vectors in
            let w'' : Stores K V E = record w' { vectors = v' } in
            elim f [
              | some x ↦ failed (wrap (classify_vector x)) d w''
              | none ↦ finished deleted d w''
            ]
      ]

  -- Index.
  unfoldable pub index : Event → D → Stores K V E → Indexed D K V E
  unfolding get_document index_row delete is
  index ev d w =
      let (r, d') = get_document ev.document_id d in
      elim r [
        | err e ↦
            if is Sentinel.row_not_found e then delete ev.document_id d' w else failed (wrap e) d' w
        | ok row ↦ index_row row d' w
      ]
