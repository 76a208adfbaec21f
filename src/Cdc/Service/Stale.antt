-- ===== src/Cdc/Service/Stale.antt =====
-- A stale event against the service over the OpenSearch client: it stops before the embedder, unless
-- the version behind a conflict cannot be read.
use near_real_time_hybrid_se.Common.{ℕ, ◌≡◌, ◌≢◌, ap, true, false, none, some, arith}
use near_real_time_hybrid_se.Common.Int.{pos, ◌<ℤ◌}
use near_real_time_hybrid_se.Common.Trim.{is_empty}
use near_real_time_hybrid_se.Errors.{Err}
use near_real_time_hybrid_se.OpenSearch.{
  Document, Api, answer, failure, Version, validate_id, index_document, delete_document,
  classify_conflict, document_version,
}
use near_real_time_hybrid_se.Cdc.{ChangeEvent, reapplied, stale, is_delete, validate}
use near_real_time_hybrid_se.Cdc.Mapping.{ok, document, vector_payload, build_embedding_text}
use near_real_time_hybrid_se.Cdc.Service.{
  KeywordIndex, embedded, Stores, Service, process, upsert, write_mapped, write_document,
}

-- *opensearch.Client as the service's keyword index.
abbrev pub keyword_client : {S : Type 0} → Api S → KeywordIndex S
keyword_client api = record {
  index_document = index_document api;
  delete_document = delete_document api;
}

-- An event that is ready to be written: it is valid, no delete, and its row is a document with text, a
-- version and an ID that the index accepts.
pub record IsReady {Vec K V E : Type 0} (svc : Service Vec K V E) (api : Api K) (ev : ChangeEvent)
    (doc : Document) : Type 0 where
  pub over_client : svc.keyword ≡ keyword_client api
  pub event_valid : validate ev ≡ none
  pub no_delete : is_delete ev.operation ≡ false
  pub mapped : document svc.parse_time svc.mapping ev ≡ ok doc
  pub has_text : is_empty (build_embedding_text doc) ≡ false
  pub id_valid : validate_id doc.id ≡ none
  pub encodes : api.encode doc ≡ none
  pub versioned : pos 0 <ℤ doc.version

module _ {Vec K V E : Type 0} (svc : Service Vec K V E) (api : Api K) (ev : ChangeEvent)
    (doc : Document) (w : Stores K V E) where
  index_conflicts :
      {k₁ : K} {e₁ : Err}
      → validate_id doc.id ≡ none
      → api.encode doc ≡ none
      → pos 0 <ℤ doc.version
      → api.index doc.id doc (some doc.version) w.keyword ≡ (failure 409 e₁, k₁)
      → index_document api doc w.keyword
        ≡ (((classify_conflict api doc k₁).0, none), (classify_conflict api doc k₁).1)
  unfolding index_document
  index_conflicts i n p h = ground arith

  -- Process of a ready event is the write of its document.
  process_ready :
      IsReady svc api ev doc
      → process svc none ev w ≡ write_document svc ev.id doc (build_embedding_text doc) w
  unfolding process upsert write_mapped
  process_ready r = ground (arith, r.event_valid, r.no_delete, r.mapped, r.has_text)

  index_over_client :
      IsReady svc api ev doc
      → svc.keyword.index_document doc w.keyword ≡ index_document api doc w.keyword
  index_over_client r = ap (λ q. q.index_document doc w.keyword) r.over_client

  -- A late event: OpenSearch refuses its write, and holds a newer version of the document. Then
  -- Process reports `stale`, and neither the embedder nor the vector index is asked.
  pub late_event_stops :
      {k₁ k₂ : K} {e₁ : Err} (v : Version)
      → IsReady svc api ev doc
      → api.index doc.id doc (some doc.version) w.keyword ≡ (failure 409 e₁, k₁)
      → api.get doc.id k₁ ≡ (answer v, k₂)
      → v.found ≡ true
      → doc.version <ℤ v.version
      → let o = process svc none ev w in
        (o.effect ≡ stale) × (o.err ≡ none) × (o.stores ≡ record w { keyword = k₂ })
  unfolding write_document classify_conflict document_version
  late_event_stops v r h g f n = rw (process_ready r) (
      ground (
        arith,
        index_over_client r,
        index_conflicts r.id_valid r.encodes r.versioned h,
        r.id_valid,
      ))

  -- The same event when the version cannot be read back: whatever version OpenSearch holds, the
  -- conflict counts as a repeat, so the vector of the refused document is written to the vector index
  -- and the event is reported as reapplied.
  pub unreadable_conflict_is_applied :
      {k₁ k₂ : K} {e₁ e₂ : Err} {v' : V} {e' : E} (c : ℕ) (vector : Vec)
      → IsReady svc api ev doc
      → api.index doc.id doc (some doc.version) w.keyword ≡ (failure 409 e₁, k₁)
      → api.get doc.id k₁ ≡ (failure c e₂, k₂)
      → c ≢ 404
      → svc.embedder.embed (build_embedding_text doc) w.embedder ≡ (embedded vector, e')
      → svc.vectors.upsert
          (record { id = doc.id; vector = vector; payload = vector_payload doc })
          w.vectors
        ≡ (none, v')
      → let o = process svc none ev w in
        (o.effect ≡ reapplied)
        × (o.err ≡ none)
        × (o.stores ≡ record { keyword = k₂; vectors = v'; embedder = e' })
  unfolding write_document classify_conflict document_version
  unreadable_conflict_is_applied c vector r h g n a b = rw (process_ready r) (
      ground (
        arith,
        index_over_client r,
        index_conflicts r.id_valid r.encodes r.versioned h,
        r.id_valid,
      ))
