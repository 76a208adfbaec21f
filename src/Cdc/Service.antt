-- ===== src/Cdc/Service.antt =====
-- internal/indexing/cdc/service.go: a change event applied to the keyword and the vector index.
-- The two indexes and the embedder are interfaces in the source and records here, each with its own
-- state: `K`, `V` and `E`. `Vec` is the type of vectors. Observer.StoreCalled is the list `calls`, in
-- order, without durations; the context enters by what `ctx.Err()` says when the event is taken up.
pub mod Effects
pub mod Stale
use near_real_time_hybrid_se.Common.{
  Bool, true, false, List, [], ◌∷◌, ◌++◌, Option, none, some, if◌then◌else◌,
}
use near_real_time_hybrid_se.Common.Int.{ℤ}
use near_real_time_hybrid_se.Common.Bytes.{Bytes}
use near_real_time_hybrid_se.Common.Trim.{is_empty}
use near_real_time_hybrid_se.Errors.{
  Err, Store, store_error, wrap, keyword_store, vector_store, embedder_store,
}
use near_real_time_hybrid_se.Classify.{no_text_error, store_err, join}
use near_real_time_hybrid_se.OpenSearch.{Document, WriteResult}
use near_real_time_hybrid_se.Cdc.{
  ChangeEvent, Effect, no_effect, indexed, reapplied, stale, deleted, is_delete, validate,
}
use near_real_time_hybrid_se.Cdc.Mapping.{
  FieldMapping, Payload, Result, ok, err, document, vector_payload, build_embedding_text,
}

pub record KeywordIndex (K : Type 0) : Type 0 where
  pub index_document : Document → K → (WriteResult × Option Err) × K
  pub delete_document : Bytes → K → Option Err × K

pub record Point (Vec : Type 0) : Type 0 where
  pub id : Bytes
  pub vector : Vec
  pub payload : Payload

pub record VectorIndex (Vec V : Type 0) : Type 0 where
  pub upsert : Point Vec → V → Option Err × V
  pub delete : Bytes → V → Option Err × V

-- A provider returns a vector or an error.
pub data Embedding (Vec : Type 0) : Type 0 where
  embedded : Vec → Embedding Vec
  not_embedded : Err → Embedding Vec

pub record Embedder (Vec E : Type 0) : Type 0 where
  pub embed : Bytes → E → Embedding Vec × E

pub data CallName : Type 0 where
  index_call delete_call upsert_call embed_call : CallName

pub record StoreCall : Type 0 where
  pub store : Store
  pub operation : CallName
  pub err : Option Err

pub record Stores (K V E : Type 0) : Type 0 where
  pub keyword : K
  pub vectors : V
  pub embedder : E

-- What Process returns, the stores after it and the calls that it reported.
pub record Outcome (K V E : Type 0) : Type 0 where
  pub effect : Effect
  pub err : Option Err
  pub stores : Stores K V E
  pub calls : List StoreCall

pub record Service (Vec K V E : Type 0) : Type 0 where
  pub keyword : KeywordIndex K
  pub vectors : VectorIndex Vec V
  pub embedder : Embedder Vec E
  pub mapping : FieldMapping
  pub parse_time : Bytes → Option ℤ

abbrev pub call : Store → CallName → Option Err → StoreCall
call s o e = record { store = s; operation = o; err = e }

module _ {Vec K V E : Type 0} (svc : Service Vec K V E) where
  abbrev pub failed : Err → Stores K V E → List StoreCall → Outcome K V E
  failed e w calls = record { effect = no_effect; err = some e; stores = w; calls = calls }

  abbrev pub finished : Effect → Stores K V E → List StoreCall → Outcome K V E
  finished effect w calls = record { effect = effect; err = none; stores = w; calls = calls }

  -- The error of a store as a *StoreError.
  abbrev pub from_store : Store → Bytes → Err → Err
  from_store s id e = store_error s id e

  -- The upsert of the vector, after the keyword index has taken the document.
  unfoldable pub write_vector :
      Bytes → Document → WriteResult → Vec → Stores K V E → List StoreCall → Outcome K V E
  unfolding vector_payload
  write_vector id doc written vector w calls =
      let (e, v') =
        svc.vectors.upsert (record { id = doc.id; vector = vector; payload = vector_payload doc })
          w.vectors in
      let w' : Stores K V E = record w { vectors = v' } in
      let calls' = calls ++ (call vector_store upsert_call e ∷ []) in
      elim e [
        | some x ↦ failed (from_store vector_store id x) w' calls'
        | none ↦ elim written [
          | WriteResult.duplicate ↦ finished reapplied w' calls'
          | _ ↦ finished indexed w' calls'
        ]
      ]

  -- The call of the embedder.
  unfoldable pub write_embedding :
      Bytes → Document → Bytes → WriteResult → Stores K V E → List StoreCall → Outcome K V E
  unfolding write_vector
  write_embedding id doc text written w calls =
      let (r, e') = svc.embedder.embed text w.embedder in
      let w' : Stores K V E = record w { embedder = e' } in
      elim r [
        | not_embedded x ↦
            failed (from_store embedder_store id x) w'
              (calls ++ (call embedder_store embed_call (some x) ∷ []))
        | embedded vector ↦
            write_vector id doc written vector w'
              (calls ++ (call embedder_store embed_call none ∷ []))
      ]

  -- The rest of upsert, once the row is a document with text.
  unfoldable pub write_document : Bytes → Document → Bytes → Stores K V E → Outcome K V E
  unfolding write_embedding
  write_document id doc text w =
      let ((written, e), k') = svc.keyword.index_document doc w.keyword in
      let w' : Stores K V E = record w { keyword = k' } in
      let calls = call keyword_store index_call e ∷ [] in
      elim e [
        | some x ↦ failed (from_store keyword_store id x) w' calls
        | none ↦ elim written [
          | WriteResult.stale ↦ finished stale w' calls
          | other ↦ write_embedding id doc text other w' calls
        ]
      ]

  -- The rest of upsert, once the mapping has read the row.
  unfoldable pub write_mapped : Bytes → Result Document → Stores K V E → Outcome K V E
  unfolding is_empty
  write_mapped id (err e) w = failed e w []
  write_mapped id (ok doc) w =
      let text = build_embedding_text doc in
      if is_empty text then failed (wrap no_text_error) w [] else write_document id doc text w

  unfoldable pub upsert : ChangeEvent → Stores K V E → Outcome K V E
  upsert ev w = write_mapped ev.id (document svc.parse_time svc.mapping ev) w

  unfoldable pub delete : Bytes → Stores K V E → Outcome K V E
  unfolding store_err join
  delete id w =
      let (ke, k') = svc.keyword.delete_document id w.keyword in
      let (ve, v') = svc.vectors.delete id w.vectors in
      let w' : Stores K V E = record w { keyword = k'; vectors = v' } in
      let calls = call keyword_store delete_call ke ∷ call vector_store delete_call ve ∷ [] in
      elim (join (store_err keyword_store id ke) (store_err vector_store id ve)) [
        | some e ↦ failed e w' calls
        | none ↦ finished deleted w' calls
      ]

  unfoldable pub process : Option Err → ChangeEvent → Stores K V E → Outcome K V E
  process ctx_err ev w = elim (validate ev) [
    | some e ↦ failed e w []
    | none ↦ elim ctx_err [
      | some e ↦ failed e w []
      | none ↦ if is_delete ev.operation then delete ev.id w else upsert ev w
    ]
  ]
