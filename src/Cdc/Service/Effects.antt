-- ===== src/Cdc/Service/Effects.antt =====
-- What each effect of Process says of the calls it made and of the two indexes afterwards.
use near_real_time_hybrid_se.Common.{
  ◌≡◌, ◌≢◌, refl, true, false, List, [], ◌∷◌, Option, none, arith,
}
use near_real_time_hybrid_se.Common.Bytes.{Bytes}
use near_real_time_hybrid_se.Errors.{Err, keyword_store, vector_store, embedder_store}
use near_real_time_hybrid_se.OpenSearch.{Document, WriteResult}
use near_real_time_hybrid_se.Cdc.{
  ChangeEvent, Effect, no_effect, indexed, reapplied, stale, deleted, is_delete, validate,
}
use near_real_time_hybrid_se.Cdc.Mapping.{Result, ok, err, document, build_embedding_text}
use near_real_time_hybrid_se.Cdc.Service.{
  StoreCall, Stores, Outcome, Service, call, index_call, delete_call, upsert_call, embed_call,
  write_vector, write_document, write_mapped, upsert, delete, process,
}

-- The calls behind each effect: an effect stands for calls that all worked, in this order, and an
-- error for no effect.
abbrev pub Backed : {K V E : Type 0} → Effect → Outcome K V E → Type 0
Backed no_effect o = o.err ≢ none
Backed indexed o =
    (o.err ≡ none)
    × (o.calls
        ≡ call keyword_store index_call none
          ∷ call embedder_store embed_call none
          ∷ call vector_store upsert_call none
          ∷ [])
Backed reapplied o =
    (o.err ≡ none)
    × (o.calls
        ≡ call keyword_store index_call none
          ∷ call embedder_store embed_call none
          ∷ call vector_store upsert_call none
          ∷ [])
Backed stale o = (o.err ≡ none) × (o.calls ≡ call keyword_store index_call none ∷ [])
Backed deleted o =
    (o.err ≡ none)
    × (o.calls ≡ call keyword_store delete_call none ∷ call vector_store delete_call none ∷ [])

-- The order of an upsert: which calls were made, and which parts of the stores they can have changed.
abbrev pub Ordered : {K V E : Type 0} → List StoreCall → Stores K V E → Stores K V E → Type 0
Ordered [] w w' = w' ≡ w
Ordered (a ∷ []) w w' =
    (a.operation ≡ index_call) × (w'.vectors ≡ w.vectors) × (w'.embedder ≡ w.embedder)
Ordered (a ∷ b ∷ []) w w' =
    (a ≡ call keyword_store index_call none)
    × (b.operation ≡ embed_call)
    × (b.err ≢ none)
    × (w'.vectors ≡ w.vectors)
Ordered (a ∷ b ∷ c ∷ []) w w' =
    (a ≡ call keyword_store index_call none)
    × (b ≡ call embedder_store embed_call none)
    × (c.operation ≡ upsert_call)
Ordered _ w w' = ⊥

module _ {Vec K V E : Type 0} (svc : Service Vec K V E) where
  write_vector-Backed :
      (id : Bytes) (doc : Document) (written : WriteResult) (vector : Vec) (w : Stores K V E)
      → let o =
          write_vector svc id doc written vector w
            (call keyword_store index_call none ∷ call embedder_store embed_call none ∷ []) in
        Backed o.effect o
  unfolding write_vector
  write_vector-Backed id doc written vector w = ground arith

  write_document-Backed :
      (id : Bytes) (doc : Document) (text : Bytes) (w : Stores K V E)
      → let o = write_document svc id doc text w in Backed o.effect o
  unfolding write_document
  write_document-Backed id doc text w = ground arith

  delete-Backed : (id : Bytes) (w : Stores K V E) → let o = delete svc id w in Backed o.effect o
  unfolding delete
  delete-Backed id w = ground arith

  write_mapped-Backed :
      (id : Bytes) (r : Result Document) (w : Stores K V E)
      → let o = write_mapped svc id r w in Backed o.effect o
  unfolding write_mapped
  write_mapped-Backed id (err e) w = λ h. cc
  write_mapped-Backed id (ok doc) w =
      ground (arith, write_document-Backed id doc (build_embedding_text doc) w)

  -- Process returns an error exactly with no effect, and any other effect only after the calls that
  -- it stands for have all worked: index, embed and upsert for `indexed` and `reapplied`, the index
  -- alone for `stale`, both deletes for `deleted`.
  pub process-Backed :
      (ctx_err : Option Err) (ev : ChangeEvent) (w : Stores K V E)
      → let o = process svc ctx_err ev w in Backed o.effect o
  unfolding process upsert
  process-Backed ctx_err ev w = ground (
    arith,
    write_mapped-Backed ev.id (document svc.parse_time svc.mapping ev) w,
    delete-Backed ev.id w,
  )

  -- A delete always asks both indexes, also if the first one fails, and changes nothing else.
  process-deletes_both :
      (ev : ChangeEvent) (w : Stores K V E)
      → validate ev ≡ none
      → is_delete ev.operation ≡ true
      → let o = process svc none ev w in
        let (ke, k') = svc.keyword.delete_document ev.id w.keyword in
        let (ve, v') = svc.vectors.delete ev.id w.vectors in
        (o.calls ≡ call keyword_store delete_call ke ∷ call vector_store delete_call ve ∷ [])
        × (o.stores ≡ record { keyword = k'; vectors = v'; embedder = w.embedder })
  unfolding process delete
  process-deletes_both ev w v d = ground arith

  write_document-Ordered :
      (id : Bytes) (doc : Document) (text : Bytes) (w : Stores K V E)
      → let o = write_document svc id doc text w in Ordered o.calls w o.stores
  unfolding write_document
  write_document-Ordered id doc text w = ground arith

  write_mapped-Ordered :
      (id : Bytes) (r : Result Document) (w : Stores K V E)
      → let o = write_mapped svc id r w in Ordered o.calls w o.stores
  unfolding write_mapped
  write_mapped-Ordered id (err e) w = refl
  write_mapped-Ordered id (ok doc) w =
      ground (arith, write_document-Ordered id doc (build_embedding_text doc) w)

  -- An event that is no delete calls the keyword index, then the embedder, then the vector index, each
  -- only if the call before it worked; without a call nothing changes, and the vector index is as it
  -- was unless both calls before its own worked.
  pub process-Ordered :
      (ctx_err : Option Err) (ev : ChangeEvent) (w : Stores K V E)
      → is_delete ev.operation ≡ false
      → let o = process svc ctx_err ev w in Ordered o.calls w o.stores
  unfolding process upsert
  process-Ordered ctx_err ev w d =
      ground (arith, write_mapped-Ordered ev.id (document svc.parse_time svc.mapping ev) w)
