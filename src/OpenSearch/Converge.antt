-- ===== src/OpenSearch/Converge.antt =====
-- Versioned writes of one document through internal/search/opensearch/index.go: whatever their order, the
-- latest one stays.
use near_real_time_hybrid_se.Common.{
  ◌≡◌, ◌⊎◌, inl, inr, refl, sym, ap, subst, ◌∙◌, arith, Bool, true, false, List, [], ◌∷◌, Option,
  none, some, All, In, if◌then◌else◌,
}
use near_real_time_hybrid_se.Common.Int.{ℤ, pos, ltb_ℤ, ◌<ℤ◌}
use near_real_time_hybrid_se.Common.Bytes.{Bytes}
use near_real_time_hybrid_se.Errors.{Err}
use near_real_time_hybrid_se.OpenSearch.{
  Api, Document, Reply, answer, failure, index_document, after_index, classify_conflict,
  document_version,
}

-- Whether a write with a version is later than what is stored.
abbrev pub newer : ℤ → Option Document → Bool
newer v none = true
newer v (some d) = ltb_ℤ d.version v

abbrev pub latest : Document → Option Document → Option Document
latest d o = if newer d.version o then some d else o

module _ {S : Type 0} (api : Api S) where
  -- What OpenSearch documents of external versions: a write that is answered was newer than the stored
  -- document and replaces it, one that is refused with 409 was not and changes nothing, and a read
  -- changes nothing.
  pub record IsVersioned : Type 0 where
    pub lookup : S → Bytes → Option Document
    pub accepted :
        (d : Document) (s : S)
        → (api.index d.id d (some d.version) s).0 ≡ answer tt
        → (newer d.version (lookup s d.id) ≡ true)
          × (lookup (api.index d.id d (some d.version) s).1 d.id ≡ some d)
    pub refused :
        (d : Document) (s : S) (e : Err)
        → (api.index d.id d (some d.version) s).0 ≡ failure 409 e
        → (newer d.version (lookup s d.id) ≡ false)
          × (lookup (api.index d.id d (some d.version) s).1 d.id ≡ lookup s d.id)
    pub read : (id : Bytes) (s : S) → lookup (api.get id s).1 id ≡ lookup s id

  -- IndexDocument for each of the documents; none if a call reports an error.
  unfoldable pub index_all : List Document → S → Option S
  unfolding index_document
  index_all [] s = some s
  index_all (d ∷ ds) s =
      let (r, s') = index_document api d s in elim r.1 [ none ↦ index_all ds s' | some e ↦ none ]

  module _ (w : IsVersioned) where
    conflict_keeps :
        (d : Document) (s : S) → w.lookup (classify_conflict api d s).1 d.id ≡ w.lookup s d.id
    unfolding classify_conflict document_version
    conflict_keeps d s = ground (arith, w.read d.id s)

    after-latest :
        (d : Document) (s : S) (x : Reply (Unit {0}))
        → x ≡ (api.index d.id d (some d.version) s).0
        → pos 0 <ℤ d.version
        → (after_index api d x (api.index d.id d (some d.version) s).1).0.1 ≡ none
        → w.lookup (after_index api d x (api.index d.id d (some d.version) s).1).1 d.id
          ≡ latest d (w.lookup s d.id)
    unfolding after_index
    after-latest d s (answer tt) q p h = let (n, k) = w.accepted d s (sym q) in ground (arith, n, k)
    after-latest d s (failure c e) q p h =
        let conflict : c ≡ 409 = ground (arith, h, p) in
        let (n, k) = w.refused d s e (sym q ∙ ap (λ x. failure x e) conflict) in
        ground (arith, n, k, p, conflict, conflict_keeps d (api.index d.id d (some d.version) s).1)

    index-latest :
        (d : Document) (s : S)
        → pos 0 <ℤ d.version
        → (index_document api d s).0.1 ≡ none
        → w.lookup (index_document api d s).1 d.id ≡ latest d (w.lookup s d.id)
    unfolding index_document
    index-latest d s p h =
        ground (arith, p, h, after-latest d s (api.index d.id d (some d.version) s).0 refl p)

    -- A write of the same document, with its version; `d` is the latest one.
    abbrev pub IsBehind : Document → Document → Type 0
    IsBehind d x = (x.id ≡ d.id) × (pos 0 <ℤ x.version) × ((x ≡ d) ⊎ (x.version <ℤ d.version))

    written :
        (x : Document) (ds : List Document) (s : S) {t : S}
        → index_all (x ∷ ds) s ≡ some t
        → ((index_document api x s).0.1 ≡ none) × (index_all ds (index_document api x s).1 ≡ some t)
    unfolding index_all
    written x ds s h = ground (arith, h)

    one_write :
        (d x : Document) (s : S)
        → IsBehind d x
        → (index_document api x s).0.1 ≡ none
        → w.lookup (index_document api x s).1 d.id ≡ latest x (w.lookup s d.id)
    one_write d x s (i, p, c) h =
        subst (λ k. w.lookup (index_document api x s).1 k ≡ latest x (w.lookup s k)) i
          (index-latest x s p h)

    latest_stays :
        (d x : Document) → ((x ≡ d) ⊎ (x.version <ℤ d.version)) → latest x (some d) ≡ some d
    latest_stays d x (inl e) = ground (arith, e)
    latest_stays d x (inr l) = ground (arith, l)

    settled :
        (d : Document) (ds : List Document) (s : S) {t : S}
        → All (IsBehind d) ds
        → w.lookup s d.id ≡ some d
        → index_all ds s ≡ some t
        → w.lookup t d.id ≡ some d
    unfolding index_all
    settled d [] s a e h = ground (arith, e, h)
    settled d (x ∷ ds) s (b, a) e h =
        let (n, r) = written x ds s h in
        settled d ds (index_document api x s).1 a
          (one_write d x s b n ∙ (ap (latest x) e ∙ latest_stays d x b.2)) r

    older_stays :
        (d x : Document) (o : Option Document)
        → x.version <ℤ d.version
        → newer d.version o ≡ true
        → newer d.version (latest x o) ≡ true
    older_stays d x none l h = ground (arith, l)
    older_stays d x (some y) l h = ground (arith, l, h)

    now_latest :
        (d x : Document) (o : Option Document)
        → x ≡ d
        → newer d.version o ≡ true
        → latest x o ≡ some d
    now_latest d x o e h = ground (arith, e, h)

    -- For an index that treats versions as OpenSearch documents it: any sequence of writes of one
    -- document that all work, among them one with a higher version than all others, leaves that one's
    -- document, if the index held nothing newer or the same before; in whichever order they arrive, and
    -- repeated or not.
    pub latest_wins :
        (d : Document) (ds : List Document) (s : S) {t : S}
        → In d ds
        → All (IsBehind d) ds
        → newer d.version (w.lookup s d.id) ≡ true
        → index_all ds s ≡ some t
        → w.lookup t d.id ≡ some d
    latest_wins d [] s i a e h = elim i [ ]
    latest_wins d (x ∷ ds) s (inl q) (b, a) e h =
        let (n, r) = written x ds s h in
        settled d ds (index_document api x s).1 a
          (one_write d x s b n ∙ now_latest d x (w.lookup s d.id) (sym q) e) r
    latest_wins d (x ∷ ds) s (inr i) ((j, p, inl q), a) e h =
        let (n, r) = written x ds s h in
        settled d ds (index_document api x s).1 a
          (one_write d x s (j, p, inl q) n ∙ now_latest d x (w.lookup s d.id) q e) r
    latest_wins d (x ∷ ds) s (inr i) ((j, p, inr l), a) e h =
        let (n, r) = written x ds s h in
        latest_wins d ds (index_document api x s).1 i a
          (ap (newer d.version) (one_write d x s (j, p, inr l) n)
            ∙ older_stays d x (w.lookup s d.id) l e)
          r
