-- ===== src/Qdrant/Payload.antt =====
-- The payload that toPointStruct of internal/search/qdrant/point.go builds.
use near_real_time_hybrid_se.Common.{
  ◌≡◌, ◌≢◌, refl, sym, ◌∙◌, subst, inl, inr, false, List, [], ◌∷◌, Option, none, some, arith,
  Bool-cases, if◌then◌else◌,
}
use near_real_time_hybrid_se.Common.Bytes.{
  Bytes, bytes_eq, bytes_eq_refl, bytes_eq→eq, bytes_eq_iff,
}
use near_real_time_hybrid_se.Qdrant.{
  Float32, Uuids, Point, Api, document_id_key, set_entry, copy_entries, payload_of,
}

different : (a b : Bytes) → a ≢ b → bytes_eq a b ≡ false
different a b n = ground (arith, bytes_eq_iff a b, n)

module _ {A : Type 0} where
  -- The value of a key.
  unfoldable pub entry_of : Bytes → List (Bytes × A) → Option A
  unfolding bytes_eq
  entry_of key [] = none
  entry_of key (e ∷ es) = let rest = entry_of key es in if bytes_eq e.0 key then some e.1 else rest

  -- A list of entries is a map if no key stands in it twice.
  abbrev pub IsMap : List (Bytes × A) → Type 0
  IsMap [] = Unit {0}
  IsMap (e ∷ es) = (entry_of e.0 es ≡ none) × IsMap es

  entry_of-set :
      (key : Bytes) (value : A) (es : List (Bytes × A))
      → entry_of key (set_entry key value es) ≡ some value
  unfolding entry_of set_entry
  entry_of-set key value [] = rw (bytes_eq_refl key)
  entry_of-set key value (e ∷ es) = elim (Bool-cases (bytes_eq e.0 key)) [
    | inl t ↦ rw (t, bytes_eq_refl key)
    | inr t ↦ rw (t, t, entry_of-set key value es)
  ]

  set_entry-other :
      (k key : Bytes) (value : A) (es : List (Bytes × A))
      → bytes_eq key k ≡ false
      → entry_of k (set_entry key value es) ≡ entry_of k es
  unfolding entry_of set_entry
  set_entry-other k key value [] n = rw n refl
  set_entry-other k key value (e ∷ es) n = elim (Bool-cases (bytes_eq e.0 key)) [
    | inl t ↦
        let q : bytes_eq e.0 k ≡ false =
          subst (λ x. bytes_eq x k ≡ false) (sym (bytes_eq→eq e.0 key t)) n in
        rw (t, n, q) refl
    | inr t ↦ rw (t, set_entry-other k key value es n) refl
  ]

  -- What the copy of a map into `m` holds: the entries of the map, and those of `m` for other keys.
  copy_entries-none :
      (k : Bytes) (es m : List (Bytes × A))
      → entry_of k es ≡ none
      → entry_of k (copy_entries es m) ≡ entry_of k m
  unfolding copy_entries entry_of
  copy_entries-none k [] m h = refl
  copy_entries-none k (e ∷ es) m h = elim (Bool-cases (bytes_eq e.0 k)) [
    | inl t ↦ absurd (ground (arith, t, h))
    | inr t ↦
        copy_entries-none k es (set_entry e.0 e.1 m) (ground (arith, t, h))
        ∙ set_entry-other k e.0 e.1 m t
  ]

  copy_entries-keeps :
      (k : Bytes) (v : A) (es m : List (Bytes × A))
      → IsMap es
      → entry_of k es ≡ some v
      → entry_of k (copy_entries es m) ≡ some v
  unfolding copy_entries entry_of
  copy_entries-keeps k v [] m u h = cc
  copy_entries-keeps k v (e ∷ es) m u h = elim (Bool-cases (bytes_eq e.0 k)) [
    | inl t ↦
        let q : e.0 ≡ k = bytes_eq→eq e.0 k t in
        copy_entries-none k es (set_entry e.0 e.1 m) (subst (λ x. entry_of x es ≡ none) q u.0)
        ∙ subst (λ x. entry_of x (set_entry e.0 e.1 m) ≡ some e.1) q (entry_of-set e.0 e.1 m)
        ∙ ground (arith, t, h)
    | inr t ↦ copy_entries-keeps k v es (set_entry e.0 e.1 m) u.1 (ground (arith, t, h))
  ]

  copy_entries-same :
      (k : Bytes) (es : List (Bytes × A))
      → IsMap es
      → entry_of k (copy_entries es []) ≡ entry_of k es
  unfolding entry_of
  copy_entries-same k es u = go (entry_of k es) refl
    where
      go : (o : Option A) → entry_of k es ≡ o → entry_of k (copy_entries es []) ≡ entry_of k es
      go none e = copy_entries-none k es [] e ∙ sym e
      go (some v) e = copy_entries-keeps k v es [] u e ∙ sym e

module _ (f : Float32) {A Values S : Type 0} (u : Uuids) (api : Api (List f.Value) A Values S) where
  pub id_entry :
      (p : Point (List f.Value) A)
      → entry_of document_id_key (payload_of f u api p) ≡ some (api.text p.id)
  unfolding payload_of
  id_entry p = entry_of-set document_id_key (api.text p.id) (copy_entries p.payload [])

  -- The caller's entries under other keys stay.
  pub payload_of-other :
      (p : Point (List f.Value) A) (k : Bytes)
      → IsMap p.payload
      → k ≢ document_id_key
      → entry_of k (payload_of f u api p) ≡ entry_of k p.payload
  unfolding payload_of
  payload_of-other p k w n =
      set_entry-other k document_id_key (api.text p.id) (copy_entries p.payload [])
        (different document_id_key k (λ e. n (sym e)))
      ∙ copy_entries-same k p.payload w
