-- ===== src/OpenSearch.antt =====
-- internal/search/opensearch/index.go: versioned writes to the keyword index, and what a refused one
-- means. The OpenSearch SDK is a parameter: each of its calls answers, or fails with the status of
-- the response (0 if none arrived) and a cause, and passes on the state `S` of the cluster.
-- `time.Time` is the ℤ of its nanoseconds, none for the zero time.
pub mod Search
pub mod Converge
pub mod Setup
use near_real_time_hybrid_se.Common.{
  ℕ, Bool, ◌&&◌, ◌==◌, Option, none, some, ltb, length, if◌then◌else◌,
}
use near_real_time_hybrid_se.Common.Int.{ℤ, pos, ltb_ℤ}
use near_real_time_hybrid_se.Common.Bytes.{Bytes}
use near_real_time_hybrid_se.Common.Trim.{trim_space, is_empty}
use near_real_time_hybrid_se.Errors.{
  Err, Sentinel, sentinel, wrap, wraps, cons, nil, keyword_request,
}

pub record Document : Type 0 where
  pub id : Bytes
  pub title : Bytes
  pub content : Bytes
  pub url : Bytes
  pub updated_at : Option ℤ
  pub version : ℤ

pub data WriteResult : Type 0 where
  unknown applied duplicate stale : WriteResult

pub data Reply (A : Type 0) : Type 0 where
  answer : A → Reply A
  failure : ℕ → Err → Reply A

pub record Version : Type 0 where
  pub found : Bool
  pub version : ℤ

-- The SDK, for the client's index. `index` takes the external version, if the write is conditional.
-- `encode` is json.Marshal of a document, by the error that it returns.
pub record Api (S : Type 0) : Type 0 where
  pub encode : Document → Option Err
  pub index : Bytes → Document → Option ℤ → S → Reply (Unit {0}) × S
  pub get : Bytes → S → Reply Version × S
  pub delete : Bytes → S → Reply (Unit {0}) × S

abbrev pub max_id_bytes : ℕ
max_id_bytes = 512

unfoldable pub validate_id : Bytes → Option Err
unfolding trim_space is_empty
validate_id id =
    if is_empty (trim_space id)
    then some (wrap (sentinel Sentinel.invalid_document))
    else if ltb max_id_bytes (length id)
    then some (wrap (sentinel Sentinel.invalid_document))
    else none

-- DocumentVersion's result: version and found, or an error.
pub data Lookup : Type 0 where
  version_of : ℤ → Lookup
  not_found : Lookup
  unreadable : Err → Lookup

module _ {S : Type 0} (api : Api S) where
  unfoldable pub document_version : Bytes → S → Lookup × S
  document_version id s = elim (validate_id id) [
    | some e ↦ (unreadable e, s)
    | none ↦
        let (reply, s') = api.get id s in
        (
          elim reply [
            | failure c e ↦ if c == 404 then not_found else unreadable (wrap (keyword_request c e))
            | answer v ↦ if v.found then version_of v.version else not_found
          ],
          s',
        )
  ]

  -- What a refused versioned write means.
  unfoldable pub classify_conflict : Document → S → WriteResult × S
  classify_conflict doc s =
      let (found, s') = document_version doc.id s in
      (
        elim found [
          | unreadable e ↦ duplicate
          | not_found ↦ stale
          | version_of v ↦ if ltb_ℤ doc.version v then stale else duplicate
        ],
        s',
      )

  -- The end of IndexDocument, after the request.
  unfoldable pub after_index : Document → Reply (Unit {0}) → S → (WriteResult × Option Err) × S
  after_index doc (answer _) s = ((applied, none), s)
  after_index doc (failure c e) s =
      if ltb_ℤ (pos 0) doc.version && (c == 409)
      then (let (r, s') = classify_conflict doc s in ((r, none), s'))
      else ((unknown, some (wrap (keyword_request c e))), s)

  unfoldable pub index_document : Document → S → (WriteResult × Option Err) × S
  unfolding after_index
  index_document doc s = elim (validate_id doc.id) [
    | some e ↦ ((unknown, some e), s)
    | none ↦ elim (api.encode doc) [
      | some e ↦
          ((unknown, some (wraps (cons (sentinel Sentinel.invalid_document) (cons e nil)))), s)
      | none ↦
          let version = if ltb_ℤ (pos 0) doc.version then some doc.version else none in
          let (reply, s') = api.index doc.id doc version s in after_index doc reply s'
    ]
  ]

  unfoldable pub delete_document : Bytes → S → Option Err × S
  delete_document id s = elim (validate_id id) [
    | some e ↦ (some e, s)
    | none ↦
        let (reply, s') = api.delete id s in
        (
          elim reply [
            | answer _ ↦ none
            | failure c e ↦ if c == 404 then none else some (wrap (keyword_request c e))
          ],
          s',
        )
  ]
