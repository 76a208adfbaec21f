-- ===== src/Tests/VersionTests.antt =====
-- An index with one document: three writes of it, the latest one in the middle.
use near_real_time_hybrid_se.Common.{
  ℕ, ◌≡◌, inl, inr, refl, arith, Bool, true, false, [], ◌∷◌, Option, none, some, if◌then◌else◌,
}
use near_real_time_hybrid_se.Common.Int.{ℤ, pos}
use near_real_time_hybrid_se.Common.Bytes.{codes}
use near_real_time_hybrid_se.Common.Trim.{trim_space, is_empty}
use near_real_time_hybrid_se.Errors.{foreign}
use near_real_time_hybrid_se.OpenSearch.{
  Api, Document, answer, failure, index_document, validate_id, classify_conflict, document_version,
}
use near_real_time_hybrid_se.OpenSearch.Converge.{newer, IsVersioned, index_all, latest_wins}

abbrev is_later : Option ℤ → Option Document → Bool
is_later none s = true
is_later (some v) s = newer v s

abbrev cluster : Api (Option Document)
cluster = record {
  encode = λ d. none;
  index =
      λ id d v s. if is_later v s then (answer tt, some d) else (failure 409 (foreign 3 false), s);
  get = λ id s. (
    elim s [
      | none ↦ failure 404 (foreign 4 false)
      | some d ↦ answer (record { found = true; version = d.version })
    ],
    s,
  );
  delete = λ id s. (answer tt, none);
}

unfoldable versions : IsVersioned cluster
versions = record {
  lookup = λ s id. s;
  accepted = λ d s h. (ground (arith, h), ground (arith, h));
  refused = λ d s e h. (ground (arith, h), ground (arith, h));
  read = λ id s. refl;
}

abbrev edition : ℕ → Document
edition n = record {
  id = codes "d1";
  title = [];
  content = [];
  url = [];
  updated_at = none;
  version = pos n;
}

latest_wins_example : versions.lookup (some (edition 9)) (codes "d1") ≡ some (edition 9)
unfolding versions index_all index_document trim_space is_empty validate_id classify_conflict
    document_version
latest_wins_example =
    latest_wins cluster versions (edition 9) (edition 5 ∷ edition 9 ∷ edition 7 ∷ []) none
      (inr (inl refl))
      (
        (refl, omega arith, inr (omega arith)),
        ((refl, omega arith, inl refl), ((refl, omega arith, inr (omega arith)), tt)),
      )
      refl refl
