-- ===== src/Tests/SetupTests.antt =====
-- EnsureIndex when another instance creates the index between its two calls, and names of indexes.
use near_real_time_hybrid_se.Common.{
  ℕ, ◌≡◌, ◌==◌, suc, refl, map, [], ◌∷◌, false, none, some, if◌then◌else◌,
}
use near_real_time_hybrid_se.Common.Bytes.{codes}
use near_real_time_hybrid_se.Errors.{foreign, wrap, keyword_request}
use near_real_time_hybrid_se.OpenSearch.{answer, failure}
use near_real_time_hybrid_se.OpenSearch.Setup.{
  IndexApi, ensure_index, validate_index_name, no_name, mixed_case, reserved_name, bad_start,
  bad_character,
}

-- The state counts the calls; the index exists from the second one on.
abbrev raced : IndexApi ℕ
raced = record {
  exists = λ n. (if n == 0 then failure 404 (foreign 1 false) else answer tt, suc n);
  create = λ n. (failure 400 (foreign 2 false), suc n);
}

abbrev refusing : IndexApi ℕ
refusing = record {
  exists = λ n. (failure 404 (foreign 1 false), suc n);
  create = λ n. (failure 403 (foreign 2 false), suc n);
}

race_won : ensure_index raced 0 ≡ (none, 3)
unfolding ensure_index
race_won = refl

creation_refused :
    ensure_index refusing 0 ≡ (some (wrap (keyword_request 403 (foreign 2 false))), 3)
unfolding ensure_index
creation_refused = refl

names :
    map
      (validate_index_name (λ b. map (λ c. if c == 65 then 97 else c) b))
      (codes "documents" ∷ [] ∷ codes "dAta" ∷ codes ".." ∷ codes "_docs" ∷ codes "a b" ∷ [])
    ≡ none
      ∷ some no_name
      ∷ some mixed_case
      ∷ some reserved_name
      ∷ some bad_start
      ∷ some bad_character
      ∷ []
unfolding validate_index_name
names = refl
