-- ===== src/Tests/HybridTests.antt =====
-- A search over one keyword hit and two vector hits, with scores in millionths.
use Prim.Native.Nat.{compare}
use near_real_time_hybrid_se.Common.{
  ℕ, ◌+◌, ◌*◌, ◌/◌, ◌≡◌, refl, true, List, [], ◌∷◌, none, some, length,
}
use near_real_time_hybrid_se.Common.Int.{pos}
use near_real_time_hybrid_se.Common.Bytes.{Bytes, codes}
use near_real_time_hybrid_se.Common.Trim.{trim_space, is_empty}
use near_real_time_hybrid_se.OpenSearch.{Document}
use near_real_time_hybrid_se.Cdc.{text_value}
use near_real_time_hybrid_se.Cdc.Mapping.{ok}
use near_real_time_hybrid_se.Rrf.{Scores}
use near_real_time_hybrid_se.Hybrid.Requests.{
  SearchConfig, SearchRequest, Valid, Utf8, validate_config, validate,
}
use near_real_time_hybrid_se.Hybrid.{Run, Hit, VectorHit, search, search_keyword, search_vector}
use near_real_time_hybrid_se.Hybrid.Answers.{IsWhole, search-IsWhole, search_answers}

abbrev pub scores : Scores
scores = record {
  Score = ℕ;
  of_nat = λ n. n * 1000000;
  add = λ a b. a + b;
  divide = λ a b. a * 1000000 / b;
  compare = compare;
}

abbrev pub config : SearchConfig
config = record {
  default_limit = pos 10;
  max_limit = pos 50;
  candidate_limit = pos 100;
  rrf_k = pos 60;
  timeout = pos 5000000000;
}

abbrev pub utf8 : Utf8
utf8 = record { valid_string = λ b. true; rune_count = length }

abbrev document : Document
document = record {
  id = codes "a";
  title = codes "Go";
  content = codes "channels";
  url = [];
  updated_at = none;
  version = pos 1;
}

abbrev vector_hit : Bytes → VectorHit
vector_hit id = record { id = id; payload = λ k. some (text_value k) }

abbrev pub answered : Run ℕ
answered = record {
  keyword_search = λ q n. ok (record { id = codes "a"; document = document } ∷ []);
  embed = λ t. ok (length t ∷ []);
  vector_search = λ v n. ok (vector_hit (codes "b") ∷ vector_hit (codes "a") ∷ []);
  keyword_failed_first = true;
  ctx_err = none;
  ctx_err_later = none;
}

abbrev pub request : SearchRequest
request = record { query = codes " go "; limit = pos 1 }

abbrev checked : Valid
checked = record { query = codes "go"; limit = pos 1 }

abbrev best : Hit scores
best = record {
  id = codes "a";
  title = codes "Go";
  content = codes "channels";
  url = [];
  score = 1000000 * 1000000 / 61000000 + 1000000 * 1000000 / 62000000;
}

config_valid : validate_config config ≡ none
unfolding validate_config
config_valid = refl

request_valid : validate utf8 config request ≡ ok checked
unfolding validate trim_space is_empty
request_valid = refl

-- The document that both sides found comes first, with its keyword payload.
best_first : (search config answered scores utf8 request).0 ≡ ok (best ∷ [])
unfolding search trim_space is_empty near_real_time_hybrid_se.Rrf.fuse
    near_real_time_hybrid_se.Rrf.scan near_real_time_hybrid_se.Rrf.contains
    near_real_time_hybrid_se.Rrf.record_rank
best_first = refl

search-IsWhole_example :
    IsWhole scores config
      (pos 1)
      none
      (search_keyword config answered (codes "go"))
      (search_vector config answered (codes "go"))
      (best ∷ [])
search-IsWhole_example =
    search-IsWhole config answered scores utf8 request checked (best ∷ []) config_valid
      request_valid best_first

keyword_found :
    search_keyword config answered (codes "go")
    ≡ ok (record { id = codes "a"; document = document } ∷ [])
unfolding search_keyword
keyword_found = refl

vector_found :
    search_vector config answered (codes "go")
    ≡ ok (vector_hit (codes "b") ∷ vector_hit (codes "a") ∷ [])
unfolding search_vector
vector_found = refl

search_answers_example :
    (hits : List (Hit scores)) × ((search config answered scores utf8 request).0 ≡ ok hits)
search_answers_example =
    search_answers config answered scores utf8 request checked
      (record { id = codes "a"; document = document } ∷ [])
      (vector_hit (codes "b") ∷ vector_hit (codes "a") ∷ []) config_valid request_valid refl
      keyword_found vector_found
