-- ===== src/Tests/RrfTests.antt =====
-- The fusion on two short lists.
use Prim.Native.Nat.{compare}
use near_real_time_hybrid_se.Common.{
  ℕ, ◌+◌, ◌*◌, ◌/◌, ◌≡◌, ◌≢◌, ◌≤◌, ◌⊎◌, refl, List, [], ◌∷◌, map, none, All, In, length,
}
use near_real_time_hybrid_se.Common.Bytes.{Bytes, codes, bytes_eq, bytes_compare}
use near_real_time_hybrid_se.Common.Trim.{is_empty}
use near_real_time_hybrid_se.Rrf.{
  Scores, Result, RankedResult, contains, record_rank, scan, gather, score, order, sort, ranked,
  results,
}
use near_real_time_hybrid_se.Rrf.Ranks.{first_ranks, ranks_of, gather_ranks}
use near_real_time_hybrid_se.Rrf.Order.{Ordered, NotAfter, Pairs}
use near_real_time_hybrid_se.Rrf.Best.{Scored, results_ordered, results_complete}

abbrev hit : Bytes → Result ℕ
hit id = record { id = id; payload = none }

abbrev keyword_hits : List (Result ℕ)
keyword_hits = hit (codes "a") ∷ hit [] ∷ hit (codes "b") ∷ hit (codes "b") ∷ []

abbrev vector_hits : List (Result ℕ)
vector_hits = hit (codes "b") ∷ hit (codes "a") ∷ hit (codes "c") ∷ []

gather_ranks_example :
    ranks_of (codes "b") (gather (keyword_hits ∷ vector_hits ∷ []) []) ≡ 3 ∷ 1 ∷ []
unfolding is_empty bytes_eq
gather_ranks_example = gather_ranks (codes "b") (keyword_hits ∷ vector_hits ∷ []) refl

-- Scores in thousandths, without rounding up.
abbrev thousandths : Scores
thousandths = record {
  Score = ℕ;
  of_nat = λ n. n;
  add = λ a b. a + b;
  divide = λ a b. a * 1000 / b;
  compare = compare;
}

abbrev natural : Ordered thousandths
natural = record { place = λ n. n; compare_place = λ a b. refl }

abbrev both : List (List (Result ℕ))
both = keyword_hits ∷ vector_hits ∷ []

fused_ids : map (λ r. r.id) (results thousandths both 60 2) ≡ codes "a" ∷ codes "b" ∷ []
unfolding results gather scan record_rank contains is_empty ranked sort order score bytes_compare
fused_ids = refl

results_ordered_example :
    let rs = results thousandths both 60 2 in
    (length rs ≤ 2)
    × Pairs (NotAfter thousandths) rs
    × Pairs (λ a b. a.id ≢ b.id) rs
    × All (Scored thousandths both 60) rs
results_ordered_example = results_ordered thousandths natural both 60 2

results_complete_example :
    let rs = results thousandths both 60 2 in
    (x : RankedResult thousandths ℕ) × (x.id ≡ codes "c")
    × (x.score ≡ score thousandths (first_ranks (codes "c") both) 60)
    × (In x rs ⊎ ((length rs ≡ 2) × All (λ y. NotAfter thousandths y x) rs))
unfolding is_empty bytes_eq
results_complete_example = results_complete thousandths natural (codes "c") both 60 2 refl (λ e. cc)
