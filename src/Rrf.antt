-- ===== src/Rrf.antt =====
-- internal/search/rrf/rrf.go: Reciprocal Rank Fusion of ranked lists.
-- The candidates, a Go map, are a list of entries in the order in which their IDs were first seen;
-- slices.Sort and slices.SortFunc are insertion sorts. The scores are floats, a parameter with the
-- operations that the code uses. `P` is the type of payloads, none for nil.
pub mod Ranks
pub mod Order
pub mod Best
use Prim.Native.Nat.{Ordering}
use near_real_time_hybrid_se.Common.{
  ℕ, zero, suc, ◌+◌, ◌≡◌, refl, Bool, true, false, ◌||◌, List, [], ◌∷◌, ◌++◌, map, Option, none,
  some, leb, length, take, ltb, if◌then◌else◌,
}
use near_real_time_hybrid_se.Common.Int.{ℤ, pos, ltb_ℤ, pos_part}
use near_real_time_hybrid_se.Common.Bytes.{Bytes, bytes_eq, bytes_compare}
use near_real_time_hybrid_se.Common.Trim.{is_empty}
use near_real_time_hybrid_se.Errors.{Err, Sentinel, sentinel, wrap}

-- float64, as the scores use it. `compare` is cmp.Compare.
pub record Scores : Type 1 where
  pub Score : Type 0
  pub of_nat : ℕ → Score
  pub add : Score → Score → Score
  pub divide : Score → Score → Score
  pub compare : Score → Score → Ordering

abbrev pub default_k : ℕ
default_k = 60

pub record Result (P : Type 0) : Type 0 where
  pub id : Bytes
  pub payload : Option P

pub record Candidate (P : Type 0) : Type 0 where
  pub id : Bytes
  pub ranks : List ℕ
  pub payload : Option P

abbrev pub or_else : {A : Type 0} → Option A → Option A → Option A
or_else none b = b
or_else (some a) b = some a

unfoldable pub contains : Bytes → List Bytes → Bool
unfolding bytes_eq
contains j [] = false
contains j (i ∷ is) = bytes_eq j i || contains j is

module _ {P : Type 0} where
  -- Looks the candidate up, makes it if there is none, and appends the rank.
  unfoldable pub record_rank : Bytes → ℕ → Option P → List (Candidate P) → List (Candidate P)
  unfolding bytes_eq
  record_rank id rank payload [] = record { id = id; ranks = rank ∷ []; payload = payload } ∷ []
  record_rank id rank payload (c ∷ cs) =
      if bytes_eq id c.id
      then record c { ranks = c.ranks ++ (rank ∷ []); payload = or_else c.payload payload } ∷ cs
      else c ∷ record_rank id rank payload cs

  -- The loop over one list: `i` is the index and `seen` the IDs met in this list.
  unfoldable pub scan : ℕ → List Bytes → List (Result P) → List (Candidate P) → List (Candidate P)
  scan i seen [] cs = cs
  scan i seen (r ∷ rs) cs =
      let skip = is_empty r.id || contains r.id seen in
      scan (suc i) (if skip then seen else r.id ∷ seen) rs
        (if skip then cs else record_rank r.id (i + 1) r.payload cs)

  -- The loop over the lists.
  unfoldable pub gather : List (List (Result P)) → List (Candidate P) → List (Candidate P)
  gather [] cs = cs
  gather (set ∷ sets) cs = gather sets (scan 0 [] set cs)

unfoldable pub insert_rank : ℕ → List ℕ → List ℕ
insert_rank r [] = r ∷ []
insert_rank r (x ∷ xs) = if leb r x then r ∷ x ∷ xs else x ∷ insert_rank r xs

unfoldable pub sort_ranks : List ℕ → List ℕ
unfolding insert_rank
sort_ranks [] = []
sort_ranks (r ∷ rs) = insert_rank r (sort_ranks rs)

module _ (f : Scores) where
  -- The loop of score over the sorted ranks.
  unfoldable pub sum_from : f.Score → ℕ → List ℕ → f.Score
  sum_from acc k [] = acc
  sum_from acc k (r ∷ rs) =
      sum_from (f.add acc (f.divide (f.of_nat 1) (f.add (f.of_nat k) (f.of_nat r)))) k rs

  unfoldable pub score : List ℕ → ℕ → f.Score
  unfolding sort_ranks sum_from
  score ranks k = sum_from (f.of_nat 0) k (sort_ranks ranks)

  pub record RankedResult (P : Type 0) : Type 0 where
    pub id : Bytes
    pub score : f.Score
    pub payload : Option P

  pub data Fusion (P : Type 0) : Type 0 where
    fused : List (RankedResult P) → Fusion P
    rejected : Err → Fusion P

  module _ {P : Type 0} where
    -- The comparison of SortFunc: by score from the highest, then by ID.
    unfoldable pub order : RankedResult P → RankedResult P → Ordering
    unfolding bytes_compare
    order a b = elim (f.compare b.score a.score) [
      | Ordering.lt ↦ Ordering.lt
      | Ordering.gt ↦ Ordering.gt
      | Ordering.eq ↦ bytes_compare a.id b.id
    ]

    unfoldable pub insert : RankedResult P → List (RankedResult P) → List (RankedResult P)
    unfolding order
    insert r [] = r ∷ []
    insert r (x ∷ xs) =
        let rest = insert r xs in elim (order r x) [ Ordering.gt ↦ x ∷ rest | _ ↦ r ∷ x ∷ xs ]

    unfoldable pub sort : List (RankedResult P) → List (RankedResult P)
    unfolding insert
    sort [] = []
    sort (r ∷ rs) = insert r (sort rs)

    unfoldable pub ranked : ℕ → Candidate P → RankedResult P
    unfolding score
    ranked k c = record { id = c.id; score = score c.ranks k; payload = c.payload }

    unfoldable pub results : List (List (Result P)) → ℕ → ℕ → List (RankedResult P)
    unfolding gather ranked sort
    results sets k limit =
        let all = sort (map (ranked k) (gather sets [])) in
        if ltb limit (length all) then take limit all else all

    -- Fuse.
    unfoldable pub fuse : List (List (Result P)) → ℤ → ℤ → Fusion P
    unfolding results
    fuse sets k limit =
        if ltb_ℤ k (pos 1)
        then rejected (wrap (sentinel Sentinel.invalid_k))
        else if ltb_ℤ limit (pos 1)
        then rejected (wrap (sentinel Sentinel.invalid_limit))
        else fused (results sets (pos_part k) (pos_part limit))
