-- ===== src/Rrf/Ranks.antt =====
-- The ranks that Fuse collects for a document are its first positions in the lists.
use mathlib.Core.List.{append_assoc, append-nil}
use near_real_time_hybrid_se.Common.{
  ℕ, suc, ◌+◌, ◌≡◌, sym, ◌∙◌, ap, true, false, ◌||◌, List, [], ◌∷◌, ◌++◌, Option, arith, Bool-cases,
  inl, inr, if◌then◌else◌,
}
use near_real_time_hybrid_se.Common.Bytes.{Bytes, bytes_eq, bytes_eq_iff}
use near_real_time_hybrid_se.Common.Trim.{is_empty}
use near_real_time_hybrid_se.Rrf.{Result, Candidate, contains, record_rank, scan, gather}

-- The reference: the 1-based position of the first entry with the ID, if there is one.
abbrev pub first_rank : {P : Type 0} → Bytes → ℕ → List (Result P) → List ℕ
first_rank j i [] = []
first_rank j i (r ∷ rs) =
    let rest = first_rank j (suc i) rs in if bytes_eq r.id j then (i + 1) ∷ [] else rest

abbrev pub first_ranks : {P : Type 0} → Bytes → List (List (Result P)) → List ℕ
first_ranks j [] = []
first_ranks j (set ∷ sets) = first_rank j 0 set ++ first_ranks j sets

-- The ranks of the candidate with an ID, none if it is no candidate.
unfoldable pub ranks_of : {P : Type 0} → Bytes → List (Candidate P) → List ℕ
ranks_of j [] = []
ranks_of j (c ∷ cs) = if bytes_eq j c.id then c.ranks else ranks_of j cs

module _ {P : Type 0} where
  ranks_of-record_rank :
      (j id : Bytes) (rank : ℕ) (payload : Option P) (cs : List (Candidate P))
      → ranks_of j (record_rank id rank payload cs)
        ≡ (if bytes_eq id j then ranks_of j cs ++ (rank ∷ []) else ranks_of j cs)
  unfolding ranks_of record_rank
  ranks_of-record_rank j id rank payload [] = ground (arith, bytes_eq_iff j id, bytes_eq_iff id j)
  ranks_of-record_rank j id rank payload (c ∷ cs) = ground (
    arith,
    bytes_eq_iff j id,
    bytes_eq_iff id j,
    bytes_eq_iff id c.id,
    bytes_eq_iff j c.id,
    ranks_of-record_rank j id rank payload cs,
  )

  -- An entry that is skipped, and one that is taken.
  scan_skip :
      (j : Bytes) (i : ℕ) (seen : List Bytes) (r : Result P) (rs : List (Result P))
      (cs : List (Candidate P)) {l : List ℕ}
      → is_empty j ≡ false
      → (is_empty r.id || contains r.id seen) ≡ true
      → l ≡ (if contains j seen then ranks_of j cs else ranks_of j cs ++ first_rank j (suc i) rs)
      → l ≡ (if contains j seen then ranks_of j cs else ranks_of j cs ++ first_rank j i (r ∷ rs))
  scan_skip j i seen r rs cs n e h = ground (arith, bytes_eq_iff r.id j)

  scan_take :
      (j : Bytes) (i : ℕ) (seen : List Bytes) (r : Result P) (rs : List (Result P))
      (cs : List (Candidate P)) {l : List ℕ}
      → is_empty j ≡ false
      → (is_empty r.id || contains r.id seen) ≡ false
      → let cs' = record_rank r.id (i + 1) r.payload cs in
        l ≡ (
          if contains j (r.id ∷ seen)
          then ranks_of j cs'
          else ranks_of j cs' ++ first_rank j (suc i) rs)
        → l ≡ (if contains j seen then ranks_of j cs else ranks_of j cs ++ first_rank j i (r ∷ rs))
  unfolding contains
  scan_take j i seen r rs cs n e h = ground (
    arith,
    bytes_eq_iff r.id j,
    bytes_eq_iff j r.id,
    ranks_of-record_rank j r.id (i + 1) r.payload cs,
  )

  ranks_of-scan :
      (j : Bytes) (i : ℕ) (seen : List Bytes) (rs : List (Result P)) (cs : List (Candidate P))
      → is_empty j ≡ false
      → ranks_of j (scan i seen rs cs)
        ≡ (if contains j seen then ranks_of j cs else ranks_of j cs ++ first_rank j i rs)
  unfolding scan
  ranks_of-scan j i seen [] cs n = ground (arith, append-nil (ranks_of j cs))
  ranks_of-scan j i seen (r ∷ rs) cs n = elim (Bool-cases (is_empty r.id || contains r.id seen)) [
    | inl e ↦ rw e (scan_skip j i seen r rs cs n e (ranks_of-scan j (suc i) seen rs cs n))
    | inr e ↦ rw e (
        scan_take j i seen r rs cs n e
          (ranks_of-scan j (suc i) (r.id ∷ seen) rs (record_rank r.id (i + 1) r.payload cs) n))
  ]

  ranks_of-gather :
      (j : Bytes) (sets : List (List (Result P))) (cs : List (Candidate P))
      → is_empty j ≡ false
      → ranks_of j (gather sets cs) ≡ ranks_of j cs ++ first_ranks j sets
  unfolding gather contains ranks_of
  ranks_of-gather j [] cs n = sym (append-nil (ranks_of j cs))
  ranks_of-gather j (set ∷ sets) cs n =
      ranks_of-gather j sets (scan 0 [] set cs) n
      ∙ ap (λ l. l ++ first_ranks j sets) (ranks_of-scan j 0 [] set cs n)
      ∙ append_assoc (ranks_of j cs) (first_rank j 0 set) (first_ranks j sets)

  -- For an ID that is not empty: the ranks that the candidates made from the lists hold for it are
  -- its first positions in the lists, counted from 1, one for each list that has it, in the order of the
  -- lists; repetitions in a list count once.
  pub gather_ranks :
      (j : Bytes) (sets : List (List (Result P)))
      → is_empty j ≡ false
      → ranks_of j (gather sets []) ≡ first_ranks j sets
  unfolding ranks_of
  gather_ranks j sets n = ranks_of-gather j sets [] n
