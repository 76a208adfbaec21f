-- ===== src/Rrf/Best.antt =====
-- Which documents Fuse returns, with which scores and in which order (internal/search/rrf/rrf.go).
use near_real_time_hybrid_se.Common.{
  ℕ, zero, suc, ◌+◌, ◌≡◌, ◌≢◌, ◌≤◌, refl, sym, ap, ◌∙◌, subst, ◌⊎◌, inl, inr, true, false, ◌||◌,
  List, [], ◌∷◌, map, Option, arith, All, In, All-In, length, length-take, take, ltb, Bool-cases,
}
use near_real_time_hybrid_se.Common.Bytes.{Bytes, bytes_eq, bytes_eq→eq, bytes_eq_refl}
use near_real_time_hybrid_se.Common.Trim.{is_empty}
use near_real_time_hybrid_se.Rrf.{
  Scores, Result, Candidate, RankedResult, contains, record_rank, scan, gather, score, sort, ranked,
  results,
}
use near_real_time_hybrid_se.Rrf.Ranks.{first_ranks, ranks_of, gather_ranks}
use near_real_time_hybrid_se.Rrf.Order.{
  Ordered, NotAfter, Pairs, Pairs-take, Pairs-sort, All-take, All-sort, In-take, In-sort,
  sort-Pairs,
}

module _ {P : Type 0} where
  record_rank-All :
      (Q : Bytes → Type 0) (id : Bytes) (rank : ℕ) (payload : Option P) (cs : List (Candidate P))
      → Q id
      → All (λ c. Q c.id) cs
      → All (λ c. Q c.id) (record_rank id rank payload cs)
  unfolding record_rank
  record_rank-All Q id rank payload [] q a = (q, tt)
  record_rank-All Q id rank payload (c ∷ cs) q a = elim (Bool-cases (bytes_eq id c.id)) [
    | inl e ↦ rw e a
    | inr e ↦ rw e (a.0, record_rank-All Q id rank payload cs q a.1)
  ]

  abbrev pub Distinct : List (Candidate P) → Type 0
  Distinct = Pairs (λ a b. a.id ≢ b.id)

  record_rank-Distinct :
      (id : Bytes) (rank : ℕ) (payload : Option P) (cs : List (Candidate P))
      → Distinct cs
      → Distinct (record_rank id rank payload cs)
  unfolding record_rank
  record_rank-Distinct id rank payload [] d = (tt, tt)
  record_rank-Distinct id rank payload (c ∷ cs) d = elim (Bool-cases (bytes_eq id c.id)) [
    | inl e ↦ rw e d
    | inr e ↦
        let n : c.id ≢ id =
          λ q. let t = subst (λ z. bytes_eq z c.id ≡ true) q (bytes_eq_refl c.id) in cc in
        rw e (
          record_rank-All (λ i. c.id ≢ i) id rank payload cs n d.0,
          record_rank-Distinct id rank payload cs d.1,
        )
  ]

  -- What the candidates keep while the lists are scanned.
  abbrev Sound : List (Candidate P) → Type 0
  Sound cs = Distinct cs × All (λ c. is_empty c.id ≡ false) cs

  scan-Sound :
      (i : ℕ) (seen : List Bytes) (rs : List (Result P)) (cs : List (Candidate P))
      → Sound cs
      → Sound (scan i seen rs cs)
  unfolding scan
  scan-Sound i seen [] cs s = s
  scan-Sound i seen (r ∷ rs) cs s = elim (Bool-cases (is_empty r.id || contains r.id seen)) [
    | inl e ↦ rw e (scan-Sound (suc i) seen rs cs s)
    | inr e ↦
        let n : is_empty r.id ≡ false = ground (arith, e) in
        rw e (
          scan-Sound (suc i) (r.id ∷ seen) rs (record_rank r.id (i + 1) r.payload cs) (
            record_rank-Distinct r.id (i + 1) r.payload cs s.0,
            record_rank-All (λ z. is_empty z ≡ false) r.id (i + 1) r.payload cs n s.1,
          ))
  ]

  gather-Sound :
      (sets : List (List (Result P))) (cs : List (Candidate P)) → Sound cs → Sound (gather sets cs)
  unfolding gather
  gather-Sound [] cs s = s
  gather-Sound (set ∷ sets) cs s = gather-Sound sets (scan 0 [] set cs) (scan-Sound 0 [] set cs s)

  -- The ranks of a candidate are those found under its ID.
  ranks_of_self :
      (c : Candidate P) (cs : List (Candidate P))
      → Distinct cs
      → In c cs
      → ranks_of c.id cs ≡ c.ranks
  unfolding ranks_of
  ranks_of_self c [] d h = elim h [ ]
  ranks_of_self c (x ∷ cs) d (inl e) = rw (e, bytes_eq_refl x.id) refl
  ranks_of_self c (x ∷ cs) d (inr h) = elim (Bool-cases (bytes_eq c.id x.id)) [
    | inl e ↦
        let n : x.id ≢ c.id = All-In (λ b. x.id ≢ b.id) cs d.0 h in
        absurd (n (sym (bytes_eq→eq c.id x.id e)))
    | inr e ↦ rw e (ranks_of_self c cs d.1 h)
  ]

  candidate_of :
      (j : Bytes) (cs : List (Candidate P))
      → ranks_of j cs ≢ []
      → (c : Candidate P) × In c cs × (c.id ≡ j)
  unfolding ranks_of
  candidate_of j [] n = absurd (n refl)
  candidate_of j (x ∷ cs) n = elim (Bool-cases (bytes_eq j x.id)) [
    | inl e ↦ (x, inl refl, sym (bytes_eq→eq j x.id e))
    | inr e ↦ let (c, h, q) = candidate_of j cs (λ w. n (rw e w)) in (c, inr h, q)
  ]

In-map : {A B : Type 0} (g : A → B) (x : A) (xs : List A) → In x xs → In (g x) (map g xs)
In-map g x (y ∷ xs) (inl e) = inl (ap g e)
In-map g x (y ∷ xs) (inr h) = inr (In-map g x xs h)
In-map g x [] h = elim h [ ]

All-map :
    {A B : Type 0} (Q : B → Type 0) (g : A → B) (xs : List A)
    → ((x : A) → In x xs → Q (g x))
    → All Q (map g xs)
All-map Q g [] a = tt
All-map Q g (x ∷ xs) a = (a x (inl refl), All-map Q g xs (λ y h. a y (inr h)))

Pairs-map :
    {A B : Type 0} (R : B → B → Type 0) (g : A → B) (xs : List A)
    → Pairs (λ a b. R (g a) (g b)) xs
    → Pairs R (map g xs)
Pairs-map R g [] p = tt
Pairs-map R g (x ∷ xs) p =
    (All-map (R (g x)) g xs (λ y h. All-In (λ b. R (g x) (g b)) xs p.0 h), Pairs-map R g xs p.1)

take_all : {A : Type 0} (n : ℕ) (xs : List A) → length xs ≤ n → take n xs ≡ xs
take_all zero [] h = refl
take_all zero (x ∷ xs) h = absurd (omega arith)
take_all (suc n) [] h = refl
take_all (suc n) (x ∷ xs) h = ap (λ l. x ∷ l) (take_all n xs (omega arith))

module _ (f : Scores) {P : Type 0} where
  abbrev all_ranked : List (List (Result P)) → ℕ → List (RankedResult f P)
  all_ranked sets k = sort f (map (ranked f k) (gather sets []))

  results_cut :
      (sets : List (List (Result P))) (k limit : ℕ)
      → results f sets k limit ≡ take limit (all_ranked sets k)
  unfolding results
  results_cut sets k limit = elim (Bool-cases (ltb limit (length (all_ranked sets k)))) [
    | inl e ↦ rw e
    | inr e ↦ rw e (sym (take_all limit (all_ranked sets k) (ground (arith, e))))
  ]

  -- What is said of one result: its document, and the score of the document's ranks in the lists.
  abbrev pub Scored : List (List (Result P)) → ℕ → RankedResult f P → Type 0
  Scored sets k r = (is_empty r.id ≡ false) × (r.score ≡ score f (first_ranks r.id sets) k)

  ranked-Scored :
      (sets : List (List (Result P))) (k : ℕ) (c : Candidate P)
      → In c (gather sets [])
      → Scored sets k (ranked f k c)
  unfolding ranked
  ranked-Scored sets k c h =
      let (d, n) = gather-Sound sets [] (tt, tt) in
      let e : is_empty c.id ≡ false = All-In (λ x. is_empty x.id ≡ false) (gather sets []) n h in
      (
        e,
        ap (λ l. score f l k)
            (sym (ranks_of_self c (gather sets []) d h) ∙ gather_ranks c.id sets e),
      )

  pub results-Scored :
      (sets : List (List (Result P))) (k limit : ℕ) → All (Scored sets k) (results f sets k limit)
  results-Scored sets k limit =
      let cs = gather sets [] in
      rw (results_cut sets k limit) (
        All-take (Scored sets k) limit (all_ranked sets k) (
          All-sort f (Scored sets k) (map (ranked f k) cs)
            (All-map (Scored sets k) (ranked f k) cs (ranked-Scored sets k))))

  module _ (o : Ordered f) where
    -- The results of Fuse are at most `limit` documents, with no document twice and none without an ID.
    -- The score of each is that of its first positions in the lists. They stand from the highest score
    -- to the lowest, and with equal scores by ID.
    pub results_ordered :
        (sets : List (List (Result P))) (k limit : ℕ)
        → let rs = results f sets k limit in
          (length rs ≤ limit)
          × Pairs (NotAfter f) rs
          × Pairs (λ a b. a.id ≢ b.id) rs
          × All (Scored sets k) rs
    unfolding ranked
    results_ordered sets k limit =
        let cs = gather sets [] in
        let ms = map (ranked f k) cs in
        let d = (gather-Sound sets [] (tt, tt)).0 in
        (
          rw (results_cut sets k limit) (omega (arith, length-take limit (all_ranked sets k))),
          rw (results_cut sets k limit)
              (Pairs-take (NotAfter f) limit (all_ranked sets k) (sort-Pairs f o ms)),
          rw (results_cut sets k limit) (
              Pairs-take (λ a b. a.id ≢ b.id) limit (all_ranked sets k)
                (Pairs-sort f (λ a b. a.id ≢ b.id) ms (λ a b n e. n (sym e))
                  (Pairs-map (λ a b. a.id ≢ b.id) (ranked f k) cs d))),
          results-Scored sets k limit,
        )

    -- A document with an ID that is in some list is among the results of Fuse, unless there are `limit`
    -- of them and none stands after the document with its score.
    pub results_complete :
        (j : Bytes) (sets : List (List (Result P))) (k limit : ℕ)
        → is_empty j ≡ false
        → first_ranks j sets ≢ []
        → let rs = results f sets k limit in
          (x : RankedResult f P) × (x.id ≡ j)
          × (x.score ≡ score f (first_ranks j sets) k)
          × (In x rs ⊎ ((length rs ≡ limit) × All (λ y. NotAfter f y x) rs))
    unfolding ranked
    results_complete j sets k limit n p =
        let cs = gather sets [] in
        let ms = map (ranked f k) cs in
        let (c, h, q) = candidate_of j cs (λ w. p (sym (gather_ranks j sets n) ∙ w)) in
        let x = ranked f k c in
        (
          x,
          q,
          subst (λ i. x.score ≡ score f (first_ranks i sets) k) q (ranked-Scored sets k c h).1,
          rw (results_cut sets k limit) (
              In-take (NotAfter f) limit (all_ranked sets k) x (sort-Pairs f o ms)
                (In-sort f x ms (In-map (ranked f k) c cs h))),
        )
