-- ===== src/Rrf/Order.antt =====
-- The order of the fused results (internal/search/rrf/rrf.go): which documents Fuse returns, with which
-- scores, and which ones the limit cuts off.
use Prim.Native.Nat.{Ordering, compare}
use near_real_time_hybrid_se.Common.{
  ℕ, zero, suc, ◌≡◌, ◌≢◌, refl, sym, ap, subst, ◌⊎◌, inl, inr, List, [], ◌∷◌, arith, All, In,
  All-In, length, take,
}
use near_real_time_hybrid_se.Common.Bytes.{
  Bytes, bytes_compare, bytes_compare-eq, bytes_compare-swap, bytes_compare_trans,
}
use near_real_time_hybrid_se.Rrf.{Scores, RankedResult, order, insert, sort}

-- Documented behaviour of cmp.Compare on float64: it orders the numbers, and a NaN below them, as their
-- places in one row; -0 and 0 share theirs, and so do all NaNs.
pub record Ordered (f : Scores) : Type 0 where
  pub place : f.Score → ℕ
  pub compare_place : (a b : f.Score) → f.compare a b ≡ compare (place a) (place b)

bytes_compare_refl : (a : Bytes) → bytes_compare a a ≡ Ordering.eq
unfolding bytes_compare
bytes_compare_refl [] = refl
bytes_compare_refl (x ∷ xs) = ground (arith, bytes_compare_refl xs)

bytes_compare_mono :
    (a b c : Bytes)
    → bytes_compare a b ≢ Ordering.gt
    → bytes_compare b c ≢ Ordering.gt
    → bytes_compare a c ≢ Ordering.gt
unfolding bytes_compare
bytes_compare_mono a b c h k =
    ground (arith, bytes_compare-eq a b, bytes_compare-eq b c, bytes_compare_trans a b c, h, k)

-- Every earlier entry stands in a relation to every later one.
abbrev pub Pairs {ℓ} : {A : Type ℓ} → (A → A → Type 0) → List A → Type 0
Pairs R [] = Unit {0}
Pairs R (x ∷ xs) = All (R x) xs × Pairs R xs

pub All-take : {A : Type 0} (Q : A → Type 0) (n : ℕ) (xs : List A) → All Q xs → All Q (take n xs)
All-take Q zero xs a = tt
All-take Q (suc n) [] a = tt
All-take Q (suc n) (x ∷ xs) a = (a.0, All-take Q n xs a.1)

pub Pairs-take :
    {A : Type 0} (R : A → A → Type 0) (n : ℕ) (xs : List A) → Pairs R xs → Pairs R (take n xs)
Pairs-take R zero xs a = tt
Pairs-take R (suc n) [] a = tt
Pairs-take R (suc n) (x ∷ xs) a = (All-take (R x) n xs a.0, Pairs-take R n xs a.1)

-- What a cut leaves of a list, and what it takes away.
pub In-take :
    {A : Type 0} (R : A → A → Type 0) (n : ℕ) (xs : List A) (x : A)
    → Pairs R xs
    → In x xs
    → In x (take n xs) ⊎ ((length (take n xs) ≡ n) × All (λ y. R y x) (take n xs))
In-take R n [] x p h = elim h [ ]
In-take R zero (y ∷ xs) x p h = inr (refl, tt)
In-take R (suc n) (y ∷ xs) x p (inl e) = inl (inl e)
In-take R (suc n) (y ∷ xs) x p (inr h) = elim (In-take R n xs x p.1 h) [
  | inl kept ↦ inl (inr kept)
  | inr (l, a) ↦ inr (ap suc l, (All-In (R y) xs p.0 h, a))
]

module _ (f : Scores) {P : Type 0} where
  -- `a` does not stand after `b`.
  abbrev pub NotAfter : RankedResult f P → RankedResult f P → Type 0
  NotAfter a b = order f a b ≢ Ordering.gt

  insert_cases :
      (r x : RankedResult f P) (xs : List (RankedResult f P))
      → (insert f r (x ∷ xs) ≡ r ∷ x ∷ xs) × NotAfter r x
        ⊎ (insert f r (x ∷ xs) ≡ x ∷ insert f r xs) × (order f r x ≡ Ordering.gt)
  unfolding insert
  insert_cases r x xs = go (order f r x) refl
    where
      go :
          (c : Ordering)
          → order f r x ≡ c
          → (insert f r (x ∷ xs) ≡ r ∷ x ∷ xs) × NotAfter r x
            ⊎ (insert f r (x ∷ xs) ≡ x ∷ insert f r xs) × (order f r x ≡ Ordering.gt)
      go Ordering.gt e = inr (rw (e, insert) refl, e)
      go Ordering.lt e = inl (rw (e, insert) refl, λ h. cc)
      go Ordering.eq e = inl (rw (e, insert) refl, λ h. cc)

  All-insert :
      (Q : RankedResult f P → Type 0) (r : RankedResult f P) (xs : List (RankedResult f P))
      → Q r
      → All Q xs
      → All Q (insert f r xs)
  unfolding insert
  All-insert Q r [] q a = (q, tt)
  All-insert Q r (x ∷ xs) q a = elim (insert_cases r x xs) [
    | inl (e, _) ↦ subst (All Q) (sym e) (q, a)
    | inr (e, _) ↦ subst (All Q) (sym e) (a.0, All-insert Q r xs q a.1)
  ]

  pub All-sort :
      (Q : RankedResult f P → Type 0) (xs : List (RankedResult f P)) → All Q xs → All Q (sort f xs)
  unfolding sort
  All-sort Q [] a = tt
  All-sort Q (x ∷ xs) a = All-insert Q x (sort f xs) a.0 (All-sort Q xs a.1)

  In-insert :
      (y r : RankedResult f P) (xs : List (RankedResult f P)) → In y (r ∷ xs) → In y (insert f r xs)
  unfolding insert
  In-insert y r [] h = h
  In-insert y r (x ∷ xs) h = elim (insert_cases r x xs) [
    | inl (e, _) ↦ subst (In y) (sym e) h
    | inr (e, _) ↦ subst (In y) (sym e) (elim h [
      | inl q ↦ inr (In-insert y r xs (inl q))
      | inr t ↦ elim t [ inl q ↦ inl q | inr u ↦ inr (In-insert y r xs (inr u)) ]
    ])
  ]

  pub In-sort : (y : RankedResult f P) (xs : List (RankedResult f P)) → In y xs → In y (sort f xs)
  unfolding sort
  In-sort y [] h = h
  In-sort y (x ∷ xs) (inl e) = In-insert y x (sort f xs) (inl e)
  In-sort y (x ∷ xs) (inr h) = In-insert y x (sort f xs) (inr (In-sort y xs h))

  -- Sorting keeps a relation that does not care for the order.
  Pairs-insert :
      (R : RankedResult f P → RankedResult f P → Type 0) (r : RankedResult f P)
      (xs : List (RankedResult f P))
      → ((a b : RankedResult f P) → R a b → R b a)
      → All (R r) xs
      → Pairs R xs
      → Pairs R (insert f r xs)
  unfolding insert
  Pairs-insert R r [] s a p = (tt, tt)
  Pairs-insert R r (x ∷ xs) s a p = elim (insert_cases r x xs) [
    | inl (e, _) ↦ subst (Pairs R) (sym e) (a, p)
    | inr (e, _) ↦
        subst (Pairs R) (sym e)
          (All-insert (R x) r xs (s r x a.0) p.0, Pairs-insert R r xs s a.1 p.1)
  ]

  pub Pairs-sort :
      (R : RankedResult f P → RankedResult f P → Type 0) (xs : List (RankedResult f P))
      → ((a b : RankedResult f P) → R a b → R b a)
      → Pairs R xs
      → Pairs R (sort f xs)
  unfolding sort
  Pairs-sort R [] s p = tt
  Pairs-sort R (x ∷ xs) s p =
      Pairs-insert R x (sort f xs) s (All-sort (R x) xs p.0) (Pairs-sort R xs s p.1)

module _ (f : Scores) (o : Ordered f) {P : Type 0} where
  NotAfter-trans : (a b c : RankedResult f P) → NotAfter f a b → NotAfter f b c → NotAfter f a c
  unfolding order
  NotAfter-trans a b c h k = ground (
    arith,
    o.compare_place b.score a.score,
    o.compare_place c.score b.score,
    o.compare_place c.score a.score,
    bytes_compare_mono a.id b.id c.id,
    h,
    k,
  )

  NotAfter-swap : (a b : RankedResult f P) → order f a b ≡ Ordering.gt → NotAfter f b a
  unfolding order
  NotAfter-swap a b h = ground (
    arith,
    o.compare_place b.score a.score,
    o.compare_place a.score b.score,
    bytes_compare-swap a.id b.id,
    h,
  )

  NotAfter-All :
      (r x : RankedResult f P) (xs : List (RankedResult f P))
      → NotAfter f r x
      → All (NotAfter f x) xs
      → All (NotAfter f r) xs
  NotAfter-All r x [] h a = tt
  NotAfter-All r x (y ∷ xs) h a = (NotAfter-trans r x y h a.0, NotAfter-All r x xs h a.1)

  insert-Pairs :
      (r : RankedResult f P) (xs : List (RankedResult f P))
      → Pairs (NotAfter f) xs
      → Pairs (NotAfter f) (insert f r xs)
  unfolding insert
  insert-Pairs r [] p = (tt, tt)
  insert-Pairs r (x ∷ xs) p = elim (insert_cases f r x xs) [
    | inl (e, h) ↦ subst (Pairs (NotAfter f)) (sym e) ((h, NotAfter-All r x xs h p.0), p)
    | inr (e, g) ↦
        subst (Pairs (NotAfter f)) (sym e)
          (All-insert f (NotAfter f x) r xs (NotAfter-swap r x g) p.0, insert-Pairs r xs p.1)
  ]

  pub sort-Pairs : (xs : List (RankedResult f P)) → Pairs (NotAfter f) (sort f xs)
  unfolding sort
  sort-Pairs [] = tt
  sort-Pairs (x ∷ xs) = insert-Pairs x (sort f xs) (sort-Pairs xs)
