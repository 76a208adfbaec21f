-- ===== src/Loadtest/Stats/Sorted.antt =====
-- The samples that Summarize (internal/loadtest/stats.go) sorts, and the rank of an entry among them.
use near_real_time_hybrid_se.Common.{
  ℕ, zero, suc, ◌+◌, ◌≡◌, ◌≤◌, ◌<◌, refl, inl, inr, List, [], ◌∷◌, arith, All, length, Bool-cases,
  if◌then◌else◌,
}
use near_real_time_hybrid_se.Common.Int.{ℤ, leb_ℤ, ◌≤ℤ◌}
use near_real_time_hybrid_se.Loadtest.Stats.{insert, sort, entry}

-- How many samples are at most, and at least, a value.
abbrev pub at_most : ℤ → List ℤ → ℕ
at_most v [] = 0
at_most v (x ∷ xs) = (if leb_ℤ x v then 1 else 0) + at_most v xs

abbrev pub at_least : ℤ → List ℤ → ℕ
at_least v [] = 0
at_least v (x ∷ xs) = (if leb_ℤ v x then 1 else 0) + at_least v xs

abbrev pub IsSorted : List ℤ → Type 0
IsSorted [] = Unit {0}
IsSorted (x ∷ xs) = All (λ y. x ≤ℤ y) xs × IsSorted xs

length-insert : (d : ℤ) (xs : List ℤ) → length (insert d xs) ≡ suc (length xs)
unfolding insert
length-insert d [] = refl
length-insert d (x ∷ xs) = ground (arith, length-insert d xs)

pub length-sort : (xs : List ℤ) → length (sort xs) ≡ length xs
unfolding sort
length-sort [] = refl
length-sort (x ∷ xs) = omega (arith, length-insert x (sort xs), length-sort xs)

at_most-insert : (v d : ℤ) (xs : List ℤ) → at_most v (insert d xs) ≡ at_most v (d ∷ xs)
unfolding insert
at_most-insert v d [] = refl
at_most-insert v d (x ∷ xs) = ground (arith, at_most-insert v d xs)

at_least-insert : (v d : ℤ) (xs : List ℤ) → at_least v (insert d xs) ≡ at_least v (d ∷ xs)
unfolding insert
at_least-insert v d [] = refl
at_least-insert v d (x ∷ xs) = ground (arith, at_least-insert v d xs)

pub at_most-sort : (v : ℤ) (xs : List ℤ) → at_most v (sort xs) ≡ at_most v xs
unfolding sort
at_most-sort v [] = refl
at_most-sort v (x ∷ xs) = omega (arith, at_most-insert v x (sort xs), at_most-sort v xs)

pub at_least-sort : (v : ℤ) (xs : List ℤ) → at_least v (sort xs) ≡ at_least v xs
unfolding sort
at_least-sort v [] = refl
at_least-sort v (x ∷ xs) = omega (arith, at_least-insert v x (sort xs), at_least-sort v xs)

All-weaken : (x y : ℤ) (xs : List ℤ) → x ≤ℤ y → All (λ z. y ≤ℤ z) xs → All (λ z. x ≤ℤ z) xs
All-weaken x y [] h a = tt
All-weaken x y (z ∷ xs) h a = (omega (arith, a.0), All-weaken x y xs h a.1)

All-insert : (P : ℤ → Type 0) (d : ℤ) (xs : List ℤ) → P d → All P xs → All P (insert d xs)
unfolding insert
All-insert P d [] p a = (p, tt)
All-insert P d (x ∷ xs) p a = elim (Bool-cases (leb_ℤ d x)) [
  | inl e ↦ rw e (p, a)
  | inr e ↦ rw e (a.0, All-insert P d xs p a.1)
]

insert-IsSorted : (d : ℤ) (xs : List ℤ) → IsSorted xs → IsSorted (insert d xs)
unfolding insert
insert-IsSorted d [] s = (tt, tt)
insert-IsSorted d (x ∷ xs) s = elim (Bool-cases (leb_ℤ d x)) [
  | inl e ↦ let l : d ≤ℤ x = ground (arith, e) in rw e ((l, All-weaken d x xs l s.0), s)
  | inr e ↦
      let l : x ≤ℤ d = ground (arith, e) in
      rw e (All-insert (λ z. x ≤ℤ z) d xs l s.0, insert-IsSorted d xs s.1)
]

pub sort-IsSorted : (xs : List ℤ) → IsSorted (sort xs)
unfolding sort
sort-IsSorted [] = tt
sort-IsSorted (x ∷ xs) = insert-IsSorted x (sort xs) (sort-IsSorted xs)

-- The entry at an index of a sorted list.
entry_between :
    (x : ℤ) (xs : List ℤ) (i : ℕ) → i < length xs → All (λ z. x ≤ℤ z) xs → x ≤ℤ entry xs i
entry_between x [] i h a = elim h [ ]
entry_between x (y ∷ xs) zero h a = a.0
entry_between x (y ∷ xs) (suc i) h a = entry_between x xs i (omega arith) a.1

pub entry_mono :
    (xs : List ℤ) (i j : ℕ) → IsSorted xs → i ≤ j → j < length xs → entry xs i ≤ℤ entry xs j
entry_mono [] i j s l h = elim h [ ]
entry_mono (x ∷ xs) zero zero s l h = omega arith
entry_mono (x ∷ xs) zero (suc j) s l h = entry_between x xs j (omega arith) s.0
entry_mono (x ∷ xs) (suc i) zero s l h = absurd (omega arith)
entry_mono (x ∷ xs) (suc i) (suc j) s l h = entry_mono xs i j s.1 (omega arith) (omega arith)

at_least-All : (v : ℤ) (xs : List ℤ) → All (λ z. v ≤ℤ z) xs → at_least v xs ≡ length xs
at_least-All v [] a = refl
at_least-All v (x ∷ xs) a = ground (arith, at_least-All v xs a.1, a.0)

pub entry_rank :
    (xs : List ℤ) (i : ℕ)
    → IsSorted xs
    → i < length xs
    → (i + 1 ≤ at_most (entry xs i) xs) × (length xs ≤ at_least (entry xs i) xs + i)
entry_rank [] i s h = elim h [ ]
entry_rank (x ∷ xs) zero s h = ground (arith, at_least-All x xs s.0)
entry_rank (x ∷ xs) (suc i) s h =
    let ih = entry_rank xs i s.1 (omega arith) in
    let l = entry_between x xs i (omega arith) s.0 in ground (arith, ih.0, ih.1, l)
