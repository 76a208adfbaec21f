-- ===== src/Loadtest/Watch/Pending.antt =====
-- The documents that Watcher.Wait (internal/loadtest/indexes.go) still waits for have distinct IDs, and
-- checkAll finds some of them, none twice.
use near_real_time_hybrid_se.Common.{
  suc, ◌≡◌, refl, sym, ◌∙◌, Bool, true, false, List, [], ◌∷◌, map, Option, inl, inr, arith, All, In,
  length, Bool-cases,
}
use near_real_time_hybrid_se.Common.Bytes.{Bytes, bytes_eq, bytes_eq_iff}
use near_real_time_hybrid_se.Errors.{Err}
use near_real_time_hybrid_se.Cdc.Mapping.{Result, ok, err}
use near_real_time_hybrid_se.Loadtest.Watch.{
  Arrival, put, pending_of, remove, Round, next_err, after_answer, check_all,
}

abbrev pub ids : List Arrival → List Bytes
ids = map λ (a : Arrival). a.id

-- No ID twice.
abbrev pub IsDistinct : List Bytes → Type 0
IsDistinct [] = Unit {0}
IsDistinct (i ∷ is) = All (λ j. bytes_eq i j ≡ false) is × IsDistinct is

All-map : (P Q : Bytes → Type 0) (xs : List Bytes) → ((i : Bytes) → P i → Q i) → All P xs → All Q xs
All-map P Q [] g a = tt
All-map P Q (x ∷ xs) g a = (g x a.0, All-map P Q xs g a.1)

put-All :
    (P : Bytes → Type 0) (a : Arrival) (p : List Arrival)
    → P a.id
    → All P (ids p)
    → All P (ids (put a p))
unfolding put
put-All P a [] h q = (h, tt)
put-All P a (b ∷ bs) h q = elim (Bool-cases (bytes_eq b.id a.id)) [
  | inl e ↦ rw e q
  | inr e ↦ rw e (q.0, put-All P a bs h q.1)
]

put-IsDistinct : (a : Arrival) (p : List Arrival) → IsDistinct (ids p) → IsDistinct (ids (put a p))
unfolding put
put-IsDistinct a [] d = (tt, tt)
put-IsDistinct a (b ∷ bs) d = elim (Bool-cases (bytes_eq b.id a.id)) [
  | inl e ↦ rw e d
  | inr e ↦ rw e (put-All (λ j. bytes_eq b.id j ≡ false) a bs e d.0, put-IsDistinct a bs d.1)
]

pub pending_of-IsDistinct :
    (rest p : List Arrival) → IsDistinct (ids p) → IsDistinct (ids (pending_of rest p))
unfolding pending_of
pending_of-IsDistinct [] p d = d
pending_of-IsDistinct (a ∷ rest) p d = pending_of-IsDistinct rest (put a p) (put-IsDistinct a p d)

remove-All :
    (P : Bytes → Type 0) (i : Bytes) (p : List Arrival) → All P (ids p) → All P (ids (remove i p))
unfolding remove
remove-All P i [] q = tt
remove-All P i (b ∷ bs) q = elim (Bool-cases (bytes_eq b.id i)) [
  | inl e ↦ rw e q.1
  | inr e ↦ rw e (q.0, remove-All P i bs q.1)
]

pub remove-IsDistinct :
    (i : Bytes) (p : List Arrival) → IsDistinct (ids p) → IsDistinct (ids (remove i p))
unfolding remove
remove-IsDistinct i [] d = tt
remove-IsDistinct i (b ∷ bs) d = elim (Bool-cases (bytes_eq b.id i)) [
  | inl e ↦ rw e d.1
  | inr e ↦ rw e (remove-All (λ j. bytes_eq b.id j ≡ false) i bs d.0, remove-IsDistinct i bs d.1)
]

pub length-remove :
    (i : Bytes) (p : List Arrival) → In i (ids p) → suc (length (remove i p)) ≡ length p
unfolding remove
length-remove i [] h = elim h [ ]
length-remove i (b ∷ bs) (inl e) = rw ((bytes_eq_iff b.id i).1 (sym e)) refl
length-remove i (b ∷ bs) (inr h) = ground (arith, length-remove i bs h)

In-remove :
    (i j : Bytes) (p : List Arrival) → bytes_eq i j ≡ false → In j (ids p) → In j (ids (remove i p))
unfolding remove
In-remove i j [] e h = elim h [ ]
In-remove i j (b ∷ bs) e (inl q) = elim (Bool-cases (bytes_eq b.id i)) [
  | inl w ↦
      let t = (bytes_eq_iff i j).1 (sym ((bytes_eq_iff b.id i).0 w) ∙ sym q) in
      absurd (ground (arith, e, t))
  | inr w ↦ rw w (inl q)
]
In-remove i j (b ∷ bs) e (inr h) = elim (Bool-cases (bytes_eq b.id i)) [
  | inl w ↦ rw w h
  | inr w ↦ rw w (inr (In-remove i j bs e h))
]

after_answer-All :
    (P : Bytes → Type 0) (i : Bytes) (o : Bool) (k : Option Err → List Bytes × Option Err)
    (e : Option Err) (z : Result Bool)
    → P i
    → ((x : Option Err) → All P (k x).0)
    → All P (after_answer i o k e z).0
unfolding after_answer
after_answer-All P i o k e (err x) h q = q (next_err e o x)
after_answer-All P i o k e (ok true) h q = (h, q e)
after_answer-All P i o k e (ok false) h q = q e

pub check_all-All :
    (P : Bytes → Type 0) (r : Round) (p : List Arrival) (e : Option Err)
    → All P (ids p)
    → All P (check_all r p e).0
unfolding check_all
check_all-All P r [] e q = tt
check_all-All P r (a ∷ rest) e q = elim (Bool-cases (r.asked a.id)) [
  | inl w ↦ rw w (
      after_answer-All P a.id (r.is_open a.id) (check_all r rest) e (r.exists a.id) q.0
        (λ x. check_all-All P r rest x q.1))
  | inr w ↦ rw w (check_all-All P r rest e q.1)
]

after_answer-IsDistinct :
    (i : Bytes) (o : Bool) (k : Option Err → List Bytes × Option Err) (e : Option Err)
    (z : Result Bool)
    → ((x : Option Err) → IsDistinct (i ∷ (k x).0))
    → IsDistinct (after_answer i o k e z).0
unfolding after_answer
after_answer-IsDistinct i o k e (err x) q = (q (next_err e o x)).1
after_answer-IsDistinct i o k e (ok true) q = q e
after_answer-IsDistinct i o k e (ok false) q = (q e).1

pub check_all-IsDistinct :
    (r : Round) (p : List Arrival) (e : Option Err)
    → IsDistinct (ids p)
    → IsDistinct (check_all r p e).0
unfolding check_all
check_all-IsDistinct r [] e d = tt
check_all-IsDistinct r (a ∷ rest) e d = elim (Bool-cases (r.asked a.id)) [
  | inl w ↦ rw w (
      after_answer-IsDistinct a.id (r.is_open a.id) (check_all r rest) e (r.exists a.id) (λ x. (
        check_all-All (λ j. bytes_eq a.id j ≡ false) r rest x d.0,
        check_all-IsDistinct r rest x d.1,
      )))
  | inr w ↦ rw w (check_all-IsDistinct r rest e d.1)
]

pub All-In-self : (xs : List Bytes) → All (λ i. In i xs) xs
All-In-self [] = tt
All-In-self (x ∷ xs) =
    (inl refl, All-map (λ i. In i xs) (λ i. In i (x ∷ xs)) xs (λ i h. inr h) (All-In-self xs))

pub still_pending :
    (i : Bytes) (found : List Bytes) (p : List Arrival)
    → All (λ j. bytes_eq i j ≡ false) found
    → All (λ j. In j (ids p)) found
    → All (λ j. In j (ids (remove i p))) found
still_pending i [] p d h = tt
still_pending i (j ∷ found) p d h = (In-remove i j p d.0 h.0, still_pending i found p d.1 h.1)
