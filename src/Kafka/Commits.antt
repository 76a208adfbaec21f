-- ===== src/Kafka/Commits.antt =====
-- What a commit says: everything fetched up to the committed offset is finished.
use mathlib.Core.List.{append_assoc, append-nil}
use near_real_time_hybrid_se.Common.{
  ℕ, ◌≡◌, refl, ap, sym, ◌∙◌, subst, inl, inr, true, false, List, [], ◌∷◌, ◌++◌, Option, none, some,
  arith, All, In, All-In, Bool-cases, if◌then◌else◌, ◌<◌, ◌≤◌,
}
use near_real_time_hybrid_se.Common.Bytes.{bytes_eq_iff}
use near_real_time_hybrid_se.Kafka.{
  TopicPartition, PartitionOffsets, Tracker, new_tracker, same_partition, set_partition, entry, add,
  mark_done,
}
use near_real_time_hybrid_se.Kafka.Loop.{Split, Committed, mark_entry}

-- The calls of the tracker, in the order in which they take the lock.
pub data Call : Type 0 where
  fetched finished : TopicPartition → ℕ → Call

unfoldable pub step : Tracker → Call → Tracker
step t (fetched k o) = add t k o
step t (finished k o) = (mark_done t k o).0

unfoldable pub run : Tracker → List Call → Tracker
run t [] = t
run t (c ∷ cs) = run (step t c) cs

-- The offsets of one partition that a history fetches, in order, and those that it finishes.
unfoldable pub fetches : TopicPartition → List Call → List ℕ
fetches k [] = []
fetches k (fetched j o ∷ cs) = if same_partition k j then o ∷ fetches k cs else fetches k cs
fetches k (finished j o ∷ cs) = fetches k cs

unfoldable pub finishes : TopicPartition → List Call → List ℕ
finishes k [] = []
finishes k (fetched j o ∷ cs) = finishes k cs
finishes k (finished j o ∷ cs) = if same_partition k j then o ∷ finishes k cs else finishes k cs

-- What holds of the entry of a partition with the fetches `fs` and the finishes `ds`.
abbrev Inv : List ℕ → List ℕ → Option PartitionOffsets → Type 0
Inv fs ds none = fs ≡ []
Inv fs ds (some p) = Split fs ds p

pub same_partition_refl : (k : TopicPartition) → same_partition k k ≡ true
unfolding same_partition
same_partition_refl k = ground (arith, (bytes_eq_iff k.topic k.topic).1 refl)

pub same_partition→eq : (j k : TopicPartition) → same_partition j k ≡ true → j ≡ k
unfolding same_partition
same_partition→eq j k h = ground (arith, (bytes_eq_iff j.topic k.topic).0)

set_partition_self :
    (t : Tracker) (k : TopicPartition) (p : PartitionOffsets) → set_partition t k p k ≡ some p
unfolding set_partition
set_partition_self t k p = rw (same_partition_refl k)

set_partition_other :
    (t : Tracker) (j k : TopicPartition) (p : PartitionOffsets)
    → same_partition k j ≡ false
    → set_partition t j p k ≡ t k
unfolding set_partition
set_partition_other t j k p h = rw h

add-Split :
    (fs ds : List ℕ) (o : ℕ) (q : Option PartitionOffsets)
    → Inv fs ds q
    → let p = entry q in
      Split (fs ++ (o ∷ [])) ds (record p { in_flight = p.in_flight ++ (o ∷ []) })
unfolding entry
add-Split fs ds o none e = record {
  before = [];
  split = ap (λ l. l ++ (o ∷ [])) e;
  all_finished = tt;
  flags = λ x h. cc;
}
add-Split fs ds o (some p) s = record {
  before = s.before;
  split = ap (λ l. l ++ (o ∷ [])) s.split ∙ append_assoc s.before p.in_flight (o ∷ []);
  all_finished = s.all_finished;
  flags = s.flags;
}

add-Inv :
    (t : Tracker) (k : TopicPartition) (o : ℕ) (fs ds : List ℕ)
    → Inv fs ds (t k)
    → Inv (fs ++ (o ∷ [])) ds (add t k o k)
unfolding add
add-Inv t k o fs ds h = rw (set_partition_self t k _) (add-Split fs ds o (t k) h)

mark_done-Inv :
    (t : Tracker) (k : TopicPartition) (o : ℕ) (fs ds : List ℕ)
    → Inv fs ds (t k)
    → Inv fs (ds ++ (o ∷ [])) ((mark_done t k o).0 k)
      × ((mark_done t k o).1.1 ≡ true → Committed fs (ds ++ (o ∷ [])) (mark_done t k o).1.0)
unfolding mark_done
mark_done-Inv t k o fs ds h = go (t k) refl h
  where
    go :
        (q : Option PartitionOffsets)
        → t k ≡ q
        → Inv fs ds q
        → Inv fs (ds ++ (o ∷ [])) ((mark_done t k o).0 k)
          × ((mark_done t k o).1.1 ≡ true → Committed fs (ds ++ (o ∷ [])) (mark_done t k o).1.0)
    go none e i = rw (e, mark_done) (rw e i, λ x. cc)
    go (some p) e i = rw (e, mark_done) (rw (set_partition_self t k _) (mark_entry fs ds o p i))

add_other :
    (t : Tracker) (j k : TopicPartition) (o : ℕ) → same_partition k j ≡ false → add t j o k ≡ t k
unfolding add
add_other t j k o h = set_partition_other t j k _ h

mark_done_other :
    (t : Tracker) (j k : TopicPartition) (o : ℕ)
    → same_partition k j ≡ false
    → (mark_done t j o).0 k ≡ t k
unfolding mark_done
mark_done_other t j k o h = go (t j) refl
  where
    go : (q : Option PartitionOffsets) → t j ≡ q → (mark_done t j o).0 k ≡ t k
    go none e = rw (e, mark_done)
    go (some p) e = rw (e, mark_done) (set_partition_other t j k _ h)

-- The invariant holds after any history.
run-Inv :
    (t : Tracker) (k : TopicPartition) (cs : List Call) (fs ds : List ℕ)
    → Inv fs ds (t k)
    → Inv (fs ++ fetches k cs) (ds ++ finishes k cs) (run t cs k)
unfolding run step fetches finishes
run-Inv t k [] fs ds h = rw (append-nil, append-nil) h
run-Inv t k (fetched j o ∷ cs) fs ds h = elim (Bool-cases (same_partition k j)) [
  | inl e ↦ rw e (
      subst (λ l. Inv l (ds ++ finishes k cs) (run (add t j o) cs k))
        (append_assoc fs (o ∷ []) (fetches k cs))
        (run-Inv (add t j o) k cs (fs ++ (o ∷ [])) ds (
          subst (λ i. Inv (fs ++ (o ∷ [])) ds (add t i o k)) (same_partition→eq k j e)
            (add-Inv t k o fs ds h))))
  | inr e ↦ rw e (run-Inv (add t j o) k cs fs ds (subst (Inv fs ds) (sym (add_other t j k o e)) h))
]
run-Inv t k (finished j o ∷ cs) fs ds h = elim (Bool-cases (same_partition k j)) [
  | inl e ↦ rw e (
      subst (λ l. Inv (fs ++ fetches k cs) l (run (mark_done t j o).0 cs k))
        (append_assoc ds (o ∷ []) (finishes k cs))
        (run-Inv (mark_done t j o).0 k cs fs (ds ++ (o ∷ [])) (
          subst (λ i. Inv fs (ds ++ (o ∷ [])) ((mark_done t i o).0 k)) (same_partition→eq k j e)
            (mark_done-Inv t k o fs ds h).0)))
  | inr e ↦ rw e (
      run-Inv (mark_done t j o).0 k cs fs ds
        (subst (Inv fs ds) (sym (mark_done_other t j k o e)) h))
]

abbrev pub IsIncreasing : List ℕ → Type 0
IsIncreasing [] = Unit {0}
IsIncreasing (x ∷ xs) = All (λ y. x < y) xs × IsIncreasing xs

-- In an increasing list, what is not above an entry stands at it or before it.
leading_lem :
    (xs ys : List ℕ) (c x : ℕ)
    → IsIncreasing (xs ++ (c ∷ ys))
    → In x (xs ++ (c ∷ ys))
    → x ≤ c
    → In x (xs ++ (c ∷ []))
leading_lem [] ys c x i (inl e) l = inl e
leading_lem [] ys c x i (inr h) l = absurd (omega (arith, All-In (λ y. c < y) ys i.0 h))
leading_lem (y ∷ xs) ys c x i (inl e) l = inl e
leading_lem (y ∷ xs) ys c x i (inr h) l = inr (leading_lem xs ys c x i.1 h l)

-- After any history of calls in which the offsets of a partition are fetched in increasing order:
-- when markDone says that an offset may be committed, every offset of that partition fetched so far
-- and not above it is finished, by the history or by this call. So a commit skips no message that is
-- still being handled.
pub commit_is_safe :
    (cs : List Call) (k : TopicPartition) (o c x : ℕ)
    → IsIncreasing (fetches k cs)
    → (mark_done (run new_tracker cs) k o).1 ≡ (c, true)
    → In x (fetches k cs)
    → x ≤ c
    → In x (finishes k cs ++ (o ∷ []))
unfolding new_tracker
commit_is_safe cs k o c x i t h l =
    let w =
      (mark_done-Inv (run new_tracker cs) k o (fetches k cs) (finishes k cs)
          (run-Inv new_tracker k cs [] [] refl)).1
        (ap (λ r. r.1) t) in
    let b : x ≤ (mark_done (run new_tracker cs) k o).1.0 = rw t l in
    All-In (λ y. In y (finishes k cs ++ (o ∷ []))) (w.earlier ++ (_ ∷ [])) w.finished_up_to
      (leading_lem w.earlier w.later _ x (subst IsIncreasing w.place i) (subst (In x) w.place h) b)

In-at : (xs ys : List ℕ) (c : ℕ) → In c (xs ++ (c ∷ ys))
In-at [] ys c = inl refl
In-at (x ∷ xs) ys c = inr (In-at xs ys c)

-- What markDone gives out to be committed is an offset that was fetched.
pub committed_was_fetched :
    (cs : List Call) (k : TopicPartition) (o c : ℕ)
    → (mark_done (run new_tracker cs) k o).1 ≡ (c, true)
    → In c (fetches k cs)
unfolding new_tracker
committed_was_fetched cs k o c t =
    let w =
      (mark_done-Inv (run new_tracker cs) k o (fetches k cs) (finishes k cs)
          (run-Inv new_tracker k cs [] [] refl)).1
        (ap (λ r. r.1) t) in
    subst (λ x. In x (fetches k cs)) (ap (λ r. r.0) t)
      (subst (In _) (sym w.place) (In-at w.earlier w.later _))
