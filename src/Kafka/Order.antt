-- ===== src/Kafka/Order.antt =====
-- How far a commit goes: markDone takes every leading finished offset out of flight.
use near_real_time_hybrid_se.Common.{
  ℕ, ◌≡◌, ◌≢◌, refl, Bool, true, false, List, [], ◌∷◌, some, arith, All, map, take_while,
  drop_while, last_or,
}
use near_real_time_hybrid_se.Kafka.{
  TopicPartition, PartitionOffsets, Tracker, set_flag, set_partition, entry, advance, mark_done,
}
use near_real_time_hybrid_se.Kafka.Commits.{same_partition_refl}

-- No offset is in flight twice.
abbrev pub Distinct : List ℕ → Type 0
Distinct [] = Unit {0}
Distinct (x ∷ xs) = All (λ y. x ≢ y) xs × Distinct xs

-- The prefix that a test takes depends on the test at the entries only.
while_agree :
    (p q : ℕ → Bool) (xs : List ℕ)
    → All (λ x. p x ≡ q x) xs
    → (take_while p xs ≡ take_while q xs) × (drop_while p xs ≡ drop_while q xs)
while_agree p q [] a = (refl, refl)
while_agree p q (x ∷ xs) a = ground (arith, while_agree p q xs a.1)

set_flag-agree :
    (done : ℕ → Bool) (o : ℕ) (xs : List ℕ)
    → All (λ y. o ≢ y) xs
    → All (λ x. set_flag done o false x ≡ done x) xs
unfolding set_flag
set_flag-agree done o [] a = tt
set_flag-agree done o (x ∷ xs) a = (ground arith, set_flag-agree done o xs a.1)

-- The loop, on distinct offsets, against the library's view of a prefix.
advance_lem :
    (xs : List ℕ) (done : ℕ → Bool) (out : ℕ × Bool)
    → Distinct xs
    → ((advance xs done out).0.in_flight ≡ drop_while done xs)
      × ((advance xs done out).1 ≡ last_or out (map (λ o. (o, true)) (take_while done xs)))
unfolding advance
advance_lem [] done out d = (refl, refl)
advance_lem (o ∷ os) done out d = ground (
  arith,
  advance_lem os (set_flag done o false) (o, true) d.1,
  while_agree (set_flag done o false) done os (set_flag-agree done o os d.0),
)

-- With distinct offsets in flight, markDone removes exactly the leading offsets that are finished
-- once `o` is, and returns the last of them, or (0, false) if there is none.
mark_done_removes_prefix :
    (t : Tracker) (k : TopicPartition) (o : ℕ) (p : PartitionOffsets)
    → t k ≡ some p
    → Distinct p.in_flight
    → let done = set_flag p.done o true in
      let (t', out) = mark_done t k o in
      ((entry (t' k)).in_flight ≡ drop_while done p.in_flight)
      × (out ≡ last_or (0, false) (map (λ x. (x, true)) (take_while done p.in_flight)))
unfolding mark_done set_partition entry
mark_done_removes_prefix t k o p e d =
    ground
      (arith, same_partition_refl k, advance_lem p.in_flight (set_flag p.done o true) (0, false) d)
