-- ===== src/Kafka/Loop.antt =====
-- The loop of markDone: it keeps the offsets split into a finished part and those in flight.
use mathlib.Core.List.{append_assoc}
use near_real_time_hybrid_se.Common.{
  ℕ, ◌≡◌, refl, sym, ◌∙◌, subst, ◌⊎◌, inl, inr, Bool, true, false, List, [], ◌∷◌, ◌++◌, arith, All,
  All-append, In, Bool-cases,
}
use near_real_time_hybrid_se.Kafka.{PartitionOffsets, set_flag, advance}

-- A finished part, the offsets still in flight, and no flag but of a finished offset.
pub record Split (fs ds : List ℕ) (p : PartitionOffsets) : Type 0 where
  pub before : List ℕ
  pub split : fs ≡ before ++ p.in_flight
  pub all_finished : All (λ o. In o ds) before
  pub flags : (o : ℕ) → p.done o ≡ true → In o ds

-- A commit by the loop: its offset is the last of the finished part.
pub record Committed (fs ds : List ℕ) (c : ℕ) : Type 0 where
  pub earlier : List ℕ
  pub later : List ℕ
  pub place : fs ≡ earlier ++ (c ∷ later)
  pub finished_up_to : All (λ o. In o ds) (earlier ++ (c ∷ []))

set_flag-true :
    (done : ℕ → Bool) (o : ℕ) (b : Bool) (x : ℕ)
    → set_flag done o b x ≡ true
    → (x ≡ o) × (b ≡ true) ⊎ (done x ≡ true)
unfolding set_flag
set_flag-true done o b x h = ground arith

-- The loop keeps the split, and what it returns is what it was given or a commit.
advance-Split :
    (xs : List ℕ) (done : ℕ → Bool) (out : ℕ × Bool) (fs ds before : List ℕ)
    → fs ≡ before ++ xs
    → All (λ o. In o ds) before
    → ((o : ℕ) → done o ≡ true → In o ds)
    → Split fs ds (advance xs done out).0
      × (((advance xs done out).1 ≡ out)
          ⊎ ((c : ℕ) × ((advance xs done out).1 ≡ (c, true)) × Committed fs ds c))
unfolding advance
advance-Split [] done out fs ds before e a g =
    (record { before = before; split = e; all_finished = a; flags = g }, inl refl)
advance-Split (o ∷ os) done out fs ds before e a g = elim (Bool-cases (done o)) [
  | inr stop ↦
      rw stop (record { before = before; split = e; all_finished = a; flags = g }, inl refl)
  | inl go ↦
      let a' = All-append (λ x. In x ds) before (o ∷ []) a (g o go, tt) in
      let ih =
        advance-Split os (set_flag done o false) (o, true) fs ds (before ++ (o ∷ []))
          (e ∙ sym (append_assoc before (o ∷ []) os)) a'
          λ x h. ground (arith, set_flag-true done o false x h, g x) in
      rw go (
        ih.0,
        elim ih.1 [
          | inl r ↦
              inr (o, r, record { earlier = before; later = os; place = e; finished_up_to = a' })
          | inr w ↦ inr w
        ],
      )
]

In-append : (x : ℕ) (ds es : List ℕ) → In x ds ⊎ In x es → In x (ds ++ es)
In-append x [] es (inl h) = elim h [ ]
In-append x [] es (inr h) = h
In-append x (d ∷ ds) es (inl (inl h)) = inl h
In-append x (d ∷ ds) es (inl (inr h)) = inr (In-append x ds es (inl h))
In-append x (d ∷ ds) es (inr h) = inr (In-append x ds es (inr h))

All-finished_more : (xs ds es : List ℕ) → All (λ o. In o ds) xs → All (λ o. In o (ds ++ es)) xs
All-finished_more [] ds es a = tt
All-finished_more (x ∷ xs) ds es a = (In-append x ds es (inl a.0), All-finished_more xs ds es a.1)

-- What markDone does to the entry of its partition, and what it returns.
pub mark_entry :
    (fs ds : List ℕ) (o : ℕ) (p : PartitionOffsets)
    → Split fs ds p
    → let r = advance p.in_flight (set_flag p.done o true) (0, false) in
      Split fs (ds ++ (o ∷ [])) r.0 × (r.1.1 ≡ true → Committed fs (ds ++ (o ∷ [])) r.1.0)
mark_entry fs ds o p s =
    let r =
      advance-Split p.in_flight (set_flag p.done o true) (0, false) fs (ds ++ (o ∷ [])) s.before
        s.split (All-finished_more s.before ds (o ∷ []) s.all_finished)
        λ x h. elim (set_flag-true p.done o true x h) [
          | inl w ↦ In-append x ds (o ∷ []) (inr (inl w.0))
          | inr q ↦ In-append x ds (o ∷ []) (inl (s.flags x q))
        ] in
    (
      r.0,
      λ h. elim r.1 [
        | inl e ↦ cc
        | inr w ↦ subst (λ (u : ℕ × Bool). Committed fs (ds ++ (o ∷ [])) u.0) (sym w.1) w.2
      ],
    )
