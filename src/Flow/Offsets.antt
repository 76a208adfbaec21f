-- ===== src/Flow/Offsets.antt =====
-- The offsets of one partition's messages, in increasing order (internal/kafka/consumer.go).
use near_real_time_hybrid_se.Common.{
  ℕ, ◌≡◌, ◌<◌, refl, sym, ap, ◌∙◌, subst, ◌⊎◌, inl, inr, Bool, true, false, List, [], ◌∷◌, ◌++◌,
  arith, All, All-In, In, Bool-cases, if◌then◌else◌,
}
use near_real_time_hybrid_se.Kafka.{Message, TopicPartition, same_partition}
use near_real_time_hybrid_se.Kafka.Consumer.{key_of}
use near_real_time_hybrid_se.Kafka.Commits.{IsIncreasing, same_partition_refl, same_partition→eq}
use near_real_time_hybrid_se.Flow.Log.{offsets_of}

module _ {A : Type 0} where
  pub In-left : (x : A) (xs ys : List A) → In x xs → In x (xs ++ ys)
  In-left x (y ∷ xs) ys (inl e) = inl e
  In-left x (y ∷ xs) ys (inr h) = inr (In-left x xs ys h)
  In-left x [] ys h = elim h [ ]

  pub In-cases : (x : A) (xs ys : List A) → In x (xs ++ ys) → In x xs ⊎ In x ys
  In-cases x [] ys h = inr h
  In-cases x (y ∷ xs) ys (inl e) = inl (inl e)
  In-cases x (y ∷ xs) ys (inr h) = elim (In-cases x xs ys h) [ inl a ↦ inl (inr a) | inr b ↦ inr b ]

-- An increasing list stays so when its end is cut off, and its last entry is the greatest.
pub IsIncreasing-front :
    (xs : List ℕ) (o : ℕ)
    → IsIncreasing (xs ++ (o ∷ []))
    → IsIncreasing xs × ((x : ℕ) → In x xs → x < o)
IsIncreasing-front [] o i = (tt, λ x h. elim h [ ])
IsIncreasing-front (y ∷ xs) o i =
    let ih = IsIncreasing-front xs o i.1 in
    (
      (All-front xs i.0, ih.0),
      λ x h. elim h [ inl e ↦ subst (λ z. z < o) (sym e) (All-last xs i.0) | inr h ↦ ih.1 x h ],
    )
  where
    All-front : (zs : List ℕ) → All (λ z. y < z) (zs ++ (o ∷ [])) → All (λ z. y < z) zs
    All-front [] a = tt
    All-front (z ∷ zs) a = (a.0, All-front zs a.1)

    All-last : (zs : List ℕ) → All (λ z. y < z) (zs ++ (o ∷ [])) → y < o
    All-last [] a = a.0
    All-last (z ∷ zs) a = All-last zs a.1

pub taken_first :
    (k : TopicPartition) (x m : Message) → m ≡ x → key_of m ≡ k → same_partition k (key_of x) ≡ true
taken_first k x m q e =
    subst (λ z. same_partition k z ≡ true) (sym e ∙ ap key_of q) (same_partition_refl k)

pub offset_of-In :
    (k : TopicPartition) (m : Message) (ms : List Message)
    → In m ms
    → key_of m ≡ k
    → In m.offset (offsets_of k ms)
unfolding offsets_of
offset_of-In k m [] h e = elim h [ ]
offset_of-In k m (x ∷ ms) (inl q) e = rw (taken_first k x m q e) (inl (ap (λ z. z.offset) q))
offset_of-In k m (x ∷ ms) (inr h) e = elim (Bool-cases (same_partition k (key_of x))) [
  | inl t ↦ rw t (inr (offset_of-In k m ms h e))
  | inr f ↦ rw f (offset_of-In k m ms h e)
]

pub message_of-In :
    (k : TopicPartition) (o : ℕ) (ms : List Message)
    → In o (offsets_of k ms)
    → (m : Message) × In m ms × (key_of m ≡ k) × (m.offset ≡ o)
unfolding offsets_of
message_of-In k o [] h = elim h [ ]
message_of-In k o (x ∷ ms) h = go (message_of-In k o ms) (same_partition k (key_of x)) refl h
  where
    later_one :
        ((m : Message) × In m ms × (key_of m ≡ k) × (m.offset ≡ o))
        → (m : Message) × In m (x ∷ ms) × (key_of m ≡ k) × (m.offset ≡ o)
    later_one (m, a, b, c) = (m, inr a, b, c)

    go :
        (In o (offsets_of k ms) → (m : Message) × In m ms × (key_of m ≡ k) × (m.offset ≡ o))
        → (b : Bool) → same_partition k (key_of x) ≡ b
        → In o (if b then x.offset ∷ offsets_of k ms else offsets_of k ms)
        → (m : Message) × In m (x ∷ ms) × (key_of m ≡ k) × (m.offset ≡ o)
    go ih true t (inl q) = (x, inl refl, sym (same_partition→eq k (key_of x) t), sym q)
    go ih true t (inr r) = later_one (ih r)
    go ih false t r = later_one (ih r)

IsIncreasing-rest :
    (b : Bool) (x : ℕ) (l : List ℕ) → IsIncreasing (if b then x ∷ l else l) → IsIncreasing l
IsIncreasing-rest true x l i = i.1
IsIncreasing-rest false x l i = i

-- In an increasing list the offset of its first message is below all others.
first_is_least :
    (k : TopicPartition) (x m m' : Message) (ms : List Message)
    → IsIncreasing (offsets_of k (x ∷ ms))
    → m ≡ x
    → key_of m ≡ k
    → In m' ms
    → key_of m' ≡ k
    → m.offset < m'.offset
unfolding offsets_of
first_is_least k x m m' ms i q e h e' =
    let j : IsIncreasing (x.offset ∷ offsets_of k ms) =
      subst (λ b. IsIncreasing (if b then x.offset ∷ offsets_of k ms else offsets_of k ms))
        (taken_first k x m q e) i in
    subst (λ (z : Message). z.offset < m'.offset) (sym q)
      (All-In (λ o. x.offset < o) (offsets_of k ms) j.0 (offset_of-In k m' ms h e'))

-- A partition's messages with one offset are one message.
pub same_message :
    (k : TopicPartition) (m m' : Message) (ms : List Message)
    → IsIncreasing (offsets_of k ms)
    → In m ms
    → In m' ms
    → key_of m ≡ k
    → key_of m' ≡ k
    → m.offset ≡ m'.offset
    → m ≡ m'
unfolding offsets_of
same_message k m m' [] i h h' e e' q = elim h [ ]
same_message k m m' (x ∷ ms) i (inl a) (inl b) e e' q = a ∙ sym b
same_message k m m' (x ∷ ms) i (inl a) (inr b) e e' q =
    absurd (omega (arith, first_is_least k x m m' ms i a e b e'))
same_message k m m' (x ∷ ms) i (inr a) (inl b) e e' q =
    absurd (omega (arith, first_is_least k x m' m ms i b e' a e))
same_message k m m' (x ∷ ms) i (inr a) (inr b) e e' q =
    same_message k m m' ms
      (IsIncreasing-rest (same_partition k (key_of x)) x.offset (offsets_of k ms) i) a b e e' q
