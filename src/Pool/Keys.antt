-- ===== src/Pool/Keys.antt =====
-- All messages with one key go to one worker of the pool, so a document has one writer at a time
-- (internal/indexing/worker.go).
use near_real_time_hybrid_se.Common.{
  ℕ, ◌≡◌, ◌≢◌, ◌%◌, refl, sym, ap, ◌∙◌, inl, inr, true, false, ◌==◌, List, [], ◌∷◌, ◌++◌, map,
  arith, Bool-cases, if◌then◌else◌,
}
use near_real_time_hybrid_se.Common.Bytes.{Bytes, bytes_eq, bytes_eq_iff}
use near_real_time_hybrid_se.Common.Trim.{is_empty}
use near_real_time_hybrid_se.Kafka.{Message}
use near_real_time_hybrid_se.Pool.{Pool, Worker, handling, Reach, started, route, fnv, fnv_offset}
use near_real_time_hybrid_se.Pool.Order.{routed, history, in_hand, Reach-Kept}

-- The messages with a key, in order.
unfoldable pub keyed : Bytes → List Message → List Message
keyed k [] = []
keyed k (m ∷ ms) = let rest = keyed k ms in if bytes_eq m.key k then m ∷ rest else rest

keyed-append : (k : Bytes) (a b : List Message) → keyed k (a ++ b) ≡ keyed k a ++ keyed k b
unfolding keyed
keyed-append k [] b = refl
keyed-append k (m ∷ a) b = ground (arith, keyed-append k a b)

-- The worker of a key.
unfoldable pub worker_of : ℕ → Bytes → ℕ
unfolding fnv
worker_of n k = fnv fnv_offset k % n

route-worker_of :
    (n : ℕ) (m : Message) (k : Bytes) → is_empty k ≡ false → m.key ≡ k → route n m ≡ worker_of n k
unfolding route worker_of
route-worker_of n m k e q = ground (arith, e, q)

keyed-routed :
    (n i : ℕ) (k : Bytes) (ms : List Message)
    → is_empty k ≡ false
    → keyed k (routed n i ms) ≡ (if worker_of n k == i then keyed k ms else [])
unfolding keyed routed
keyed-routed n i k [] e = ground arith
keyed-routed n i k (m ∷ ms) e = elim (Bool-cases (bytes_eq m.key k)) [
  | inl q ↦
      ground
        (arith, q, route-worker_of n m k e ((bytes_eq_iff m.key k).0 q), keyed-routed n i k ms e)
  | inr q ↦ ground (arith, q, keyed-routed n i k ms e)
]

-- For a key that is not empty: in every state that the pool can reach, the messages with that key which
-- a worker has handled, is handling or has in its queue are, for the key's own worker, all that were
-- submitted, in their order, and for any other worker none.
pub key_order :
    (n cap i : ℕ) (k : Bytes) {s : Pool}
    → is_empty k ≡ false
    → Reach n cap started s
    → keyed k (history (s.workers i)) ≡ (if worker_of n k == i then keyed k s.submitted else [])
key_order n cap i k {s} e r =
    ap (keyed k) (sym (Reach-Kept n cap i r).0) ∙ keyed-routed n i k s.submitted e

keyed_middle :
    (k : Bytes) (a b : List Message) (m : Message)
    → bytes_eq m.key k ≡ true
    → keyed k (a ++ (m ∷ b)) ≢ []
unfolding keyed
keyed_middle k [] b m q h = ground (arith, q, h)
keyed_middle k (x ∷ a) b m q h = ground (arith, q, h, keyed_middle k a b m q)

in_hand_keyed :
    (k : Bytes) (w : Worker) (m : Message)
    → w.place ≡ handling m
    → m.key ≡ k
    → keyed k (history w) ≢ []
in_hand_keyed k w m p q h =
    keyed_middle k (map (λ r. r.0) w.completed) w.queue m ((bytes_eq_iff m.key k).1 q)
      (ap (λ x. keyed k (map (λ r. r.0) w.completed ++ (in_hand x ++ w.queue))) (sym p) ∙ h)

-- Two workers never handle messages with the same key, unless it is empty, at the same time.
one_writer :
    (n cap i j : ℕ) (m m' : Message) {s : Pool}
    → is_empty m.key ≡ false
    → m'.key ≡ m.key
    → Reach n cap started s
    → (s.workers i).place ≡ handling m
    → (s.workers j).place ≡ handling m'
    → i ≡ j
one_writer n cap i j m m' {s} e q r a b = ground (
  arith,
  key_order n cap i m.key e r,
  key_order n cap j m.key e r,
  in_hand_keyed m.key (s.workers i) m a refl,
  in_hand_keyed m.key (s.workers j) m' b q,
)
