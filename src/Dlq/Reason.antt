-- ===== src/Dlq/Reason.antt =====
-- The error text of a dead letter (internal/dlq/message.go).
use near_real_time_hybrid_se.Common.{
  ℕ, zero, suc, ◌+◌, ◌≡◌, ◌≤◌, refl, ap, inl, inr, false, List, [], ◌∷◌, ◌++◌, some, leb, take,
  length, length-take, length-append, arith, Bool-cases, if◌then◌else◌,
}
use near_real_time_hybrid_se.Common.Int.{ℤ}
use near_real_time_hybrid_se.Common.Bytes.{Bytes, codes}
use near_real_time_hybrid_se.Dlq.{Source, truncate, new, max_error_length}

take-take-append :
    {A : Type 0} (n : ℕ) (xs ys : List A) → n ≤ length xs → take n (take n xs ++ ys) ≡ take n xs
take-take-append zero xs ys h = refl
take-take-append (suc n) [] ys h = absurd (omega (arith, h))
take-take-append (suc n) (x ∷ xs) ys h =
    ap (λ l. x ∷ l) (take-take-append n xs ys (omega (arith, h)))

cut_length :
    (s : Bytes) (n : ℕ) → leb (length s) n ≡ false → length (take n s ++ codes "...") ≡ n + 3
cut_length s n e = ground (arith, e, length-append (take n s) (codes "..."), length-take n s)

truncate_lem :
    (s : Bytes) (n : ℕ)
    → (length (truncate s n) ≡ (if leb (length s) n then length s else n + 3))
      × (take n (truncate s n) ≡ take n s)
unfolding truncate
truncate_lem s n = elim (Bool-cases (leb (length s) n)) [
  | inl e ↦ (ground (arith, e), ground (arith, e))
  | inr e ↦ (
    ground (arith, e, cut_length s n e),
    ground (arith, e, take-take-append n s (codes "...") (ground (arith, e))),
  )
]

-- The letter holds the cause's text whole if it has at most 2048 bytes; a longer text is cut to its first
-- 2048 bytes with three more for the dots. The first 2048 bytes are always the cause's.
pub new_reason :
    (src : Source) (text kind : Bytes) (attempts : ℕ) (now : ℤ)
    → let reason = (new src (some text) kind attempts now).error in
      (length reason
        ≡ (if leb (length text) max_error_length then length text else max_error_length + 3))
      × (take max_error_length reason ≡ take max_error_length text)
unfolding new
new_reason src text kind attempts now = truncate_lem text max_error_length
