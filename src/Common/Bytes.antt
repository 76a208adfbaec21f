-- ===== src/Common/Bytes.antt =====
-- Go strings as lists of bytes: equality, the order of `cmp.Compare`, and text literals.
use Prim.Native.Nat.{Ordering, compare}
use Prim.Native.Char.{code}
use Prim.Native.String.{String}
use near_real_time_hybrid_se.Common.{
  ℕ, ◌≡◌, refl, subst, ◌↔◌, Bool, true, false, ◌&&◌, ◌==◌, List, [], ◌∷◌, arith,
}

abbrev pub Bytes : Type 0
Bytes = List ℕ

-- The bytes of an ASCII literal.
abbrev pub codes : String → Bytes
codes String.[] = []
codes (String.◌∷◌ c s) = code c ∷ codes s

unfoldable pub bytes_eq : Bytes → Bytes → Bool
bytes_eq [] [] = true
bytes_eq [] (y ∷ ys) = false
bytes_eq (x ∷ xs) [] = false
bytes_eq (x ∷ xs) (y ∷ ys) = (x == y) && bytes_eq xs ys

pub bytes_eq→eq : (a b : Bytes) → bytes_eq a b ≡ true → a ≡ b
unfolding bytes_eq
bytes_eq→eq [] [] h = refl
bytes_eq→eq [] (y ∷ ys) h = cc
bytes_eq→eq (x ∷ xs) [] h = cc
bytes_eq→eq (x ∷ xs) (y ∷ ys) h = ground (arith, bytes_eq→eq xs ys)

pub bytes_eq_refl : (a : Bytes) → bytes_eq a a ≡ true
unfolding bytes_eq
bytes_eq_refl [] = refl
bytes_eq_refl (x ∷ xs) = ground (arith, bytes_eq_refl xs)

pub bytes_eq_iff : (a b : Bytes) → (bytes_eq a b ≡ true) ↔ (a ≡ b)
bytes_eq_iff a b = (bytes_eq→eq a b, λ e. subst (λ c. bytes_eq a c ≡ true) e (bytes_eq_refl a))

-- The order of Go strings: byte by byte, a proper prefix first.
unfoldable pub bytes_compare : Bytes → Bytes → Ordering
bytes_compare [] [] = Ordering.eq
bytes_compare [] (y ∷ ys) = Ordering.lt
bytes_compare (x ∷ xs) [] = Ordering.gt
bytes_compare (x ∷ xs) (y ∷ ys) =
    let rest = bytes_compare xs ys in
    elim (compare x y) [
      | Ordering.lt ↦ Ordering.lt
      | Ordering.eq ↦ rest
      | Ordering.gt ↦ Ordering.gt
    ]

pub bytes_compare-eq : (a b : Bytes) → bytes_compare a b ≡ Ordering.eq → a ≡ b
unfolding bytes_compare
bytes_compare-eq [] [] h = refl
bytes_compare-eq [] (y ∷ ys) h = cc
bytes_compare-eq (x ∷ xs) [] h = cc
bytes_compare-eq (x ∷ xs) (y ∷ ys) h = ground (arith, bytes_compare-eq xs ys)

-- Swapping the arguments swaps the outcome.
pub bytes_compare-swap :
    (a b : Bytes) → bytes_compare a b ≡ Ordering.gt → bytes_compare b a ≡ Ordering.lt
unfolding bytes_compare
bytes_compare-swap [] [] h = cc
bytes_compare-swap [] (y ∷ ys) h = cc
bytes_compare-swap (x ∷ xs) [] h = refl
bytes_compare-swap (x ∷ xs) (y ∷ ys) h = ground (arith, bytes_compare-swap xs ys)

pub bytes_compare_trans :
    (a b c : Bytes)
    → bytes_compare a b ≡ Ordering.lt
    → bytes_compare b c ≡ Ordering.lt
    → bytes_compare a c ≡ Ordering.lt
unfolding bytes_compare
bytes_compare_trans [] [] [] h k = cc
bytes_compare_trans [] (y ∷ ys) [] h k = cc
bytes_compare_trans [] b (z ∷ zs) h k = refl
bytes_compare_trans (x ∷ xs) [] c h k = cc
bytes_compare_trans (x ∷ xs) (y ∷ ys) [] h k = cc
bytes_compare_trans (x ∷ xs) (y ∷ ys) (z ∷ zs) h k =
    ground (arith, bytes_compare_trans xs ys zs, bytes_compare-eq xs ys, bytes_compare-eq ys zs)
