-- ===== src/Tests/Floats.antt =====
-- Numbers that satisfy the laws of the retry policy's arithmetic: the integers, without rounding.
use Prim.Native.Nat.pow
use native.Mathlib.Nat.{pow-suc}
use near_real_time_hybrid_se.Common.{ℕ, zero, suc, ◌*◌, ◌^◌, ◌≤◌, ◌≡◌, refl, Bool, false, arith}
use near_real_time_hybrid_se.Common.Int.{ℤ, pos, negsuc, ltb_ℤ, ◌≤ℤ◌}
use near_real_time_hybrid_se.Retry.{Float64}
use near_real_time_hybrid_se.Retry.Backoff.{Laws, exact}

abbrev product : ℤ → ℤ → ℤ
product (pos a) (pos b) = pos (a * b)
product _ _ = pos 0

abbrev power : ℤ → ℤ → ℤ
power (pos a) (pos b) = pos (a ^ b)
power _ _ = pos 1

abbrev pub integers : Float64
integers = record {
  F = ℤ;
  of_int = λ a. a;
  to_int = λ a. a;
  mul = product;
  pow = power;
  lt = ltb_ℤ;
  is_inf = λ _. false;
  is_nan = λ _. false;
}

power_pos : (m n : ℕ) → 1 ≤ m → 1 ≤ m ^ n
power_pos m zero h = rw (pow.zero m) (omega arith)
power_pos m (suc n) h = rw (pow-suc m n) (grind (arith, power_pos m n h))

power_ge_one :
    (x : ℤ) (n : ℕ)
    → ltb_ℤ x (pos 1) ≡ false
    → Bool.false ≡ false
    → (ltb_ℤ (power x (pos n)) (pos 1) ≡ false) × (Bool.false ≡ false)
power_ge_one (pos m) n h _ = (ground (arith, power_pos m n), refl)
power_ge_one (negsuc m) n h _ = (ground arith, refl)

mul_le : (a m : ℕ) → 1 ≤ m → a ≤ a * m
mul_le a m h = grind arith

product_ge :
    (a x : ℤ)
    → pos 1 ≤ℤ a
    → a ≤ℤ exact
    → ltb_ℤ x (pos 1) ≡ false
    → Bool.false ≡ false
    → (ltb_ℤ (product a x) a ≡ false) × (Bool.false ≡ false)
product_ge (pos a) (pos m) h k l _ = (ground (arith, mul_le a m), refl)
product_ge (pos a) (negsuc m) h k l _ = (ground arith, refl)
product_ge (negsuc a) x h k l _ = absurd (omega arith)

to_int_between :
    (a b x : ℤ)
    → pos 0 ≤ℤ a
    → b ≤ℤ exact
    → Bool.false ≡ false
    → Bool.false ≡ false
    → ltb_ℤ x a ≡ false
    → ltb_ℤ b x ≡ false
    → (a ≤ℤ x) × (x ≤ℤ b)
to_int_between a b x h k _ _ l m = ground arith

pub integers-Laws : Laws integers
integers-Laws = record {
  pow_ge_one = power_ge_one;
  mul_ge = product_ge;
  to_int_between = to_int_between;
}
