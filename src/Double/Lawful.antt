-- ===== src/Double/Lawful.antt =====
-- The laws can be met: fixed-point decimals satisfy them.
use native.Mathlib.Nat.{div-le_of_le-mul}
use gpu_health_index.Prelude.{ℕ, zero, suc, ◌*◌, ◌/◌, ◌^◌, ◌≤◌, ◌<◌, some, none, arith}
use gpu_health_index.Prelude.Int.{pos, negsuc}
use gpu_health_index.Double.{IsLawful, ◌≼◌, nought}
use gpu_health_index.Double.Fixed.{Fixed, fixed_double}

div_nonneg_fixed :
    (x y : Fixed) (n : ℕ) → nought ≼ x → fixed_double.lit 1 0 ≼ y → nought ≼ fixed_double.div x y
div_nonneg_fixed none y n p q = p
div_nonneg_fixed (some (pos a)) none n p q = q
div_nonneg_fixed (some (pos a)) (some (pos b)) n p q = ground arith
div_nonneg_fixed (some (pos a)) (some (negsuc b)) n p q = ground arith
div_nonneg_fixed (some (negsuc a)) y n p q = ground arith

mul_nonneg_fixed : (x y : Fixed) → nought ≼ x → nought ≼ y → nought ≼ fixed_double.mul x y
mul_nonneg_fixed none y p q = p
mul_nonneg_fixed (some (pos a)) none p q = q
mul_nonneg_fixed (some (pos a)) (some (pos b)) p q = ground arith
mul_nonneg_fixed (some (pos a)) (some (negsuc b)) p q = ground arith
mul_nonneg_fixed (some (negsuc a)) y p q = ground arith

le_trans_fixed : (x y z : Fixed) → x ≼ y → y ≼ z → x ≼ z
le_trans_fixed x y z p q = ground arith

ratio_fixed :
    (m n : ℕ)
    → m ≤ n
    → 0 < n
    → (nought ≼ fixed_double.div (fixed_double.of_nat m) (fixed_double.of_nat n))
      × (fixed_double.div (fixed_double.of_nat m) (fixed_double.of_nat n) ≼ fixed_double.lit 1 0)
ratio_fixed m n h p =
    let small : m * 1_000_000 * 1_000_000 / (n * 1_000_000) ≤ 1_000_000 =
      div-le_of_le-mul (n * 1_000_000) (omega arith) in
    (ground arith, ground arith)

lit_le_fixed :
    (m j n k : ℕ)
    → j ≤ 2
    → k ≤ 2
    → m * 10 ^ k ≤ n * 10 ^ j
    → fixed_double.lit m j ≼ fixed_double.lit n k
lit_le_fixed m zero n zero p q h = ground arith
lit_le_fixed m zero n (suc zero) p q h = ground arith
lit_le_fixed m zero n (suc (suc zero)) p q h = ground arith
lit_le_fixed m (suc zero) n zero p q h = ground arith
lit_le_fixed m (suc zero) n (suc zero) p q h = ground arith
lit_le_fixed m (suc zero) n (suc (suc zero)) p q h = ground arith
lit_le_fixed m (suc (suc zero)) n zero p q h = ground arith
lit_le_fixed m (suc (suc zero)) n (suc zero) p q h = ground arith
lit_le_fixed m (suc (suc zero)) n (suc (suc zero)) p q h = ground arith
lit_le_fixed m (suc (suc (suc j))) n k p q h = absurd (omega arith)
lit_le_fixed m j n (suc (suc (suc k))) p q h = absurd (omega arith)

pub Fixed-IsLawful : IsLawful Fixed
Fixed-IsLawful = record {
  lit_mono = λ m n h _. ground arith;
  lit_le = λ m j n k p q _ h. lit_le_fixed m j n k p q h;
  of_nat_mono = λ m n h. ground arith;
  of_nat_nonneg = λ n. ground arith;
  le_trans = le_trans_fixed;
  refl_of_le = λ x y h. ground arith;
  le_of_lt = λ x y h. ground arith;
  lt-eq-not-le = λ x y p q. ground arith;
  sub-le = λ x p m n _ _ hx hp hn. ground arith;
  sub_nonneg = λ x y n _ p q h. ground arith;
  scale_nonneg = λ n x _ _ p. mul_nonneg_fixed (fixed_double.lit n 0) x (ground arith) p;
  mul_nonneg = λ x y m n _ _ p _ q _. mul_nonneg_fixed x y p q;
  div_nonneg = λ x y n _ p q _. div_nonneg_fixed x y n p q;
  ratio_bounds = ratio_fixed;
}
