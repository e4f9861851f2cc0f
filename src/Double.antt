-- ===== src/Double.antt =====
-- The C `double`, as far as the program computes with it: a type with its operations, and the laws
-- of IEEE 754 arithmetic that the theorems need. `lit n k` is the decimal literal n / 10^k,
-- `of_nat` and `of_int` convert integers, `ceil_int` is `(int)ceil(x)`, and `strtod` gives the value
-- with the text after it, or `none` where nothing is converted or errno is set.
pub mod Fixed
pub mod Lawful
pub mod Order
use gpu_health_index.Prelude.{ℕ, ◌*◌, ◌^◌, ◌≤◌, ◌<◌, ◌≡◌, Bool, true, not, ◌&&◌, Option, List}
use gpu_health_index.Prelude.Int.{ℤ}

pub record Double (D : Type 0) : Type 0 where
  pub lit : ℕ → ℕ → D
  pub nan : D
  pub of_nat : ℕ → D
  pub of_int : ℤ → D
  pub add : D → D → D
  pub sub : D → D → D
  pub mul : D → D → D
  pub div : D → D → D
  pub neg : D → D
  pub sqrt : D → D
  pub ceil_int : D → ℤ
  pub lt : D → D → Bool
  pub le : D → D → Bool
  pub strtod : List ℕ → Option (D × List ℕ)

module _ {D : Type 0} ⦃d : Double D⦄ where
  -- isnan: NaN is the value that is not `<=` itself.
  abbrev pub is_nan : D → Bool
  is_nan x = not (d.le x x)

  abbrev pub nought : D
  nought = d.lit 0 0

  -- x == y
  abbrev pub eq : D → D → Bool
  eq x y = d.le x y && d.le y x

  infix 4 ◌≼◌
  abbrev pub ◌≼◌ : D → D → Type 0
  x ≼ y = d.le x y ≡ true

-- Literals up to 10^9 are finite, so a value below one is no infinity. Rounding is monotone.
pub record IsLawful (D : Type 0) ⦃d : Double D⦄ : Type 0 where
  pub lit_mono : (m n : ℕ) → m ≤ n → n ≤ 10 ^ 9 → d.lit m 0 ≼ d.lit n 0
  pub lit_le :
      (m j n k : ℕ) → j ≤ 2 → k ≤ 2 → n ≤ 10 ^ 9 → m * 10 ^ k ≤ n * 10 ^ j → d.lit m j ≼ d.lit n k
  pub of_nat_mono : (m n : ℕ) → m ≤ n → d.of_nat m ≼ d.of_nat n
  pub of_nat_nonneg : (n : ℕ) → nought ≼ d.of_nat n
  pub le_trans : (x y z : D) → x ≼ y → y ≼ z → x ≼ z
  pub refl_of_le : (x y : D) → x ≼ y → (x ≼ x) × (y ≼ y)
  pub le_of_lt : (x y : D) → d.lt x y ≡ true → x ≼ y
  pub lt-eq-not-le : (x y : D) → x ≼ x → y ≼ y → d.lt x y ≡ not (d.le y x)
  pub sub-le :
      (x p : D) (m n : ℕ)
      → m ≤ 10 ^ 9
      → n ≤ 10 ^ 9
      → x ≼ d.lit m 0
      → nought ≼ p
      → p ≼ d.lit n 0
      → d.sub x p ≼ x
  pub sub_nonneg :
      (x y : D) (n : ℕ) → n ≤ 10 ^ 9 → nought ≼ y → y ≼ d.lit n 0 → y ≼ x → nought ≼ d.sub x y
  pub scale_nonneg :
      (n : ℕ) (x : D) → 0 < n → n ≤ 10 ^ 9 → nought ≼ x → nought ≼ d.mul (d.lit n 0) x
  pub mul_nonneg :
      (x y : D) (m n : ℕ)
      → m ≤ 10 ^ 9
      → n ≤ 10 ^ 9
      → nought ≼ x
      → x ≼ d.lit m 0
      → nought ≼ y
      → y ≼ d.lit n 0
      → nought ≼ d.mul x y
  pub div_nonneg :
      (x y : D) (n : ℕ)
      → n ≤ 10 ^ 9
      → nought ≼ x
      → d.lit 1 0 ≼ y
      → y ≼ d.lit n 0
      → nought ≼ d.div x y
  pub ratio_bounds :
      (m n : ℕ)
      → m ≤ n
      → 0 < n
      → (nought ≼ d.div (d.of_nat m) (d.of_nat n)) × (d.div (d.of_nat m) (d.of_nat n) ≼ d.lit 1 0)
