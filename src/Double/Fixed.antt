-- ===== src/Double/Fixed.antt =====
-- A concrete `double` for the tests: decimals with six digits after the point, `none` for NaN.
use gpu_health_index.Prelude.{
  ℕ, zero, suc, ◌+◌, ◌-◌, ◌*◌, ◌/◌, ◌^◌, Bool, true, false, not, ◌&&◌, Option, none, some, List, [],
  ◌∷◌, ltb, leb, ◌==◌, if◌then◌else◌,
}
use gpu_health_index.Prelude.Int.{ℤ, pos, negsuc, negate, sub_ℕ, ltb_ℤ, leb_ℤ, pos_part, neg_part}
use gpu_health_index.Double.{Double}

abbrev pub Fixed : Type 0
Fixed = Option ℤ

abbrev unit : ℕ
unit = 1_000_000

abbrev mul_ℤ : ℤ → ℤ → ℤ
mul_ℤ (pos a) (pos b) = pos (a * b / unit)
mul_ℤ (pos a) (negsuc b) = negate (a * suc b / unit)
mul_ℤ (negsuc a) (pos b) = negate (suc a * b / unit)
mul_ℤ (negsuc a) (negsuc b) = pos (suc a * suc b / unit)

-- a / b; the numerator stands in units already. Division by zero is NaN.
abbrev div_ℤ : ℤ → ℤ → Fixed
div_ℤ (pos a) (pos b) = if ltb 0 b then some (pos (a * unit / b)) else none
div_ℤ (negsuc a) (pos b) = if ltb 0 b then some (negate (suc a * unit / b)) else none
div_ℤ (pos a) (negsuc b) = some (negate (a * unit / suc b))
div_ℤ (negsuc a) (negsuc b) = some (pos (suc a * unit / suc b))

-- the square root of n between lo and hi, by bisection
root : ℕ → ℕ → ℕ → ℕ → ℕ
root zero n lo hi = lo
root (suc fuel) n lo hi =
    let mid = (lo + hi) / 2 in
    let above = ltb n (mid * mid) in
    root fuel n (if above then lo else mid) (if above then mid else hi)

pub root_fixed : ℤ → Fixed
unfolding root
root_fixed (pos a) = some (pos (root 64 (a * unit) 0 (a + unit)))
root_fixed (negsuc a) = none

abbrev ceil_ℤ : Fixed → ℤ
ceil_ℤ none = pos 0
ceil_ℤ (some (pos a)) = pos ((a + unit - 1) / unit)
ceil_ℤ (some (negsuc a)) = negate (suc a / unit)

abbrev lift₁ : (ℤ → Fixed) → Fixed → Fixed
lift₁ f (some a) = f a
lift₁ f none = none

abbrev lift₂ : (ℤ → ℤ → Fixed) → Fixed → Fixed → Fixed
lift₂ f (some a) (some b) = f a b
lift₂ f _ _ = none

abbrev test₂ : (ℤ → ℤ → Bool) → Fixed → Fixed → Bool
test₂ f (some a) (some b) = f a b
test₂ f _ _ = false

-- A decimal, `digits[.digits]`: the value of the digits, how many stand after the point, the rest.
scan_digits : List ℕ → ℕ → ℕ → Bool → ℕ × ℕ × List ℕ
scan_digits [] n k point = (n, k, [])
scan_digits (c ∷ cs) n k point =
    let digit = scan_digits cs (n * 10 + (c - 48)) (if point then k + 1 else k) point in
    let dot = scan_digits cs n k true in
    if leb 48 c && leb c 57 then digit else if c == 46 && not point then dot else (n, k, c ∷ cs)

unfoldable pub strtod_fixed : List ℕ → Option (Fixed × List ℕ)
unfolding scan_digits
strtod_fixed [] = none
strtod_fixed (c ∷ cs) =
    let (n, k, rest) = scan_digits (c ∷ cs) 0 0 false in
    if leb 48 c && leb c 57 then some (some (pos (n * unit / 10 ^ k)), rest) else none

instance abbrev pub fixed_double : Double Fixed
fixed_double = record {
  lit = λ n k. some (pos (n * unit / 10 ^ k));
  nan = none;
  of_nat = λ n. some (pos (n * unit));
  of_int = elim [ pos n ↦ some (pos (n * unit)) | negsuc n ↦ some (negate (suc n * unit)) ];
  add = lift₂ λ a b. some (sub_ℕ (pos_part a + pos_part b) (neg_part a + neg_part b));
  sub = lift₂ λ a b. some (sub_ℕ (pos_part a + neg_part b) (neg_part a + pos_part b));
  mul = lift₂ λ a b. some (mul_ℤ a b);
  div = lift₂ div_ℤ;
  neg = lift₁ λ a. some (sub_ℕ (neg_part a) (pos_part a));
  sqrt = lift₁ root_fixed;
  ceil_int = ceil_ℤ;
  lt = test₂ ltb_ℤ;
  le = test₂ leb_ℤ;
  strtod = strtod_fixed;
}
