-- ===== src/Util/Numbers.antt =====
-- util.c: parse_int and parse_double, and the strtol that they call.
use gpu_health_index.Prelude.{
  ℕ, ◌+◌, ◌-◌, ◌*◌, ◌^◌, ◌≤◌, ◌≡◌, Bool, false, not, ◌||◌, Option, none, some, List, [], ◌∷◌, arith,
  ltb, ◌==◌, if◌then◌else◌,
}
use gpu_health_index.Prelude.Int.{ℤ, pos, negsuc, negate, ltb_ℤ}
use gpu_health_index.Double.{Double}
use gpu_health_index.Util.{isdigit, is_empty, trim_start}

-- the value of the digits at the start, after `n`, and what stands behind them
unfoldable pub digits : ℕ → List ℕ → ℕ × List ℕ
digits n [] = (n, [])
digits n (c ∷ cs) = if isdigit c then digits (n * 10 + (c - 48)) cs else (n, c ∷ cs)

unfoldable pub starts_with_digit : List ℕ → Bool
starts_with_digit [] = false
starts_with_digit (c ∷ cs) = isdigit c

unfoldable pub unsigned_part : (ℕ → ℤ) → List ℕ → Option (ℤ × List ℕ)
unfolding starts_with_digit digits
unsigned_part sign s =
    if starts_with_digit s then some (sign (digits 0 s).0, (digits 0 s).1) else none

unfoldable pub signed_part : List ℕ → Option (ℤ × List ℕ)
unfolding unsigned_part
signed_part [] = none
signed_part (c ∷ cs) =
    if c == 45
    then unsigned_part negate cs
    else if c == 43
    then unsigned_part pos cs
    else unsigned_part pos (c ∷ cs)

unfoldable pub in_long : Option (ℤ × List ℕ) → Option (ℤ × List ℕ)
in_long none = none
in_long (some (v, rest)) =
    if ltb_ℤ v (negsuc (2 ^ 63 - 1)) || ltb_ℤ (pos (2 ^ 63 - 1)) v then none else some (v, rest)

-- strtol in base 10 with a 64-bit `long`: the value and the rest; `none` where there are no digits
-- or errno is ERANGE.
unfoldable pub strtol : List ℕ → Option (ℤ × List ℕ)
unfolding signed_part in_long
strtol s = in_long (signed_part (trim_start s))

-- a value in the range, where nothing stands behind it
unfoldable pub checked_int : ℕ → ℕ → Option (ℤ × List ℕ) → Option ℕ
checked_int min max none = none
checked_int min max (some (negsuc n, rest)) = none
checked_int min max (some (pos n, rest)) =
    if not (is_empty rest) then none else if ltb n min || ltb max n then none else some n

-- The bounds that the program passes are not negative.
unfoldable pub parse_int : List ℕ → ℕ → ℕ → Option ℕ
unfolding checked_int strtol
parse_int s min max = if is_empty s then none else checked_int min max (strtol s)

unfoldable pub checked_signed : ℤ → ℤ → Option (ℤ × List ℕ) → Option ℤ
checked_signed min max none = none
checked_signed min max (some (v, rest)) =
    if not (is_empty rest) then none else if ltb_ℤ v min || ltb_ℤ max v then none else some v

-- parse_int with bounds that may be negative
unfoldable pub parse_signed : List ℕ → ℤ → ℤ → Option ℤ
unfolding checked_signed strtol
parse_signed s min max = if is_empty s then none else checked_signed min max (strtol s)

module _ {D : Type 0} ⦃d : Double D⦄ where
  checked_double : D → D → Option (D × List ℕ) → Option D
  checked_double min max none = none
  checked_double min max (some (v, rest)) =
      if not (is_empty rest) then none else if d.lt v min || d.lt max v then none else some v

  unfoldable pub parse_double : List ℕ → D → D → Option D
  unfolding checked_double
  parse_double s min max = if is_empty s then none else checked_double min max (d.strtod s)

checked_int-bounds :
    (o : Option (ℤ × List ℕ)) (min max n : ℕ)
    → checked_int min max o ≡ some n
    → (min ≤ n) × (n ≤ max)
unfolding checked_int
checked_int-bounds none min max n h = ground arith
checked_int-bounds (some (negsuc m, rest)) min max n h = ground arith
checked_int-bounds (some (pos m, rest)) min max n h = ground arith

pub parse_int-bounds :
    (s : List ℕ) (min max n : ℕ) → parse_int s min max ≡ some n → (min ≤ n) × (n ≤ max)
unfolding parse_int
parse_int-bounds s min max n h = ground (arith, checked_int-bounds (strtol s) min max n)

module _ {D : Type 0} ⦃d : Double D⦄ where
  checked_double-bounds :
      (o : Option (D × List ℕ)) (min max v : D)
      → checked_double min max o ≡ some v
      → (d.lt v min ≡ false) × (d.lt max v ≡ false)
  unfolding checked_double
  checked_double-bounds none min max v h = ground arith
  checked_double-bounds (some (w, rest)) min max v h = ground arith

  pub parse_double-bounds :
      (s : List ℕ) (min max v : D)
      → parse_double s min max ≡ some v
      → (d.lt v min ≡ false) × (d.lt max v ≡ false)
  unfolding parse_double
  parse_double-bounds s min max v h = ground (arith, checked_double-bounds (d.strtod s) min max v)
