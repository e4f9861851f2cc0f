-- ===== src/HealthProbe/Lines.antt =====
-- The lines that the probe writes, as the loaders of the exporter read them.
use gpu_health_index.Prelude.{
  ℕ, zero, suc, ◌+◌, ◌-◌, ◌/◌, ◌%◌, ◌^◌, ◌≤◌, ◌<◌, ◌≡◌, refl, ap, ◌∙◌, Bool, true, false, not, ◌&&◌,
  some, List, [], ◌∷◌, ◌++◌, append_assoc, length, ◌==◌, arith, length-append,
}
use gpu_health_index.Util.{isspace, isdigit, is_empty, trim_start, trim_end, str_trim}
use gpu_health_index.Config.Load.{c_string, fgets_lines, cons_to_first, split_at_eq, is_comment}
use gpu_health_index.Http.Request.{has_byte}
use gpu_health_index.Util.Numbers.{
  digits, starts_with_digit, unsigned_part, signed_part, in_long, strtol, checked_int, parse_int,
}
use gpu_health_index.Http.Reply.{decimal, decimal_from, digits-decimal_from}
use gpu_health_index.Prelude.Int.{pos}
use gpu_health_index.State.{split_kv, file_lines}

-- no space and no NUL
unfoldable pub is_visible : List ℕ → Bool
is_visible [] = true
is_visible (c ∷ cs) = not (isspace c) && not (c == 0) && is_visible cs

fgets_lines-line :
    (size room : ℕ) (line rest : List ℕ)
    → has_byte 10 line ≡ false
    → suc (length line) ≤ room
    → fgets_lines size room (line ++ 10 ∷ rest) ≡ (line ++ 10 ∷ []) ∷ fgets_lines size size rest
unfolding fgets_lines has_byte cons_to_first
fgets_lines-line size room [] rest h k = refl
fgets_lines-line size room (c ∷ cs) rest h k =
    ground (arith, fgets_lines-line size (room - 1) cs rest)

visible_line : (l : List ℕ) → is_visible l ≡ true → has_byte 10 l ≡ false
unfolding is_visible has_byte
visible_line [] h = refl
visible_line (c ∷ cs) h = ground (arith, visible_line cs)

visible-append :
    (l r : List ℕ) → is_visible l ≡ true → is_visible r ≡ true → is_visible (l ++ r) ≡ true
unfolding is_visible
visible-append [] r h k = k
visible-append (c ∷ cs) r h k = ground (arith, visible-append cs r)

c_string-visible : (l : List ℕ) → is_visible l ≡ true → c_string (l ++ 10 ∷ []) ≡ l ++ 10 ∷ []
unfolding is_visible c_string
c_string-visible [] h = refl
c_string-visible (c ∷ cs) h = ground (arith, c_string-visible cs)

trim_end-newline : (l : List ℕ) → is_visible l ≡ true → trim_end (l ++ 10 ∷ []) ≡ l
unfolding is_visible trim_end
trim_end-newline [] h = refl
trim_end-newline (c ∷ cs) h = ground (arith, trim_end-newline cs)

trim_end-visible : (l : List ℕ) → is_visible l ≡ true → trim_end l ≡ l
unfolding is_visible trim_end
trim_end-visible [] h = refl
trim_end-visible (c ∷ cs) h = ground (arith, trim_end-visible cs)

pub trim_start-visible : (c : ℕ) (cs : List ℕ) → isspace c ≡ false → trim_start (c ∷ cs) ≡ c ∷ cs
unfolding trim_start
trim_start-visible c cs h = rw h refl

str_trim-visible : (l : List ℕ) → is_visible l ≡ true → str_trim l ≡ l
unfolding str_trim is_visible trim_start
str_trim-visible [] h = refl
str_trim-visible (c ∷ cs) h =
    ap trim_end (trim_start-visible c cs (ground arith)) ∙ trim_end-visible (c ∷ cs) h

str_trim-newline :
    (c : ℕ) (cs : List ℕ) → is_visible (c ∷ cs) ≡ true → str_trim (c ∷ cs ++ 10 ∷ []) ≡ c ∷ cs
unfolding str_trim is_visible
str_trim-newline c cs h =
    ap trim_end (trim_start-visible c (cs ++ 10 ∷ []) (ground arith)) ∙ trim_end-newline (c ∷ cs) h

split_at_eq-key :
    (key val : List ℕ) → has_byte 61 key ≡ false → split_at_eq (key ++ 61 ∷ val) ≡ some (key, val)
unfolding split_at_eq has_byte
split_at_eq-key [] val h = refl
split_at_eq-key (c ∷ cs) val h = ground (arith, split_at_eq-key cs val)

-- a line of a key and a value, as split_kv reads it
pub split_kv-line :
    (c : ℕ) (key val : List ℕ)
    → (c == 35) ≡ false
    → has_byte 61 (c ∷ key) ≡ false
    → is_visible (c ∷ key) ≡ true
    → is_visible val ≡ true
    → split_kv ((c ∷ key ++ 61 ∷ val) ++ 10 ∷ []) ≡ some (c ∷ key, val)
unfolding split_kv is_comment
split_kv-line c key val q e k v = rw (c_string-visible (c ∷ key ++ 61 ∷ val) seen) (
    rw (str_trim-newline c (key ++ 61 ∷ val) seen) (
      rw q (
        rw (split_at_eq-key (c ∷ key) val e)
          (rw (str_trim-visible (c ∷ key) k) (rw (str_trim-visible val v) refl)))))
  where
    seen : is_visible (c ∷ key ++ 61 ∷ val) ≡ true
    seen = visible-append (c ∷ key) (61 ∷ val) k (unfold is_visible in v)

-- the digits of a number
decimal_from-visible :
    (fuel n : ℕ) (tail : List ℕ)
    → is_visible tail ≡ true
    → is_visible (decimal_from fuel n tail) ≡ true
unfolding decimal_from is_visible
decimal_from-visible zero n tail h = h
decimal_from-visible (suc fuel) n tail h =
    ground (arith, decimal_from-visible fuel (n / 10) ((48 + n % 10) ∷ tail))

pub decimal-visible : (n : ℕ) → is_visible (decimal n) ≡ true
unfolding decimal is_visible
decimal-visible n = decimal_from-visible (suc n) n [] refl

-- the first byte of a text is a digit
unfoldable digit_first : List ℕ → Bool
digit_first [] = false
digit_first (c ∷ cs) = isdigit c

decimal_from-digit_first :
    (fuel n : ℕ) (tail : List ℕ) → n < fuel → digit_first (decimal_from fuel n tail) ≡ true
unfolding decimal_from digit_first
decimal_from-digit_first zero n tail h = absurd (omega arith)
decimal_from-digit_first (suc fuel) n tail h =
    ground (arith, decimal_from-digit_first fuel (n / 10) ((48 + n % 10) ∷ tail))

strtol-digits :
    (s : List ℕ)
    → digit_first s ≡ true
    → (digits 0 s).0 ≤ 2 ^ 31
    → strtol s ≡ some (pos (digits 0 s).0, (digits 0 s).1)
unfolding strtol digit_first trim_start signed_part unsigned_part starts_with_digit in_long
strtol-digits [] h k = absurd (cc)
strtol-digits (c ∷ cs) h k = ground arith

digits-all : (n : ℕ) → digits 0 (decimal n) ≡ (n, [])
unfolding decimal digits
digits-all n = digits-decimal_from (suc n) n [] (omega arith)

digits_nonempty : (s : List ℕ) → digit_first s ≡ true → is_empty s ≡ false
unfolding digit_first
digits_nonempty [] h = absurd (cc)
digits_nonempty (c ∷ cs) h = refl

-- A number in the range is read back.
pub parse_int-decimal :
    (n min max : ℕ) → min ≤ n → n ≤ max → max ≤ 2 ^ 31 → parse_int (decimal n) min max ≡ some n
unfolding parse_int checked_int
parse_int-decimal n min max h k m = rw (digits_nonempty (decimal n) first) (
    rw (strtol-digits (decimal n) first (rw (digits-all n) (omega arith)))
      (rw (digits-all n) (ground arith)))
  where
    first : digit_first (decimal n) ≡ true
    first = unfold decimal in decimal_from-digit_first (suc n) n [] (omega arith)

-- the lines of a file
pub file_lines-line :
    (line rest : List ℕ)
    → has_byte 10 line ≡ false
    → length line ≤ 510
    → file_lines ((line ++ 10 ∷ []) ++ rest) ≡ (line ++ 10 ∷ []) ∷ file_lines rest
unfolding file_lines
file_lines-line line rest h k =
    ap (fgets_lines 511 511) (append_assoc line (10 ∷ []) rest)
    ∙ fgets_lines-line 511 511 line rest h (omega arith)

pub pair_line :
    (key val : List ℕ)
    → is_visible key ≡ true
    → is_visible val ≡ true
    → length key + length val ≤ 500
    → (has_byte 10 (key ++ 61 ∷ val) ≡ false) × (length (key ++ 61 ∷ val) ≤ 510)
pair_line key val k v h = (
  visible_line (key ++ 61 ∷ val) (visible-append key (61 ∷ val) k (unfold is_visible in v)),
  omega (arith, length-append key (61 ∷ val)),
)
