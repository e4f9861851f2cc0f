-- ===== src/State.antt =====
-- state.c: the files of the baseline and of the probe.
pub mod Baseline
pub mod Probe
pub mod Watch
use gpu_health_index.Prelude.{
  ℕ, zero, Bool, not, Option, none, some, List, [], ◌∷◌, ltb, leb, ◌==◌, if◌then◌else◌,
}
use gpu_health_index.Prelude.Int.{ℤ, pos, negsuc, to_u64}
use gpu_health_index.Util.{str_trim, is_empty}
use gpu_health_index.Config.Load.{c_string, is_comment, split_at_eq, fgets_lines}

-- A key and its value; `none` for a line that is skipped.
unfoldable pub split_kv : List ℕ → Option (List ℕ × List ℕ)
unfolding c_string is_comment split_at_eq
split_kv line =
    let p = str_trim (c_string line) in if is_comment p then none else trimmed (split_at_eq p)
  where
    trimmed : Option (List ℕ × List ℕ) → Option (List ℕ × List ℕ)
    trimmed none = none
    trimmed (some (key, val)) = some (str_trim key, str_trim val)

-- `clock` is strptime with the format of ISO 8601 in UTC and then timegm: the time with the text
-- behind it, or `none` where the text does not match.
unfoldable pub parse_iso8601 : (List ℕ → Option (ℤ × List ℕ)) → List ℕ → ℕ
parse_iso8601 clock s = checked (clock s)
  where
    checked : Option (ℤ × List ℕ) → ℕ
    checked none = 0
    checked (some (negsuc zero, rest)) = 0
    checked (some (t, rest)) = if not (is_empty rest) then 0 else to_u64 t

-- the lines of a file, in a buffer of 512 bytes
unfoldable pub file_lines : List ℕ → List (List ℕ)
unfolding fgets_lines
file_lines text = fgets_lines 511 511 text
