-- ===== src/Config/Load.antt =====
-- config.c: find_entry, apply_entry, key_to_envvar, config_load and config_validate. `getenv` and
-- the text of the file are arguments.
pub mod Checked
pub mod Override
use gpu_health_index.Prelude.{
  ℕ, ◌+◌, ◌-◌, ◌≡◌, Bool, true, false, not, ◌&&◌, ◌||◌, Option, none, some, List, [], ◌∷◌, ◌++◌,
  map, take, length, ltb, leb, ◌==◌, if◌then◌else◌,
}
use gpu_health_index.Double.{Double}
use gpu_health_index.Util.{str_trim, same_string, safe_strncpy, toupper, is_empty}
use gpu_health_index.Util.Numbers.{parse_int, parse_double}
use gpu_health_index.Config.{Config}
use gpu_health_index.Config.Fields.{
  IntField, DblField, StrField, IntField-discrete, DblField-discrete, StrField-discrete, Entry,
  cfg_int, cfg_dbl, cfg_str,
}
use gpu_health_index.Config.Table.{
  bytes, cfg_table, entry_key, int_min, int_max, dbl_min, dbl_max, str_maxlen, cfg_defaults,
}

-- the bytes up to the first NUL
unfoldable pub c_string : List ℕ → List ℕ
c_string [] = []
c_string (c ∷ cs) = if c == 0 then [] else c ∷ c_string cs

unfoldable pub cons_to_first : ℕ → List (List ℕ) → List (List ℕ)
cons_to_first c [] = (c ∷ []) ∷ []
cons_to_first c (l ∷ ls) = (c ∷ l) ∷ ls

-- What fgets returns one call after the other, with a buffer for `size` bytes and the NUL, and with
-- room for `room` more bytes in the first: it stops after a newline, or where its buffer is full.
unfoldable pub fgets_lines : ℕ → ℕ → List ℕ → List (List ℕ)
unfolding cons_to_first
fgets_lines size room [] = []
fgets_lines size room (c ∷ cs) =
    let last = c == 10 || leb room 1 in
    let rest = fgets_lines size (if last then size else room - 1) cs in
    if last then (c ∷ []) ∷ rest else cons_to_first c rest

-- strchr(p, '='): what stands before the first '=' and after it
unfoldable pub split_at_eq : List ℕ → Option (List ℕ × List ℕ)
split_at_eq [] = none
split_at_eq (c ∷ cs) =
    let rest = split_at_eq cs in if c == 61 then some ([], cs) else after_byte c rest
  where
    after_byte : ℕ → Option (List ℕ × List ℕ) → Option (List ℕ × List ℕ)
    after_byte c none = none
    after_byte c (some (key, val)) = some (c ∷ key, val)

unfoldable pub find_in : List Entry → List ℕ → Option Entry
unfolding same_string
find_in [] key = none
find_in (e ∷ es) key =
    let rest = find_in es key in if same_string (entry_key e) key then some e else rest

unfoldable pub find_entry : List ℕ → Option Entry
unfolding find_in
find_entry key = find_in cfg_table key

unfoldable pub is_comment : List ℕ → Bool
is_comment [] = true
is_comment (c ∷ cs) = c == 35

-- The entry that a line sets and the text of its value; `none` for a line that is skipped.
unfoldable pub read_line : List ℕ → Option (Entry × List ℕ)
unfolding c_string is_comment split_at_eq
read_line line =
    let p = str_trim (c_string line) in if is_comment p then none else read_pair (split_at_eq p)
  where
    with_value : List ℕ → Option Entry → Option (Entry × List ℕ)
    with_value val none = none
    with_value val (some e) = some (e, str_trim val)

    read_pair : Option (List ℕ × List ℕ) → Option (Entry × List ℕ)
    read_pair none = none
    read_pair (some (key, val)) = with_value val (find_entry (str_trim key))

-- "GPU_HEALTH_" and the key in upper case, cut to `size` bytes with the NUL
unfoldable pub key_to_envvar : List ℕ → ℕ → List ℕ
key_to_envvar key size =
    if leb size 11 then [] else bytes "GPU_HEALTH_" ++ take (size - 12) (map toupper key)

abbrev pub map_some {ℓ κ} : {A : Type ℓ} {B : Type κ} → (A → B) → Option A → Option B
map_some f none = none
map_some f (some a) = some (f a)

unfoldable pub from_env : (List ℕ → Option (List ℕ)) → Entry → Option (Entry × List ℕ)
unfolding key_to_envvar
from_env getenv e = map_some (λ val. (e, val)) (getenv (key_to_envvar (entry_key e) 128))

-- a function changed at one point: `v` where the points are the same, else the old value
abbrev pub chosen {ℓ κ} : {A : Type ℓ} {B : Type κ} → Dec B → A → A → A
chosen (yes _) v old = v
chosen (no _) v old = old

module _ {D : Type 0} ⦃d : Double D⦄ where
  unfoldable pub set_int : IntField → ℕ → Config D → Config D
  set_int f v cfg = record cfg { int = λ g. chosen (IntField-discrete f g) v (cfg.int g) }

  unfoldable pub set_dbl : DblField → D → Config D → Config D
  set_dbl f v cfg = record cfg { dbl = λ g. chosen (DblField-discrete f g) v (cfg.dbl g) }

  unfoldable pub set_str : StrField → List ℕ → Config D → Config D
  set_str f v cfg = record cfg { str = λ g. chosen (StrField-discrete f g) v (cfg.str g) }

  -- `none` where the value does not parse or is out of range
  unfoldable pub apply_entry : Config D → Entry → List ℕ → Option (Config D)
  unfolding set_str
  apply_entry cfg (cfg_int f) val =
      map_some (λ v. set_int f v cfg) (parse_int val (int_min f) (int_max f))
  apply_entry cfg (cfg_dbl f) val =
      map_some (λ v. set_dbl f v cfg) (parse_double val (dbl_min f) (dbl_max f))
  apply_entry cfg (cfg_str f) val = some (set_str f (safe_strncpy val (str_maxlen f)) cfg)

  unfoldable pub apply_read : Config D → Option (Entry × List ℕ) → Option (Config D)
  unfolding apply_entry
  apply_read cfg none = some cfg
  apply_read cfg (some (e, val)) = apply_entry cfg e val

  unfoldable pub and_then : Option (Config D) → (Config D → Option (Config D)) → Option (Config D)
  and_then none f = none
  and_then (some cfg) f = f cfg

  -- the settings in order; the first bad one ends it
  unfoldable pub apply_all : List (Option (Entry × List ℕ)) → Config D → Option (Config D)
  unfolding apply_read and_then
  apply_all [] cfg = some cfg
  apply_all (x ∷ xs) cfg = and_then (apply_read cfg x) (apply_all xs)

  -- what the file sets; `none` for a path that is NULL, `some none` where fopen fails
  unfoldable pub load_file : Option (Option (List ℕ)) → Config D → Option (Config D)
  unfolding fgets_lines read_line apply_all
  load_file none cfg = some cfg
  load_file (some none) cfg = none
  load_file (some (some text)) cfg = apply_all (map read_line (fgets_lines 1023 1023 text)) cfg

  unfoldable pub config_load :
      Option (Option (List ℕ)) → (List ℕ → Option (List ℕ)) → Option (Config D)
  unfolding load_file from_env
  config_load file getenv =
      and_then (load_file file cfg_defaults) (apply_all (map (from_env getenv) cfg_table))

  -- whether it returns 0
  unfoldable pub config_validate : Config D → Bool
  config_validate cfg =
      not (d.le (cfg.dbl DblField.temp_p95_bad_c) (cfg.dbl DblField.temp_p95_warn_c))
      && not (d.le (cfg.dbl DblField.hbm_temp_p95_bad_c) (cfg.dbl DblField.hbm_temp_p95_warn_c))
      && not (d.le (cfg.dbl DblField.perf_drop_bad) (cfg.dbl DblField.perf_drop_warn))
      && not (d.le (cfg.dbl DblField.perf_drop_severe) (cfg.dbl DblField.perf_drop_bad))
      && leb (cfg.int IntField.retired_pages_warn) (cfg.int IntField.retired_pages_bad)
      && leb (cfg.int IntField.probe_interval_s) (cfg.int IntField.probe_ttl_s)
