-- ===== src/Config/Load/Checked.antt =====
-- config.c: what a configuration that config_load accepts is known to satisfy.
use gpu_health_index.Prelude.{
  ℕ, ◌-◌, ◌≤◌, ◌<◌, ◌≡◌, refl, sym, subst, ◌⊎◌, inl, inr, false, Option, none, some, List, [], ◌∷◌,
  map, length, length-take, arith,
}
use gpu_health_index.Double.{Double}
use gpu_health_index.Util.{safe_strncpy}
use gpu_health_index.Util.Numbers.{parse_int, parse_double, parse_int-bounds, parse_double-bounds}
use gpu_health_index.Config.{Config}
use gpu_health_index.Config.Fields.{
  IntField, DblField, StrField, IntField-discrete, DblField-discrete, StrField-discrete, Entry,
  cfg_int, cfg_dbl, cfg_str,
}
use gpu_health_index.Config.Table.{
  cfg_table, int_min, int_max, dbl_min, dbl_max, str_maxlen, dbl_default, cfg_defaults,
}
use gpu_health_index.Config.Bounds.{IntsInRange, StringsFit}
use gpu_health_index.Config.Load.{
  read_line, fgets_lines, set_int, set_dbl, set_str, apply_entry, apply_read, apply_all, and_then,
  load_file, from_env, config_load, map_some, chosen,
}

pub chosen-lem {ℓ κ μ} :
    {F : Type ℓ} {A : Type κ} (Q : F → A → Type μ) {f g : F} (x : Dec (f ≡ g)) (v old : A)
    → Q f v
    → Q g old
    → Q g (chosen x v old)
chosen-lem Q (yes p) v old new kept = rw (sym p) new
chosen-lem Q (no p) v old new kept = kept

length-take-lt : (n : ℕ) (s : List ℕ) → 0 < n → length (safe_strncpy s n) < n
unfolding safe_strncpy
length-take-lt n s h = omega (arith, length-take (n - 1) s)

-- what a result that may be missing satisfies, where it is there
abbrev pub OnSome {ℓ κ} : {A : Type ℓ} → (A → Type κ) → Option A → Type κ
OnSome P none = Unit
OnSome P (some a) = P a

on_some {ℓ κ} : {A : Type ℓ} (P : A → Type κ) (o : Option A) (a : A) → OnSome P o → o ≡ some a → P a
on_some P o a p h = subst (OnSome P) h p

module _ {D : Type 0} ⦃d : Double D⦄ where
  -- a default, or a value for which neither test of parse_double against a bound holds
  abbrev pub DoublesChecked : Config D → Type 0
  DoublesChecked cfg =
      (f : DblField)
      → (cfg.dbl f ≡ dbl_default f)
        ⊎ ((d.lt (cfg.dbl f) (dbl_min f) ≡ false) × (d.lt (dbl_max f) (cfg.dbl f) ≡ false))

  pub record IsChecked (cfg : Config D) : Type 0 where
    pub ints : IntsInRange cfg
    pub strings : StringsFit cfg
    pub doubles : DoublesChecked cfg

  cfg_defaults-IsChecked : IsChecked cfg_defaults
  cfg_defaults-IsChecked = record { ints = ints; strings = strings; doubles = λ f. inl refl }
    where
      ints : IntsInRange {D = D} cfg_defaults
      ints f = grind arith

      strings : StringsFit {D = D} cfg_defaults
      strings f = grind arith

  set_int-IsChecked :
      (f : IntField) (v : ℕ) {cfg : Config D}
      → (int_min f ≤ v) × (v ≤ int_max f)
      → IsChecked cfg
      → IsChecked (set_int f v cfg)
  unfolding set_int
  set_int-IsChecked f v {cfg} h ok = record {
    ints = λ g.
        chosen-lem (λ f v. (int_min f ≤ v) × (v ≤ int_max f)) (IntField-discrete f g) v (cfg.int g)
          h (ok.ints g);
    strings = ok.strings;
    doubles = ok.doubles;
  }

  set_dbl-IsChecked :
      (f : DblField) (v : D) {cfg : Config D}
      → (d.lt v (dbl_min f) ≡ false) × (d.lt (dbl_max f) v ≡ false)
      → IsChecked cfg
      → IsChecked (set_dbl f v cfg)
  unfolding set_dbl
  set_dbl-IsChecked f v {cfg} h ok = record {
    ints = ok.ints;
    strings = ok.strings;
    doubles = λ g.
        chosen-lem
          (λ f v.
            (v ≡ dbl_default f) ⊎ ((d.lt v (dbl_min f) ≡ false) × (d.lt (dbl_max f) v ≡ false)))
          (DblField-discrete f g) v (cfg.dbl g) (inr h) (ok.doubles g);
  }

  set_str-IsChecked :
      (f : StrField) (v : List ℕ) {cfg : Config D}
      → length v < str_maxlen f
      → IsChecked cfg
      → IsChecked (set_str f v cfg)
  unfolding set_str
  set_str-IsChecked f v {cfg} h ok = record {
    ints = ok.ints;
    strings = λ g.
        chosen-lem (λ f v. length v < str_maxlen f) (StrField-discrete f g) v (cfg.str g) h
          (ok.strings g);
    doubles = ok.doubles;
  }

  int_entry :
      (f : IntField) (val : List ℕ) (cfg : Config D) (o : Option ℕ)
      → parse_int val (int_min f) (int_max f) ≡ o
      → IsChecked cfg
      → OnSome IsChecked (map_some (λ v. set_int f v cfg) o)
  int_entry f val cfg none e ok = tt
  int_entry f val cfg (some v) e ok =
      set_int-IsChecked f v (parse_int-bounds val (int_min f) (int_max f) v e) ok

  dbl_entry :
      (f : DblField) (val : List ℕ) (cfg : Config D) (o : Option D)
      → parse_double val (dbl_min f) (dbl_max f) ≡ o
      → IsChecked cfg
      → OnSome IsChecked (map_some (λ v. set_dbl f v cfg) o)
  dbl_entry f val cfg none e ok = tt
  dbl_entry f val cfg (some v) e ok =
      set_dbl-IsChecked f v (parse_double-bounds val (dbl_min f) (dbl_max f) v e) ok

  apply_read-IsChecked :
      (x : Option (Entry × List ℕ)) (cfg : Config D)
      → IsChecked cfg
      → OnSome IsChecked (apply_read cfg x)
  unfolding apply_read apply_entry
  apply_read-IsChecked none cfg ok = ok
  apply_read-IsChecked (some (cfg_int f, val)) cfg ok = int_entry f val cfg _ refl ok
  apply_read-IsChecked (some (cfg_dbl f, val)) cfg ok = dbl_entry f val cfg _ refl ok
  apply_read-IsChecked (some (cfg_str f, val)) cfg ok =
      set_str-IsChecked f (safe_strncpy val (str_maxlen f))
        (length-take-lt (str_maxlen f) val (grind arith)) ok

  and_then-IsChecked :
      (o : Option (Config D)) (f : Config D → Option (Config D))
      → OnSome IsChecked o
      → ((cfg : Config D) → IsChecked cfg → OnSome IsChecked (f cfg))
      → OnSome IsChecked (and_then o f)
  unfolding and_then
  and_then-IsChecked none f ok h = tt
  and_then-IsChecked (some cfg) f ok h = h cfg ok

  apply_all-IsChecked :
      (xs : List (Option (Entry × List ℕ))) (cfg : Config D)
      → IsChecked cfg
      → OnSome IsChecked (apply_all xs cfg)
  unfolding apply_all
  apply_all-IsChecked [] cfg ok = ok
  apply_all-IsChecked (x ∷ xs) cfg ok =
      and_then-IsChecked (apply_read cfg x) (apply_all xs) (apply_read-IsChecked x cfg ok)
        (apply_all-IsChecked xs)

  load_file-IsChecked :
      (file : Option (Option (List ℕ))) (cfg : Config D)
      → IsChecked cfg
      → OnSome IsChecked (load_file file cfg)
  unfolding load_file
  load_file-IsChecked none cfg ok = ok
  load_file-IsChecked (some none) cfg ok = tt
  load_file-IsChecked (some (some text)) cfg ok =
      apply_all-IsChecked (map read_line (fgets_lines 1023 1023 text)) cfg ok

  -- Whatever the file and the environment hold, a configuration that config_load accepts has every
  -- int between the bounds of its row of the table, every string short enough for its field with
  -- the NUL, and every double either the default or a value that is neither below the lower bound
  -- nor above the upper one (as NaN is, too).
  pub config_load-IsChecked :
      (file : Option (Option (List ℕ))) (getenv : List ℕ → Option (List ℕ)) {cfg : Config D}
      → config_load file getenv ≡ some cfg
      → IsChecked cfg
  unfolding config_load
  config_load-IsChecked file getenv {cfg} h =
      on_some IsChecked (config_load file getenv) cfg loaded h
    where
      loaded : OnSome IsChecked (config_load {D = D} file getenv)
      loaded =
          and_then-IsChecked (load_file file cfg_defaults) _
            (load_file-IsChecked file cfg_defaults cfg_defaults-IsChecked)
            (apply_all-IsChecked (map (from_env getenv) cfg_table))
