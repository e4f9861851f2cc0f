-- ===== src/Config/Load/Override.antt =====
-- config.c: the environment has the last word.
use gpu_health_index.Prelude.{
  ℕ, ◌≡◌, refl, ap, sym, ◌∙◌, subst, ◌⊎◌, inl, inr, Option, none, some, List, [], ◌∷◌, map, arith,
}
use gpu_health_index.Double.{Double}
use gpu_health_index.Util.{safe_strncpy}
use gpu_health_index.Util.Numbers.{parse_int}
use gpu_health_index.Config.{Config}
use gpu_health_index.Config.Fields.{
  IntField, DblField, StrField, IntField-discrete, Entry, cfg_int, cfg_dbl, cfg_str,
}
use gpu_health_index.Config.Table.{cfg_table, entry_key, int_min, int_max, str_maxlen, cfg_defaults}
use gpu_health_index.Config.Load.{
  set_int, set_dbl, set_str, apply_entry, apply_read, apply_all, and_then, load_file, from_env,
  key_to_envvar, config_load, map_some, chosen,
}
use gpu_health_index.Config.Load.Checked.{OnSome}

abbrev pub InTable : Entry → List Entry → Type 0
InTable e [] = ⊥
InTable e (x ∷ xs) = (x ≡ e) ⊎ InTable e xs

-- what a text says of the value of an int field
abbrev pub Says : IntField → List ℕ → ℕ → Type 0
Says f val n = parse_int val (int_min f) (int_max f) ≡ some n

decided :
    (f g : IntField) (val text : List ℕ) (v old : ℕ) (x : Dec (g ≡ f))
    → (g ≡ f → text ≡ val)
    → Says g text v
    → (Says f val old → Says f val (chosen x v old))
      × (cfg_int g ≡ cfg_int f → Says f val (chosen x v old))
decided f g val text v old (yes p) same e = (λ _. said, λ _. said)
  where
    said : Says f val v
    said = subst (λ g. Says g val v) p (subst (λ text. Says g text v) (same p) e)
decided f g val text v old (no p) same e = (λ h. h, λ q. ground arith)

in_table : (f : IntField) → InTable (cfg_int f) cfg_table
in_table f = ground arith

module _ {D : Type 0} ⦃d : Double D⦄ (getenv : List ℕ → Option (List ℕ)) (f : IntField)
    (val : List ℕ) (given : getenv (key_to_envvar (entry_key (cfg_int f)) 128) ≡ some val) where
  -- The outcome of one entry, seen at the field: it keeps what the text says, and its own field then
  -- holds it.
  abbrev AfterEntry : Entry → ℕ → Option (Config D) → Type 0
  AfterEntry e old none = Unit
  AfterEntry e old (some cfg) =
      (Says f val old → Says f val (cfg.int f)) × (e ≡ cfg_int f → Says f val (cfg.int f))

  int_after :
      (g : IntField) (text : List ℕ) (cfg : Config D) (o : Option ℕ)
      → (g ≡ f → text ≡ val)
      → parse_int text (int_min g) (int_max g) ≡ o
      → AfterEntry (cfg_int g) (cfg.int f) (map_some (λ v. set_int g v cfg) o)
  unfolding set_int
  int_after g text cfg none same e = tt
  int_after g text cfg (some v) same e =
      decided f g val text v (cfg.int f) (IntField-discrete g f) same e

  dbl_after :
      (g : DblField) (cfg : Config D) (o : Option D)
      → AfterEntry (cfg_dbl g) (cfg.int f) (map_some (λ v. set_dbl g v cfg) o)
  unfolding set_dbl
  dbl_after g cfg none = tt
  dbl_after g cfg (some v) = (λ h. h, λ q. ground arith)

  str_after :
      (g : StrField) (text : List ℕ) (cfg : Config D)
      → AfterEntry (cfg_str g) (cfg.int f) (some (set_str g text cfg))
  unfolding set_str
  str_after g text cfg = (λ h. h, λ q. ground arith)

  entry_after :
      (e : Entry) (cfg : Config D) (o : Option (List ℕ))
      → getenv (key_to_envvar (entry_key e) 128) ≡ o
      → AfterEntry e (cfg.int f) (apply_read cfg (map_some (λ text. (e, text)) o))
  unfolding apply_read apply_entry
  entry_after e cfg none none_there = (λ h. h, λ q. clash q)
    where
      clash : e ≡ cfg_int f → Says f val (cfg.int f)
      clash q =
          let h : none ≡ some val =
            sym none_there ∙ ap (λ e. getenv (key_to_envvar (entry_key e) 128)) q ∙ given in
          ground arith
  entry_after (cfg_int g) cfg (some text) there = int_after g text cfg _ same refl
    where
      same : g ≡ f → text ≡ val
      same p =
          let h : some text ≡ some val =
            sym there ∙ ap (λ g. getenv (key_to_envvar (entry_key (cfg_int g)) 128)) p ∙ given in
          cc
  entry_after (cfg_dbl g) cfg (some text) there = dbl_after g cfg _
  entry_after (cfg_str g) cfg (some text) there = str_after g (safe_strncpy text (str_maxlen g)) cfg

  and_then-some :
      (o : Option (Config D)) (g : Config D → Option (Config D)) (cfg : Config D)
      → and_then o g ≡ some cfg
      → (base : Config D) × (o ≡ some base) × (g base ≡ some cfg)
  unfolding and_then
  and_then-some none g cfg h = ground arith
  and_then-some (some base) g cfg h = (base, refl, h)

  all_after :
      (es : List Entry) (cfg cfg' : Config D)
      → apply_all (map (from_env getenv) es) cfg ≡ some cfg'
      → (Says f val (cfg.int f) → Says f val (cfg'.int f))
        × (InTable (cfg_int f) es → Says f val (cfg'.int f))
  unfolding apply_all from_env
  all_after [] cfg cfg' h =
      (λ s. subst (OnSome (λ (c : Config D). Says f val (c.int f))) h s, λ m. elim m [ ])
  all_after (e ∷ es) cfg cfg' h =
      let (next, q, rest) = and_then-some (apply_read cfg (from_env getenv e)) _ cfg' h in
      let a =
        subst (AfterEntry e (cfg.int f)) q
          (entry_after e cfg (getenv (key_to_envvar (entry_key e) 128)) refl) in
      let (keeps, sets) = all_after es next cfg' rest in
      (λ s. keeps (a.0 s), elim [ inl p ↦ keeps (a.1 p) | inr p ↦ sets p ])

  -- Where the environment sets the variable of an int key, and the configuration is accepted, the
  -- field holds the number that its text parses to, in the bounds of its row, whatever the file says.
  pub config_load-override :
      (file : Option (Option (List ℕ))) {cfg : Config D}
      → config_load file getenv ≡ some cfg
      → parse_int val (int_min f) (int_max f) ≡ some (cfg.int f)
  unfolding config_load and_then
  config_load-override file {cfg} h =
      let (base, q, rest) = and_then-some (load_file file cfg_defaults) _ cfg h in
      (all_after cfg_table base cfg rest).1 (in_table f)
