-- ===== src/Process/Startup/Choice.antt =====
-- Which way the start takes: what the options choose, and what must succeed before the monitor loop.
use gpu_health_index.Prelude.{
  ℕ, ◌≡◌, refl, ap, ◌∙◌, ◌⊎◌, inl, inr, Bool, true, false, ◌&&◌, Option, none, some, List, [], ◌∷◌,
  ◌++◌, map, if◌then◌else◌, arith,
}
use gpu_health_index.Process.DcgmSetup.{DcgmAnswers, dcgm_setup, add_devices, watch}
use gpu_health_index.Process.Startup.{
  Answers, Opt, Status, exited, monitoring, parse_args, start, connect_dcgm, enumerate, load_dcgm,
  load_nvml, main, with_config, gpu_ids,
}
use gpu_health_index.Process.Startup.Resources.{enumerates, found_gpus, count_of}

-- every device is added to the group
unfoldable pub adds_all : DcgmAnswers → List ℕ → Bool
adds_all a [] = true
adds_all a (id ∷ ids) = let rest = adds_all a ids in a.adds id && rest

-- every call that dcgm_setup makes returns DCGM_ST_OK
abbrev pub connects : DcgmAnswers → List ℕ → Bool
connects a ids =
    a.init_ok && a.connect_ok && a.group_ok && adds_all a ids && a.field_group_ok && a.watch_ok

add_devices-connects :
    (a : DcgmAnswers) (ids : List ℕ)
    → (add_devices a ids).1 ≡ (adds_all a ids && a.field_group_ok && a.watch_ok)
unfolding add_devices watch adds_all
add_devices-connects a [] = ground arith
add_devices-connects a (id ∷ ids) = ground (arith, add_devices-connects a ids)

dcgm_setup-connects : (a : DcgmAnswers) (ids : List ℕ) → (dcgm_setup a ids).1 ≡ connects a ids
unfolding dcgm_setup
dcgm_setup-connects a ids = ground (arith, add_devices-connects a ids)

-- the state after the start, from the path of the configuration
abbrev pub started : Answers → List ℕ → Status
started a path =
    if a.config_loads path
      && a.config_valid path
      && a.state_dir_writable
      && a.nvml_loads
      && a.nvml_inits
      && enumerates a
      && a.child_spawns
    then monitoring (count_of a.gpu_count) a.inotify_opens
        (a.dcgm_loads && a.dcgm_inits && connects a.dcgm (gpu_ids (count_of a.gpu_count) 0))
    else exited 1

-- Some -c options with their paths come first. Then the options end, and `r` is what `on_path` has
-- for the last path of them all, the default path before them; or -h or -v comes, and `r` is
-- `on_exit 0`; or an unknown option comes, and `r` is `on_exit 1`.
abbrev pub Chooses : {R : Type 0} → (List ℕ → R → Type 0) → (ℕ → R) → List Opt → List ℕ → R → Type 0
Chooses on_path on_exit options default_path r =
    (paths : List (List ℕ)) × (((earlier : List (List ℕ)) × (path : List ℕ) × (options
          ≡ map Opt.config_path paths)
        × (default_path ∷ paths ≡ earlier ++ path ∷ [])
        × on_path path r)
      ⊎ ((after : List Opt) × (((options ≡ map Opt.config_path paths ++ Opt.help ∷ after)
              × (r ≡ on_exit 0))
            ⊎ ((options ≡ map Opt.config_path paths ++ Opt.version ∷ after) × (r ≡ on_exit 0))
            ⊎ ((options ≡ map Opt.config_path paths ++ Opt.unknown ∷ after) × (r ≡ on_exit 1)))))

abbrev Parsed : List Opt → List ℕ → Option (List ℕ) × ℕ → Type 0
Parsed = Chooses (λ path r. r ≡ (some path, 0)) (λ code. (none, code))

-- one more -c before the options
another_path :
    {os : List Opt} {r : Option (List ℕ) × ℕ} (d p : List ℕ)
    → Parsed os p r
    → Parsed (Opt.config_path p ∷ os) d r
another_path d p (paths, inl (earlier, path, e, last, r)) = (
  p ∷ paths,
  inl (d ∷ earlier, path, ap (λ os. Opt.config_path p ∷ os) e, ap (λ l. d ∷ l) last, r),
)
another_path d p (paths, inr (rest, inl (e, r))) =
    (p ∷ paths, inr (rest, inl (ap (λ os. Opt.config_path p ∷ os) e, r)))
another_path d p (paths, inr (rest, inr (inl (e, r)))) =
    (p ∷ paths, inr (rest, inr (inl (ap (λ os. Opt.config_path p ∷ os) e, r))))
another_path d p (paths, inr (rest, inr (inr (e, r)))) =
    (p ∷ paths, inr (rest, inr (inr (ap (λ os. Opt.config_path p ∷ os) e, r))))

parse_args-Chooses :
    (options : List Opt) (default_path : List ℕ)
    → Parsed options default_path (parse_args options default_path)
unfolding parse_args
parse_args-Chooses [] d = ([], inl ([], d, refl, refl, refl))
parse_args-Chooses (Opt.config_path p ∷ os) d = another_path d p (parse_args-Chooses os p)
parse_args-Chooses (Opt.help ∷ os) d = ([], inr (os, inl (refl, refl)))
parse_args-Chooses (Opt.version ∷ os) d = ([], inr (os, inr (inl (refl, refl))))
parse_args-Chooses (Opt.unknown ∷ os) d = ([], inr (os, inr (inr (refl, refl))))

enumerate-status :
    (a : Answers) (count : Option ℕ) (loaded : Bool)
    → (enumerate a count loaded).1 ≡ (
        if found_gpus count && a.gpus_allocated && a.ids_allocated && a.child_spawns
        then monitoring
            (count_of count)
            a.inotify_opens
            (loaded && connects a.dcgm (gpu_ids (count_of count) 0))
        else exited 1)
unfolding enumerate connect_dcgm start
enumerate-status a none loaded = ground arith
enumerate-status a (some n) loaded = ground (arith, dcgm_setup-connects a.dcgm (gpu_ids n 0))

with_config-status :
    (a : Answers) (path : List ℕ) → (with_config a (some path, 0)).1 ≡ started a path
unfolding load_nvml load_dcgm
with_config-status a path =
    ground (arith, enumerate-status a a.gpu_count true, enumerate-status a a.gpu_count false)

Parsed-status :
    (a : Answers) {os : List Opt} {d : List ℕ} {r : Option (List ℕ) × ℕ}
    → Parsed os d r
    → Chooses (λ path r. r.1 ≡ started a path) (λ code. ([], exited code)) os d (with_config a r)
Parsed-status a (paths, inl (earlier, path, e, last, r)) = (
  paths,
  inl (earlier, path, e, last, ap (λ r. (with_config a r).1) r ∙ with_config-status a path),
)
Parsed-status a (paths, inr (rest, inl (e, r))) = (paths, inr (rest, inl (e, ap (with_config a) r)))
Parsed-status a (paths, inr (rest, inr (inl (e, r)))) =
    (paths, inr (rest, inr (inl (e, ap (with_config a) r))))
Parsed-status a (paths, inr (rest, inr (inr (e, r)))) =
    (paths, inr (rest, inr (inr (e, ap (with_config a) r))))

-- What main comes to depends on its options in turn. If they are all -c, then on the path of the last
-- of them, or the default path without one: it reaches the monitor loop exactly if the configuration
-- at that path is accepted, the state directory is writable, NVML loads and initialises, it reports a
-- GPU, the memory is there and the HTTP child is spawned; then with all the GPUs, and with DCGM
-- exactly if it loads and initialises and each call of dcgm_setup succeeds; else it exits with 1. If
-- -h or -v is the first other option, it exits with 0 and calls nothing, and with 1 if it is an
-- unknown one.
pub main-status :
    (a : Answers) (default_path : List ℕ)
    → Chooses
        (λ path r. r.1 ≡ started a path)
        (λ code. ([], exited code))
        a.options
        default_path
        (main a default_path)
unfolding main
main-status a default_path = Parsed-status a (parse_args-Chooses a.options default_path)
