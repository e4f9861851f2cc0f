-- ===== src/Process/Startup/Resources.antt =====
-- The order of the calls on the libraries over the whole life of the process, and what they leave.
use gpu_health_index.Prelude.{
  ℕ, ◌+◌, ◌≡◌, refl, ap, ◌∙◌, ◌⊎◌, Bool, true, false, not, ◌&&◌, Option, none, some, List, [], ◌∷◌,
  ◌++◌, append-nil, append_assoc, ◌==◌, if◌then◌else◌, arith, Bool-cases, inl, inr,
}
use gpu_health_index.Process.DcgmSetup.{
  DcgmCall, dcgm_setup, connections, sessions, one_if, dcgm_setup-Balanced, dcgm_setup-sessions,
}
use gpu_health_index.Process.Startup.{
  Answers, Effect, nvml_open, nvml_close, dcgm_calls, dcgm_close, exited, monitoring, parse_args,
  shutdown_all, start, after, spawn_child, drop_privileges, write_target, connect_dcgm, enumerate,
  load_dcgm, load_nvml, main, Run, ending, with_config, start_collectors, gpu_ids,
}
use gpu_health_index.Process.Startup.Permit.{
  Libraries, permit_all, permit_all-append, created, not_created, start_collectors-created, ends_by,
}
use gpu_health_index.Process.Startup.Shutdown.{
  nothing_up, running, leftover, shutdown_all-ends, shutdown_all-lost, shutdown_all-unspawned,
}

abbrev pub found_gpus : Option ℕ → Bool
found_gpus none = false
found_gpus (some n) = not (n == 0)

-- the GPUs are found and their memory is there
abbrev pub enumerates : Answers → Bool
enumerates a = found_gpus a.gpu_count && a.gpus_allocated && a.ids_allocated

abbrev pub whole : Answers → Run → List Effect
whole a r = r.0 ++ ending a r.1

-- the child runs after the end: it was spawned, has not ended before, and none of the 31 looks of
-- shutdown_all finds it ended
abbrev pub outlives : Answers → Bool
outlives a = a.child_spawns && not a.child_lost && not (ends_by a.child_exited 30 0)

after_starts :
    (a : Answers) (n s : ℕ) (available : Bool) (r : Run)
    → permit_all a
        (whole a (after (start_collectors a.collector_starts n 0) r))
        (running s a.inotify_opens available)
      ≡ permit_all a (whole a r) (record (running s a.inotify_opens available) {
        threads = created a.collector_starts n 0;
      })
after_starts a n s available (es, status) =
    ap (λ es. permit_all a es (running s a.inotify_opens available))
      (append_assoc (start_collectors a.collector_starts n 0) es (ending a status))
    ∙ permit_all-append a (start_collectors a.collector_starts n 0) (es ++ ending a status) _ _
        (start_collectors-created a a.collector_starts n 0 [] (running s a.inotify_opens available))

unspawned :
    (a : Answers) (n s : ℕ) (available : Bool)
    → permit_all a
        (whole a (
          spawn_child false ∷ shutdown_all n false a.child_exited a.inotify_opens available,
          exited 1,
        ))
        (record (running s a.inotify_opens available) { threads = created a.collector_starts n 0 })
      ≡ some (leftover false s (not_created a.collector_starts n 0) false)
unfolding permit_all ending
unspawned a n s available =
    rw (append-nil (shutdown_all n false a.child_exited a.inotify_opens available))
      (shutdown_all-unspawned a a.child_exited n s a.inotify_opens available)

spawned :
    (a : Answers) (n s : ℕ) (available : Bool)
    → permit_all a
        (whole a (
          spawn_child true ∷ drop_privileges ∷ write_target ∷ [],
          monitoring n a.inotify_opens available,
        ))
        (record (running s a.inotify_opens available) { threads = created a.collector_starts n 0 })
      ≡ some (
          leftover false s
            (not_created a.collector_starts n 0)
            (not a.child_lost && not (ends_by a.child_exited 30 0)))
unfolding permit_all ending
spawned a n s available = elim (Bool-cases a.child_lost) [
  | inl q ↦ rw q (shutdown_all-lost a n s a.inotify_opens available)
  | inr q ↦ rw q (shutdown_all-ends a a.child_exited n s a.inotify_opens available)
]

start-ends :
    (a : Answers) (n s : ℕ) (available : Bool)
    → permit_all a (whole a (start a n available)) (running s a.inotify_opens available)
      ≡ some (leftover false s (not_created a.collector_starts n 0) (outlives a))
unfolding start
start-ends a n s available = after_starts a n s available _ ∙ elim (Bool-cases a.child_spawns) [
  | inr q ↦ simp q (unspawned a n s available)
  | inl q ↦ simp q (spawned a n s available)
]

-- NVML is up, and DCGM is loaded and initialised or not.
abbrev before : Bool → Libraries
before loaded = record nothing_up {
  nvml_loaded = true;
  nvml_up = true;
  dcgm_loaded = loaded;
  dcgm_sessions = one_if loaded;
}

-- the branch that dcgm_setup takes
connected :
    (a : Answers) (n : ℕ) (cs : List DcgmCall) (connects : Bool)
    → sessions a.dcgm cs 1 ≡ 1 + one_if connects
    → connections a.dcgm cs 0 ≡ one_if connects
    → permit_all a
        (whole a (
          if connects
          then after (dcgm_calls cs ∷ []) (start a n true)
          else after (dcgm_calls cs ∷ dcgm_close ∷ []) (start a n false)))
        (record (before true) { watching = a.inotify_opens })
      ≡ some (leftover false 1 (not_created a.collector_starts n 0) (outlives a))
unfolding permit_all
connected a n cs true es ec =
    ap
      (λ (left : ℕ × ℕ). permit_all a (whole a (start a n true)) (record (before true) {
        watching = a.inotify_opens;
        dcgm_sessions = left.0;
        dcgm_connections = left.1;
      }))
      (λ i. (es i, ec i))
    ∙ start-ends a n 1 true
connected a n cs false es ec =
    ap
      (λ (left : ℕ × ℕ).
        permit_all a (dcgm_close ∷ whole a (start a n false)) (record (before true) {
          watching = a.inotify_opens;
          dcgm_sessions = left.0;
          dcgm_connections = left.1;
        }))
      (λ i. (es i, ec i))
    ∙ start-ends a n 1 false

connect-ends :
    (a : Answers) (n : ℕ) (loaded : Bool)
    → permit_all a (whole a (connect_dcgm a n loaded)) (before loaded)
      ≡ some (leftover false (one_if loaded) (not_created a.collector_starts n 0) (outlives a))
unfolding connect_dcgm permit_all
connect-ends a n true =
    connected a n (dcgm_setup a.dcgm (gpu_ids n 0)).0 (dcgm_setup a.dcgm (gpu_ids n 0)).1
      (dcgm_setup-sessions a.dcgm (gpu_ids n 0) 1) (dcgm_setup-Balanced a.dcgm (gpu_ids n 0)).0
connect-ends a n false = start-ends a n 0 false

-- the number of the devices
abbrev pub count_of : Option ℕ → ℕ
count_of none = 0
count_of (some n) = n

enumerate-ends :
    (a : Answers) (count : Option ℕ) (loaded : Bool)
    → let found = found_gpus count && a.gpus_allocated && a.ids_allocated in
      permit_all a (whole a (enumerate a count loaded)) (before loaded)
      ≡ some (
          leftover
            (loaded && not found)
            (one_if loaded)
            (if found then not_created a.collector_starts (count_of count) 0 else 0)
            (found && outlives a))
unfolding enumerate permit_all ending
enumerate-ends a none loaded = ground arith
enumerate-ends a (some n) loaded = ground (arith, connect-ends a n loaded)

-- what is left where NVML is initialised
abbrev pub end_state : Answers → Libraries
end_state a =
    let loaded = a.dcgm_loads && a.dcgm_inits in
    leftover (loaded && not (enumerates a)) (one_if loaded)
      (if enumerates a then not_created a.collector_starts (count_of a.gpu_count) 0 else 0)
      (enumerates a && outlives a)

load_dcgm-ends :
    (a : Answers) → permit_all a (whole a (load_dcgm a)) (before false) ≡ some (end_state a)
unfolding load_dcgm permit_all
load_dcgm-ends a =
    ground (arith, enumerate-ends a a.gpu_count true, enumerate-ends a a.gpu_count false)

-- The process exits before NVML is initialised, and has made no call, or has loaded and closed the
-- library; or NVML is initialised, and all the calls, to the end, are in order and leave what
-- `end_state` tells.
abbrev pub IsOrderly : Answers → Run → Type 0
IsOrderly a r =
    (((code : ℕ) × (r ≡ ([], exited code)))
      ⊎ ((r ≡ (nvml_open ∷ nvml_close ∷ [], exited 1))
          × (a.nvml_inits ≡ false)
          × (permit_all a (whole a r) nothing_up ≡ some nothing_up)))
    ⊎ ((a.nvml_loads ≡ true)
        × (a.nvml_inits ≡ true)
        × (permit_all a (whole a r) nothing_up ≡ some (end_state a)))

load_nvml-IsOrderly : (a : Answers) → IsOrderly a (load_nvml a)
unfolding load_nvml permit_all ending
load_nvml-IsOrderly a = elim (Bool-cases a.nvml_loads) [
  | inr q ↦ inl (inl (1, ground arith))
  | inl q ↦ elim (Bool-cases a.nvml_inits) [
    | inr r ↦ inl (inr (ground arith, r, ground arith))
    | inl r ↦ inr (q, r, ground (arith, load_dcgm-ends a))
  ]
]

with_config-IsOrderly :
    (a : Answers) (path : Option (List ℕ)) (code : ℕ) → IsOrderly a (with_config a (path, code))
unfolding ending
with_config-IsOrderly a none code = inl (inl (code, refl))
with_config-IsOrderly a (some path) code = elim (Bool-cases (a.config_loads path)) [
  | inr p ↦ simp p (inl (inl (1, refl)))
  | inl p ↦ elim (Bool-cases (a.config_valid path)) [
    | inr q ↦ simp (p, q) (inl (inl (1, refl)))
    | inl q ↦ elim (Bool-cases a.state_dir_writable) [
      | inr r ↦ simp (p, q, r) (inl (inl (1, refl)))
      | inl r ↦ simp (p, q, r) (load_nvml-IsOrderly a)
    ]
  ]
]

-- Whatever the system answers, and on each way in which main returns, the process exits with no call
-- made before NVML is loaded, or with the library loaded and closed where NVML does not initialise, or
-- the calls are in order: NVML is initialised while it is loaded, and shut down and closed where it was initialised
-- and loaded, after every poll thread that was created is joined, and after the HTTP child, if it
-- runs, was sent SIGTERM; the socket of the child and the watch of the baselines are closed; the
-- target file is written after the child is spawned, and removed before it is sent SIGTERM; the
-- connection to DCGM is closed, and its library as well, unless the start fails on the devices. Three
-- things are left where NVML is initialised: one session of DCGM where its library is initialised,
-- since main and dcgm_setup both call dcgmInit and at most one dcgmShutdown follows; a join of a
-- thread that was never created for each GPU whose collector_start failed, which has no defined
-- behaviour, so that what follows it holds if that join returns; and a running child, where none of
-- the 31 looks of shutdown_all finds it ended.
pub main-Orderly : (a : Answers) (default_path : List ℕ) → IsOrderly a (main a default_path)
unfolding main
main-Orderly a default_path =
    with_config-IsOrderly a (parse_args a.options default_path).0
      (parse_args a.options default_path).1
