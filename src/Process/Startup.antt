-- ===== src/Process/Startup.antt =====
-- main.c: main up to the monitor loop, and shutdown_all, as the calls that they make on the NVML and
-- DCGM libraries, the poll threads, the watch of the baselines and the HTTP child. What the system
-- answers is an argument.
pub mod Permit
pub mod Shutdown
pub mod Resources
pub mod Choice
use gpu_health_index.Prelude.{
  ℕ, ◌≤◌, Bool, true, false, not, ◌&&◌, ◌||◌, Option, none, some, List, [], ◌∷◌, ◌++◌, ◌==◌,
  if◌then◌else◌, zero, suc, ◌+◌,
}
use gpu_health_index.Process.DcgmSetup.{DcgmCall, DcgmAnswers, dcgm_setup, dcgm_teardown}

-- what getopt returns in turn: -c, -h, -v, or an option that it does not know
pub data Opt : Type 0 where
  config_path : List ℕ → Opt
  help : Opt
  version : Opt
  unknown : Opt

pub record Answers : Type 0 where
  pub options : List Opt
  -- by the path: whether config_load and config_validate accept
  pub config_loads : List ℕ → Bool
  pub config_valid : List ℕ → Bool
  pub state_dir_writable : Bool
  pub nvml_loads : Bool
  pub nvml_inits : Bool
  pub dcgm_loads : Bool
  pub dcgm_inits : Bool
  -- nvmlDeviceGetCount
  pub gpu_count : Option ℕ
  pub gpus_allocated : Bool
  pub ids_allocated : Bool
  pub inotify_opens : Bool
  -- the calls of dcgm_setup
  pub dcgm : DcgmAnswers
  -- by the GPU: whether collector_start returns 0
  pub collector_starts : ℕ → Bool
  pub child_spawns : Bool
  -- The monitor loop ends since the child has ended and cannot be spawned again.
  pub child_lost : Bool
  -- the waitpid calls of shutdown_all in turn: whether the child has ended by then
  pub child_exited : ℕ → Bool

pub data Effect : Type 0 where
  nvml_open : Effect
  nvml_init : Effect
  nvml_shutdown : Effect
  nvml_close : Effect
  dcgm_open : Effect
  dcgm_init : Effect
  -- the calls of dcgm_setup, and of dcgm_teardown
  dcgm_calls : List DcgmCall → Effect
  dcgm_close : Effect
  -- collector_start, where the thread is created or not; `ready` set instead; pthread_join
  start_collector : ℕ → Bool → Effect
  set_ready : ℕ → Effect
  join_collector : ℕ → Effect
  -- baseline_inotify_init, and the close of its descriptor
  watch_baselines : Bool → Effect
  end_watch : Effect
  -- spawn_http_child; the monitor loop finds the child ended; SIGTERM to child_pid; a waitpid with
  -- WNOHANG, which reaps the child or not; the close of the socket
  spawn_child : Bool → Effect
  lose_child : Effect
  term_child : Effect
  wait_child : Bool → Effect
  close_socket : Effect
  -- procpriv_parent_setup
  drop_privileges : Effect
  -- filesd_write and filesd_remove
  write_target : Effect
  remove_target : Effect

-- the exit code, or what the monitor loop starts with: the GPUs, and whether the baselines are watched
-- and DCGM is connected
pub data Status : Type 0 where
  exited : ℕ → Status
  monitoring : ℕ → Bool → Bool → Status

abbrev pub Run : Type 0
Run = List Effect × Status

abbrev pub after : List Effect → Run → Run
after before (effects, status) = (before ++ effects, status)

-- The loop over the options: an exit code, or the path of the configuration.
unfoldable pub parse_args : List Opt → List ℕ → Option (List ℕ) × ℕ
parse_args [] path = (some path, 0)
parse_args (config_path p ∷ os) path = parse_args os p
parse_args (help ∷ os) path = (none, 0)
parse_args (version ∷ os) path = (none, 0)
parse_args (unknown ∷ os) path = (none, 1)

-- the loop that starts the poll threads, from GPU `i` on
unfoldable pub start_collectors : (ℕ → Bool) → ℕ → ℕ → List Effect
start_collectors starts zero i = []
start_collectors starts (suc k) i =
    let rest = start_collectors starts k (i + 1) in
    if starts i then start_collector i true ∷ rest else start_collector i false ∷ set_ready i ∷ rest

-- collector_stop for every GPU, whether its thread was created or not
unfoldable pub join_collectors : ℕ → ℕ → List Effect
join_collectors zero i = []
join_collectors (suc k) i = join_collector i ∷ join_collectors k (i + 1)

-- The wait for the child, with `k` looks left, and the last waitpid, which finds no child where the
-- loop has reaped it. There is no SIGKILL.
unfoldable pub wait_exit : (ℕ → Bool) → ℕ → ℕ → List Effect
wait_exit ends zero t = wait_child (ends t) ∷ []
wait_exit ends (suc k) t =
    let rest = wait_exit ends k (t + 1) in
    if ends t then wait_child true ∷ wait_child false ∷ [] else wait_child false ∷ rest

-- shutdown_all, with child_pid > 0 (and then parent_fd >= 0), baseline_inotify_fd >= 0 and
-- dcgm_available as tests; the wait makes 30 looks, 100 ms apart.
unfoldable pub shutdown_all : ℕ → Bool → (ℕ → Bool) → Bool → Bool → List Effect
unfolding join_collectors wait_exit dcgm_teardown
shutdown_all num_gpus has_child child_exited watching dcgm_available =
    join_collectors num_gpus 0
    ++ ((if has_child then term_child ∷ (wait_exit child_exited 30 0 ++ close_socket ∷ []) else [])
        ++ ((if watching then end_watch ∷ [] else [])
            ++ (nvml_shutdown
                ∷ nvml_close
                ∷ (if dcgm_available then dcgm_calls dcgm_teardown ∷ dcgm_close ∷ [] else []))))

-- The threads, the HTTP child, and what follows up to the monitor loop; the wait for the first poll
-- only delays it.
unfoldable pub start : Answers → ℕ → Bool → Run
unfolding shutdown_all start_collectors
start a n dcgm_available = after (start_collectors a.collector_starts n 0) (
    if not a.child_spawns
    then (
      spawn_child false ∷ shutdown_all n false a.child_exited a.inotify_opens dcgm_available,
      exited 1,
    )
    else (
      spawn_child true ∷ drop_privileges ∷ write_target ∷ [],
      monitoring n a.inotify_opens dcgm_available,
    ))

-- gpu_ids
unfoldable pub gpu_ids : ℕ → ℕ → List ℕ
gpu_ids zero i = []
gpu_ids (suc k) i = i ∷ gpu_ids k (i + 1)

-- The watch, and the connection to DCGM, in which dcgm_setup calls dcgmInit once more; `loaded` is
-- dcgm_available == -1.
unfoldable pub connect_dcgm : Answers → ℕ → Bool → Run
unfolding start dcgm_setup gpu_ids
connect_dcgm a n loaded =
    let (calls, connected) = dcgm_setup a.dcgm (gpu_ids n 0) in
    after (watch_baselines a.inotify_opens ∷ []) (
      if loaded
      then (if connected
          then after (dcgm_calls calls ∷ []) (start a n true)
          else after (dcgm_calls calls ∷ dcgm_close ∷ []) (start a n false))
      else start a n false)

-- the devices
unfoldable pub enumerate : Answers → Option ℕ → Bool → Run
unfolding connect_dcgm
enumerate a none loaded = (nvml_shutdown ∷ nvml_close ∷ [], exited 1)
enumerate a (some n) loaded =
    if n == 0
    then (nvml_shutdown ∷ nvml_close ∷ [], exited 1)
    else if not a.gpus_allocated
    then (nvml_shutdown ∷ nvml_close ∷ [], exited 1)
    else if not a.ids_allocated
    then (nvml_shutdown ∷ nvml_close ∷ [], exited 1)
    else connect_dcgm a n loaded

unfoldable pub load_dcgm : Answers → Run
unfolding enumerate
load_dcgm a =
    if a.dcgm_loads
    then (if a.dcgm_inits
        then after (dcgm_open ∷ dcgm_init ∷ []) (enumerate a a.gpu_count true)
        else after (dcgm_open ∷ dcgm_close ∷ []) (enumerate a a.gpu_count false))
    else enumerate a a.gpu_count false

unfoldable pub load_nvml : Answers → Run
unfolding load_dcgm
load_nvml a =
    if not a.nvml_loads
    then ([], exited 1)
    else if not a.nvml_inits
    then (nvml_open ∷ nvml_close ∷ [], exited 1)
    else after (nvml_open ∷ nvml_init ∷ []) (load_dcgm a)

abbrev with_config : Answers → Option (List ℕ) × ℕ → Run
with_config a (none, code) = ([], exited code)
with_config a (some path, code) =
    if not (a.config_loads path)
    then ([], exited 1)
    else if not (a.config_valid path)
    then ([], exited 1)
    else if not a.state_dir_writable
    then ([], exited 1)
    else load_nvml a

-- What follows the monitor loop, which ends at a signal, or where the child cannot be spawned again;
-- then child_pid is still that of the child that has ended, which waitpid does not find any more.
unfoldable pub ending : Answers → Status → List Effect
unfolding shutdown_all
ending a (exited code) = []
ending a (monitoring n watching dcgm_available) =
    if a.child_lost
    then lose_child ∷ remove_target ∷ shutdown_all n true (λ t. false) watching dcgm_available
    else remove_target ∷ shutdown_all n true a.child_exited watching dcgm_available

unfoldable pub main : Answers → List ℕ → Run
unfolding parse_args load_nvml
main a default_path = with_config a (parse_args a.options default_path)
