-- ===== src/Tests/Process.antt =====
-- Runs of the start of the process, of its children and of its files.
use gpu_health_index.Prelude.{
  ℕ, ◌≤◌, ◌≡◌, ◌↔◌, refl, true, false, not, ◌&&◌, none, some, List, [], ◌∷◌, ◌++◌, All, length,
  replicate, ltb, ◌==◌, if◌then◌else◌, arith,
}
use gpu_health_index.Double.Fixed.{Fixed, fixed_double}
use gpu_health_index.Types.{serial_number, uuid_fallback}
use gpu_health_index.Config.Table.{bytes}
use gpu_health_index.Util.{same_string}
use gpu_health_index.Snapshot.Transfer.{moved, ok}
use gpu_health_index.Snapshot.Update.{blank_snapshot}
use gpu_health_index.Privileges.{
  SeccompData, execute, child_filter, audit_arch_x86_64, seccomp_ret_allow,
  seccomp_ret_kill_process, allowlist,
}
use gpu_health_index.Privileges.Filter.{member, excluded, child_filter_decides}
use gpu_health_index.Library.{Linker, load, nvml_required, nvml_optional, load_optional, unload}
use gpu_health_index.Library.Complete.{has_all, open_handles, load-Complete}
use gpu_health_index.Process.DcgmSetup.{
  DcgmAnswers, dcgm_setup, dcgm_teardown, connections, sessions, devices, dcgm_setup-Balanced,
}
use gpu_health_index.Process.Identity.{Board, Files, setup_gpu, or_else}
use gpu_health_index.Process.Identity.Loaded.{setup_gpu-identity}
use gpu_health_index.Process.Startup.{Opt, Answers, main, exited, ending}
use gpu_health_index.Process.Startup.Permit.{permit_all}
use gpu_health_index.Process.Startup.Shutdown.{nothing_up, leftover}
use gpu_health_index.Process.Startup.Resources.{IsOrderly, whole, main-Orderly}
use gpu_health_index.Process.Startup.Choice.{Chooses, started, main-status}
use gpu_health_index.Http.Listen.{bind_listen, http_child_tls_init}
use gpu_health_index.Process.Spawn.{
  ChildSetup, run_child, Exporter, child_sockets, SpawnAnswers, spawn_http_child, quiet,
  child_ended, monitor_step, monitor,
}
use gpu_health_index.Process.Spawn.Monitor.{
  with_ends, IsTidy, AreFresh, monitor-IsTidy, spawn-serves,
}
use gpu_health_index.Process.FileSd.{
  Disk, FileAnswers, filesd_write, filesd_write-atomic, result, tmp_path,
}
use gpu_health_index.Http.Child.{read_init, ChildAnswers, serves}
use gpu_health_index.Http.Slots.{fresh_receiver, stale_threshold}

-- shutdown(2), which is not on the list
abbrev shutdown_call : SeccompData
shutdown_call = record { nr = 48; arch = audit_arch_x86_64 }

shutdown_killed : execute shutdown_call 0 child_filter 0 ≡ some seccomp_ret_kill_process
unfolding execute child_filter
shutdown_killed = refl

child_filter_decides_example :
    (execute shutdown_call 0 child_filter 0
      ≡ some (
          if shutdown_call.arch == audit_arch_x86_64 && member 48 allowlist
          then seccomp_ret_allow
          else seccomp_ret_kill_process))
    × (length child_filter ≤ 4096)
    × All (λ nr. member nr allowlist ≡ false) excluded
child_filter_decides_example = child_filter_decides shutdown_call

-- a driver without the newer names
abbrev old_driver : Linker
old_driver = record {
  opens_versioned = false;
  opens_plain = true;
  defines = λ name. not (same_string name (bytes "nvmlInit_v2"));
}

load-Complete_example :
    ((load nvml_required nvml_optional old_driver).members ≡ (
      if has_all old_driver.defines nvml_required
      then some
          (replicate (length nvml_required) true ++ load_optional old_driver.defines nvml_optional)
      else none))
    × (open_handles (load nvml_required nvml_optional old_driver).actions 0
        ≡ (if has_all old_driver.defines nvml_required then 1 else 0))
    × (open_handles
          ((load nvml_required nvml_optional old_driver).actions
            ++ unload (has_all old_driver.defines nvml_required))
          0
        ≡ 0)
load-Complete_example = load-Complete nvml_required nvml_optional old_driver

-- the second device cannot be added
abbrev bad_device : DcgmAnswers
bad_device = record {
  init_ok = true;
  connect_ok = true;
  group_ok = true;
  adds = λ id. ltb id 1;
  field_group_ok = true;
  watch_ok = true;
}

dcgm_setup-Balanced_example :
    let r = dcgm_setup bad_device (0 ∷ 1 ∷ []) in
    (connections bad_device r.0 0 ≡ (if r.1 then 1 else 0))
    × (sessions bad_device r.0 0 ≡ (if r.1 then 1 else 0))
    × (r.1 ≡ true → devices r.0 ≡ 0 ∷ 1 ∷ [])
    × (connections bad_device dcgm_teardown (connections bad_device r.0 0) ≡ 0)
    × (sessions bad_device dcgm_teardown (sessions bad_device r.0 0) ≡ 0)
dcgm_setup-Balanced_example = dcgm_setup-Balanced bad_device (0 ∷ 1 ∷ [])

abbrev uuid_text : List ℕ
uuid_text = bytes "GPU-5c8d1f0e-3b7a-4f7e-9c55-0a1b2c3d4e5f"

-- a board without a serial
abbrev board : Board
board = record {
  get_serial = λ n. none;
  get_uuid = λ n. if ltb (length uuid_text) n then some uuid_text else none;
  get_name = λ n. some (bytes "L4");
  max_pcie_link_gen = some 4;
  max_pcie_link_width = some 16;
}

abbrev no_files : Files
no_files = record {
  baseline_file = λ serial. none;
  probe_file = λ serial. none;
  clock = λ text. none;
  now_s = 0;
  probe_ttl_s = 0;
}

setup_gpu-identity_example :
    let c = setup_gpu {D = Fixed} no_files (bytes "550") 0 board in
    ((s : List ℕ)
      → board.get_serial 32 ≡ some s
      → (c.serial ≡ s) × (c.identity_source ≡ serial_number))
    × (board.get_serial 32 ≡ none
        → (c.serial ≡ or_else (board.get_uuid 32) []) × (c.identity_source ≡ uuid_fallback))
    × (c.baseline.valid ≡ true → c.baseline.serial ≡ c.serial)
    × ((c.baseline.driver_mismatch ≡ true) ↔ (
        (c.baseline.valid ≡ true)
        × (same_string c.baseline.driver_version c.driver_version ≡ false)))
setup_gpu-identity_example = setup_gpu-identity Fixed no_files (bytes "550") 0 board

abbrev all_devices : DcgmAnswers
all_devices = record bad_device { adds = λ id. true }

-- DCGM loads, and NVML reports no device
abbrev no_gpu : Answers
no_gpu = record {
  options = Opt.config_path (bytes "x.conf") ∷ [];
  config_loads = λ path. true;
  config_valid = λ path. true;
  state_dir_writable = true;
  nvml_loads = true;
  nvml_inits = true;
  dcgm_loads = true;
  dcgm_inits = true;
  gpu_count = some 0;
  gpus_allocated = true;
  ids_allocated = true;
  inotify_opens = true;
  dcgm = all_devices;
  collector_starts = λ i. i == 0;
  child_spawns = true;
  child_lost = false;
  child_exited = λ t. t == 30;
}

-- the thread of the second GPU is not created
abbrev two_gpus : Answers
two_gpus = record no_gpu { gpu_count = some 2 }

main-Orderly_example : IsOrderly two_gpus (main two_gpus (bytes "default.conf"))
main-Orderly_example = main-Orderly two_gpus (bytes "default.conf")

two_gpus_end :
    permit_all two_gpus (whole two_gpus (main two_gpus (bytes "default.conf"))) nothing_up
    ≡ some (leftover false 1 1 false)
unfolding permit_all main ending dcgm_setup dcgm_teardown connections sessions
two_gpus_end = refl

main-status_example :
    Chooses
      (λ path r. r.1 ≡ started two_gpus path)
      (λ code. ([], exited code))
      two_gpus.options
      (bytes "default.conf")
      (main two_gpus (bytes "default.conf"))
main-status_example = main-status two_gpus (bytes "default.conf")

abbrev exporter : Exporter
exporter = record {
  num_gpus = 2;
  parent_fd = some 7;
  child_pid = some 100;
  sockets = 7 ∷ [];
  running = true;
}

-- the parent gets 9 and the child 8, and the message goes in two writes
abbrev next_child : SpawnAnswers
next_child = record { pair = some (9, 8); writes = moved 1 ∷ moved 9 ∷ []; fork = some 101 }

fresh_pair : AreFresh (monitor_step quiet exporter) (some (9, 8))
unfolding monitor_step
fresh_pair = ground arith

abbrev after_one : Exporter
after_one = monitor (quiet ∷ child_ended false next_child ∷ []) exporter

monitor-IsTidy_example :
    IsTidy after_one
    × ((parent child : ℕ)
        → AreFresh after_one (some (parent, child))
        → child_sockets (with_ends after_one parent child) parent ≡ child ∷ [])
monitor-IsTidy_example =
    monitor-IsTidy (quiet ∷ child_ended false next_child ∷ []) exporter refl (tt, (fresh_pair, tt))

abbrev child : ChildAnswers
child = record {
  reads = moved 3 ∷ moved 3 ∷ [];
  slots_allocated = true;
  thread_starts = true;
  listen = record { socket = some 5; address_ok = true; bind_ok = true; listen_ok = true };
}

abbrev init_wire : List ℕ
init_wire = 2 ∷ 0 ∷ 0 ∷ 0 ∷ []

spawned : (spawn_http_child exporter next_child).1 ≡ some init_wire
unfolding spawn_http_child
spawned = refl

init_read : (read_init 4 (init_wire ++ 5 ∷ []) [] child.reads).2 ≡ ok
unfolding read_init
init_read = refl

-- without TLS, and with every call of the setup but capset
abbrev setup : ChildSetup
setup = record {
  cert_path = [];
  key_path = [];
  tls = record {
    seed_ok = true;
    cert_ok = true;
    key_ok = true;
    defaults_ok = true;
    own_cert_ok = true;
  };
  prctl_ok = true;
  capset_ok = false;
  seccomp_ok = true;
}

spawn-serves_example :
    run_child {D = Fixed} blank_snapshot setup child 1 (init_wire ++ 5 ∷ [])
    ≡ serves
        (record { receiver = fresh_receiver 2 blank_snapshot; serving = true })
        (stale_threshold 1)
        (5 ∷ [])
unfolding bind_listen http_child_tls_init
spawn-serves_example =
    spawn-serves blank_snapshot exporter next_child setup child 1 init_wire (5 ∷ []) (omega arith)
      spawned init_read

abbrev empty_disk : Disk
empty_disk path = none

-- the disk is full after ten bytes
abbrev full_disk : FileAnswers
full_disk = record {
  hostname = some (bytes "node1");
  opens = true;
  reach = 10;
  renames = true;
  unlinks = true;
}

filesd_write-atomic_example :
    let after = filesd_write full_disk (bytes "sd.json") 9108 empty_disk in
    (after (bytes "sd.json")
      ≡ result full_disk 9108 full_disk.hostname (empty_disk (bytes "sd.json")))
    × ((p : List ℕ)
        → same_string p (bytes "sd.json") ≡ false
        → same_string p (tmp_path (bytes "sd.json")) ≡ false
        → after p ≡ none)
    × (true ≡ true
        → empty_disk (tmp_path (bytes "sd.json")) ≡ none
        → after (tmp_path (bytes "sd.json")) ≡ none)
filesd_write-atomic_example =
    filesd_write-atomic full_disk (bytes "sd.json") 9108 empty_disk (λ h. ground arith)
