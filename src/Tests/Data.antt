-- ===== src/Tests/Data.antt =====
-- The inputs that the tests share.
use gpu_health_index.Prelude.{ℕ, ◌*◌, true, false, none, List, [], ◌∷◌}
use gpu_health_index.Prelude.Int.{pos}
use gpu_health_index.Double.{nought}
use gpu_health_index.Double.Fixed.{Fixed, fixed_double}
use gpu_health_index.Types.{Sample, State, Baseline, ProbeResult, IpcMsg, serial_number}
use gpu_health_index.Config.{Config}
use gpu_health_index.Config.Fields.{IntField}
use gpu_health_index.Config.Table.{bytes, cfg_defaults, int_default}
use gpu_health_index.Ring.{fresh_ring}
use gpu_health_index.Snapshot.Update.{blank_snapshot}
use gpu_health_index.Collector.Context.{Ctx}
use gpu_health_index.Collector.Nvml.{Device, success, failure, blank_state}
use gpu_health_index.Collector.Poll.{Env}

-- a sample at `t` seconds, with a temperature in degrees
abbrev pub sample : ℕ → ℕ → Sample Fixed
sample t temp = record {
  power_w = fixed_double.lit 300 0;
  power_limit_w = fixed_double.lit 700 0;
  temp_c = fixed_double.lit temp 0;
  hbm_temp_c = fixed_double.lit 60 0;
  sm_clock_mhz = fixed_double.lit 1980 0;
  ecc_sbe_volatile = 0;
  ecc_dbe_volatile = 0;
  timestamp_ms = t * 1000;
}

-- defaults, but for a window that three samples fill
abbrev pub small_int : IntField → ℕ
small_int IntField.window_s = 4
small_int IntField.min_samples_absolute = 2
small_int f = int_default f

abbrev pub cfg : Config Fixed
cfg = record cfg_defaults { int = small_int }

abbrev pub hot_samples : List (Sample Fixed)
hot_samples = sample 1 91 ∷ sample 2 92 ∷ sample 3 93 ∷ sample 4 94 ∷ sample 5 95 ∷ []

abbrev pub idle_state : State Fixed
idle_state = blank_state (pos 5) (pos 16)

abbrev pub no_baseline : Baseline Fixed
no_baseline = record {
  available = false;
  valid = false;
  serial_mismatch = false;
  driver_mismatch = false;
  serial = [];
  uuid = [];
  driver_version = [];
  perf_w_mean = nought;
  established_at_s = 0;
  workload = [];
  sample_count = pos 0;
}

abbrev pub no_probe : ProbeResult Fixed
no_probe = record {
  available = false;
  stale = false;
  serial = [];
  perf_w_mean = nought;
  probe_timestamp_s = 0;
  probe_exit_code = pos 0;
  workload = [];
  sample_count = pos 0;
  probe_duration_s = nought;
}

abbrev pub gpu : Ctx Fixed
gpu = record {
  serial = bytes "1650";
  uuid = bytes "GPU-1";
  gpu_model = bytes "H100";
  driver_version = bytes "550";
  gpu_index = 0;
  identity_source = serial_number;
  pcie_link_gen_max = pos 5;
  pcie_link_width_max = pos 16;
  ring = fresh_ring 4;
  state = idle_state;
  snapshot = blank_snapshot;
  baseline = no_baseline;
  probe = no_probe;
  ready = false;
  stop = false;
  gpu_present = true;
  gpu_available = true;
  consecutive_errors = 0;
  consecutive_hard_errors = 0;
  last_retry_ms = 0;
  collector_errors_total = 0;
}

abbrev pub device : Device
device = record {
  temperature = success 70;
  memory_temp = none;
  power_usage = success 300_000;
  power_limit = success 700_000;
  clock_sm = success 1980;
  ecc_corrected_volatile = success 0;
  ecc_uncorrected_volatile = success 0;
  ecc_corrected_aggregate = success 0;
  ecc_uncorrected_aggregate = success 0;
  retired_single_bit = none;
  retired_double_bit = none;
  remapped_rows = none;
  memory_info = success (record { used = 1; free = 2; total = 3 });
  clock_mem = success 2619;
  utilization = success (50, 20);
  throttle_reasons = success 0;
  performance_state = success (pos 0);
  pcie_link_gen = success 5;
  pcie_link_width = success 16;
  pcie_replay = none;
  fan_speed = none;
}

-- a round at `t` seconds
abbrev pub round_at : ℕ → Device → Env Fixed
round_at t board = record {
  retry_now_ms = t * 1000;
  sample_ms = t * 1000;
  device = board;
  dcgm = none;
  reloaded = none;
  now_s = t;
  poll_ms = t * 1000;
  temp_heap = true;
  hbm_heap = true;
}

-- NVML_ERROR_GPU_IS_LOST
abbrev pub lost_device : Device
lost_device = record device { temperature = failure 15 }

abbrev pub message_for : ℕ → IpcMsg Fixed
message_for i = record { gpu_index = pos i; snapshot = blank_snapshot }
