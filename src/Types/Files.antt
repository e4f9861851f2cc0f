-- ===== src/Types/Files.antt =====
-- types.h: gpu_baseline_t, gpu_probe_result_t and gpu_score_result_t.
use gpu_health_index.Prelude.{ℕ, Bool, List}
use gpu_health_index.Prelude.Int.{ℤ}
use gpu_health_index.Types.Health.{GpuClass}

-- gpu_baseline_t
pub record Baseline (D : Type 0) : Type 0 where
  pub available : Bool
  pub valid : Bool
  pub serial_mismatch : Bool
  pub driver_mismatch : Bool
  pub serial : List ℕ
  pub uuid : List ℕ
  pub driver_version : List ℕ
  pub perf_w_mean : D
  pub established_at_s : ℕ
  pub workload : List ℕ
  pub sample_count : ℤ

-- gpu_probe_result_t
pub record ProbeResult (D : Type 0) : Type 0 where
  pub available : Bool
  pub stale : Bool
  pub serial : List ℕ
  pub perf_w_mean : D
  pub probe_timestamp_s : ℕ
  pub probe_exit_code : ℤ
  pub workload : List ℕ
  pub sample_count : ℤ
  pub probe_duration_s : D

-- gpu_score_result_t
pub record ScoreResult (D : Type 0) : Type 0 where
  pub score : D
  pub classification : GpuClass
  pub reason_mask : ℕ
  pub telemetry_ok : Bool
  pub temp_p95_c : D
  pub hbm_temp_p95_c : D
  pub clk_std_mhz : D
  pub power_saturation_frac : D
  pub ecc_sbe_rate_per_hour : D
  pub ecc_dbe_in_window : Bool
  pub perf_drop_frac : D
