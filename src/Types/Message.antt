-- ===== src/Types/Message.antt =====
-- types.h: gpu_snapshot_t and gpu_ipc_msg_t.
use gpu_health_index.Prelude.{ℕ, Bool, List}
use gpu_health_index.Prelude.Int.{ℤ}
use gpu_health_index.Types.Health.{GpuClass, IdentitySource}

-- gpu_snapshot_t
pub record Snapshot (D : Type 0) : Type 0 where
  pub serial : List ℕ
  pub uuid : List ℕ
  pub gpu_model : List ℕ
  pub driver_version : List ℕ
  pub gpu_index : ℕ
  pub identity_source : IdentitySource
  pub pcie_link_gen_max : ℤ
  pub pcie_link_width_max : ℤ
  pub score : D
  pub classification : GpuClass
  pub reason_mask : ℕ
  pub telemetry_ok : Bool
  pub temp_p95_c : D
  pub hbm_temp_p95_c : D
  pub clk_std_mhz : D
  pub power_saturation_frac : D
  pub ecc_sbe_rate_per_hour : D
  pub ecc_dbe_in_window : Bool
  pub perf_drop_frac : D
  pub probe_stale : Bool
  pub probe_available : Bool
  pub baseline_available : Bool
  pub baseline_valid : Bool
  pub baseline_serial_mismatch : Bool
  pub baseline_driver_mismatch : Bool
  pub baseline_age_s : ℕ
  pub ecc_sbe_volatile : ℕ
  pub ecc_dbe_volatile : ℕ
  pub ecc_sbe_aggregate : ℕ
  pub ecc_dbe_aggregate : ℕ
  pub retired_pages_sbe : ℕ
  pub retired_pages_dbe : ℕ
  pub row_remap_failures : ℕ
  pub pending_row_remap : ℤ
  pub mem_used_bytes : ℕ
  pub mem_free_bytes : ℕ
  pub mem_total_bytes : ℕ
  pub mem_bw_util_pct : D
  pub pcie_link_gen : ℤ
  pub pcie_link_width : ℤ
  pub pcie_replay_count : ℕ
  pub nvlink_replay_count : ℕ
  pub nvlink_recovery_count : ℕ
  pub nvlink_crc_count : ℕ
  pub xid_count : ℕ
  pub xid_last_code : ℕ
  pub board_power_w : D
  pub power_w : D
  pub power_limit_w : D
  pub energy_j : D
  pub power_violation_us : ℕ
  pub thermal_violation_us : ℕ
  pub throttle_sw_power_cap : Bool
  pub throttle_hw_slowdown : Bool
  pub throttle_hw_power_brake : Bool
  pub throttle_sw_thermal : Bool
  pub throttle_hw_thermal : Bool
  pub sm_clock_mhz : D
  pub mem_clock_mhz : D
  pub util_gpu_pct : ℤ
  pub util_mem_pct : ℤ
  pub pstate : ℤ
  pub temp_c : D
  pub hbm_temp_c : D
  pub fan_speed_pct : ℤ
  pub last_poll_ms : ℕ
  pub gpu_present : Bool
  pub gpu_available : Bool
  pub dcgm_available : Bool
  pub collector_errors_total : ℕ

-- gpu_ipc_msg_t
pub record IpcMsg (D : Type 0) : Type 0 where
  pub gpu_index : ℤ
  pub snapshot : Snapshot D
