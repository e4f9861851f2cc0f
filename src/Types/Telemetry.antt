-- ===== src/Types/Telemetry.antt =====
-- types.h: gpu_sample_t, gpu_ring_t and gpu_state_t.
use gpu_health_index.Prelude.{ℕ, Bool, List}
use gpu_health_index.Prelude.Int.{ℤ}

-- gpu_sample_t
pub record Sample (D : Type 0) : Type 0 where
  pub power_w : D
  pub power_limit_w : D
  pub temp_c : D
  pub hbm_temp_c : D
  pub sm_clock_mhz : D
  pub ecc_sbe_volatile : ℕ
  pub ecc_dbe_volatile : ℕ
  pub timestamp_ms : ℕ

-- gpu_ring_t
pub record Ring (D : Type 0) : Type 0 where
  pub samples : List (Sample D)
  pub head : ℕ
  pub count : ℕ
  pub capacity : ℕ

-- gpu_state_t
pub record State (D : Type 0) : Type 0 where
  pub ecc_sbe_aggregate : ℕ
  pub ecc_dbe_aggregate : ℕ
  pub retired_pages_sbe : ℕ
  pub retired_pages_dbe : ℕ
  pub row_remap_failures : ℕ
  pub pending_row_remap : ℤ
  pub mem_used_bytes : ℕ
  pub mem_free_bytes : ℕ
  pub mem_total_bytes : ℕ
  pub mem_bw_util_pct : D
  pub pcie_link_gen : ℤ
  pub pcie_link_gen_max : ℤ
  pub pcie_link_width : ℤ
  pub pcie_link_width_max : ℤ
  pub pcie_replay_count : ℕ
  pub nvlink_replay_count : ℕ
  pub nvlink_recovery_count : ℕ
  pub nvlink_crc_count : ℕ
  pub xid_count : ℕ
  pub xid_last_code : ℕ
  pub board_power_w : D
  pub energy_j : D
  pub power_violation_us : ℕ
  pub thermal_violation_us : ℕ
  pub throttle_sw_power_cap : Bool
  pub throttle_hw_slowdown : Bool
  pub throttle_hw_power_brake : Bool
  pub throttle_sw_thermal : Bool
  pub throttle_hw_thermal : Bool
  pub mem_clock_mhz : D
  pub util_gpu_pct : ℤ
  pub util_mem_pct : ℤ
  pub pstate : ℤ
  pub fan_speed_pct : ℤ
