-- ===== src/Types/Health.antt =====
-- types.h: the health classes and the reason bitmask.
use gpu_health_index.Prelude.{ℕ, ◌^◌}

-- gpu_class_t
pub data GpuClass : Type 0 where
  na healthy monitor degrading decommission : GpuClass

pub GpuClass-discrete : Discrete GpuClass
GpuClass-discrete = hlevel

-- gpu_identity_src_t
pub data IdentitySource : Type 0 where
  serial_number uuid_fallback : IdentitySource

-- GPU_REASON_*
pub data Reason : Type 0 where
  temp_warn temp_bad hbm_temp_warn hbm_temp_bad clk_std_high power_saturation : Reason
  ecc_sbe_high ecc_dbe_active perf_drop_warn perf_drop_bad perf_drop_severe : Reason
  retired_pages_warn retired_pages_bad row_remap pcie_gen pcie_width : Reason
  telemetry_incomplete probe_stale : Reason

abbrev pub reason_bit : Reason → ℕ
reason_bit temp_warn = 0
reason_bit temp_bad = 1
reason_bit hbm_temp_warn = 2
reason_bit hbm_temp_bad = 3
reason_bit clk_std_high = 4
reason_bit power_saturation = 5
reason_bit ecc_sbe_high = 6
reason_bit ecc_dbe_active = 7
reason_bit perf_drop_warn = 8
reason_bit perf_drop_bad = 9
reason_bit perf_drop_severe = 10
reason_bit retired_pages_warn = 11
reason_bit retired_pages_bad = 12
reason_bit row_remap = 13
reason_bit pcie_gen = 14
reason_bit pcie_width = 15
reason_bit telemetry_incomplete = 16
reason_bit probe_stale = 17

-- 1u << k
abbrev pub reason_flag : Reason → ℕ
reason_flag r = 2 ^ reason_bit r
