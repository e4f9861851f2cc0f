-- ===== src/Collector/Context.antt =====
-- collector.h: gpu_ctx_t, without its mutexes, its thread and the opaque NVML handle.
use gpu_health_index.Prelude.{ℕ, Bool, List}
use gpu_health_index.Prelude.Int.{ℤ}
use gpu_health_index.Types.{Ring, State, Snapshot, Baseline, ProbeResult, IdentitySource}

pub record Ctx (D : Type 0) : Type 0 where
  pub serial : List ℕ
  pub uuid : List ℕ
  pub gpu_model : List ℕ
  pub driver_version : List ℕ
  pub gpu_index : ℕ
  pub identity_source : IdentitySource
  pub pcie_link_gen_max : ℤ
  pub pcie_link_width_max : ℤ
  pub ring : Ring D
  pub state : State D
  pub snapshot : Snapshot D
  pub baseline : Baseline D
  pub probe : ProbeResult D
  pub ready : Bool
  pub stop : Bool
  pub gpu_present : Bool
  pub gpu_available : Bool
  pub consecutive_errors : ℕ
  pub consecutive_hard_errors : ℕ
  pub last_retry_ms : ℕ
  pub collector_errors_total : ℕ
