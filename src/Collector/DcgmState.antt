-- ===== src/Collector/DcgmState.antt =====
-- dcgm.h: dcgm_fields_t with its sentinels, and collector.c: apply_dcgm_state.
use gpu_health_index.Prelude.{ℕ, ◌-◌, ◌^◌, not, ◌==◌, if◌then◌else◌}
use gpu_health_index.Double.{Double, eq}
use gpu_health_index.Types.{State}

-- dcgm_fields_t
pub record DcgmFields (D : Type 0) : Type 0 where
  pub power_w : D
  pub energy_j : D
  pub mem_bw_util_pct : D
  pub power_violation_us : ℕ
  pub thermal_violation_us : ℕ
  pub nvlink_replay : ℕ
  pub nvlink_recovery : ℕ
  pub nvlink_crc : ℕ
  pub xid_count : ℕ
  pub xid_last_code : ℕ
  pub pcie_replay : ℕ
  pub row_remap_failures : ℕ

abbrev pub unavailable_u64 : ℕ
unavailable_u64 = 2 ^ 64 - 1

abbrev pub unavailable_u32 : ℕ
unavailable_u32 = 2 ^ 32 - 1

abbrev pub unavailable_dbl : (D : Type 0) ⦃d : Double D⦄ → D
unavailable_dbl D ⦃d⦄ = d.neg (d.lit 1 0)

-- if (v != sentinel) field = v;
abbrev update_nat : ℕ → ℕ → ℕ → ℕ
update_nat sentinel old v = if not (v == sentinel) then v else old

module _ {D : Type 0} ⦃d : Double D⦄ where
  abbrev update_dbl : D → D → D
  update_dbl old v = if not (eq v (unavailable_dbl D)) then v else old

  unfoldable pub apply_dcgm_state : State D → DcgmFields D → State D
  apply_dcgm_state st f = record st {
    board_power_w = update_dbl st.board_power_w f.power_w;
    energy_j = update_dbl st.energy_j f.energy_j;
    mem_bw_util_pct = update_dbl st.mem_bw_util_pct f.mem_bw_util_pct;
    power_violation_us = update_nat unavailable_u64 st.power_violation_us f.power_violation_us;
    thermal_violation_us =
        update_nat unavailable_u64 st.thermal_violation_us f.thermal_violation_us;
    nvlink_replay_count = update_nat unavailable_u64 st.nvlink_replay_count f.nvlink_replay;
    nvlink_recovery_count = update_nat unavailable_u64 st.nvlink_recovery_count f.nvlink_recovery;
    nvlink_crc_count = update_nat unavailable_u64 st.nvlink_crc_count f.nvlink_crc;
    xid_count = update_nat unavailable_u64 st.xid_count f.xid_count;
    xid_last_code = update_nat unavailable_u32 st.xid_last_code f.xid_last_code;
    pcie_replay_count = update_nat unavailable_u64 st.pcie_replay_count f.pcie_replay;
    row_remap_failures = update_nat unavailable_u32 st.row_remap_failures f.row_remap_failures;
  }
