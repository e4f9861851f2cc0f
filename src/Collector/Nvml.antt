-- ===== src/Collector/Nvml.antt =====
-- collector.c: do_nvml_poll. NVML is no part of the program: what its calls return in one cycle is
-- an argument. An optional entry point of the vtable that is NULL is `none`.
use Prim.Native.Nat.{bit_and}
use gpu_health_index.Prelude.{ℕ, Bool, false, not, ◌&&◌, Option, some, ◌==◌, if◌then◌else◌}
use gpu_health_index.Prelude.Int.{ℤ, pos, negsuc, to_int}
use gpu_health_index.Double.{Double, nought}
use gpu_health_index.Types.{Sample, State}

-- The outcome of an NVML call: its value with NVML_SUCCESS, or an error code, which is not 0.
pub data Reply {ℓ} (A : Type ℓ) : Type ℓ where
  success : A → Reply A
  failure : ℕ → Reply A

infixl 5 ◌>>=◌
abbrev pub ◌>>=◌ {ℓ κ} : {A : Type ℓ} {B : Type κ} → Reply A → (A → Reply B) → Reply B
success a >>= f = f a
failure e >>= f = failure e

-- nvml_field_value_t, as far as it is read
pub record FieldValue : Type 0 where
  pub nvml_return : ℕ
  pub is_unsigned_int : Bool
  pub ui_val : ℕ

-- the four numbers of DeviceGetRemappedRows
pub record RemappedRows : Type 0 where
  pub corr : ℕ
  pub uncorr : ℕ
  pub pending : ℕ
  pub failed : ℕ

-- nvml_memory_t
pub record Memory : Type 0 where
  pub used : ℕ
  pub free : ℕ
  pub total : ℕ

-- what the device answers in one cycle
pub record Device : Type 0 where
  pub temperature : Reply ℕ
  pub memory_temp : Option (Reply FieldValue)
  pub power_usage : Reply ℕ
  pub power_limit : Reply ℕ
  pub clock_sm : Reply ℕ
  pub ecc_corrected_volatile : Reply ℕ
  pub ecc_uncorrected_volatile : Reply ℕ
  pub ecc_corrected_aggregate : Reply ℕ
  pub ecc_uncorrected_aggregate : Reply ℕ
  pub retired_single_bit : Option (Reply ℕ)
  pub retired_double_bit : Option (Reply ℕ)
  pub remapped_rows : Option (Reply RemappedRows)
  pub memory_info : Reply Memory
  pub clock_mem : Reply ℕ
  pub utilization : Reply (ℕ × ℕ)
  pub throttle_reasons : Reply ℕ
  pub performance_state : Reply ℤ
  pub pcie_link_gen : Reply ℕ
  pub pcie_link_width : Reply ℕ
  pub pcie_replay : Option (Reply ℕ)
  pub fan_speed : Option (Reply ℕ)

-- the value of an optional call that succeeds, else what stood in the field before
abbrev or_keep {ℓ κ} : {A : Type ℓ} {B : Type κ} → (A → B) → B → Option (Reply A) → B
or_keep f old (some (success a)) = f a
or_keep f old _ = old

-- !!(reasons & mask)
abbrev has_reason : ℕ → ℕ → Bool
has_reason reasons mask = not (bit_and reasons mask == 0)

module _ {D : Type 0} ⦃d : Double D⦄ where
  hbm_celsius : FieldValue → D
  hbm_celsius fv = if fv.nvml_return == 0 && fv.is_unsigned_int then d.of_nat fv.ui_val else nought

  -- mW → W
  watts : ℕ → D
  watts mw = d.div (d.of_nat mw) (d.lit 1000 0)

  -- The state that poll_thread hands over: zeroed, but for the static PCIe limits.
  abbrev pub blank_state : ℤ → ℤ → State D
  blank_state gen_max width_max = record {
    ecc_sbe_aggregate = 0;
    ecc_dbe_aggregate = 0;
    retired_pages_sbe = 0;
    retired_pages_dbe = 0;
    row_remap_failures = 0;
    pending_row_remap = pos 0;
    mem_used_bytes = 0;
    mem_free_bytes = 0;
    mem_total_bytes = 0;
    mem_bw_util_pct = nought;
    pcie_link_gen = pos 0;
    pcie_link_gen_max = gen_max;
    pcie_link_width = pos 0;
    pcie_link_width_max = width_max;
    pcie_replay_count = 0;
    nvlink_replay_count = 0;
    nvlink_recovery_count = 0;
    nvlink_crc_count = 0;
    xid_count = 0;
    xid_last_code = 0;
    board_power_w = nought;
    energy_j = nought;
    power_violation_us = 0;
    thermal_violation_us = 0;
    throttle_sw_power_cap = false;
    throttle_hw_slowdown = false;
    throttle_hw_power_brake = false;
    throttle_sw_thermal = false;
    throttle_hw_thermal = false;
    mem_clock_mhz = nought;
    util_gpu_pct = pos 0;
    util_mem_pct = pos 0;
    pstate = pos 0;
    fan_speed_pct = pos 0;
  }

  -- The sample and the state of one cycle, or the code of the first required call that fails. The
  -- caller throws away what was filled in up to there.
  unfoldable pub do_nvml_poll : Device → ℕ → State D → Reply (Sample D × State D)
  unfolding hbm_celsius watts
  do_nvml_poll v now_ms st = do
    temp ← v.temperature
    let hbm : D = or_keep hbm_celsius nought v.memory_temp
    power ← v.power_usage
    limit ← v.power_limit
    sm ← v.clock_sm
    sbe ← v.ecc_corrected_volatile
    dbe ← v.ecc_uncorrected_volatile
    sbe_agg ← v.ecc_corrected_aggregate
    dbe_agg ← v.ecc_uncorrected_aggregate
    mem ← v.memory_info
    mem_clock ← v.clock_mem
    util ← v.utilization
    reasons ← v.throttle_reasons
    pst ← v.performance_state
    gen ← v.pcie_link_gen
    width ← v.pcie_link_width
    success (
      record {
        power_w = watts power;
        power_limit_w = watts limit;
        temp_c = d.of_nat temp;
        hbm_temp_c = hbm;
        sm_clock_mhz = d.of_nat sm;
        ecc_sbe_volatile = sbe;
        ecc_dbe_volatile = dbe;
        timestamp_ms = now_ms;
      },
      record st {
        ecc_sbe_aggregate = sbe_agg;
        ecc_dbe_aggregate = dbe_agg;
        retired_pages_sbe = or_keep (λ n. n) st.retired_pages_sbe v.retired_single_bit;
        retired_pages_dbe = or_keep (λ n. n) st.retired_pages_dbe v.retired_double_bit;
        row_remap_failures = or_keep (λ w. w.uncorr) st.row_remap_failures v.remapped_rows;
        pending_row_remap = or_keep (λ w. to_int w.pending) st.pending_row_remap v.remapped_rows;
        mem_used_bytes = mem.used;
        mem_free_bytes = mem.free;
        mem_total_bytes = mem.total;
        mem_clock_mhz = d.of_nat mem_clock;
        util_gpu_pct = to_int util.0;
        util_mem_pct = to_int util.1;
        throttle_sw_power_cap = has_reason reasons 0x4;
        throttle_hw_slowdown = has_reason reasons 0x8;
        throttle_hw_power_brake = has_reason reasons 0x80;
        throttle_sw_thermal = has_reason reasons 0x20;
        throttle_hw_thermal = has_reason reasons 0x40;
        pstate = pst;
        pcie_link_gen = to_int gen;
        pcie_link_width = to_int width;
        pcie_replay_count = or_keep (λ n. n) st.pcie_replay_count v.pcie_replay;
        fan_speed_pct = or_keep to_int (negsuc 0) v.fan_speed;
      },
    )
