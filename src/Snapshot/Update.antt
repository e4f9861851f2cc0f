-- ===== src/Snapshot/Update.antt =====
-- snapshot.c: snapshot_update. `now_s` and `now_ms` are the readings of time_now_s and time_now_ms.
use gpu_health_index.Prelude.{ℕ, ◌-◌, Bool, false, [], ◌&&◌, ltb, if◌then◌else◌}
use gpu_health_index.Double.{Double, nought}
use gpu_health_index.Prelude.Int.{pos}
use gpu_health_index.Types.{Ring, Sample, Snapshot, Baseline, ScoreResult, na, serial_number}
use gpu_health_index.Ring.{latest}
use gpu_health_index.Collector.Context.{Ctx}

module _ {D : Type 0} ⦃d : Double D⦄ where
  -- a field of the latest sample, or what stands for it in an empty ring
  abbrev pub from_latest {ℓ} : {A : Type ℓ} → Ring D → (Sample D → A) → A → A
  from_latest r field default = if ltb 0 r.count then field (latest r) else default

  -- the snapshot that collector_start zeroes
  abbrev pub blank_snapshot : Snapshot D
  blank_snapshot = record {
    serial = [];
    uuid = [];
    gpu_model = [];
    driver_version = [];
    gpu_index = 0;
    identity_source = serial_number;
    pcie_link_gen_max = pos 0;
    pcie_link_width_max = pos 0;
    score = nought;
    classification = na;
    reason_mask = 0;
    telemetry_ok = false;
    temp_p95_c = nought;
    hbm_temp_p95_c = nought;
    clk_std_mhz = nought;
    power_saturation_frac = nought;
    ecc_sbe_rate_per_hour = nought;
    ecc_dbe_in_window = false;
    perf_drop_frac = nought;
    probe_stale = false;
    probe_available = false;
    baseline_available = false;
    baseline_valid = false;
    baseline_serial_mismatch = false;
    baseline_driver_mismatch = false;
    baseline_age_s = 0;
    ecc_sbe_volatile = 0;
    ecc_dbe_volatile = 0;
    ecc_sbe_aggregate = 0;
    ecc_dbe_aggregate = 0;
    retired_pages_sbe = 0;
    retired_pages_dbe = 0;
    row_remap_failures = 0;
    pending_row_remap = pos 0;
    mem_used_bytes = 0;
    mem_free_bytes = 0;
    mem_total_bytes = 0;
    mem_bw_util_pct = nought;
    pcie_link_gen = pos 0;
    pcie_link_width = pos 0;
    pcie_replay_count = 0;
    nvlink_replay_count = 0;
    nvlink_recovery_count = 0;
    nvlink_crc_count = 0;
    xid_count = 0;
    xid_last_code = 0;
    board_power_w = nought;
    power_w = nought;
    power_limit_w = nought;
    energy_j = nought;
    power_violation_us = 0;
    thermal_violation_us = 0;
    throttle_sw_power_cap = false;
    throttle_hw_slowdown = false;
    throttle_hw_power_brake = false;
    throttle_sw_thermal = false;
    throttle_hw_thermal = false;
    sm_clock_mhz = nought;
    mem_clock_mhz = nought;
    util_gpu_pct = pos 0;
    util_mem_pct = pos 0;
    pstate = pos 0;
    temp_c = nought;
    hbm_temp_c = nought;
    fan_speed_pct = pos 0;
    last_poll_ms = 0;
    gpu_present = false;
    gpu_available = false;
    dcgm_available = false;
    collector_errors_total = 0;
  }

  baseline_age : Baseline D → ℕ → ℕ
  baseline_age b now_s =
      if b.available && ltb 0 b.established_at_s
      then (if ltb b.established_at_s now_s then now_s - b.established_at_s else 0)
      else 0

  unfoldable pub assemble : Ctx D → ScoreResult D → Bool → ℕ → ℕ → Snapshot D
  unfolding baseline_age
  assemble c r dcgm_available now_s now_ms = record {
    serial = c.serial;
    uuid = c.uuid;
    gpu_model = c.gpu_model;
    driver_version = c.driver_version;
    gpu_index = c.gpu_index;
    identity_source = c.identity_source;
    pcie_link_gen_max = c.pcie_link_gen_max;
    pcie_link_width_max = c.pcie_link_width_max;
    score = r.score;
    classification = r.classification;
    reason_mask = r.reason_mask;
    telemetry_ok = r.telemetry_ok;
    temp_p95_c = r.temp_p95_c;
    hbm_temp_p95_c = r.hbm_temp_p95_c;
    clk_std_mhz = r.clk_std_mhz;
    power_saturation_frac = r.power_saturation_frac;
    ecc_sbe_rate_per_hour = r.ecc_sbe_rate_per_hour;
    ecc_dbe_in_window = r.ecc_dbe_in_window;
    perf_drop_frac = r.perf_drop_frac;
    probe_available = c.probe.available;
    probe_stale = c.probe.stale;
    baseline_available = c.baseline.available;
    baseline_valid = c.baseline.valid;
    baseline_serial_mismatch = c.baseline.serial_mismatch;
    baseline_driver_mismatch = c.baseline.driver_mismatch;
    baseline_age_s = baseline_age c.baseline now_s;
    ecc_sbe_volatile = from_latest c.ring (λ s. s.ecc_sbe_volatile) 0;
    ecc_dbe_volatile = from_latest c.ring (λ s. s.ecc_dbe_volatile) 0;
    ecc_sbe_aggregate = c.state.ecc_sbe_aggregate;
    ecc_dbe_aggregate = c.state.ecc_dbe_aggregate;
    retired_pages_sbe = c.state.retired_pages_sbe;
    retired_pages_dbe = c.state.retired_pages_dbe;
    row_remap_failures = c.state.row_remap_failures;
    pending_row_remap = c.state.pending_row_remap;
    mem_used_bytes = c.state.mem_used_bytes;
    mem_free_bytes = c.state.mem_free_bytes;
    mem_total_bytes = c.state.mem_total_bytes;
    mem_bw_util_pct = c.state.mem_bw_util_pct;
    pcie_link_gen = c.state.pcie_link_gen;
    pcie_link_width = c.state.pcie_link_width;
    pcie_replay_count = c.state.pcie_replay_count;
    nvlink_replay_count = c.state.nvlink_replay_count;
    nvlink_recovery_count = c.state.nvlink_recovery_count;
    nvlink_crc_count = c.state.nvlink_crc_count;
    xid_count = c.state.xid_count;
    xid_last_code = c.state.xid_last_code;
    board_power_w = c.state.board_power_w;
    power_w = from_latest c.ring (λ s. s.power_w) nought;
    power_limit_w = from_latest c.ring (λ s. s.power_limit_w) nought;
    energy_j = c.state.energy_j;
    power_violation_us = c.state.power_violation_us;
    thermal_violation_us = c.state.thermal_violation_us;
    throttle_sw_power_cap = c.state.throttle_sw_power_cap;
    throttle_hw_slowdown = c.state.throttle_hw_slowdown;
    throttle_hw_power_brake = c.state.throttle_hw_power_brake;
    throttle_sw_thermal = c.state.throttle_sw_thermal;
    throttle_hw_thermal = c.state.throttle_hw_thermal;
    sm_clock_mhz = from_latest c.ring (λ s. s.sm_clock_mhz) nought;
    mem_clock_mhz = c.state.mem_clock_mhz;
    util_gpu_pct = c.state.util_gpu_pct;
    util_mem_pct = c.state.util_mem_pct;
    pstate = c.state.pstate;
    temp_c = from_latest c.ring (λ s. s.temp_c) nought;
    hbm_temp_c = from_latest c.ring (λ s. s.hbm_temp_c) nought;
    fan_speed_pct = c.state.fan_speed_pct;
    last_poll_ms = now_ms;
    gpu_present = c.gpu_present;
    gpu_available = c.gpu_available;
    dcgm_available = dcgm_available;
    collector_errors_total = c.collector_errors_total;
  }

  unfoldable pub snapshot_update : Ctx D → ScoreResult D → Bool → ℕ → ℕ → Ctx D
  unfolding assemble
  snapshot_update c r dcgm_available now_s now_ms = record c {
    snapshot = assemble c r dcgm_available now_s now_ms;
  }
