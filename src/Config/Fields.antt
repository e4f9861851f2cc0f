-- ===== src/Config/Fields.antt =====
-- The fields of gpu_config_t, by type.

pub data IntField : Type 0 where
  listen_port poll_interval_s window_s state_write_interval_s min_samples_absolute : IntField
  retired_pages_warn retired_pages_bad probe_interval_s probe_ttl_s : IntField
  nvml_timeout_ms nvml_error_threshold nvml_hard_error_threshold nvml_retry_interval_s : IntField
  dcgm_timeout_ms dcgm_error_threshold dcgm_retry_interval_s : IntField

pub data DblField : Type 0 where
  min_sample_ratio max_median_step_s : DblField
  temp_p95_warn_c temp_p95_bad_c hbm_temp_p95_warn_c hbm_temp_p95_bad_c : DblField
  clk_std_warn_mhz power_high_ratio power_penalty_max : DblField
  ecc_sbe_rate_warn_per_hour ecc_sbe_penalty ecc_dbe_penalty : DblField
  retired_pages_pen_warn retired_pages_pen_bad row_remap_failure_penalty : DblField
  pcie_link_degraded_penalty pcie_width_degraded_penalty : DblField
  perf_drop_warn perf_drop_bad perf_drop_severe : DblField
  perf_drop_pen_warn perf_drop_pen_bad perf_drop_pen_severe : DblField

pub data StrField : Type 0 where
  state_dir baseline_dir listen_addr file_sd_path tls_cert_path tls_key_path : StrField

unfoldable pub IntField-discrete : Discrete IntField
IntField-discrete = hlevel

unfoldable pub DblField-discrete : Discrete DblField
DblField-discrete = hlevel

unfoldable pub StrField-discrete : Discrete StrField
StrField-discrete = hlevel

-- A row of cfg_table: its type and its field.
pub data Entry : Type 0 where
  cfg_int : IntField → Entry
  cfg_dbl : DblField → Entry
  cfg_str : StrField → Entry
