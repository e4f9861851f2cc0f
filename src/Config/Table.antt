-- ===== src/Config/Table.antt =====
-- cfg_table and cfg_defaults of config.c.
use Prim.Native.Char.{code}
use Prim.Native.String.{String}
use gpu_health_index.Prelude.{ℕ, List, [], ◌∷◌}
use gpu_health_index.Double.{Double}
use gpu_health_index.Config.{Config}
use gpu_health_index.Config.Fields.{IntField, DblField, StrField, Entry, cfg_int, cfg_dbl, cfg_str}

-- the bytes of an ASCII literal
abbrev pub bytes : String → List ℕ
bytes String.[] = []
bytes (String.◌∷◌ c s) = code c ∷ bytes s

-- the rows, in order
abbrev pub cfg_table : List Entry
cfg_table =
    cfg_str StrField.state_dir
    ∷ cfg_str StrField.baseline_dir
    ∷ cfg_str StrField.listen_addr
    ∷ cfg_int IntField.listen_port
    ∷ cfg_int IntField.poll_interval_s
    ∷ cfg_int IntField.window_s
    ∷ cfg_int IntField.state_write_interval_s
    ∷ cfg_dbl DblField.min_sample_ratio
    ∷ cfg_dbl DblField.max_median_step_s
    ∷ cfg_int IntField.min_samples_absolute
    ∷ cfg_dbl DblField.temp_p95_warn_c
    ∷ cfg_dbl DblField.temp_p95_bad_c
    ∷ cfg_dbl DblField.hbm_temp_p95_warn_c
    ∷ cfg_dbl DblField.hbm_temp_p95_bad_c
    ∷ cfg_dbl DblField.clk_std_warn_mhz
    ∷ cfg_dbl DblField.power_high_ratio
    ∷ cfg_dbl DblField.power_penalty_max
    ∷ cfg_dbl DblField.ecc_sbe_rate_warn_per_hour
    ∷ cfg_dbl DblField.ecc_sbe_penalty
    ∷ cfg_dbl DblField.ecc_dbe_penalty
    ∷ cfg_int IntField.retired_pages_warn
    ∷ cfg_int IntField.retired_pages_bad
    ∷ cfg_dbl DblField.retired_pages_pen_warn
    ∷ cfg_dbl DblField.retired_pages_pen_bad
    ∷ cfg_dbl DblField.row_remap_failure_penalty
    ∷ cfg_dbl DblField.pcie_link_degraded_penalty
    ∷ cfg_dbl DblField.pcie_width_degraded_penalty
    ∷ cfg_dbl DblField.perf_drop_warn
    ∷ cfg_dbl DblField.perf_drop_bad
    ∷ cfg_dbl DblField.perf_drop_severe
    ∷ cfg_dbl DblField.perf_drop_pen_warn
    ∷ cfg_dbl DblField.perf_drop_pen_bad
    ∷ cfg_dbl DblField.perf_drop_pen_severe
    ∷ cfg_int IntField.probe_interval_s
    ∷ cfg_int IntField.probe_ttl_s
    ∷ cfg_int IntField.nvml_timeout_ms
    ∷ cfg_int IntField.nvml_error_threshold
    ∷ cfg_int IntField.nvml_hard_error_threshold
    ∷ cfg_int IntField.nvml_retry_interval_s
    ∷ cfg_int IntField.dcgm_timeout_ms
    ∷ cfg_int IntField.dcgm_error_threshold
    ∷ cfg_int IntField.dcgm_retry_interval_s
    ∷ cfg_str StrField.file_sd_path
    ∷ cfg_str StrField.tls_cert_path
    ∷ cfg_str StrField.tls_key_path
    ∷ []

-- cfg_entry_t.key
abbrev pub entry_key : Entry → List ℕ
entry_key (cfg_str StrField.state_dir) = bytes "state_dir"
entry_key (cfg_str StrField.baseline_dir) = bytes "baseline_dir"
entry_key (cfg_str StrField.listen_addr) = bytes "listen_addr"
entry_key (cfg_int IntField.listen_port) = bytes "listen_port"
entry_key (cfg_int IntField.poll_interval_s) = bytes "poll_interval_s"
entry_key (cfg_int IntField.window_s) = bytes "window_s"
entry_key (cfg_int IntField.state_write_interval_s) = bytes "state_write_interval_s"
entry_key (cfg_dbl DblField.min_sample_ratio) = bytes "min_sample_ratio"
entry_key (cfg_dbl DblField.max_median_step_s) = bytes "max_median_step_s"
entry_key (cfg_int IntField.min_samples_absolute) = bytes "min_samples_absolute"
entry_key (cfg_dbl DblField.temp_p95_warn_c) = bytes "temp_p95_warn_c"
entry_key (cfg_dbl DblField.temp_p95_bad_c) = bytes "temp_p95_bad_c"
entry_key (cfg_dbl DblField.hbm_temp_p95_warn_c) = bytes "hbm_temp_p95_warn_c"
entry_key (cfg_dbl DblField.hbm_temp_p95_bad_c) = bytes "hbm_temp_p95_bad_c"
entry_key (cfg_dbl DblField.clk_std_warn_mhz) = bytes "clk_std_warn_mhz"
entry_key (cfg_dbl DblField.power_high_ratio) = bytes "power_high_ratio"
entry_key (cfg_dbl DblField.power_penalty_max) = bytes "power_penalty_max"
entry_key (cfg_dbl DblField.ecc_sbe_rate_warn_per_hour) = bytes "ecc_sbe_rate_warn_per_hour"
entry_key (cfg_dbl DblField.ecc_sbe_penalty) = bytes "ecc_sbe_penalty"
entry_key (cfg_dbl DblField.ecc_dbe_penalty) = bytes "ecc_dbe_penalty"
entry_key (cfg_int IntField.retired_pages_warn) = bytes "retired_pages_warn"
entry_key (cfg_int IntField.retired_pages_bad) = bytes "retired_pages_bad"
entry_key (cfg_dbl DblField.retired_pages_pen_warn) = bytes "retired_pages_pen_warn"
entry_key (cfg_dbl DblField.retired_pages_pen_bad) = bytes "retired_pages_pen_bad"
entry_key (cfg_dbl DblField.row_remap_failure_penalty) = bytes "row_remap_failure_penalty"
entry_key (cfg_dbl DblField.pcie_link_degraded_penalty) = bytes "pcie_link_degraded_penalty"
entry_key (cfg_dbl DblField.pcie_width_degraded_penalty) = bytes "pcie_width_degraded_penalty"
entry_key (cfg_dbl DblField.perf_drop_warn) = bytes "perf_drop_warn"
entry_key (cfg_dbl DblField.perf_drop_bad) = bytes "perf_drop_bad"
entry_key (cfg_dbl DblField.perf_drop_severe) = bytes "perf_drop_severe"
entry_key (cfg_dbl DblField.perf_drop_pen_warn) = bytes "perf_drop_pen_warn"
entry_key (cfg_dbl DblField.perf_drop_pen_bad) = bytes "perf_drop_pen_bad"
entry_key (cfg_dbl DblField.perf_drop_pen_severe) = bytes "perf_drop_pen_severe"
entry_key (cfg_int IntField.probe_interval_s) = bytes "probe_interval_s"
entry_key (cfg_int IntField.probe_ttl_s) = bytes "probe_ttl_s"
entry_key (cfg_int IntField.nvml_timeout_ms) = bytes "nvml_timeout_ms"
entry_key (cfg_int IntField.nvml_error_threshold) = bytes "nvml_error_threshold"
entry_key (cfg_int IntField.nvml_hard_error_threshold) = bytes "nvml_hard_error_threshold"
entry_key (cfg_int IntField.nvml_retry_interval_s) = bytes "nvml_retry_interval_s"
entry_key (cfg_int IntField.dcgm_timeout_ms) = bytes "dcgm_timeout_ms"
entry_key (cfg_int IntField.dcgm_error_threshold) = bytes "dcgm_error_threshold"
entry_key (cfg_int IntField.dcgm_retry_interval_s) = bytes "dcgm_retry_interval_s"
entry_key (cfg_str StrField.file_sd_path) = bytes "file_sd_path"
entry_key (cfg_str StrField.tls_cert_path) = bytes "tls_cert_path"
entry_key (cfg_str StrField.tls_key_path) = bytes "tls_key_path"

-- cfg_entry_t.min and cfg_entry_t.max of the int rows
abbrev pub int_min : IntField → ℕ
int_min IntField.listen_port = 1
int_min IntField.poll_interval_s = 1
int_min IntField.window_s = 60
int_min IntField.state_write_interval_s = 1
int_min IntField.min_samples_absolute = 1
int_min IntField.retired_pages_warn = 0
int_min IntField.retired_pages_bad = 0
int_min IntField.probe_interval_s = 60
int_min IntField.probe_ttl_s = 60
int_min IntField.nvml_timeout_ms = 100
int_min IntField.nvml_error_threshold = 1
int_min IntField.nvml_hard_error_threshold = 1
int_min IntField.nvml_retry_interval_s = 1
int_min IntField.dcgm_timeout_ms = 100
int_min IntField.dcgm_error_threshold = 1
int_min IntField.dcgm_retry_interval_s = 1

abbrev pub int_max : IntField → ℕ
int_max IntField.listen_port = 65535
int_max IntField.poll_interval_s = 60
int_max IntField.window_s = 3600
int_max IntField.state_write_interval_s = 3600
int_max IntField.min_samples_absolute = 1000
int_max IntField.retired_pages_warn = 10000
int_max IntField.retired_pages_bad = 10000
int_max IntField.probe_interval_s = 604800
int_max IntField.probe_ttl_s = 604800
int_max IntField.nvml_timeout_ms = 60000
int_max IntField.nvml_error_threshold = 1000
int_max IntField.nvml_hard_error_threshold = 100
int_max IntField.nvml_retry_interval_s = 3600
int_max IntField.dcgm_timeout_ms = 60000
int_max IntField.dcgm_error_threshold = 1000
int_max IntField.dcgm_retry_interval_s = 3600

-- cfg_entry_t.maxlen: the size of the field, with its NUL
abbrev pub str_maxlen : StrField → ℕ
str_maxlen StrField.state_dir = 256
str_maxlen StrField.baseline_dir = 256
str_maxlen StrField.listen_addr = 64
str_maxlen StrField.file_sd_path = 256
str_maxlen StrField.tls_cert_path = 256
str_maxlen StrField.tls_key_path = 256

abbrev pub int_default : IntField → ℕ
int_default IntField.listen_port = 9108
int_default IntField.poll_interval_s = 1
int_default IntField.window_s = 300
int_default IntField.state_write_interval_s = 30
int_default IntField.min_samples_absolute = 10
int_default IntField.retired_pages_warn = 1
int_default IntField.retired_pages_bad = 10
int_default IntField.probe_interval_s = 86400
int_default IntField.probe_ttl_s = 129600
int_default IntField.nvml_timeout_ms = 5000
int_default IntField.nvml_error_threshold = 10
int_default IntField.nvml_hard_error_threshold = 1
int_default IntField.nvml_retry_interval_s = 60
int_default IntField.dcgm_timeout_ms = 5000
int_default IntField.dcgm_error_threshold = 10
int_default IntField.dcgm_retry_interval_s = 60

abbrev pub str_default : StrField → List ℕ
str_default StrField.state_dir = bytes "/var/run/gpu-health"
str_default StrField.baseline_dir = bytes "/etc/gpu-health/baseline"
str_default StrField.listen_addr = bytes "0.0.0.0"
str_default StrField.file_sd_path = []
str_default StrField.tls_cert_path = []
str_default StrField.tls_key_path = []

module _ {D : Type 0} ⦃d : Double D⦄ where
  -- cfg_entry_t.min and cfg_entry_t.max of the double rows
  abbrev pub dbl_min : DblField → D
  dbl_min DblField.min_sample_ratio = d.lit 0 0
  dbl_min DblField.max_median_step_s = d.lit 1 1
  dbl_min DblField.temp_p95_warn_c = d.lit 50 0
  dbl_min DblField.temp_p95_bad_c = d.lit 50 0
  dbl_min DblField.hbm_temp_p95_warn_c = d.lit 50 0
  dbl_min DblField.hbm_temp_p95_bad_c = d.lit 50 0
  dbl_min DblField.clk_std_warn_mhz = d.lit 1 0
  dbl_min DblField.power_high_ratio = d.lit 5 1
  dbl_min DblField.power_penalty_max = d.lit 0 0
  dbl_min DblField.ecc_sbe_rate_warn_per_hour = d.lit 0 0
  dbl_min DblField.ecc_sbe_penalty = d.lit 0 0
  dbl_min DblField.ecc_dbe_penalty = d.lit 0 0
  dbl_min DblField.retired_pages_pen_warn = d.lit 0 0
  dbl_min DblField.retired_pages_pen_bad = d.lit 0 0
  dbl_min DblField.row_remap_failure_penalty = d.lit 0 0
  dbl_min DblField.pcie_link_degraded_penalty = d.lit 0 0
  dbl_min DblField.pcie_width_degraded_penalty = d.lit 0 0
  dbl_min DblField.perf_drop_warn = d.lit 0 0
  dbl_min DblField.perf_drop_bad = d.lit 0 0
  dbl_min DblField.perf_drop_severe = d.lit 0 0
  dbl_min DblField.perf_drop_pen_warn = d.lit 0 0
  dbl_min DblField.perf_drop_pen_bad = d.lit 0 0
  dbl_min DblField.perf_drop_pen_severe = d.lit 0 0

  abbrev pub dbl_max : DblField → D
  dbl_max DblField.min_sample_ratio = d.lit 1 0
  dbl_max DblField.max_median_step_s = d.lit 30 0
  dbl_max DblField.temp_p95_warn_c = d.lit 120 0
  dbl_max DblField.temp_p95_bad_c = d.lit 120 0
  dbl_max DblField.hbm_temp_p95_warn_c = d.lit 120 0
  dbl_max DblField.hbm_temp_p95_bad_c = d.lit 120 0
  dbl_max DblField.clk_std_warn_mhz = d.lit 1000 0
  dbl_max DblField.power_high_ratio = d.lit 1 0
  dbl_max DblField.power_penalty_max = d.lit 100 0
  dbl_max DblField.ecc_sbe_rate_warn_per_hour = d.lit 1_000_000_000 0
  dbl_max DblField.ecc_sbe_penalty = d.lit 100 0
  dbl_max DblField.ecc_dbe_penalty = d.lit 100 0
  dbl_max DblField.retired_pages_pen_warn = d.lit 100 0
  dbl_max DblField.retired_pages_pen_bad = d.lit 100 0
  dbl_max DblField.row_remap_failure_penalty = d.lit 100 0
  dbl_max DblField.pcie_link_degraded_penalty = d.lit 100 0
  dbl_max DblField.pcie_width_degraded_penalty = d.lit 100 0
  dbl_max DblField.perf_drop_warn = d.lit 1 0
  dbl_max DblField.perf_drop_bad = d.lit 1 0
  dbl_max DblField.perf_drop_severe = d.lit 1 0
  dbl_max DblField.perf_drop_pen_warn = d.lit 100 0
  dbl_max DblField.perf_drop_pen_bad = d.lit 100 0
  dbl_max DblField.perf_drop_pen_severe = d.lit 100 0

  abbrev pub dbl_default : DblField → D
  dbl_default DblField.min_sample_ratio = d.lit 8 1
  dbl_default DblField.max_median_step_s = d.lit 25 1
  dbl_default DblField.temp_p95_warn_c = d.lit 80 0
  dbl_default DblField.temp_p95_bad_c = d.lit 90 0
  dbl_default DblField.hbm_temp_p95_warn_c = d.lit 85 0
  dbl_default DblField.hbm_temp_p95_bad_c = d.lit 95 0
  dbl_default DblField.clk_std_warn_mhz = d.lit 120 0
  dbl_default DblField.power_high_ratio = d.lit 98 2
  dbl_default DblField.power_penalty_max = d.lit 3 0
  dbl_default DblField.ecc_sbe_rate_warn_per_hour = d.lit 100 0
  dbl_default DblField.ecc_sbe_penalty = d.lit 5 0
  dbl_default DblField.ecc_dbe_penalty = d.lit 25 0
  dbl_default DblField.retired_pages_pen_warn = d.lit 5 0
  dbl_default DblField.retired_pages_pen_bad = d.lit 15 0
  dbl_default DblField.row_remap_failure_penalty = d.lit 25 0
  dbl_default DblField.pcie_link_degraded_penalty = d.lit 10 0
  dbl_default DblField.pcie_width_degraded_penalty = d.lit 15 0
  dbl_default DblField.perf_drop_warn = d.lit 3 2
  dbl_default DblField.perf_drop_bad = d.lit 7 2
  dbl_default DblField.perf_drop_severe = d.lit 12 2
  dbl_default DblField.perf_drop_pen_warn = d.lit 5 0
  dbl_default DblField.perf_drop_pen_bad = d.lit 15 0
  dbl_default DblField.perf_drop_pen_severe = d.lit 30 0

  abbrev pub cfg_defaults : Config D
  cfg_defaults = record { int = int_default; dbl = dbl_default; str = str_default }
