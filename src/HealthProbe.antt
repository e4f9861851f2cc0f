-- ===== src/HealthProbe.antt =====
-- probe/gpu_health_probe.cu: the two files that the probe writes, its options, the samples of the
-- measurement and main. What NVML, CUDA, the clock and the file system answer is an argument, and so
-- is how printf writes a `double`.
pub mod Lines
pub mod Keys
pub mod ProbeFile
pub mod BaselineFile
pub mod Run
use gpu_health_index.Prelude.{
  ℕ, ◌+◌, Bool, true, false, not, ◌&&◌, ◌||◌, Option, none, some, List, [], ◌∷◌, ◌++◌, take, length,
  ltb, if◌then◌else◌,
}
use gpu_health_index.Prelude.Int.{ℤ, pos, ltb_ℤ}
use gpu_health_index.Double.{Double, nought}
use gpu_health_index.Util.{same_string, is_empty}
use gpu_health_index.Util.Numbers.{strtol}
use gpu_health_index.Config.Table.{bytes}
use gpu_health_index.Http.Buffer.{concat}
use gpu_health_index.Http.Reply.{decimal}
use gpu_health_index.Http.Metrics.Family.{Printf, signed_decimal}
use gpu_health_index.Process.FileSd.{Disk, put}
use gpu_health_index.Process.Identity.{or_else}

-- the text of one call of fprintf: a key, '=', a value and the newline
abbrev pub key_value : List ℕ → List ℕ → List ℕ
key_value key val = (key ++ 61 ∷ val) ++ 10 ∷ []

abbrev pub probe_path : List ℕ → List ℕ → List ℕ
probe_path state_dir serial = take 511 (state_dir ++ (47 ∷ (serial ++ bytes ".probe")))

abbrev pub baseline_path : List ℕ → List ℕ → List ℕ
baseline_path baseline_dir serial = take 511 (baseline_dir ++ (47 ∷ serial))

-- fopen; how many bytes of the text reach the file, which no call checks; rename; unlink
pub record WriteAnswers : Type 0 where
  pub opens : Bool
  pub reach : ℕ
  pub renames : Bool
  pub unlinks : Bool

-- Write to the temporary file and rename it; whether 0 is returned.
unfoldable pub write_file : WriteAnswers → List ℕ → List ℕ → List ℕ → Disk → Disk × Bool
unfolding put
write_file a path tmp text disk =
    let disk' = put tmp (some (take a.reach text)) disk in
    if not a.opens
    then (disk, false)
    else if a.renames
    then (put path (some (take a.reach text)) (put tmp none disk'), true)
    else ((if a.unlinks then put tmp none disk' else disk'), false)

module _ {D : Type 0} (p : Printf D) where
  unfoldable pub probe_text : List ℕ → List ℕ → D → D → ℕ → List ℕ → List (List ℕ)
  unfolding decimal
  probe_text serial timestamp perf_w_mean duration_s sample_count workload =
      (bytes "# Written by gpu_health_probe 0.1.0" ++ 10 ∷ [])
      ∷ key_value (bytes "serial") serial
      ∷ key_value (bytes "probe_timestamp") timestamp
      ∷ key_value (bytes "probe_duration_s") (p.fixed 3 duration_s)
      ∷ key_value (bytes "perf_w_mean") (p.fixed 6 perf_w_mean)
      ∷ key_value (bytes "workload") workload
      ∷ key_value (bytes "sample_count") (decimal sample_count)
      ∷ key_value (bytes "probe_exit_code") (bytes "0")
      ∷ []

  -- a line of a text that may be missing
  unfoldable pub unless_empty : List ℕ → List ℕ → List (List ℕ) → List (List ℕ)
  unless_empty key val rest = if is_empty val then rest else key_value key val ∷ rest

  unfoldable pub baseline_text : List ℕ → List ℕ → List ℕ → List ℕ → D → ℕ → List ℕ → List (List ℕ)
  unfolding unless_empty decimal
  baseline_text serial uuid driver_version timestamp perf_w_mean sample_count workload =
      (bytes "# Written by gpu_health_probe 0.1.0 --establish-baseline" ++ 10 ∷ [])
      ∷ key_value (bytes "serial") serial
      ∷ unless_empty (bytes "uuid") uuid (
          unless_empty (bytes "driver_version") driver_version (
            key_value (bytes "perf_w_mean") (p.fixed 6 perf_w_mean)
            ∷ key_value (bytes "established_at") timestamp
            ∷ key_value (bytes "workload") workload
            ∷ key_value (bytes "sample_count") (decimal sample_count)
            ∷ []))

  unfoldable pub write_probe_file :
      WriteAnswers → List ℕ → List ℕ → List ℕ → D → D → ℕ → List ℕ → Disk → Disk × Bool
  unfolding write_file probe_text
  write_probe_file a state_dir serial timestamp perf_w_mean duration_s sample_count workload disk =
      write_file a (probe_path state_dir serial)
        (take 519 (state_dir ++ (47 ∷ (serial ++ bytes ".probe.tmp"))))
        (concat (probe_text serial timestamp perf_w_mean duration_s sample_count workload)) disk

  unfoldable pub write_baseline_file :
      WriteAnswers
      → List ℕ
      → List ℕ
      → List ℕ
      → List ℕ
      → List ℕ
      → D
      → ℕ
      → List ℕ
      → Disk
      → Disk × Bool
  unfolding write_file baseline_text
  write_baseline_file a baseline_dir serial uuid driver_version timestamp perf_w_mean sample_count
        workload disk =
      write_file a (baseline_path baseline_dir serial)
        (take 519 (baseline_dir ++ (47 ∷ (serial ++ bytes ".tmp"))))
        (concat
          (baseline_text serial uuid driver_version timestamp perf_w_mean sample_count workload))
        disk

pub record Options : Type 0 where
  pub gpu_index : ℤ
  pub state_dir : List ℕ
  pub baseline_dir : List ℕ
  pub duration_s : ℤ
  pub warmup_s : ℤ
  pub matrix_n : ℤ
  pub establish_baseline : Bool
  pub dry_run : Bool

abbrev pub default_options : Options
default_options = record {
  gpu_index = pos 0;
  state_dir = bytes "/var/run/gpu-health";
  baseline_dir = bytes "/etc/gpu-health/baseline";
  duration_s = pos 300;
  warmup_s = pos 30;
  matrix_n = pos 8192;
  establish_baseline = false;
  dry_run = false;
}

-- atoi, of a text in the range of a long
unfoldable pub atoi : List ℕ → ℤ
unfolding strtol
atoi s = value (strtol s)
  where
    value : Option (ℤ × List ℕ) → ℤ
    value none = pos 0
    value (some (v, rest)) = v

-- an option with its value
unfoldable pub with_value : List ℕ → List ℕ → Options → Option Options
unfolding same_string atoi
with_value arg val o =
    if same_string arg (bytes "-i")
    then some (record o { gpu_index = atoi val })
    else if same_string arg (bytes "-s")
    then some (record o { state_dir = val })
    else if same_string arg (bytes "-b")
    then some (record o { baseline_dir = val })
    else if same_string arg (bytes "-d")
    then some (record o { duration_s = atoi val })
    else if same_string arg (bytes "-w")
    then some (record o { warmup_s = atoi val })
    else if same_string arg (bytes "-n")
    then some (record o { matrix_n = atoi val })
    else none

-- an option without one; else the exit code
unfoldable pub alone : List ℕ → Options → Option Options × ℕ
unfolding same_string
alone arg o =
    if same_string arg (bytes "--establish-baseline")
    then (some (record o { establish_baseline = true }), 0)
    else if same_string arg (bytes "--dry-run")
    then (some (record o { dry_run = true }), 0)
    else if same_string arg (bytes "-h") || same_string arg (bytes "--help")
    then (none, 0)
    else (none, 1)
