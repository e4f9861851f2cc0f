-- ===== src/HealthProbe/Run.antt =====
-- probe/gpu_health_probe.cu: main. The intervals of the measurement, as the clock closes them, and the
-- answers of NVML and CUDA are arguments.
pub mod Guarded
use gpu_health_index.Prelude.{
  ℕ, ◌^◌, Bool, true, false, not, ◌&&◌, ◌||◌, Option, none, some, List, [], ◌∷◌, ◌++◌, take, length,
  ltb, if◌then◌else◌,
}
use gpu_health_index.Prelude.Int.{ℤ, pos, ltb_ℤ}
use gpu_health_index.Double.{Double, nought}
use gpu_health_index.Config.Table.{bytes}
use gpu_health_index.Http.Metrics.Family.{Printf, signed_decimal}
use gpu_health_index.Process.FileSd.{Disk}
use gpu_health_index.Process.Identity.{or_else}
use gpu_health_index.HealthProbe.{
  WriteAnswers, write_probe_file, write_baseline_file, Options, default_options, with_value, alone,
}

-- The loop over argv: the options, or the exit code.
unfoldable pub parse_options : List (List ℕ) → Options → Option Options × ℕ
unfolding with_value alone
parse_options [] o = (some o, 0)
parse_options (arg ∷ []) o = alone arg o
parse_options (arg ∷ val ∷ rest) o =
    let past = parse_options rest (or_else (with_value arg val o) o) in
    let next = parse_options (val ∷ rest) (or_else (alone arg o).0 o) in
    elim (with_value arg val o) [
      | some _ ↦ past
      | none ↦ elim (alone arg o).0 [ some _ ↦ next | none ↦ alone arg o ]
    ]

-- An interval of the measurement: the GEMMs in it, its length, and the answer to
-- nvmlDeviceGetPowerUsage.
pub record Interval : Type 0 where
  pub iterations : ℕ
  pub elapsed_ms : ℕ
  pub power_mw : Option ℕ

-- Whether nvmlInit_v2 and the handle succeed; the texts of NVML; whether all checked calls of CUDA
-- and cuBLAS succeed; the intervals, the whole time, and the time of day; and the two files.
pub record ProbeAnswers : Type 0 where
  pub nvml_ok : Bool
  pub serial : Option (List ℕ)
  pub uuid : Option (List ℕ)
  pub driver : Option (List ℕ)
  pub cuda_ok : Bool
  pub intervals : List Interval
  pub elapsed_ms : ℕ
  pub timestamp : List ℕ
  pub probe_write : WriteAnswers
  pub baseline_write : WriteAnswers

module _ {D : Type 0} ⦃d : Double D⦄ where
  unfoldable pub flops_per_gemm : ℤ → D
  flops_per_gemm n = d.mul (d.mul (d.mul (d.lit 2 0) (d.of_int n)) (d.of_int n)) (d.of_int n)

  -- The measurement: MIN_POWER_W is 10.0, MAX_SAMPLES is 4096, and a failing call leaves power_mw 0.
  unfoldable pub measure : D → List Interval → List D → List D
  measure flops [] samples = samples
  measure flops (i ∷ is) samples =
      let elapsed_s = d.div (d.of_nat i.elapsed_ms) (d.lit 1000 0) in
      let tflops =
        d.div (d.div (d.mul flops (d.of_nat i.iterations)) (d.lit (10 ^ 12) 0)) elapsed_s in
      let power_w = d.div (d.of_nat (or_else i.power_mw 0)) (d.lit 1000 0) in
      measure flops is (
        if d.le (d.lit 10 0) power_w && ltb (length samples) 4096
        then samples ++ d.div tflops power_w ∷ []
        else samples)

  unfoldable pub sum_from : D → List D → D
  sum_from acc [] = acc
  sum_from acc (x ∷ xs) = sum_from (d.add acc x) xs

  unfoldable pub perf_w_mean : List D → D
  unfolding sum_from
  perf_w_mean samples = d.div (sum_from nought samples) (d.of_nat (length samples))

-- the workload of both files, in a buffer of 64 bytes
unfoldable pub workload : ℤ → List ℕ
unfolding signed_decimal
workload n = take 63 (bytes "bf16_gemm_" ++ (signed_decimal n ++ bytes "_tflops_per_w"))

-- an exit code after the baseline file
abbrev pub baseline_code : Disk × Bool → Disk × ℕ
baseline_code (disk, ok) = (disk, if ok then 0 else 3)

module _ {D : Type 0} ⦃d : Double D⦄ (p : Printf D) where
  -- the baseline, once the probe file is there
  abbrev pub with_probe_file : Options → ProbeAnswers → List ℕ → List D → Disk × Bool → Disk × ℕ
  with_probe_file o a serial samples (disk, false) = (disk, 3)
  with_probe_file o a serial samples (disk, true) =
      if o.establish_baseline
      then baseline_code (
          write_baseline_file p a.baseline_write o.baseline_dir serial (or_else a.uuid [])
            (or_else a.driver []) a.timestamp (perf_w_mean samples) (length samples)
            (workload o.matrix_n) disk)
      else (disk, 0)

  -- MIN_VALID_SAMPLES is 5
  unfoldable pub write_results : Options → ProbeAnswers → List ℕ → List D → Disk → Disk × ℕ
  unfolding write_probe_file write_baseline_file perf_w_mean workload
  write_results o a serial samples disk =
      if ltb (length samples) 5
      then (disk, 1)
      else if o.dry_run
      then (disk, 0)
      else with_probe_file o a serial samples (
          write_probe_file p a.probe_write o.state_dir serial a.timestamp (perf_w_mean samples)
            (d.div (d.of_nat a.elapsed_ms) (d.lit 1000 0)) (length samples) (workload o.matrix_n)
            disk)

  abbrev pub with_serial : Options → ProbeAnswers → Option (List ℕ) → Disk → Disk × ℕ
  with_serial o a none disk = (disk, 2)
  with_serial o a (some serial) disk =
      if not a.cuda_ok
      then (disk, 1)
      else write_results o a serial (measure (flops_per_gemm o.matrix_n) a.intervals []) disk

  abbrev pub with_options : Option Options × ℕ → ProbeAnswers → Disk → Disk × ℕ
  with_options (none, code) a disk = (disk, code)
  with_options (some o, code) a disk =
      if ltb_ℤ o.duration_s (pos 10)
      then (disk, 1)
      else if ltb_ℤ o.matrix_n (pos 512) || ltb_ℤ (pos 32768) o.matrix_n
      then (disk, 1)
      else if o.establish_baseline && o.dry_run
      then (disk, 1)
      else if not a.nvml_ok
      then (disk, 2)
      else with_serial o a a.serial disk

  -- The files after a run, and the exit code.
  unfoldable pub probe_main : List (List ℕ) → ProbeAnswers → Disk → Disk × ℕ
  unfolding parse_options write_results measure flops_per_gemm
  probe_main args a disk = with_options (parse_options args default_options) a disk
