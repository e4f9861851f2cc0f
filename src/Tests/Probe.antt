-- ===== src/Tests/Probe.antt =====
-- A run of the probe, and the files that it leaves.
use gpu_health_index.Prelude.{
  ℕ, zero, suc, ◌+◌, ◌-◌, ◌/◌, ◌%◌, ◌^◌, ◌≤◌, ◌≡◌, refl, not, true, Option, none, some, List, [],
  ◌∷◌, ◌++◌, length, arith,
}
use gpu_health_index.Prelude.Int.{ℤ, pos, negsuc}
use gpu_health_index.Double.{nought}
use gpu_health_index.Double.Fixed.{Fixed, fixed_double, strtod_fixed}
use gpu_health_index.Config.Table.{bytes}
use gpu_health_index.Util.Numbers.{parse_double}
use gpu_health_index.State.{parse_iso8601}
use gpu_health_index.State.Baseline.{baseline_load}
use gpu_health_index.Http.Buffer.{concat}
use gpu_health_index.Http.Reply.{decimal}
use gpu_health_index.Http.Metrics.Family.{Printf}
use gpu_health_index.Process.FileSd.{Disk}
use gpu_health_index.HealthProbe.{
  WriteAnswers, Options, default_options, baseline_text, baseline_path, write_baseline_file,
  write_file, unless_empty,
}
use gpu_health_index.HealthProbe.Lines.{is_visible}
use gpu_health_index.HealthProbe.ProbeFile
use gpu_health_index.HealthProbe.BaselineFile
use gpu_health_index.HealthProbe.BaselineFile.{write_baseline_file-loads}
use gpu_health_index.HealthProbe.Run.{
  Interval, ProbeAnswers, measure, flops_per_gemm, sum_from, perf_w_mean,
}
use gpu_health_index.HealthProbe.Run.Guarded.{samples_of}

abbrev places : ℕ → ℕ → List ℕ
places zero n = []
places (suc k) n = (48 + n / 10 ^ k % 10) ∷ places k n

abbrev printed : ℕ → Fixed → List ℕ
printed k none = bytes "nan"
printed k (some (negsuc n)) = bytes "-1"
printed k (some (pos n)) = decimal (n / 10 ^ 6) ++ 46 ∷ places k (n % 10 ^ 6 / 10 ^ (6 - k))

abbrev printf : Printf Fixed
printf = record { fixed = printed; general = printed 6 }

abbrev clock : List ℕ → Option (ℤ × List ℕ)
clock s = some (pos 1_773_584_520, [])

abbrev args : List (List ℕ)
args = bytes "-n" ∷ bytes "512" ∷ bytes "-s" ∷ bytes "/run/x" ∷ []

abbrev options : Options
options = record default_options { matrix_n = pos 512; state_dir = bytes "/run/x" }

abbrev interval : Interval
interval = record { iterations = 100_000; elapsed_ms = 1000; power_mw = some 250_000 }

abbrev good_write : WriteAnswers
good_write = record { opens = true; reach = 4096; renames = true; unlinks = true }

-- six intervals, of which the third has no power reading
abbrev answers : ProbeAnswers
answers = record {
  nvml_ok = true;
  serial = some (bytes "1650");
  uuid = some (bytes "GPU-7");
  driver = none;
  cuda_ok = true;
  intervals =
      interval
      ∷ interval
      ∷ record interval { power_mw = none }
      ∷ interval
      ∷ interval
      ∷ interval
      ∷ [];
  elapsed_ms = 6_020;
  timestamp = bytes "2026-03-15T14:22:00Z";
  probe_write = good_write;
  baseline_write = good_write;
}

abbrev no_files : Disk
no_files path = none

abbrev samples : List Fixed
samples = samples_of printf options answers (bytes "1650")

abbrev mean : Fixed
mean = perf_w_mean samples

abbrev read_mean : Fixed
read_mean = some (pos 107_374)

mean_lem : (mean ≡ read_mean) × (length samples ≡ 5)
unfolding measure flops_per_gemm perf_w_mean sum_from
mean_lem = (refl, refl)

abbrev time_read : ℕ
time_read = 1_773_584_520

baseline_IsWritable :
    BaselineFile.IsWritable clock printf
      (bytes "1650")
      (bytes "GPU-7")
      []
      answers.timestamp
      (bytes "gemm")
      read_mean
      60
      read_mean
      time_read
unfolding decimal is_visible parse_double strtod_fixed parse_iso8601
baseline_IsWritable = record {
  serial_short = (refl, omega arith);
  serial_fits = omega arith;
  uuid_short = (refl, omega arith);
  driver_short = (refl, omega arith);
  timestamp_short = (refl, omega arith);
  workload_short = (refl, omega arith);
  mean_short = (refl, omega arith);
  mean_reads = refl;
  time_reads = refl;
  time_set = λ h. omega (arith, h);
  count_positive = omega arith;
  count_bound = omega arith;
}

baseline_written :
    (write_baseline_file printf good_write
      (bytes "/etc")
      (bytes "1650")
      (bytes "GPU-7")
      []
      answers.timestamp
      read_mean
      60
      (bytes "gemm")
      no_files).1
    ≡ true
unfolding write_baseline_file write_file
baseline_written = refl

baseline_reaches :
    length (
      concat (
        baseline_text printf
          (bytes "1650")
          (bytes "GPU-7")
          []
          answers.timestamp
          read_mean
          60
          (bytes "gemm")))
    ≤ good_write.reach
unfolding decimal baseline_text unless_empty
baseline_reaches = omega arith

write_baseline_file-loads_example :
    baseline_load clock
      ((write_baseline_file printf good_write
          (bytes "/etc")
          (bytes "1650")
          (bytes "GPU-7")
          []
          answers.timestamp
          read_mean
          60
          (bytes "gemm")
          no_files).0
        (baseline_path (bytes "/etc") (bytes "1650")))
      (bytes "1650")
    ≡ record (BaselineFile.written_baseline clock printf
        (bytes "1650")
        (bytes "GPU-7")
        []
        answers.timestamp
        (bytes "gemm")
        read_mean
        60
        read_mean
        time_read) { valid = not (fixed_double.le read_mean nought) }
write_baseline_file-loads_example =
    write_baseline_file-loads clock printf (bytes "1650") (bytes "GPU-7") [] answers.timestamp
      (bytes "gemm") read_mean 60 read_mean time_read good_write (bytes "/etc") no_files
      baseline_IsWritable baseline_written baseline_reaches
