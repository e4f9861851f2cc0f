-- ===== src/HealthProbe/Run/Guarded.antt =====
-- A run of the probe, up to what the exporter loads.
use gpu_health_index.Prelude.{ℕ, Bool, List, [], length}
use gpu_health_index.Double.{Double}
use gpu_health_index.Http.Metrics.Family.{Printf}
use gpu_health_index.Process.FileSd.{Disk}
use gpu_health_index.HealthProbe.{Options, write_probe_file}
use gpu_health_index.HealthProbe.Run.{ProbeAnswers, flops_per_gemm, measure, perf_w_mean, workload}

module _ {D : Type 0} ⦃d : Double D⦄ (p : Printf D) (o : Options) (a : ProbeAnswers)
    (serial : List ℕ) where
  -- the samples of a run, and its time in seconds
  abbrev pub samples_of : List D
  samples_of = measure (flops_per_gemm o.matrix_n) a.intervals []

  abbrev pub duration_of : D
  duration_of = d.div (d.of_nat a.elapsed_ms) (d.lit 1000 0)

  abbrev probe_written : List D → Disk → Disk × Bool
  probe_written samples disk =
      write_probe_file p a.probe_write o.state_dir serial a.timestamp (perf_w_mean samples)
        duration_of (length samples) (workload o.matrix_n) disk
