-- ===== src/Http/Metrics/Operation.antt =====
-- http.c, the families of render_metrics: the files, and the exporter itself.
use gpu_health_index.Prelude.{List, [], ◌∷◌}
use gpu_health_index.Double.{Double}
use gpu_health_index.Http.Metrics.Family.{Family, gauge, counter, flag, unsigned, fixed, nan_aware}

module _ {D : Type 0} ⦃d : Double D⦄ where
  unfoldable pub files_families : List (Family D)
  files_families =
      gauge "gpu_baseline_available" "1 if a baseline file is present and parseable"
        (λ s. flag s.baseline_available)
      ∷ gauge "gpu_baseline_valid" "1 if the baseline passed all validation checks"
          (λ s. flag s.baseline_valid)
      ∷ gauge "gpu_baseline_serial_mismatch"
          "1 if the baseline file serial does not match the device serial (hard fault)"
          (λ s. flag s.baseline_serial_mismatch)
      ∷ gauge "gpu_baseline_driver_mismatch"
          "1 if the driver version changed since the baseline was established (soft warning)"
          (λ s. flag s.baseline_driver_mismatch)
      ∷ gauge "gpu_baseline_age_seconds"
          "Seconds since the baseline was established (0 if baseline unavailable)"
          (λ s. unsigned s.baseline_age_s)
      ∷ gauge "gpu_probe_available" "1 if a probe result file is present and parseable"
          (λ s. flag s.probe_available)
      ∷ gauge "gpu_probe_result_stale" "1 if the probe result is older than the configured TTL"
          (λ s. flag s.probe_stale)
      ∷ gauge "gpu_perf_drop_ratio"
          "Performance/Watt drop relative to baseline (0.0=no drop); NaN if baseline or probe unavailable"
          (λ s. nan_aware s.perf_drop_frac)
      ∷ []

  unfoldable pub operation_families : List (Family D)
  operation_families =
      gauge "gpu_dcgm_available" "1 if DCGM is connected and responding"
        (λ s. flag s.dcgm_available)
      ∷ gauge "gpu_health_last_poll_timestamp"
          "Unix timestamp (seconds) of the last successful poll cycle for this GPU"
          (λ s. fixed 3 (d.div (d.of_nat s.last_poll_ms) (d.lit 1000 0)))
      ∷ gauge "gpu_present" "1 if the GPU device is still visible; 0 if it disappeared mid-run"
          (λ s. flag s.gpu_present)
      ∷ gauge "gpu_available" "1 if NVML is responding for this GPU; 0 if above error threshold"
          (λ s. flag s.gpu_available)
      ∷ counter "gpu_health_collector_errors_total" "Cumulative NVML call errors for this GPU"
          (λ s. unsigned s.collector_errors_total)
      ∷ []
