-- ===== src/Http/Metrics/Health.antt =====
-- http.c, the families of render_metrics: identity, score, statistics, temperatures and power.
use gpu_health_index.Prelude.{none, some, List, [], ◌∷◌, if◌then◌else◌}
use gpu_health_index.Prelude.Int.{ℤ, pos, ltb_ℤ}
use gpu_health_index.Double.{Double}
use gpu_health_index.Types.{GpuClass, IdentitySource}
use gpu_health_index.Config.Table.{bytes}
use gpu_health_index.Http.Metrics.Family.{
  Family, gauge, counter, flag, integer, unsigned, fixed, nan_aware, ratio,
}

-- the C values of the two enumerations
abbrev pub class_code : GpuClass → ℤ
class_code GpuClass.na = pos 0
class_code GpuClass.healthy = pos 1
class_code GpuClass.monitor = pos 2
class_code GpuClass.degrading = pos 3
class_code GpuClass.decommission = pos 4

abbrev pub identity_code : IdentitySource → ℤ
identity_code IdentitySource.serial_number = pos 0
identity_code IdentitySource.uuid_fallback = pos 1

module _ {D : Type 0} ⦃d : Double D⦄ where
  unfoldable pub identity_families : List (Family D)
  identity_families =
      gauge "gpu_identity_source"
        "Identity source used for metric labels (0=serial, 1=uuid_fallback)"
        (λ s. integer (identity_code s.identity_source))
      ∷ []

  unfoldable pub score_families : List (Family D)
  score_families =
      gauge "gpu_health_score"
        "GPU health score (0=worst, 100=fully healthy); N/A class when telemetry_ok=0"
        (λ s. fixed 2 s.score)
      ∷ gauge "gpu_health_class"
          "Health classification: 0=N/A 1=Healthy 2=Monitor 3=Degrading 4=Decommission"
          (λ s. integer (class_code s.classification))
      ∷ gauge "gpu_telemetry_ok" "1 if telemetry completeness gate passed and score is valid"
          (λ s. flag s.telemetry_ok)
      ∷ []

  unfoldable pub ring_statistics_families : List (Family D)
  ring_statistics_families =
      gauge "gpu_temp_p95_celsius" "GPU die temperature p95 over scoring window (Celsius)"
        (λ s. fixed 2 s.temp_p95_c)
      ∷ gauge "gpu_hbm_temp_p95_celsius" "HBM temperature p95 over scoring window (Celsius)"
          (λ s. fixed 2 s.hbm_temp_p95_c)
      ∷ gauge "gpu_sm_clock_std_mhz" "SM clock standard deviation over scoring window (MHz)"
          (λ s. fixed 2 s.clk_std_mhz)
      ∷ gauge "gpu_power_saturation_ratio"
          "Fraction of scoring window where power >= high_ratio * limit"
          (λ s. fixed 4 s.power_saturation_frac)
      ∷ gauge "gpu_ecc_sbe_rate_per_hour"
          "ECC single-bit error rate over scoring window (errors/hour)"
          (λ s. fixed 2 s.ecc_sbe_rate_per_hour)
      ∷ gauge "gpu_ecc_dbe_in_window"
          "1 if any ECC double-bit error delta was observed in the scoring window"
          (λ s. flag s.ecc_dbe_in_window)
      ∷ []

  unfoldable pub thermal_families : List (Family D)
  thermal_families =
      gauge "gpu_temp_celsius" "GPU die temperature current value (Celsius)" (λ s. fixed 1 s.temp_c)
      ∷ gauge "gpu_hbm_temp_celsius" "HBM temperature current value (Celsius)"
          (λ s. fixed 1 s.hbm_temp_c)
      ∷ record {
        name = bytes "gpu_fan_speed_ratio";
        kind = bytes "gauge";
        help = bytes "Fan speed as a fraction (0.0-1.0); absent for liquid-cooled GPUs";
        value = λ s.
            if ltb_ℤ s.fan_speed_pct (pos 0) then none else some (ratio (d.of_int s.fan_speed_pct));
      }
      ∷ []

  unfoldable pub power_families : List (Family D)
  power_families =
      gauge "gpu_power_watts" "Current GPU power draw (Watts)" (λ s. fixed 2 s.power_w)
      ∷ gauge "gpu_power_limit_watts" "Current power management limit (Watts)"
          (λ s. fixed 2 s.power_limit_w)
      ∷ gauge "gpu_board_power_watts" "Total board power draw (Watts); NaN if DCGM unavailable"
          (λ s. nan_aware s.board_power_w)
      ∷ counter "gpu_energy_joules_total" "Total energy consumed (Joules); NaN if DCGM unavailable"
          (λ s. nan_aware s.energy_j)
      ∷ counter "gpu_power_violation_microseconds_total"
          "Cumulative power violation time (microseconds); 0 if DCGM unavailable"
          (λ s. unsigned s.power_violation_us)
      ∷ counter "gpu_thermal_violation_microseconds_total"
          "Cumulative thermal violation time (microseconds); 0 if DCGM unavailable"
          (λ s. unsigned s.thermal_violation_us)
      ∷ gauge "gpu_throttle_sw_power_cap" "1 if software power cap throttle is active"
          (λ s. flag s.throttle_sw_power_cap)
      ∷ gauge "gpu_throttle_hw_slowdown" "1 if hardware thermal slowdown throttle is active"
          (λ s. flag s.throttle_hw_slowdown)
      ∷ gauge "gpu_throttle_hw_power_brake" "1 if hardware power brake throttle is active"
          (λ s. flag s.throttle_hw_power_brake)
      ∷ gauge "gpu_throttle_sw_thermal" "1 if software thermal throttle is active"
          (λ s. flag s.throttle_sw_thermal)
      ∷ gauge "gpu_throttle_hw_thermal" "1 if hardware thermal throttle is active"
          (λ s. flag s.throttle_hw_thermal)
      ∷ []
