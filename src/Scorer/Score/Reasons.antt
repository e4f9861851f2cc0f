-- ===== src/Scorer/Score/Reasons.antt =====
-- The condition of each reason, read off the SPEC of the penalties and not off the mask.
pub mod Blocks
pub mod Mask
use gpu_health_index.Prelude.{Bool, true, false, not, ◌&&◌, Option, none, some, ltb, leb}
use gpu_health_index.Double.{Double, is_nan}
use gpu_health_index.Types.{Reason}
use gpu_health_index.Config.Fields.{IntField, DblField}
use gpu_health_index.Scorer.Stats.{ring_p95, ring_stddev}
use gpu_health_index.Scorer.Penalties.{
  saturation_frac, sbe_rate, dbe_active, is_degraded, perf_drop, probe_is_stale,
}
use gpu_health_index.Scorer.Score.{Inputs}

module _ {D : Type 0} ⦃d : Double D⦄ where
  unfoldable pub above : D → D → Bool
  above top x = not (is_nan x) && d.lt top x

  unfoldable pub drop_above : D → Option D → Bool
  drop_above top none = false
  drop_above top (some drop) = d.lt top drop

  -- in the band over `low` that does not reach over `high`
  unfoldable pub between : D → D → D → Bool
  unfolding above
  between low high x = above low x && not (above high x)

  unfoldable pub drop_between : D → D → Option D → Bool
  unfolding drop_above
  drop_between low high o = drop_above low o && not (drop_above high o)

  -- When each reason applies, given that the gate passed. Of the reasons of one quantity only the
  -- gravest applies.
  unfoldable pub applies : Inputs D → Reason → Bool
  unfolding between drop_between
  applies i Reason.temp_warn =
      between (i.cfg.dbl DblField.temp_p95_warn_c) (i.cfg.dbl DblField.temp_p95_bad_c)
        (ring_p95 i.temp_heap i.ring (λ s. s.temp_c))
  applies i Reason.temp_bad =
      above (i.cfg.dbl DblField.temp_p95_bad_c) (ring_p95 i.temp_heap i.ring (λ s. s.temp_c))
  applies i Reason.hbm_temp_warn =
      between (i.cfg.dbl DblField.hbm_temp_p95_warn_c) (i.cfg.dbl DblField.hbm_temp_p95_bad_c)
        (ring_p95 i.hbm_heap i.ring (λ s. s.hbm_temp_c))
  applies i Reason.hbm_temp_bad =
      above (i.cfg.dbl DblField.hbm_temp_p95_bad_c) (ring_p95 i.hbm_heap i.ring (λ s. s.hbm_temp_c))
  applies i Reason.clk_std_high =
      above (i.cfg.dbl DblField.clk_std_warn_mhz) (ring_stddev i.ring (λ s. s.sm_clock_mhz))
  applies i Reason.power_saturation = d.lt (d.lit 0 0) (saturation_frac i.cfg i.ring)
  applies i Reason.ecc_sbe_high =
      d.lt (i.cfg.dbl DblField.ecc_sbe_rate_warn_per_hour) (sbe_rate i.ring)
  applies i Reason.ecc_dbe_active = dbe_active i.ring
  applies i Reason.perf_drop_warn =
      drop_between (i.cfg.dbl DblField.perf_drop_warn) (i.cfg.dbl DblField.perf_drop_bad)
        (perf_drop i.baseline i.probe)
      && not (drop_above (i.cfg.dbl DblField.perf_drop_severe) (perf_drop i.baseline i.probe))
  applies i Reason.perf_drop_bad =
      drop_between (i.cfg.dbl DblField.perf_drop_bad) (i.cfg.dbl DblField.perf_drop_severe)
        (perf_drop i.baseline i.probe)
  applies i Reason.perf_drop_severe =
      drop_above (i.cfg.dbl DblField.perf_drop_severe) (perf_drop i.baseline i.probe)
  applies i Reason.retired_pages_warn =
      leb (i.cfg.int IntField.retired_pages_warn) i.state.retired_pages_dbe
      && not (leb (i.cfg.int IntField.retired_pages_bad) i.state.retired_pages_dbe)
  applies i Reason.retired_pages_bad =
      leb (i.cfg.int IntField.retired_pages_bad) i.state.retired_pages_dbe
  applies i Reason.row_remap = ltb 0 i.state.row_remap_failures
  applies i Reason.pcie_gen = is_degraded i.state.pcie_link_gen i.state.pcie_link_gen_max
  applies i Reason.pcie_width = is_degraded i.state.pcie_link_width i.state.pcie_link_width_max
  applies i Reason.telemetry_incomplete = false
  applies i Reason.probe_stale = probe_is_stale i.probe
