-- ===== src/Scorer/Score.antt =====
-- scorer.c: score_gpu.
pub mod Range
pub mod Loaded
pub mod Reasons
pub mod Classes
use gpu_health_index.Prelude.{ℕ, Bool, true, false, Option, none, some, if◌then◌else◌}
use gpu_health_index.Double.{Double, nought}
use gpu_health_index.Types.{
  Sample, Ring, State, Baseline, ProbeResult, ScoreResult, Reason, reason_flag, GpuClass, na,
  healthy, monitor, degrading, decommission,
}
use gpu_health_index.Config.{Config}
use gpu_health_index.Scorer.Stats.{ring_p95, ring_stddev}
use gpu_health_index.Scorer.Gate.{completeness_gate}
use gpu_health_index.Scorer.Penalties.{
  Tally, temp_block, hbm_block, clock_block, saturation_frac, power_block, sbe_rate, sbe_block,
  dbe_active, dbe_block, retired_block, remap_block, pcie_gen_block, pcie_width_block, perf_drop,
  perf_block, probe_is_stale, stale_block,
}

-- The arguments of score_gpu. `temp_heap` and `hbm_heap` are whether malloc succeeds in the two
-- calls of ring_p95.
pub record Inputs (D : Type 0) : Type 0 where
  pub ring : Ring D
  pub state : State D
  pub baseline : Option (Baseline D)
  pub probe : Option (ProbeResult D)
  pub cfg : Config D
  pub temp_heap : Bool
  pub hbm_heap : Bool

module _ {D : Type 0} ⦃d : Double D⦄ where
  unfoldable pub classify : D → GpuClass
  classify score =
      if d.le (d.lit 85 0) score
      then healthy
      else if d.le (d.lit 70 0) score
      then monitor
      else if d.le (d.lit 50 0) score
      then degrading
      else decommission

  incomplete : ScoreResult D
  incomplete = record {
    score = nought;
    classification = na;
    reason_mask = reason_flag Reason.telemetry_incomplete;
    telemetry_ok = false;
    temp_p95_c = nought;
    hbm_temp_p95_c = nought;
    clk_std_mhz = nought;
    power_saturation_frac = nought;
    ecc_sbe_rate_per_hour = nought;
    ecc_dbe_in_window = false;
    perf_drop_frac = d.nan;
  }

  -- the blocks in order, from a score of 100 and no reasons
  unfoldable pub tally : Inputs D → Tally D
  tally i =
      let t : Tally D = record { score = d.lit 100 0; reasons = 0 } in
      let t = temp_block (ring_p95 i.temp_heap i.ring (λ s. s.temp_c)) i.cfg t in
      let t = hbm_block (ring_p95 i.hbm_heap i.ring (λ s. s.hbm_temp_c)) i.cfg t in
      let t = clock_block (ring_stddev i.ring (λ s. s.sm_clock_mhz)) i.cfg t in
      let t = power_block (saturation_frac i.cfg i.ring) i.cfg t in
      let t = sbe_block (sbe_rate i.ring) i.cfg t in
      let t = dbe_block (dbe_active i.ring) i.cfg t in
      let t = retired_block i.state i.cfg t in
      let t = remap_block i.state i.cfg t in
      let t = pcie_gen_block i.state i.cfg t in
      let t = pcie_width_block i.state i.cfg t in
      let t = perf_block (perf_drop i.baseline i.probe) i.cfg t in
      stale_block (probe_is_stale i.probe) t

  unfoldable pub clamp_score : D → D
  clamp_score score = if d.lt score nought then nought else score

  drop_or_nan : Option D → D
  drop_or_nan none = d.nan
  drop_or_nan (some drop) = drop

  complete : Inputs D → ScoreResult D
  unfolding tally classify clamp_score drop_or_nan
  complete i =
      let t = tally i in
      let score = clamp_score t.score in
      record {
        score = score;
        classification = classify score;
        reason_mask = t.reasons;
        telemetry_ok = true;
        temp_p95_c = ring_p95 i.temp_heap i.ring (λ s. s.temp_c);
        hbm_temp_p95_c = ring_p95 i.hbm_heap i.ring (λ s. s.hbm_temp_c);
        clk_std_mhz = ring_stddev i.ring (λ s. s.sm_clock_mhz);
        power_saturation_frac = saturation_frac i.cfg i.ring;
        ecc_sbe_rate_per_hour = sbe_rate i.ring;
        ecc_dbe_in_window = dbe_active i.ring;
        perf_drop_frac = drop_or_nan (perf_drop i.baseline i.probe);
      }

  unfoldable pub score_gpu : Inputs D → ScoreResult D
  unfolding incomplete complete
  score_gpu i = if completeness_gate i.ring i.cfg then complete i else incomplete
