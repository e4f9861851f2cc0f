-- ===== src/Scorer/Penalties.antt =====
-- scorer.c, the penalties of score_gpu: one function for each block that lowers the score and sets
-- a reason bit, in the order of the code.
pub mod Saturation
use Prim.Native.Nat.{bit_or}
use gpu_health_index.Prelude.{
  ℕ, zero, suc, ◌+◌, ◌-◌, ◌^◌, ◌<◌, Bool, true, false, not, ◌&&◌, Option, none, some, ltb, leb,
  if◌then◌else◌,
}
use gpu_health_index.Prelude.Int.{ℤ, pos, ltb_ℤ}
use gpu_health_index.Double.{Double, nought, is_nan}
use gpu_health_index.Types.{Sample, Ring, State, Baseline, ProbeResult, Reason, reason_flag}
use gpu_health_index.Ring.{sample_at, latest}
use gpu_health_index.Config.{Config}
use gpu_health_index.Config.Fields.{IntField, DblField}

-- the local variables `score` and `reasons`
pub record Tally (D : Type 0) : Type 0 where
  pub score : D
  pub reasons : ℕ

-- current > 0 && max > 0 && current < max
abbrev pub is_degraded : ℤ → ℤ → Bool
is_degraded current top = ltb_ℤ (pos 0) current && ltb_ℤ (pos 0) top && ltb_ℤ current top

module _ {D : Type 0} ⦃d : Double D⦄ where
  -- score -= p; reasons |= r;
  unfoldable pub penalise : D → Reason → Tally D → Tally D
  penalise p r t = record { score = d.sub t.score p; reasons = bit_or t.reasons (reason_flag r) }

  unfoldable pub temp_block : D → Config D → Tally D → Tally D
  temp_block p95 cfg t =
      if not (is_nan p95)
      then (if d.lt (cfg.dbl DblField.temp_p95_bad_c) p95
          then penalise (d.lit 25 0) Reason.temp_bad t
          else if d.lt (cfg.dbl DblField.temp_p95_warn_c) p95
          then penalise (d.lit 10 0) Reason.temp_warn t
          else t)
      else t

  unfoldable pub hbm_block : D → Config D → Tally D → Tally D
  hbm_block p95 cfg t =
      if not (is_nan p95)
      then (if d.lt (cfg.dbl DblField.hbm_temp_p95_bad_c) p95
          then penalise (d.lit 25 0) Reason.hbm_temp_bad t
          else if d.lt (cfg.dbl DblField.hbm_temp_p95_warn_c) p95
          then penalise (d.lit 10 0) Reason.hbm_temp_warn t
          else t)
      else t

  -- in proportion to the excess over the threshold, at most 15
  unfoldable pub clock_penalty : D → Config D → D
  clock_penalty clk_std cfg =
      let warn = cfg.dbl DblField.clk_std_warn_mhz in
      let penalty = d.div (d.mul (d.lit 15 0) (d.sub clk_std warn)) warn in
      if d.lt (d.lit 15 0) penalty then d.lit 15 0 else penalty

  unfoldable pub clock_block : D → Config D → Tally D → Tally D
  clock_block clk_std cfg t =
      if not (is_nan clk_std) && d.lt (cfg.dbl DblField.clk_std_warn_mhz) clk_std
      then penalise (clock_penalty clk_std cfg) Reason.clk_std_high t
      else t

  is_saturated : Config D → Sample D → Bool
  is_saturated cfg s =
      d.lt nought s.power_limit_w
      && d.le (d.mul (cfg.dbl DblField.power_high_ratio) s.power_limit_w) s.power_w

  -- the loop over the window, `n` rounds from index `i`
  count_saturated : Config D → Ring D → ℕ → ℕ → ℕ → ℕ
  unfolding is_saturated
  count_saturated cfg r zero i sat_count = sat_count
  count_saturated cfg r (suc n) i sat_count =
      count_saturated cfg r n (i + 1)
        (if is_saturated cfg (sample_at r i) then sat_count + 1 else sat_count)

  unfoldable pub saturation_frac : Config D → Ring D → D
  unfolding count_saturated
  saturation_frac cfg r = d.div (d.of_nat (count_saturated cfg r r.count 0 0)) (d.of_nat r.count)

  unfoldable pub power_penalty : D → Config D → D
  power_penalty sat_frac cfg =
      let top = cfg.dbl DblField.power_penalty_max in
      let penalty = d.mul top sat_frac in if d.lt top penalty then top else penalty

  unfoldable pub power_block : D → Config D → Tally D → Tally D
  power_block sat_frac cfg t =
      if d.lt nought sat_frac
      then penalise (power_penalty sat_frac cfg) Reason.power_saturation t
      else t

  -- Errors per hour between the first and the last sample. A counter that fell was reset.
  unfoldable pub sbe_rate : Ring D → D
  sbe_rate r =
      let first = sample_at r 0 in
      let last = latest r in
      let ts_first = d.div (d.of_nat first.timestamp_ms) (d.lit 1000 0) in
      let ts_last = d.div (d.of_nat last.timestamp_ms) (d.lit 1000 0) in
      let window_hrs = d.div (d.sub ts_last ts_first) (d.lit 3600 0) in
      let sbe_delta =
        if leb first.ecc_sbe_volatile last.ecc_sbe_volatile
        then d.of_nat (last.ecc_sbe_volatile - first.ecc_sbe_volatile)
        else nought in
      if d.lt nought window_hrs then d.div sbe_delta window_hrs else nought

  unfoldable pub dbe_active : Ring D → Bool
  dbe_active r = ltb (sample_at r 0).ecc_dbe_volatile (latest r).ecc_dbe_volatile

  unfoldable pub sbe_block : D → Config D → Tally D → Tally D
  sbe_block rate cfg t =
      if d.lt (cfg.dbl DblField.ecc_sbe_rate_warn_per_hour) rate
      then penalise (cfg.dbl DblField.ecc_sbe_penalty) Reason.ecc_sbe_high t
      else t

  unfoldable pub dbe_block : Bool → Config D → Tally D → Tally D
  dbe_block active cfg t =
      if active then penalise (cfg.dbl DblField.ecc_dbe_penalty) Reason.ecc_dbe_active t else t

  unfoldable pub retired_block : State D → Config D → Tally D → Tally D
  retired_block st cfg t =
      if leb (cfg.int IntField.retired_pages_bad) st.retired_pages_dbe
      then penalise (cfg.dbl DblField.retired_pages_pen_bad) Reason.retired_pages_bad t
      else if leb (cfg.int IntField.retired_pages_warn) st.retired_pages_dbe
      then penalise (cfg.dbl DblField.retired_pages_pen_warn) Reason.retired_pages_warn t
      else t

  unfoldable pub remap_block : State D → Config D → Tally D → Tally D
  remap_block st cfg t =
      if ltb 0 st.row_remap_failures
      then penalise (cfg.dbl DblField.row_remap_failure_penalty) Reason.row_remap t
      else t

  unfoldable pub pcie_gen_block : State D → Config D → Tally D → Tally D
  pcie_gen_block st cfg t =
      if is_degraded st.pcie_link_gen st.pcie_link_gen_max
      then penalise (cfg.dbl DblField.pcie_link_degraded_penalty) Reason.pcie_gen t
      else t

  unfoldable pub pcie_width_block : State D → Config D → Tally D → Tally D
  pcie_width_block st cfg t =
      if is_degraded st.pcie_link_width st.pcie_link_width_max
      then penalise (cfg.dbl DblField.pcie_width_degraded_penalty) Reason.pcie_width t
      else t

  drop_of : Baseline D → ProbeResult D → Option D
  drop_of b p =
      let drop = d.div (d.sub b.perf_w_mean p.perf_w_mean) b.perf_w_mean in
      if b.available
        && b.valid
        && d.lt nought b.perf_w_mean
        && p.available
        && not p.stale
        && d.lt nought p.perf_w_mean
      then some (if d.lt drop nought then nought else drop)
      else none

  -- The drop against the baseline, where both are there and fresh. `none` is a NULL pointer.
  unfoldable pub perf_drop : Option (Baseline D) → Option (ProbeResult D) → Option D
  unfolding drop_of
  perf_drop (some b) (some p) = drop_of b p
  perf_drop _ _ = none

  unfoldable pub perf_block : Option D → Config D → Tally D → Tally D
  perf_block none cfg t = t
  perf_block (some drop) cfg t =
      if d.lt (cfg.dbl DblField.perf_drop_severe) drop
      then penalise (cfg.dbl DblField.perf_drop_pen_severe) Reason.perf_drop_severe t
      else if d.lt (cfg.dbl DblField.perf_drop_bad) drop
      then penalise (cfg.dbl DblField.perf_drop_pen_bad) Reason.perf_drop_bad t
      else if d.lt (cfg.dbl DblField.perf_drop_warn) drop
      then penalise (cfg.dbl DblField.perf_drop_pen_warn) Reason.perf_drop_warn t
      else t

  unfoldable pub probe_is_stale : Option (ProbeResult D) → Bool
  probe_is_stale none = false
  probe_is_stale (some p) = p.stale

  -- the only block that sets a bit and takes no points
  unfoldable pub stale_block : Bool → Tally D → Tally D
  stale_block stale t =
      if stale then record t { reasons = bit_or t.reasons (reason_flag Reason.probe_stale) } else t
