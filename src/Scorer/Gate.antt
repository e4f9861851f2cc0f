-- ===== src/Scorer/Gate.antt =====
-- scorer.c: completeness_gate.
pub mod Clock
use gpu_health_index.Prelude.{
  ℕ, ◌+◌, ◌-◌, ◌/◌, ◌%◌, ◌^◌, Bool, true, false, List, ltb, ◌==◌, if◌then◌else◌, get_or,
}
use gpu_health_index.Double.{Double, nought}
use gpu_health_index.Types.{Ring}
use gpu_health_index.Ring.{sample_at}
use gpu_health_index.Ring.Window.{tabulate}
use gpu_health_index.Config.{Config}
use gpu_health_index.Config.Fields.{IntField, DblField}
use gpu_health_index.Scorer.Stats.Sort.{qsort}

-- the entries of the stack array `deltas`
abbrev pub deltas_size : ℕ
deltas_size = 3600

module _ {D : Type 0} ⦃d : Double D⦄ where
  -- Seconds between samples i and i + 1. The difference of the `uint64_t` timestamps wraps, and is
  -- converted after that.
  unfoldable pub step_seconds : Ring D → ℕ → D
  step_seconds r i =
      let cur = (sample_at r (i + 1)).timestamp_ms in
      let prev = (sample_at r i).timestamp_ms in
      let dt = d.div (d.of_nat ((cur + 2 ^ 64 - prev) % 2 ^ 64)) (d.lit 1000 0) in
      if d.lt dt nought then d.neg dt else dt

  abbrev pub deltas : Ring D → List D
  deltas r = tabulate (step_seconds r) 0 (r.count - 1)

  unfoldable pub median_step : Ring D → D
  unfolding step_seconds
  median_step r =
      let n = r.count - 1 in
      let sorted = qsort (deltas r) in
      if (n % 2) == 1
      then get_or sorted (n / 2) d.nan
      else d.div (d.add (get_or sorted (n / 2 - 1) d.nan) (get_or sorted (n / 2) d.nan)) (d.lit 2 0)

  unfoldable pub completeness_gate : Ring D → Config D → Bool
  completeness_gate r cfg =
      let expected = cfg.int IntField.window_s / cfg.int IntField.poll_interval_s in
      if ltb r.count (cfg.int IntField.min_samples_absolute)
      then false
      else if d.lt (d.of_nat r.count)
          (d.mul (cfg.dbl DblField.min_sample_ratio) (d.of_nat expected))
      then false
      else if ltb r.count 2
      then false
      else if d.lt (cfg.dbl DblField.max_median_step_s) (median_step r)
      then false
      else true
