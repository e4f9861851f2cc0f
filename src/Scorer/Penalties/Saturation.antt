-- ===== src/Scorer/Penalties/Saturation.antt =====
-- The saturated share of the window is a fraction.
use gpu_health_index.Prelude.{ℕ, zero, suc, ◌+◌, ◌≤◌, ◌<◌, Bool, arith, if◌then◌else◌}
use gpu_health_index.Double.{Double, IsLawful, ◌≼◌, nought}
use gpu_health_index.Types.{Ring}
use gpu_health_index.Ring.{sample_at}
use gpu_health_index.Config.{Config}
use gpu_health_index.Scorer.Penalties.{count_saturated, is_saturated, saturation_frac}

module _ {D : Type 0} ⦃d : Double D⦄ (laws : IsLawful D) (cfg : Config D) where
  count_step-le : (b : Bool) (c : ℕ) → (if b then c + 1 else c) ≤ c + 1
  count_step-le b c = ground arith

  count_saturated-le : (r : Ring D) (n i c : ℕ) → count_saturated cfg r n i c ≤ c + n
  unfolding count_saturated
  count_saturated-le r zero i c = omega arith
  count_saturated-le r (suc n) i c =
      let seen = is_saturated cfg (sample_at r i) in
      omega
        (arith, count_step-le seen c, count_saturated-le r n (i + 1) (if seen then c + 1 else c))

  -- The saturated samples are at most all of the window.
  pub saturation_frac_bounds :
      (r : Ring D)
      → 0 < r.count
      → (nought ≼ saturation_frac cfg r) × (saturation_frac cfg r ≼ d.lit 1 0)
  unfolding saturation_frac
  saturation_frac_bounds r h =
      laws.ratio_bounds (count_saturated cfg r r.count 0 0) r.count
        (omega (arith, count_saturated-le r r.count 0 0)) h
