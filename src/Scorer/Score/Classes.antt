-- ===== src/Scorer/Score/Classes.antt =====
-- The classification of score_gpu against the bands of the score.
use gpu_health_index.Prelude.{ℕ, ◌≤◌, ◌≡◌, true, false, arith}
use gpu_health_index.Double.{Double, IsLawful, ◌≼◌, nought, is_nan}
use gpu_health_index.Types.{GpuClass, na, healthy, monitor, degrading, decommission}
use gpu_health_index.Scorer.Gate.{completeness_gate}
use gpu_health_index.Scorer.Score.{Inputs, classify, score_gpu}

-- from the best class to the worst
abbrev pub badness : GpuClass → ℕ
badness na = 0
badness healthy = 1
badness monitor = 2
badness degrading = 3
badness decommission = 4

module _ {D : Type 0} ⦃d : Double D⦄ (i : Inputs D) where
  -- The class is N/A exactly if the completeness gate fails, and then the score is 0 and the
  -- telemetry is marked as incomplete.
  pub score_gpu-na :
      ((score_gpu i).classification ≡ na → completeness_gate i.ring i.cfg ≡ false)
      × (completeness_gate i.ring i.cfg ≡ false
          → ((score_gpu i).classification ≡ na)
            × ((score_gpu i).score ≡ nought)
            × ((score_gpu i).telemetry_ok ≡ false))
  unfolding score_gpu
  score_gpu-na = ground arith

module _ {D : Type 0} ⦃d : Double D⦄ where
  -- A lower score never has a better class.
  pub classify_mono :
      (laws : IsLawful D) (x y : D) → x ≼ y → badness (classify y) ≤ badness (classify x)
  unfolding classify
  classify_mono laws x y h = ground (
    arith,
    laws.le_trans (d.lit 85 0) x y,
    laws.le_trans (d.lit 70 0) x y,
    laws.le_trans (d.lit 50 0) x y,
  )

  -- A score that is NaN, as a penalty that is NaN makes it, is classed as Decommission.
  pub classify_nan : (laws : IsLawful D) (x : D) → is_nan x ≡ true → classify x ≡ decommission
  unfolding classify
  classify_nan laws x h = ground (
    arith,
    laws.refl_of_le (d.lit 85 0) x,
    laws.refl_of_le (d.lit 70 0) x,
    laws.refl_of_le (d.lit 50 0) x,
  )
