-- ===== src/Scorer/Score/Loaded.antt =====
-- scorer.c and config.c together: the score under a configuration that config_load accepts.
use gpu_health_index.Prelude.{
  ℕ, ◌≡◌, sym, subst, ◌⊎◌, inl, inr, true, false, Option, some, List, arith,
}
use gpu_health_index.Double.{Double, IsLawful, ◌≼◌, nought}
use gpu_health_index.Double.Order.{le_of_not_lt}
use gpu_health_index.Config.Fields.{DblField}
use gpu_health_index.Config.Table.{dbl_min, dbl_max, dbl_default}
use gpu_health_index.Config.Load.{config_load}
use gpu_health_index.Config.Load.Checked.{config_load-IsChecked}
use gpu_health_index.Scorer.Score.{Inputs, score_gpu}
use gpu_health_index.Scorer.Score.Range.{score_gpu_range}

module _ {D : Type 0} ⦃d : Double D⦄ (laws : IsLawful D) where
  open laws use {lit_le, refl_of_le}

  default_in_range :
      (f : DblField)
      → (d.le (dbl_min f) (dbl_default f) ≡ true) × (d.le (dbl_default f) (dbl_max f) ≡ true)
  default_in_range DblField.min_sample_ratio = (
    lit_le 0 0 8 1 (omega arith) (omega arith) (omega arith) (omega arith),
    lit_le 8 1 1 0 (omega arith) (omega arith) (omega arith) (omega arith),
  )
  default_in_range f = (
    lit_le _ _ _ _ (omega arith) (omega arith) (omega arith) (omega arith),
    lit_le _ _ _ _ (omega arith) (omega arith) (omega arith) (omega arith),
  )

  -- a value that the tests of parse_double pass
  passed_in_range :
      (f : DblField) (x : D)
      → x ≼ x
      → (x ≡ dbl_default f) ⊎ ((d.lt x (dbl_min f) ≡ false) × (d.lt (dbl_max f) x ≡ false))
      → (dbl_min f ≼ x) × (x ≼ dbl_max f)
  passed_in_range f x n (inl e) =
      subst (λ x. (dbl_min f ≼ x) × (x ≼ dbl_max f)) (sym e) (default_in_range f)
  passed_in_range f x n (inr (low, high)) =
      let (bottom, top) = default_in_range f in
      (
        le_of_not_lt laws x (dbl_min f) n (refl_of_le (dbl_min f) (dbl_default f) bottom).0 low,
        le_of_not_lt laws (dbl_max f) x (refl_of_le (dbl_default f) (dbl_max f) top).1 n high,
      )

  -- Under a configuration that config_load accepts, whatever the file and the environment hold, and
  -- in which no double is NaN, the score is a number between 0 and 100, whatever the samples, the
  -- state, the baseline and the probe hold.
  pub score_gpu_loaded :
      (file : Option (Option (List ℕ))) (getenv : List ℕ → Option (List ℕ)) (i : Inputs D)
      → config_load file getenv ≡ some i.cfg
      → ((f : DblField) → i.cfg.dbl f ≼ i.cfg.dbl f)
      → (nought ≼ (score_gpu i).score) × ((score_gpu i).score ≼ d.lit 100 0)
  score_gpu_loaded file getenv i h numbers =
      let ok = config_load-IsChecked file getenv h in
      score_gpu_range laws i (λ f. passed_in_range f (i.cfg.dbl f) (numbers f) (ok.doubles f))
