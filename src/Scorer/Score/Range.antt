-- ===== src/Scorer/Score/Range.antt =====
-- The score lies between 0 and 100.
use gpu_health_index.Prelude.{
  ℕ, ◌≤◌, ◌<◌, ◌≡◌, Bool, true, Option, none, some, arith, Bool-cases, inl, inr,
}
use gpu_health_index.Double.{Double, IsLawful, ◌≼◌, nought}
use gpu_health_index.Double.Order.{cap_bounds, le_of_not_lt}
use gpu_health_index.Types.{Ring, State, Reason}
use gpu_health_index.Config.{Config}
use gpu_health_index.Config.Fields.{DblField}
use gpu_health_index.Config.Bounds.{DoublesInRange}
use gpu_health_index.Scorer.Gate.{completeness_gate}
use gpu_health_index.Scorer.Penalties.{
  Tally, penalise, temp_block, hbm_block, clock_block, clock_penalty, saturation_frac, power_block,
  power_penalty, sbe_block, dbe_block, retired_block, remap_block, pcie_gen_block, pcie_width_block,
  perf_block, stale_block,
}
use gpu_health_index.Scorer.Penalties.Saturation.{saturation_frac_bounds}
use gpu_health_index.Scorer.Score.{Inputs, tally, clamp_score, score_gpu}

module _ {D : Type 0} ⦃d : Double D⦄ (laws : IsLawful D) where
  open laws use {
    lit_mono, le_trans, refl_of_le, le_of_lt, sub-le, sub_nonneg, scale_nonneg, mul_nonneg,
    div_nonneg, ratio_bounds,
  }

  abbrev AtMost100 : Tally D → Type 0
  AtMost100 t = t.score ≼ d.lit 100 0

  -- a penalty that is no infinity and takes no points away from the penalty side
  abbrev IsPenalty : D → Type 0
  IsPenalty p = (nought ≼ p) × (p ≼ d.lit 100 0)

  penalise-AtMost100 :
      (p : D) (r : Reason) (t : Tally D) → IsPenalty p → AtMost100 t → AtMost100 (penalise p r t)
  unfolding penalise
  penalise-AtMost100 p r t h a =
      le_trans (d.sub t.score p) t.score (d.lit 100 0)
        (sub-le t.score p 100 100 (omega arith) (omega arith) a h.0 h.1) a

  lit-IsPenalty : (n : ℕ) → n ≤ 100 → IsPenalty (d.lit n 0)
  lit-IsPenalty n h = (lit_mono 0 n (omega arith) (omega arith), lit_mono n 100 h (omega arith))

  module _ (cfg : Config D) (ok : DoublesInRange cfg) where
    temp_block-AtMost100 : (x : D) (t : Tally D) → AtMost100 t → AtMost100 (temp_block x cfg t)
    unfolding temp_block
    temp_block-AtMost100 x t a = ground (
      arith,
      penalise-AtMost100 (d.lit 25 0) Reason.temp_bad t (lit-IsPenalty 25 (omega arith)) a,
      penalise-AtMost100 (d.lit 10 0) Reason.temp_warn t (lit-IsPenalty 10 (omega arith)) a,
    )

    hbm_block-AtMost100 : (x : D) (t : Tally D) → AtMost100 t → AtMost100 (hbm_block x cfg t)
    unfolding hbm_block
    hbm_block-AtMost100 x t a = ground (
      arith,
      penalise-AtMost100 (d.lit 25 0) Reason.hbm_temp_bad t (lit-IsPenalty 25 (omega arith)) a,
      penalise-AtMost100 (d.lit 10 0) Reason.hbm_temp_warn t (lit-IsPenalty 10 (omega arith)) a,
    )

    clock_penalty-IsPenalty :
        (x : D)
        → d.lt (cfg.dbl DblField.clk_std_warn_mhz) x ≡ true
        → IsPenalty (clock_penalty x cfg)
    unfolding clock_penalty
    clock_penalty-IsPenalty x h =
        let warn = cfg.dbl DblField.clk_std_warn_mhz in
        let (low, high) = ok DblField.clk_std_warn_mhz in
        let pos_warn : nought ≼ warn =
          le_trans nought (d.lit 1 0) warn (lit_mono 0 1 (omega arith) (omega arith)) low in
        let excess : nought ≼ d.sub x warn =
          sub_nonneg x warn 1000 (omega arith) pos_warn high (le_of_lt warn x h) in
        let scaled : nought ≼ d.mul (d.lit 15 0) (d.sub x warn) =
          scale_nonneg 15 (d.sub x warn) (omega arith) (omega arith) excess in
        let penalty : nought ≼ d.div (d.mul (d.lit 15 0) (d.sub x warn)) warn =
          div_nonneg (d.mul (d.lit 15 0) (d.sub x warn)) warn 1000 (omega arith) scaled low high in
        let (above, below) =
          cap_bounds laws nought _ (d.lit 15 0) penalty (lit-IsPenalty 15 (omega arith)).0 in
        (above, le_trans _ (d.lit 15 0) (d.lit 100 0) below (lit-IsPenalty 15 (omega arith)).1)

    clock_block-AtMost100 : (x : D) (t : Tally D) → AtMost100 t → AtMost100 (clock_block x cfg t)
    unfolding clock_block
    clock_block-AtMost100 x t a = ground (
      arith,
      clock_penalty-IsPenalty x,
      penalise-AtMost100 (clock_penalty x cfg) Reason.clk_std_high t,
    )

    power_penalty-IsPenalty : (x : D) → nought ≼ x → x ≼ d.lit 1 0 → IsPenalty (power_penalty x cfg)
    unfolding power_penalty
    power_penalty-IsPenalty x p q =
        let (low, high) = ok DblField.power_penalty_max in
        let product : nought ≼ d.mul (cfg.dbl DblField.power_penalty_max) x =
          mul_nonneg (cfg.dbl DblField.power_penalty_max) x 100 1 (omega arith) (omega arith) low
            high p q in
        let (above, below) =
          cap_bounds laws nought _ (cfg.dbl DblField.power_penalty_max) product low in
        (above, le_trans _ (cfg.dbl DblField.power_penalty_max) (d.lit 100 0) below high)

    power_block-AtMost100 :
        (r : Ring D) (t : Tally D)
        → 0 < r.count
        → AtMost100 t
        → AtMost100 (power_block (saturation_frac cfg r) cfg t)
    unfolding power_block
    power_block-AtMost100 r t h a =
        let (low, high) = saturation_frac_bounds laws cfg r h in
        let x : D = saturation_frac cfg r in
        ground (
          arith,
          penalise-AtMost100 (power_penalty x cfg) Reason.power_saturation t
              (power_penalty-IsPenalty x low high) a,
        )

    sbe_block-AtMost100 : (x : D) (t : Tally D) → AtMost100 t → AtMost100 (sbe_block x cfg t)
    unfolding sbe_block
    sbe_block-AtMost100 x t a =
        ground (arith, penalise-AtMost100 _ Reason.ecc_sbe_high t (ok DblField.ecc_sbe_penalty) a)

    dbe_block-AtMost100 : (b : Bool) (t : Tally D) → AtMost100 t → AtMost100 (dbe_block b cfg t)
    unfolding dbe_block
    dbe_block-AtMost100 b t a =
        ground (arith, penalise-AtMost100 _ Reason.ecc_dbe_active t (ok DblField.ecc_dbe_penalty) a)

    retired_block-AtMost100 :
        (st : State D) (t : Tally D) → AtMost100 t → AtMost100 (retired_block st cfg t)
    unfolding retired_block
    retired_block-AtMost100 st t a = ground (
      arith,
      penalise-AtMost100 _ Reason.retired_pages_bad t (ok DblField.retired_pages_pen_bad) a,
      penalise-AtMost100 _ Reason.retired_pages_warn t (ok DblField.retired_pages_pen_warn) a,
    )

    remap_block-AtMost100 :
        (st : State D) (t : Tally D) → AtMost100 t → AtMost100 (remap_block st cfg t)
    unfolding remap_block
    remap_block-AtMost100 st t a =
        ground
          (arith, penalise-AtMost100 _ Reason.row_remap t (ok DblField.row_remap_failure_penalty) a)

    pcie_gen_block-AtMost100 :
        (st : State D) (t : Tally D) → AtMost100 t → AtMost100 (pcie_gen_block st cfg t)
    unfolding pcie_gen_block
    pcie_gen_block-AtMost100 st t a =
        ground
          (arith, penalise-AtMost100 _ Reason.pcie_gen t (ok DblField.pcie_link_degraded_penalty) a)

    pcie_width_block-AtMost100 :
        (st : State D) (t : Tally D) → AtMost100 t → AtMost100 (pcie_width_block st cfg t)
    unfolding pcie_width_block
    pcie_width_block-AtMost100 st t a = ground (
      arith,
      penalise-AtMost100 _ Reason.pcie_width t (ok DblField.pcie_width_degraded_penalty) a,
    )

    perf_block-AtMost100 :
        (o : Option D) (t : Tally D) → AtMost100 t → AtMost100 (perf_block o cfg t)
    unfolding perf_block
    perf_block-AtMost100 none t a = a
    perf_block-AtMost100 (some drop) t a = ground (
      arith,
      penalise-AtMost100 _ Reason.perf_drop_severe t (ok DblField.perf_drop_pen_severe) a,
      penalise-AtMost100 _ Reason.perf_drop_bad t (ok DblField.perf_drop_pen_bad) a,
      penalise-AtMost100 _ Reason.perf_drop_warn t (ok DblField.perf_drop_pen_warn) a,
    )

  stale_block-AtMost100 : (b : Bool) (t : Tally D) → AtMost100 t → AtMost100 (stale_block b t)
  unfolding stale_block
  stale_block-AtMost100 b t a = ground arith

  tally-AtMost100 : (i : Inputs D) → DoublesInRange i.cfg → 0 < i.ring.count → AtMost100 (tally i)
  unfolding tally
  tally-AtMost100 i ok h = stale_block-AtMost100 _ _ (
      perf_block-AtMost100 i.cfg ok _ _ (
        pcie_width_block-AtMost100 i.cfg ok _ _ (
          pcie_gen_block-AtMost100 i.cfg ok _ _ (
            remap_block-AtMost100 i.cfg ok _ _ (
              retired_block-AtMost100 i.cfg ok _ _ (
                dbe_block-AtMost100 i.cfg ok _ _ (
                  sbe_block-AtMost100 i.cfg ok _ _ (
                    power_block-AtMost100 i.cfg ok i.ring _ h (
                      clock_block-AtMost100 i.cfg ok _ _ (
                        hbm_block-AtMost100 i.cfg ok _ _ (
                          temp_block-AtMost100 i.cfg ok _ _
                            (lit-IsPenalty 100 (omega arith)).1)))))))))))

  clamp_score_bounds :
      (x : D) → x ≼ d.lit 100 0 → (nought ≼ clamp_score x) × (clamp_score x ≼ d.lit 100 0)
  unfolding clamp_score
  clamp_score_bounds x h = ground (
    arith,
    lit-IsPenalty 0 (omega arith),
    lit-IsPenalty 100 (omega arith),
    refl_of_le x (d.lit 100 0) h,
    refl_of_le nought (d.lit 100 0) (lit-IsPenalty 0 (omega arith)).1,
    le_of_not_lt laws x nought,
  )

  gate-count : (r : Ring D) (cfg : Config D) → completeness_gate r cfg ≡ true → 0 < r.count
  unfolding completeness_gate
  gate-count r cfg h = ground arith

  -- With every double of the configuration between the bounds of its row, the score is a number
  -- between 0 and 100, whatever the samples, the state and the files hold.
  pub score_gpu_range :
      (i : Inputs D)
      → DoublesInRange i.cfg
      → (nought ≼ (score_gpu i).score) × ((score_gpu i).score ≼ d.lit 100 0)
  unfolding score_gpu
  score_gpu_range i ok = elim (Bool-cases (completeness_gate i.ring i.cfg)) [
    | inl pass ↦
        rw pass (clamp_score_bounds (tally i).score (tally-AtMost100 i ok (gate-count _ _ pass)))
    | inr fail ↦ rw fail (lit-IsPenalty 0 (omega arith))
  ]
