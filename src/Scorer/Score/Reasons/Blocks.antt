-- ===== src/Scorer/Score/Reasons/Blocks.antt =====
-- Each block of score_gpu adds the bits of its own reasons to the mask, and keeps the others.
use gpu_health_index.Prelude.{
  ℕ, ◌≡◌, ap, ◌∙◌, Bool, not, ◌&&◌, ◌||◌, Option, none, some, arith, ltb, leb, ◌==◌, if◌then◌else◌,
}
use gpu_health_index.Prelude.Bits.{test_bit, test_bit-bit_or, test_bit-pow}
use gpu_health_index.Double.{Double}
use gpu_health_index.Types.{State, Reason, reason_bit, reason_flag}
use gpu_health_index.Config.{Config}
use gpu_health_index.Config.Fields.{IntField, DblField}
use gpu_health_index.Scorer.Penalties.{
  Tally, penalise, temp_block, hbm_block, clock_block, clock_penalty, power_block, power_penalty,
  sbe_block, dbe_block, retired_block, remap_block, is_degraded, pcie_gen_block, pcie_width_block,
  perf_block, stale_block,
}
use gpu_health_index.Scorer.Score.Reasons.{above, between, drop_above, drop_between}

module _ {D : Type 0} ⦃d : Double D⦄ where
  module _ (j : ℕ) where
    penalise-bit :
        (p : D) (r : Reason) (t : Tally D)
        → test_bit j (penalise p r t).reasons ≡ (test_bit j t.reasons || j == reason_bit r)
    unfolding penalise
    penalise-bit p r t =
        test_bit-bit_or j t.reasons (reason_flag r)
        ∙ ap (λ b. test_bit j t.reasons || b) (test_bit-pow j (reason_bit r))

    module _ (cfg : Config D) (t : Tally D) where
      abbrev pub warn_or_bad : Bool → Bool → Reason → Reason → Bool
      warn_or_bad warn bad q r =
          test_bit j t.reasons || warn && j == reason_bit q || bad && j == reason_bit r

      pub temp_block-bit :
          (x : D)
          → test_bit j (temp_block x cfg t).reasons
            ≡ warn_or_bad
                (between (cfg.dbl DblField.temp_p95_warn_c) (cfg.dbl DblField.temp_p95_bad_c) x)
                (above (cfg.dbl DblField.temp_p95_bad_c) x)
                Reason.temp_warn
                Reason.temp_bad
      unfolding temp_block between
      temp_block-bit x = ground (
        arith,
        penalise-bit (d.lit 25 0) Reason.temp_bad t,
        penalise-bit (d.lit 10 0) Reason.temp_warn t,
      )

      pub hbm_block-bit :
          (x : D)
          → test_bit j (hbm_block x cfg t).reasons
            ≡ warn_or_bad
                (between
                  (cfg.dbl DblField.hbm_temp_p95_warn_c)
                  (cfg.dbl DblField.hbm_temp_p95_bad_c)
                  x)
                (above (cfg.dbl DblField.hbm_temp_p95_bad_c) x)
                Reason.hbm_temp_warn
                Reason.hbm_temp_bad
      unfolding hbm_block between
      hbm_block-bit x = ground (
        arith,
        penalise-bit (d.lit 25 0) Reason.hbm_temp_bad t,
        penalise-bit (d.lit 10 0) Reason.hbm_temp_warn t,
      )

      abbrev pub one_reason : Bool → Reason → Bool
      one_reason b r = test_bit j t.reasons || b && j == reason_bit r

      pub clock_block-bit :
          (x : D)
          → test_bit j (clock_block x cfg t).reasons
            ≡ one_reason (above (cfg.dbl DblField.clk_std_warn_mhz) x) Reason.clk_std_high
      unfolding clock_block above
      clock_block-bit x = ground (arith, penalise-bit (clock_penalty x cfg) Reason.clk_std_high t)

      pub power_block-bit :
          (x : D)
          → test_bit j (power_block x cfg t).reasons
            ≡ one_reason (d.lt (d.lit 0 0) x) Reason.power_saturation
      unfolding power_block
      power_block-bit x =
          ground (arith, penalise-bit (power_penalty x cfg) Reason.power_saturation t)

      pub sbe_block-bit :
          (x : D)
          → test_bit j (sbe_block x cfg t).reasons
            ≡ one_reason (d.lt (cfg.dbl DblField.ecc_sbe_rate_warn_per_hour) x) Reason.ecc_sbe_high
      unfolding sbe_block
      sbe_block-bit x =
          ground (arith, penalise-bit (cfg.dbl DblField.ecc_sbe_penalty) Reason.ecc_sbe_high t)

      pub dbe_block-bit :
          (b : Bool) → test_bit j (dbe_block b cfg t).reasons ≡ one_reason b Reason.ecc_dbe_active
      unfolding dbe_block
      dbe_block-bit b =
          ground (arith, penalise-bit (cfg.dbl DblField.ecc_dbe_penalty) Reason.ecc_dbe_active t)

      pub retired_block-bit :
          (st : State D)
          → test_bit j (retired_block st cfg t).reasons
            ≡ warn_or_bad
                (leb (cfg.int IntField.retired_pages_warn) st.retired_pages_dbe
                  && not (leb (cfg.int IntField.retired_pages_bad) st.retired_pages_dbe))
                (leb (cfg.int IntField.retired_pages_bad) st.retired_pages_dbe)
                Reason.retired_pages_warn
                Reason.retired_pages_bad
      unfolding retired_block
      retired_block-bit st = ground (
        arith,
        penalise-bit (cfg.dbl DblField.retired_pages_pen_bad) Reason.retired_pages_bad t,
        penalise-bit (cfg.dbl DblField.retired_pages_pen_warn) Reason.retired_pages_warn t,
      )

      pub remap_block-bit :
          (st : State D)
          → test_bit j (remap_block st cfg t).reasons
            ≡ one_reason (ltb 0 st.row_remap_failures) Reason.row_remap
      unfolding remap_block
      remap_block-bit st =
          ground
            (arith, penalise-bit (cfg.dbl DblField.row_remap_failure_penalty) Reason.row_remap t)

      if-bit :
          (b : Bool) (p : D) (r : Reason)
          → test_bit j (if b then penalise p r t else t).reasons ≡ one_reason b r
      if-bit b p r = ground (arith, penalise-bit p r t)

      pub pcie_gen_block-bit :
          (st : State D)
          → test_bit j (pcie_gen_block st cfg t).reasons
            ≡ one_reason (is_degraded st.pcie_link_gen st.pcie_link_gen_max) Reason.pcie_gen
      unfolding pcie_gen_block
      pcie_gen_block-bit st = if-bit _ (cfg.dbl DblField.pcie_link_degraded_penalty) Reason.pcie_gen

      pub pcie_width_block-bit :
          (st : State D)
          → test_bit j (pcie_width_block st cfg t).reasons
            ≡ one_reason (is_degraded st.pcie_link_width st.pcie_link_width_max) Reason.pcie_width
      unfolding pcie_width_block
      pcie_width_block-bit st =
          if-bit _ (cfg.dbl DblField.pcie_width_degraded_penalty) Reason.pcie_width

      pub perf_block-bit :
          (o : Option D)
          → test_bit j (perf_block o cfg t).reasons ≡ (
              warn_or_bad
                (drop_between (cfg.dbl DblField.perf_drop_warn) (cfg.dbl DblField.perf_drop_bad) o
                  && not (drop_above (cfg.dbl DblField.perf_drop_severe) o))
                (drop_between
                  (cfg.dbl DblField.perf_drop_bad)
                  (cfg.dbl DblField.perf_drop_severe)
                  o)
                Reason.perf_drop_warn
                Reason.perf_drop_bad
              || drop_above (cfg.dbl DblField.perf_drop_severe) o
                && j == reason_bit Reason.perf_drop_severe)
      unfolding perf_block drop_between
      perf_block-bit none = ground arith
      perf_block-bit (some drop) = ground (
        arith,
        penalise-bit (cfg.dbl DblField.perf_drop_pen_severe) Reason.perf_drop_severe t,
        penalise-bit (cfg.dbl DblField.perf_drop_pen_bad) Reason.perf_drop_bad t,
        penalise-bit (cfg.dbl DblField.perf_drop_pen_warn) Reason.perf_drop_warn t,
      )

    pub stale_block-bit :
        (b : Bool) (t : Tally D)
        → test_bit j (stale_block b t).reasons
          ≡ (test_bit j t.reasons || b && j == reason_bit Reason.probe_stale)
    unfolding stale_block
    stale_block-bit b t = ground (
      arith,
      test_bit-bit_or j t.reasons (reason_flag Reason.probe_stale),
      test_bit-pow j (reason_bit Reason.probe_stale),
    )
