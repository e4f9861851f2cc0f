-- ===== src/Scorer/Score/Reasons/Mask.antt =====
-- The whole reason mask of score_gpu.
use gpu_health_index.Prelude.{
  ℕ, ◌≡◌, refl, ap, ◌∙◌, Bool, true, false, ◌&&◌, ◌||◌, ◌==◌, if◌then◌else◌, inl, inr, Bool-cases,
}
use gpu_health_index.Prelude.Bits.{test_bit, test_bit-pow, test_bit-zero}
use gpu_health_index.Double.{Double}
use gpu_health_index.Types.{Reason, reason_bit}
use gpu_health_index.Scorer.Gate.{completeness_gate}
use gpu_health_index.Scorer.Score.{Inputs, tally, score_gpu}
use gpu_health_index.Scorer.Score.Reasons.{applies}
use gpu_health_index.Scorer.Score.Reasons.Blocks.{
  temp_block-bit, hbm_block-bit, clock_block-bit, power_block-bit, sbe_block-bit, dbe_block-bit,
  retired_block-bit, remap_block-bit, pcie_gen_block-bit, pcie_width_block-bit, perf_block-bit,
  stale_block-bit,
}

or_false : (b : Bool) → (b || false) ≡ b
or_false true = refl
or_false false = refl

and_false : (b : Bool) → (b && false) ≡ false
and_false true = refl
and_false false = refl

and_true : (b : Bool) → (b && true) ≡ b
and_true true = refl
and_true false = refl

module _ {D : Type 0} ⦃d : Double D⦄ (i : Inputs D) where
  module _ (j : ℕ) where
    abbrev hit : Reason → Bool
    hit r = applies i r && j == reason_bit r

    -- the bits in the order in which the blocks set them
    tally_bits : Bool
    tally_bits =
        let b = test_bit j 0 || hit Reason.temp_warn || hit Reason.temp_bad in
        let b = b || hit Reason.hbm_temp_warn || hit Reason.hbm_temp_bad in
        let b = b || hit Reason.clk_std_high in
        let b = b || hit Reason.power_saturation in
        let b = b || hit Reason.ecc_sbe_high in
        let b = b || hit Reason.ecc_dbe_active in
        let b = b || hit Reason.retired_pages_warn || hit Reason.retired_pages_bad in
        let b = b || hit Reason.row_remap in
        let b = b || hit Reason.pcie_gen in
        let b = b || hit Reason.pcie_width in
        let b = b || hit Reason.perf_drop_warn || hit Reason.perf_drop_bad in
        let b = b || hit Reason.perf_drop_severe in b || hit Reason.probe_stale

    tally-bits : test_bit j (tally i).reasons ≡ tally_bits
    unfolding tally tally_bits applies
    tally-bits =
        stale_block-bit j _ _
        ∙ ap (λ b. b || hit Reason.probe_stale)
            (perf_block-bit j i.cfg _ _
              ∙ ap
                  (λ b.
                    (b || hit Reason.perf_drop_warn || hit Reason.perf_drop_bad)
                    || hit Reason.perf_drop_severe)
                  (pcie_width_block-bit j i.cfg _ _
                    ∙ ap (λ b. b || hit Reason.pcie_width)
                        (pcie_gen_block-bit j i.cfg _ _
                          ∙ ap (λ b. b || hit Reason.pcie_gen)
                              (remap_block-bit j i.cfg _ _
                                ∙ ap (λ b. b || hit Reason.row_remap)
                                    (retired_block-bit j i.cfg _ _
                                      ∙ ap
                                          (λ b.
                                            b
                                            || hit Reason.retired_pages_warn
                                            || hit Reason.retired_pages_bad)
                                          (dbe_block-bit j i.cfg _ _
                                            ∙ ap (λ b. b || hit Reason.ecc_dbe_active)
                                                (sbe_block-bit j i.cfg _ _
                                                  ∙ ap (λ b. b || hit Reason.ecc_sbe_high)
                                                      (power_block-bit j i.cfg _ _
                                                        ∙ ap (λ b. b || hit Reason.power_saturation)
                                                            (clock_block-bit j i.cfg _ _
                                                            ∙ ap (λ b. b || hit Reason.clk_std_high)
                                                            (hbm_block-bit j i.cfg _ _
                                                            ∙ ap
                                                            (λ b.
                                                            b
                                                            || hit Reason.hbm_temp_warn
                                                            || hit Reason.hbm_temp_bad)
                                                            (temp_block-bit j i.cfg _ _)))))))))))

  never_incomplete : applies i Reason.telemetry_incomplete ≡ false
  unfolding applies
  never_incomplete = refl

  pick : (r : Reason) → tally_bits (reason_bit r) ≡ applies i r
  unfolding tally_bits
  pick Reason.temp_warn = simp (test_bit-zero, and_false, and_true, or_false)
  pick Reason.telemetry_incomplete = simp (test_bit-zero, and_false, or_false, never_incomplete)
  pick r = simp (test_bit-zero, and_false, and_true, or_false)

  -- Where the gate passes, the bit of a reason is set exactly if the reason applies; where it fails,
  -- exactly the bit of TELEMETRY_INCOMPLETE is set. No block clobbers the bit of another.
  pub score_gpu-reasons :
      (r : Reason)
      → test_bit (reason_bit r) (score_gpu i).reason_mask ≡ (
          if completeness_gate i.ring i.cfg
          then applies i r
          else reason_bit r == reason_bit Reason.telemetry_incomplete)
  unfolding score_gpu
  score_gpu-reasons r = elim (Bool-cases (completeness_gate i.ring i.cfg)) [
    | inl pass ↦ rw pass (tally-bits (reason_bit r) ∙ pick r)
    | inr fail ↦ rw fail (test_bit-pow (reason_bit r) (reason_bit Reason.telemetry_incomplete))
  ]
