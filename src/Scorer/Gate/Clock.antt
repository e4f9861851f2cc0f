-- ===== src/Scorer/Gate/Clock.antt =====
-- scorer.c: the steps between samples where the clock goes back.
use gpu_health_index.Prelude.{ℕ, ◌+◌, ◌-◌, ◌%◌, ◌^◌, ◌≡◌, refl, false, arith}
use gpu_health_index.Double.{Double, IsLawful, ◌≼◌, nought}
use gpu_health_index.Types.{Ring}
use gpu_health_index.Ring.{sample_at}
use gpu_health_index.Scorer.Gate.{step_seconds}

module _ {D : Type 0} ⦃d : Double D⦄ (laws : IsLawful D) where
  open laws use {lit_mono, of_nat_nonneg, div_nonneg, refl_of_le, lt-eq-not-le}

  seconds_nonneg : (n : ℕ) → d.lt (d.div (d.of_nat n) (d.lit 1000 0)) nought ≡ false
  seconds_nonneg n =
      let above : nought ≼ d.div (d.of_nat n) (d.lit 1000 0) =
        div_nonneg (d.of_nat n) (d.lit 1000 0) 1000 (omega arith) (of_nat_nonneg n)
          (lit_mono 1 1000 (omega arith) (omega arith))
          (lit_mono 1000 1000 (omega arith) (omega arith)) in
      ground (
        arith,
        lt-eq-not-le (d.div (d.of_nat n) (d.lit 1000 0)) nought,
        refl_of_le nought (d.div (d.of_nat n) (d.lit 1000 0)),
      )

  -- The step between two samples is never negated: it is always the difference of the two timestamps
  -- modulo 2^64, in seconds, also where the later timestamp is the smaller one.
  pub step_seconds_wraps :
      (r : Ring D) (i : ℕ)
      → step_seconds r i
        ≡ d.div
            (d.of_nat (
              ((sample_at r (i + 1)).timestamp_ms + 2 ^ 64 - (sample_at r i).timestamp_ms)
              % 2 ^ 64))
            (d.lit 1000 0)
  unfolding step_seconds
  step_seconds_wraps r i = rw (seconds_nonneg _) refl
