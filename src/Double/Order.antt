-- ===== src/Double/Order.antt =====
-- Consequences of the laws that the components share.
use gpu_health_index.Prelude.{◌≡◌, false, arith, if◌then◌else◌}
use gpu_health_index.Double.{Double, IsLawful, ◌≼◌}

module _ {D : Type 0} ⦃d : Double D⦄ (laws : IsLawful D) where
  open laws use {refl_of_le, lt-eq-not-le, le_of_lt}

  pub le_of_not_lt : (x y : D) → x ≼ x → y ≼ y → d.lt x y ≡ false → y ≼ x
  le_of_not_lt x y p q h = ground (arith, lt-eq-not-le x y p q)

  -- `if (x > top) x = top;` leaves x at most top, and at least what both exceed.
  pub cap_bounds :
      (low x top : D)
      → low ≼ x
      → low ≼ top
      → let capped = if d.lt top x then top else x in (low ≼ capped) × (capped ≼ top)
  cap_bounds low x top p q =
      ground (arith, refl_of_le low x p, refl_of_le low top q, lt-eq-not-le top x)
