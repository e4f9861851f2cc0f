-- ===== src/Scorer/Stats/Sort.antt =====
-- cmp_double of scorer.c, and qsort with it: the C library promises the sorted order.
use gpu_health_index.Prelude.{List, [], ◌∷◌, if◌then◌else◌}
use gpu_health_index.Double.{Double}

-- the sign of the `int` that a comparison function returns
pub data Sign : Type 0 where
  less equal greater : Sign

module _ {D : Type 0} ⦃d : Double D⦄ where
  unfoldable pub cmp_double : D → D → Sign
  cmp_double a b = if d.lt a b then less else if d.lt b a then greater else equal

  unfoldable pub insert_value : D → List D → List D
  insert_value x [] = x ∷ []
  insert_value x (y ∷ ys) = elim (cmp_double x y) [
    | greater ↦ y ∷ insert_value x ys
    | _ ↦ x ∷ y ∷ ys
  ]

  unfoldable pub qsort : List D → List D
  unfolding insert_value cmp_double
  qsort [] = []
  qsort (x ∷ xs) = insert_value x (qsort xs)
