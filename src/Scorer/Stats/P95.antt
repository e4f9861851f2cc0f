-- ===== src/Scorer/Stats/P95.antt =====
-- ring_p95 against the nearest-rank definition of the 95th percentile.
use gpu_health_index.Prelude.{
  ℕ, suc, ◌-◌, ◌≤◌, ◌<◌, ◌≡◌, refl, ap, ◌∙◌, ◌⊎◌, Bool, true, List, [], ◌∷◌, arith, length, All,
  get_or,
}
use gpu_health_index.Double.{Double, IsLawful}
use gpu_health_index.Types.{Sample, Ring}
use gpu_health_index.Ring.{sample_at}
use gpu_health_index.Ring.Window.{length-tabulate}
use gpu_health_index.Scorer.Stats.{p95_rank, ring_p95, field_values}
use gpu_health_index.Scorer.Stats.Sort.{qsort, insert_value}
use gpu_health_index.Scorer.Stats.Percentile.{
  count_if, IsNumber, count_if-qsort, qsort-IsSorted, sorted_rank,
}

module _ (D : Type 0) ⦃d : Double D⦄ where
  -- Whatever the rounding of `ceil(0.95 * count)` gives, the rank is one of 1 .. count.
  pub p95_rank_bounds :
      (count : ℕ) → 0 < count → (1 ≤ p95_rank D count) × (p95_rank D count ≤ count)
  unfolding p95_rank
  p95_rank_bounds count h = ground arith

module _ {D : Type 0} ⦃d : Double D⦄ where
  length-insert_value : (x : D) (xs : List D) → length (insert_value x xs) ≡ suc (length xs)
  unfolding insert_value
  length-insert_value x [] = refl
  length-insert_value x (y ∷ ys) = ground (arith, length-insert_value x ys)

  length-qsort : (xs : List D) → length (qsort xs) ≡ length xs
  unfolding qsort
  length-qsort [] = refl
  length-qsort (x ∷ xs) = length-insert_value x (qsort xs) ∙ ap suc (length-qsort xs)

  ring_p95-get :
      (heap : Bool) (r : Ring D) (field : Sample D → D)
      → 0 < r.count
      → (r.count ≤ 300) ⊎ (heap ≡ true)
      → ring_p95 heap r field ≡ get_or (qsort (field_values r field)) (p95_rank D r.count - 1) d.nan
  unfolding ring_p95
  ring_p95-get heap r field h m = ground arith

  -- On a ring with samples, none of them NaN, and with memory for the buffer, ring_p95 is the value
  -- of rank k = p95_rank: fewer than k samples lie below it, and at least k do not exceed it. The
  -- read of the sorted buffer is in bounds.
  pub ring_p95-rank :
      (laws : IsLawful D) (heap : Bool) (r : Ring D) (field : Sample D → D)
      → 0 < r.count
      → (r.count ≤ 300) ⊎ (heap ≡ true)
      → All IsNumber (field_values r field)
      → let p = ring_p95 heap r field in
        let k = p95_rank D r.count in
        (k - 1 < length (qsort (field_values r field)))
        × (count_if (λ y. d.lt y p) (field_values r field) < k)
        × (k ≤ count_if (λ y. d.le y p) (field_values r field))
  ring_p95-rank laws heap r field h m ns =
      let xs = field_values r field in
      let k : ℕ = p95_rank D r.count - 1 in
      let p : D = get_or (qsort xs) k d.nan in
      let inside : k < length (qsort xs) = omega (
        arith,
        length-qsort xs,
        length-tabulate (λ i. field (sample_at r i)) 0 r.count,
        p95_rank_bounds D r.count h,
      ) in
      let (sorted, numbers) = qsort-IsSorted laws xs ns in
      let (below, upto) = sorted_rank laws (qsort xs) k d.nan numbers sorted inside in
      let (low, high) = p95_rank_bounds D r.count h in
      rw (ring_p95-get heap r field h m) (
        inside,
        omega (arith, count_if-qsort (λ y. d.lt y p) xs),
        omega (arith, count_if-qsort (λ y. d.le y p) xs),
      )
