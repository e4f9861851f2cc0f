-- ===== src/Scorer/Stats.antt =====
-- scorer.c: ring_mean, ring_stddev, ring_p95. A field offset is the field's projection.
pub mod Sort
pub mod Percentile
pub mod P95
use gpu_health_index.Prelude.{
  ℕ, zero, suc, ◌+◌, ◌-◌, Bool, true, ◌||◌, not, ◌&&◌, List, ltb, leb, ◌==◌, if◌then◌else◌, get_or,
}
use gpu_health_index.Prelude.Int.{ℤ, pos, pos_part, ltb_ℤ}
use gpu_health_index.Double.{Double, nought}
use gpu_health_index.Types.{Sample, Ring}
use gpu_health_index.Ring.{sample_at}
use gpu_health_index.Ring.Window.{tabulate}
use Sort.{qsort}

-- nearest rank, clamped to 1 .. count
unfoldable pub p95_rank : (D : Type 0) ⦃d : Double D⦄ → ℕ → ℕ
p95_rank D ⦃d⦄ count =
    let rank = d.ceil_int (d.mul (d.lit 95 2) (d.of_nat count)) in
    let rank = if ltb_ℤ rank (pos 1) then pos 1 else rank in
    let rank = if ltb_ℤ (pos count) rank then pos count else rank in pos_part rank

module _ {D : Type 0} ⦃d : Double D⦄ where
  abbrev pub sample_field : Ring D → ℕ → (Sample D → D) → D
  sample_field r i field = field (sample_at r i)

  -- the loop of ring_mean, `n` rounds from index `i`
  sum_field : Ring D → (Sample D → D) → ℕ → ℕ → D → D
  sum_field r field zero i sum = sum
  sum_field r field (suc n) i sum = sum_field r field n (i + 1) (d.add sum (sample_field r i field))

  unfoldable pub ring_mean : Ring D → (Sample D → D) → D
  unfolding sum_field
  ring_mean r field =
      if r.count == 0 then d.nan else d.div (sum_field r field r.count 0 nought) (d.of_nat r.count)

  -- the loop of ring_stddev
  sum_squares : Ring D → (Sample D → D) → D → ℕ → ℕ → D → D
  sum_squares r field mean zero i sum = sum
  sum_squares r field mean (suc n) i sum =
      let diff = d.sub (sample_field r i field) mean in
      sum_squares r field mean n (i + 1) (d.add sum (d.mul diff diff))

  unfoldable pub ring_stddev : Ring D → (Sample D → D) → D
  unfolding ring_mean sum_squares
  ring_stddev r field =
      if ltb r.count 2
      then d.nan
      else d.sqrt (
          d.div (sum_squares r field (ring_mean r field) r.count 0 nought) (d.of_nat (r.count - 1)))

  abbrev pub field_values : Ring D → (Sample D → D) → List D
  field_values r field = tabulate (λ i. sample_field r i field) 0 r.count

  -- `heap` is whether malloc succeeds, which is asked only above 300 samples.
  unfoldable pub ring_p95 : Bool → Ring D → (Sample D → D) → D
  ring_p95 heap r field =
      if r.count == 0 || (ltb 300 r.count && not heap)
      then d.nan
      else get_or (qsort (field_values r field)) (p95_rank D r.count - 1) d.nan
