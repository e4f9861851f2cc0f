-- ===== src/Collector/Poll/Buffer.antt =====
-- collector.c, scorer.c and config.c together: the stack array of completeness_gate holds what the
-- ring of a poll thread can hold.
use native.Mathlib.Nat.{div-le_self}
use gpu_health_index.Prelude.{
  ℕ, ◌-◌, ◌≤◌, ◌<◌, ◌≡◌, refl, ap, sym, ◌∙◌, subst, Option, some, List, [], ◌∷◌, length, arith,
}
use gpu_health_index.Double.{Double}
use gpu_health_index.Types.{Sample, Ring}
use gpu_health_index.Ring.{ring_push}
use gpu_health_index.Ring.Window.{length-tabulate}
use gpu_health_index.Ring.Refine.{
  IsValid, fresh_ring-IsValid, push_all, push_all_refines, capacity-push,
}
use gpu_health_index.Config.{Config}
use gpu_health_index.Config.Fields.{IntField}
use gpu_health_index.Config.Load.{config_load}
use gpu_health_index.Config.Load.Checked.{IsChecked, config_load-IsChecked}
use gpu_health_index.Scorer.Gate.{deltas, deltas_size, step_seconds}
use gpu_health_index.Collector.Context.{Ctx}
use gpu_health_index.Collector.Poll.{Env, ring_capacity, collector_start, run}
use gpu_health_index.Collector.Poll.Run.{run-outcome}

module _ {D : Type 0} ⦃d : Double D⦄ where
  ring_capacity_bounds :
      (cfg : Config D) → IsChecked cfg → (0 < ring_capacity cfg) × (ring_capacity cfg ≤ deltas_size)
  unfolding ring_capacity
  ring_capacity_bounds cfg ok = ground (
    arith,
    ok.ints IntField.window_s,
    ok.ints IntField.poll_interval_s,
    div-le_self (cfg.int IntField.window_s) (cfg.int IntField.poll_interval_s),
  )

  capacity-push_all : (r : Ring D) (ss : List (Sample D)) → (push_all r ss).capacity ≡ r.capacity
  unfolding push_all
  capacity-push_all r [] = refl
  capacity-push_all r (s ∷ ss) = capacity-push_all (ring_push r s) ss ∙ capacity-push r s

  started-IsValid :
      (cfg : Config D) (c : Ctx D) → IsChecked cfg → IsValid (collector_start cfg c).ring
  unfolding collector_start
  started-IsValid cfg c ok = fresh_ring-IsValid (ring_capacity cfg) (ring_capacity_bounds cfg ok).0

  capacity_started :
      (cfg : Config D) (c : Ctx D) → (collector_start cfg c).ring.capacity ≡ ring_capacity cfg
  unfolding collector_start
  capacity_started cfg c = refl

  -- With a configuration that config_load accepts, and after any rounds of the poll loop from
  -- collector_start, the ring is valid, it has at least one slot and at most 3600, and the steps
  -- between its samples fit in the stack array of completeness_gate, which has 3600 entries.
  pub deltas-fit :
      (file : Option (Option (List ℕ))) (getenv : List ℕ → Option (List ℕ)) {cfg : Config D}
      → config_load file getenv ≡ some cfg
      → (es : List (Env D)) (c : Ctx D)
      → let r = (run cfg es (collector_start cfg c)).0.ring in
        IsValid r × (0 < r.capacity) × (r.capacity ≤ 3600) × (length (deltas r) < deltas_size)
  deltas-fit file getenv {cfg} h es c =
      let ok = config_load-IsChecked file getenv h in
      let o = run-outcome cfg es (collector_start cfg c) (started-IsValid cfg c ok) in
      let valid : IsValid (run cfg es (collector_start cfg c)).0.ring =
        subst IsValid (sym o.ring_after)
          (push_all_refines o.samples (started-IsValid cfg c ok)).1 in
      let size : (run cfg es (collector_start cfg c)).0.ring.capacity ≡ ring_capacity cfg =
        ap (λ r. r.capacity) o.ring_after
        ∙ capacity-push_all _ o.samples
        ∙ capacity_started cfg c in
      (
        valid,
        valid.positive,
        omega (arith, ring_capacity_bounds cfg ok),
        omega (
          arith,
          ring_capacity_bounds cfg ok,
          valid.count_in,
          valid.positive,
          length-tabulate (step_seconds (run cfg es (collector_start cfg c)).0.ring) 0
              ((run cfg es (collector_start cfg c)).0.ring.count - 1),
        ),
      )
