-- ===== src/Tests/Polling.antt =====
-- Runs of the poll loop.
use gpu_health_index.Prelude.{
  ℕ, ◌≤◌, ◌<◌, ◌≡◌, refl, false, Option, none, some, List, [], ◌∷◌, ◌++◌, length, All, arith,
}
use gpu_health_index.Double.Fixed.{Fixed, fixed_double}
use gpu_health_index.Types.{Sample}
use gpu_health_index.Ring.Window.{keep_last}
use gpu_health_index.Ring.Refine.{IsValid, contents, fresh_ring-IsValid}
use gpu_health_index.Config.Table.{cfg_defaults}
use gpu_health_index.Config.Load.{config_load}
use gpu_health_index.Scorer.Gate.{deltas, deltas_size}
use gpu_health_index.Collector.Nvml.{do_nvml_poll}
use gpu_health_index.Collector.Poll.{Env, poll_round, run, collector_start}
use gpu_health_index.Collector.Poll.Errors.{CountersAgree, run-counters}
use gpu_health_index.Collector.Poll.Cycle.{Outcome, poll_round-outcome}
use gpu_health_index.Collector.Poll.Run.{SaysPresent, run_refines, run-lost}
use gpu_health_index.Collector.Poll.Buffer.{deltas-fit}
use gpu_health_index.Tests.Data.{cfg, gpu, device, lost_device, round_at}

-- two rounds that answer, then a lost GPU
abbrev rounds : List (Env Fixed)
rounds = round_at 1 device ∷ round_at 2 device ∷ round_at 3 lost_device ∷ []

poll_round-outcome_example :
    Outcome cfg (round_at 1 device) gpu (poll_round cfg (round_at 1 device) gpu)
poll_round-outcome_example =
    poll_round-outcome cfg (round_at 1 device) gpu (fresh_ring-IsValid 4 (omega arith))

run_refines_example :
    (ss : List (Sample Fixed)) × (length ss ≡ length (run cfg rounds gpu).1)
    × (contents (run cfg rounds gpu).0.ring ≡ keep_last 4 (contents gpu.ring ++ ss))
    × All SaysPresent (run cfg rounds gpu).1
    × ((run cfg rounds gpu).0.probe ≡ gpu.probe)
run_refines_example = run_refines cfg rounds gpu (fresh_ring-IsValid 4 (omega arith))

run-counters_example : CountersAgree cfg (run cfg rounds (collector_start cfg gpu)).0
run-counters_example = run-counters (omega arith) (omega arith) rounds gpu

lost : (run cfg (round_at 3 lost_device ∷ []) gpu).0.gpu_present ≡ false
unfolding run do_nvml_poll
lost = refl

run-lost_example :
    run cfg ((round_at 3 lost_device ∷ []) ++ (round_at 4 device ∷ [])) gpu
    ≡ run cfg (round_at 3 lost_device ∷ []) gpu
run-lost_example = run-lost cfg (round_at 3 lost_device ∷ []) (round_at 4 device ∷ []) gpu lost

abbrev no_env : List ℕ → Option (List ℕ)
no_env name = none

defaults_load : config_load {D = Fixed} none no_env ≡ some cfg_defaults
unfolding config_load
defaults_load = refl

deltas-fit_example :
    let r = (run cfg_defaults rounds (collector_start cfg_defaults gpu)).0.ring in
    IsValid r × (0 < r.capacity) × (r.capacity ≤ 3600) × (length (deltas r) < deltas_size)
deltas-fit_example = deltas-fit none no_env defaults_load rounds gpu
