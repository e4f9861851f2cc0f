-- ===== src/Tests/Scoring.antt =====
-- Runs of the ring buffer and of the scorer.
use gpu_health_index.Prelude.{
  ◌+◌, ◌-◌, ◌%◌, ◌^◌, ◌≤◌, ◌<◌, ◌≡◌, refl, inr, true, false, some, List, [], ◌∷◌, ◌++◌, length,
  arith, ◌==◌, if◌then◌else◌,
}
use gpu_health_index.Prelude.Bits.{test_bit}
use gpu_health_index.Double.{nought}
use gpu_health_index.Double.Fixed.{Fixed, fixed_double}
use gpu_health_index.Double.Lawful.{Fixed-IsLawful}
use gpu_health_index.Types.{Ring, Reason, reason_bit, na}
use gpu_health_index.Ring.{fresh_ring, ring_push}
use gpu_health_index.Ring.Window.{keep_last}
use gpu_health_index.Ring.Refine.{IsValid, contents, push_all, push_all_refines, fresh_ring-IsValid}
use gpu_health_index.Scorer.Gate.Clock.{step_seconds_wraps}
use gpu_health_index.Scorer.Gate.{step_seconds, completeness_gate, median_step}
use gpu_health_index.Scorer.Stats.{ring_p95, p95_rank, field_values}
use gpu_health_index.Scorer.Stats.Sort.{qsort}
use gpu_health_index.Scorer.Stats.Percentile.{count_if}
use gpu_health_index.Scorer.Stats.P95.{ring_p95-rank}
use gpu_health_index.Scorer.Score.{Inputs, score_gpu}
use gpu_health_index.Scorer.Score.Reasons.{applies}
use gpu_health_index.Scorer.Score.Reasons.Mask.{score_gpu-reasons}
use gpu_health_index.Scorer.Score.Classes.{score_gpu-na}
use gpu_health_index.Tests.Data.{cfg, sample, hot_samples, idle_state, no_baseline, no_probe}

abbrev hot : Inputs Fixed
hot = record {
  ring = push_all (fresh_ring 4) hot_samples;
  state = idle_state;
  baseline = some no_baseline;
  probe = some no_probe;
  cfg = cfg;
  temp_heap = true;
  hbm_heap = true;
}

-- Five samples over the bad temperature: the 95th percentile is the hottest, and 20 points go.
hot-passes : completeness_gate hot.ring hot.cfg ≡ true
unfolding completeness_gate push_all ring_push median_step qsort
hot-passes = refl

hot_p95 : ring_p95 true hot.ring (λ s. s.temp_c) ≡ fixed_double.lit 95 0
unfolding ring_p95 push_all ring_push qsort p95_rank
hot_p95 = refl

score_gpu-reasons_example : test_bit (reason_bit Reason.temp_bad) (score_gpu hot).reason_mask ≡ (
    if completeness_gate hot.ring hot.cfg
    then applies hot Reason.temp_bad
    else reason_bit Reason.temp_bad == reason_bit Reason.telemetry_incomplete)
score_gpu-reasons_example = score_gpu-reasons hot Reason.temp_bad

score_gpu-na_example :
    ((score_gpu hot).classification ≡ na → completeness_gate hot.ring hot.cfg ≡ false)
    × (completeness_gate hot.ring hot.cfg ≡ false
        → ((score_gpu hot).classification ≡ na)
          × ((score_gpu hot).score ≡ nought)
          × ((score_gpu hot).telemetry_ok ≡ false))
score_gpu-na_example = score_gpu-na hot

push_all_refines_example :
    (contents (push_all (fresh_ring {D = Fixed} 4) hot_samples)
      ≡ keep_last 4 (contents (fresh_ring {D = Fixed} 4) ++ hot_samples))
    × IsValid (push_all (fresh_ring {D = Fixed} 4) hot_samples)
push_all_refines_example = push_all_refines hot_samples (fresh_ring-IsValid 4 (omega arith))

-- a full ring, written out
abbrev full : Ring Fixed
full = record {
  samples = sample 1 92 ∷ sample 2 95 ∷ sample 3 91 ∷ sample 4 93 ∷ [];
  head = 0;
  count = 4;
  capacity = 4;
}

abbrev temps : List Fixed
temps = field_values full (λ s. s.temp_c)

ring_p95-rank_example :
    (p95_rank Fixed 4 - 1 < length (qsort temps))
    × (count_if (λ y. fixed_double.lt y (ring_p95 true full (λ s. s.temp_c))) temps
        < p95_rank Fixed 4)
    × (p95_rank Fixed 4
        ≤ count_if (λ y. fixed_double.le y (ring_p95 true full (λ s. s.temp_c))) temps)
ring_p95-rank_example =
    ring_p95-rank Fixed-IsLawful true full (λ s. s.temp_c) (omega arith) (inr refl)
      (refl, (refl, (refl, (refl, tt))))

-- The second sample of `back` is 1 s before the first.
abbrev back : Ring Fixed
back = record { samples = sample 2 92 ∷ sample 1 92 ∷ []; head = 0; count = 2; capacity = 2 }

step_seconds_wraps_example :
    step_seconds back 0
    ≡ fixed_double.div
        (fixed_double.of_nat ((1000 + 2 ^ 64 - 2000) % 2 ^ 64))
        (fixed_double.lit 1000 0)
step_seconds_wraps_example = step_seconds_wraps Fixed-IsLawful back 0
