-- ===== src/Tests/Files.antt =====
-- Runs on the files of the baseline and of the probe, and on a poll of DCGM.
use gpu_health_index.Prelude.{
  none, ℕ, ◌-◌, ◌≤◌, ◌≡◌, refl, true, Option, some, List, [], ◌∷◌, ◌++◌, take, length, arith,
}
use gpu_health_index.Prelude.Int.{ℤ, pos}
use gpu_health_index.Double.{nought}
use gpu_health_index.Double.Fixed.{Fixed, fixed_double, strtod_fixed}
use gpu_health_index.Config.Table.{bytes}
use gpu_health_index.Util.{str_trim}
use gpu_health_index.Util.Numbers.{parse_int, parse_double}
use gpu_health_index.Collector.DcgmState.{DcgmFields, apply_dcgm_state}
use gpu_health_index.Collector.Dcgm.{
  FieldId, FieldReading, poll_fields, sentinels, store_fields, dcgm_poll,
}
use gpu_health_index.Collector.Dcgm.Overlay.{Overlaid, dcgm_poll-Overlaid}
use gpu_health_index.State.{parse_iso8601}
use gpu_health_index.State.Baseline.{baseline_load}
use gpu_health_index.State.Baseline.Valid.{IsUsable, NanOrInRange, baseline_load-IsUsable}
use gpu_health_index.State.Probe.{probe_load}
use gpu_health_index.State.Watch.{WatchStep, change, check, reloads}
use gpu_health_index.State.Probe.Stale.{Aged, probe_load-Aged}
use gpu_health_index.Http.Buffer.{bprintf_all, concat, bprintf_all-take}
use gpu_health_index.Double.Lawful.{Fixed-IsLawful}
use gpu_health_index.Tests.Data.{idle_state}

-- any text is a time
abbrev clock : List ℕ → Option (ℤ × List ℕ)
clock s = some (pos 1_773_584_520, [])

abbrev baseline_file : Option (List ℕ)
baseline_file = some (
    bytes
      "serial=1650\nperf_w_mean = 2.5\n# note\nestablished_at=2026-03-15T14:22:00Z\nworkload=gemm\nsample_count=60\n")

is_valid : (baseline_load {D = Fixed} clock baseline_file (bytes "1650")).valid ≡ true
unfolding baseline_load str_trim parse_double parse_int strtod_fixed parse_iso8601
is_valid = refl

baseline_load-IsUsable_example :
    IsUsable (bytes "1650") (baseline_load {D = Fixed} clock baseline_file (bytes "1650"))
    × NanOrInRange (baseline_load {D = Fixed} clock baseline_file (bytes "1650")).perf_w_mean
baseline_load-IsUsable_example =
    baseline_load-IsUsable Fixed-IsLawful clock baseline_file (bytes "1650") is_valid

abbrev probe_file : Option (List ℕ)
probe_file = some (
    bytes "serial=1650\nperf_w_mean=2.4\nprobe_timestamp=2026-03-15T14:22:00Z\nprobe_exit_code=0\n")

probe_load-Aged_example :
    Aged 1_773_800_000 129_600 (probe_load {D = Fixed} clock probe_file 1_773_800_000 129_600)
probe_load-Aged_example = probe_load-Aged clock probe_file 1_773_800_000 129_600

-- two files are written and renamed; the first check fails at its second read
abbrev watched : List WatchStep
watched = change 1 ∷ change 1 ∷ check 1 (some 1) ∷ check 0 none ∷ check 1 none ∷ []

reloaded_by_one : reloads (λ p. 0) watched 0 ≡ 0 ∷ []
unfolding reloads
reloaded_by_one = refl

abbrev readings : FieldId → FieldReading Fixed
readings id = record { status_ok = true; is_int64 = true; i64 = pos 7; dbl = nought }

abbrev polled : DcgmFields Fixed
polled = store_fields poll_fields readings sentinels

is_polled : dcgm_poll (some readings) ≡ some polled
unfolding dcgm_poll
is_polled = refl

dcgm_poll-Overlaid_example : Overlaid readings idle_state (apply_dcgm_state idle_state polled)
dcgm_poll-Overlaid_example = dcgm_poll-Overlaid readings idle_state polled is_polled

bprintf_all-take_example :
    (bprintf_all 6 [] ((1 ∷ 2 ∷ 3 ∷ []) ∷ (4 ∷ 5 ∷ 6 ∷ []) ∷ [])
      ≡ take (6 - 1) ([] ++ concat ((1 ∷ 2 ∷ 3 ∷ []) ∷ (4 ∷ 5 ∷ 6 ∷ []) ∷ [])))
    × (length (bprintf_all 6 [] ((1 ∷ 2 ∷ 3 ∷ []) ∷ (4 ∷ 5 ∷ 6 ∷ []) ∷ [])) ≤ 6 - 1)
bprintf_all-take_example =
    bprintf_all-take 6 [] ((1 ∷ 2 ∷ 3 ∷ []) ∷ (4 ∷ 5 ∷ 6 ∷ []) ∷ []) (omega arith)
