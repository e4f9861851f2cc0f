-- ===== src/State/Probe/Stale.antt =====
-- state.c: when a probe result is used, and when it is stale.
use gpu_health_index.Prelude.{
  ℕ, ◌+◌, ◌<◌, ◌≡◌, refl, ◌≢◌, ◌↔◌, Bool, true, false, Option, none, some, List, [], ◌∷◌, arith,
  branches,
}
use gpu_health_index.Prelude.Int.{ℤ, pos, negsuc}
use gpu_health_index.Double.{Double, nought}
use gpu_health_index.Types.{ProbeResult}
use gpu_health_index.Util.{same_string, safe_strncpy}
use gpu_health_index.Util.Numbers.{parse_int, parse_signed, parse_double}
use gpu_health_index.Config.Table.{bytes}
use gpu_health_index.State.{split_kv, parse_iso8601, file_lines}
use gpu_health_index.State.Probe.{
  ProbeSeen, probe_perf, probe_time, probe_exit, probe_samples, probe_duration, probe_pair,
  probe_line, probe_lines, judge_probe, probe_load,
}

module _ {D : Type 0} ⦃d : Double D⦄ where
  -- What the lines read so far leave: the flags, and a time that is not 0 where one was read.
  record IsRead (st : ProbeSeen D) : Type 0 where
    available : st.probe.available ≡ true
    fresh : st.probe.stale ≡ false
    timed : st.parse_error ≡ false → st.has_timestamp ≡ true → st.probe.probe_timestamp_s ≢ 0

  probe_perf-IsRead : (o : Option D) (st : ProbeSeen D) → IsRead st → IsRead (probe_perf o st)
  unfolding probe_perf
  probe_perf-IsRead none st ok = ground arith
  probe_perf-IsRead (some v) st ok = ground arith

  probe_exit-IsRead : (o : Option ℤ) (st : ProbeSeen D) → IsRead st → IsRead (probe_exit o st)
  unfolding probe_exit
  probe_exit-IsRead none st ok = ground arith
  probe_exit-IsRead (some n) st ok = ground arith

  probe_samples-IsRead : (o : Option ℕ) (st : ProbeSeen D) → IsRead st → IsRead (probe_samples o st)
  unfolding probe_samples
  probe_samples-IsRead none st ok = ok
  probe_samples-IsRead (some n) st ok = ground arith

  probe_duration-IsRead :
      (o : Option D) (st : ProbeSeen D) → IsRead st → IsRead (probe_duration o st)
  unfolding probe_duration
  probe_duration-IsRead none st ok = ok
  probe_duration-IsRead (some v) st ok = ground arith

  probe_time-IsRead : (t : ℕ) (st : ProbeSeen D) → IsRead st → IsRead (probe_time t st)
  unfolding probe_time
  probe_time-IsRead t st ok = ground arith

  text_kept :
      (st : ProbeSeen D) (serial workload : List ℕ) (has_serial : Bool)
      → IsRead st
      → IsRead (record st {
        probe = record st.probe { serial = serial; workload = workload };
        has_serial = has_serial;
      })
  text_kept st serial workload has_serial ok = ground arith

  module _ (clock : List ℕ → Option (ℤ × List ℕ)) where
    probe_pair-IsRead :
        (key val : List ℕ) (st : ProbeSeen D) → IsRead st → IsRead (probe_pair clock key val st)
    unfolding probe_pair
    probe_pair-IsRead key val st ok =
        branches IsRead (same_string key (bytes "serial"))
          (text_kept st (safe_strncpy val 32) st.probe.workload true ok)
          (branches IsRead (same_string key (bytes "perf_w_mean"))
            (probe_perf-IsRead (parse_double val nought (d.lit 1_000_000_000 0)) st ok)
            (branches IsRead (same_string key (bytes "probe_timestamp"))
              (probe_time-IsRead (parse_iso8601 clock val) st ok)
              (branches IsRead (same_string key (bytes "probe_exit_code"))
                (probe_exit-IsRead (parse_signed val (negsuc 999) (pos 1000)) st ok)
                (branches IsRead (same_string key (bytes "workload"))
                  (text_kept st st.probe.serial (safe_strncpy val 128) st.has_serial ok)
                  (branches IsRead (same_string key (bytes "sample_count"))
                    (probe_samples-IsRead (parse_int val 0 1_000_000) st ok)
                    (branches IsRead (same_string key (bytes "probe_duration_s"))
                      (probe_duration-IsRead (parse_double val nought (d.lit 86400 0)) st ok)
                      ok))))))

    probe_line-IsRead :
        (o : Option (List ℕ × List ℕ)) (st : ProbeSeen D)
        → IsRead st
        → IsRead (probe_line clock o st)
    unfolding probe_line
    probe_line-IsRead none st ok = ok
    probe_line-IsRead (some (key, val)) st ok = probe_pair-IsRead key val st ok

    probe_lines-IsRead :
        (lines : List (List ℕ)) (st : ProbeSeen D) → IsRead st → IsRead (probe_lines clock lines st)
    unfolding probe_lines
    probe_lines-IsRead [] st ok = ok
    probe_lines-IsRead (line ∷ lines) st ok =
        branches IsRead st.parse_error ok
          (probe_lines-IsRead lines _ (probe_line-IsRead (split_kv line) st ok))

  -- The age of a probe result against the TTL.
  pub record Aged (now probe_ttl_s : ℕ) (p : ProbeResult D) : Type 0 where
    pub timed : p.available ≡ true → p.probe_timestamp_s ≢ 0
    pub stale : p.available ≡ true → (p.stale ≡ true) ↔ (p.probe_timestamp_s + probe_ttl_s < now)
    pub unused : p.available ≡ false → p.stale ≡ false

  judge_probe-Aged :
      (now probe_ttl_s : ℕ) (st : ProbeSeen D)
      → IsRead st
      → Aged now probe_ttl_s (judge_probe now probe_ttl_s st)
  unfolding judge_probe
  judge_probe-Aged now probe_ttl_s st ok = ground arith

  -- Whatever the file holds: a probe result that is available has a time that is not 0, and is stale
  -- exactly if more than the TTL has passed since then; one that is not available is not stale.
  pub probe_load-Aged :
      (clock : List ℕ → Option (ℤ × List ℕ)) (file : Option (List ℕ)) (now probe_ttl_s : ℕ)
      → Aged now probe_ttl_s (probe_load {D = D} clock file now probe_ttl_s)
  unfolding probe_load
  probe_load-Aged clock none now probe_ttl_s = ground arith
  probe_load-Aged clock (some text) now probe_ttl_s = judge_probe-Aged now probe_ttl_s _ (
      probe_lines-IsRead clock (file_lines text) _
        (record { available = refl; fresh = refl; timed = λ _ p. ground arith }))
