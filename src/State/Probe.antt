-- ===== src/State/Probe.antt =====
-- state.c: probe_load. The text of the file, or `none` where fopen fails, and the time are arguments.
pub mod Stale
use gpu_health_index.Prelude.{
  ℕ, ◌-◌, Bool, true, false, not, ◌&&◌, Option, none, some, List, [], ◌∷◌, ltb, ◌==◌, if◌then◌else◌,
}
use gpu_health_index.Prelude.Int.{ℤ, pos, negsuc}
use gpu_health_index.Double.{Double, nought}
use gpu_health_index.Types.{ProbeResult}
use gpu_health_index.Util.{same_string, safe_strncpy}
use gpu_health_index.Util.Numbers.{parse_int, parse_signed, parse_double}
use gpu_health_index.Config.Table.{bytes}
use gpu_health_index.State.{split_kv, parse_iso8601, file_lines}

-- The file read so far: the fields, which of the required ones were seen, and parse_error.
pub record ProbeSeen (D : Type 0) : Type 0 where
  pub probe : ProbeResult D
  pub has_serial : Bool
  pub has_perf_w : Bool
  pub has_timestamp : Bool
  pub has_exit_code : Bool
  pub parse_error : Bool

module _ {D : Type 0} ⦃d : Double D⦄ where
  -- memset to 0
  abbrev pub blank_probe : ProbeResult D
  blank_probe = record {
    available = false;
    stale = false;
    serial = [];
    perf_w_mean = nought;
    probe_timestamp_s = 0;
    probe_exit_code = pos 0;
    workload = [];
    sample_count = pos 0;
    probe_duration_s = nought;
  }

  unfoldable pub probe_perf : Option D → ProbeSeen D → ProbeSeen D
  probe_perf none st = record st { parse_error = true }
  probe_perf (some v) st = record st {
    probe = record st.probe { perf_w_mean = v };
    has_perf_w = true;
  }

  unfoldable pub probe_time : ℕ → ProbeSeen D → ProbeSeen D
  probe_time t st =
      let p = record st.probe { probe_timestamp_s = t } in
      if t == 0
      then record st { probe = p; parse_error = true }
      else record st { probe = p; has_timestamp = true }

  unfoldable pub probe_exit : Option ℤ → ProbeSeen D → ProbeSeen D
  probe_exit none st = record st { parse_error = true }
  probe_exit (some n) st = record st {
    probe = record st.probe { probe_exit_code = n };
    has_exit_code = true;
  }

  -- a bad sample_count or probe_duration_s is no error
  unfoldable pub probe_samples : Option ℕ → ProbeSeen D → ProbeSeen D
  probe_samples none st = st
  probe_samples (some n) st = record st { probe = record st.probe { sample_count = pos n } }

  unfoldable pub probe_duration : Option D → ProbeSeen D → ProbeSeen D
  probe_duration none st = st
  probe_duration (some v) st = record st { probe = record st.probe { probe_duration_s = v } }

  -- The checks after the loop, and the age against the TTL.
  unfoldable pub judge_probe : ℕ → ℕ → ProbeSeen D → ProbeResult D
  judge_probe now probe_ttl_s st =
      let p = st.probe in
      if st.parse_error
      then record p { available = false }
      else if not (st.has_serial && st.has_perf_w && st.has_timestamp && st.has_exit_code)
      then record p { available = false }
      else if ltb p.probe_timestamp_s now && ltb probe_ttl_s (now - p.probe_timestamp_s)
      then record p { stale = true }
      else p

  module _ (clock : List ℕ → Option (ℤ × List ℕ)) where
    unfoldable pub probe_pair : List ℕ → List ℕ → ProbeSeen D → ProbeSeen D
    unfolding same_string safe_strncpy probe_perf probe_time probe_exit probe_samples probe_duration
    probe_pair key val st =
        if same_string key (bytes "serial")
        then record st {
          probe = record st.probe { serial = safe_strncpy val 32 };
          has_serial = true;
        }
        else if same_string key (bytes "perf_w_mean")
        then probe_perf (parse_double val nought (d.lit 1_000_000_000 0)) st
        else if same_string key (bytes "probe_timestamp")
        then probe_time (parse_iso8601 clock val) st
        else if same_string key (bytes "probe_exit_code")
        then probe_exit (parse_signed val (negsuc 999) (pos 1000)) st
        else if same_string key (bytes "workload")
        then record st { probe = record st.probe { workload = safe_strncpy val 128 } }
        else if same_string key (bytes "sample_count")
        then probe_samples (parse_int val 0 1_000_000) st
        else if same_string key (bytes "probe_duration_s")
        then probe_duration (parse_double val nought (d.lit 86400 0)) st
        else st

    unfoldable pub probe_line : Option (List ℕ × List ℕ) → ProbeSeen D → ProbeSeen D
    unfolding probe_pair
    probe_line none st = st
    probe_line (some (key, val)) st = probe_pair key val st

    -- the loop, which ends at the first parse error
    unfoldable pub probe_lines : List (List ℕ) → ProbeSeen D → ProbeSeen D
    unfolding probe_line split_kv
    probe_lines [] st = st
    probe_lines (line ∷ lines) st =
        let rest = probe_lines lines (probe_line (split_kv line) st) in
        if st.parse_error then st else rest

    unfoldable pub probe_load : Option (List ℕ) → ℕ → ℕ → ProbeResult D
    unfolding probe_lines file_lines judge_probe
    probe_load none now probe_ttl_s = blank_probe
    probe_load (some text) now probe_ttl_s = judge_probe now probe_ttl_s (
        probe_lines (file_lines text) (record {
          probe = record blank_probe { available = true };
          has_serial = false;
          has_perf_w = false;
          has_timestamp = false;
          has_exit_code = false;
          parse_error = false;
        }))
