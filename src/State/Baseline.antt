-- ===== src/State/Baseline.antt =====
-- state.c: baseline_load. The text of the file, or `none` where fopen fails, is an argument.
pub mod Valid
use gpu_health_index.Prelude.{
  ℕ, ◌^◌, Bool, true, false, not, ◌&&◌, Option, none, some, List, [], ◌∷◌, ◌==◌, if◌then◌else◌,
}
use gpu_health_index.Prelude.Int.{ℤ, pos}
use gpu_health_index.Double.{Double, nought}
use gpu_health_index.Types.{Baseline}
use gpu_health_index.Util.{same_string, safe_strncpy}
use gpu_health_index.Util.Numbers.{parse_int, parse_double}
use gpu_health_index.Config.Table.{bytes}
use gpu_health_index.State.{split_kv, parse_iso8601, file_lines}

-- The file read so far: the fields, which of the required ones were seen, and parse_error.
pub record Seen (D : Type 0) : Type 0 where
  pub baseline : Baseline D
  pub has_serial : Bool
  pub has_perf_w : Bool
  pub has_established : Bool
  pub has_workload : Bool
  pub has_sample_count : Bool
  pub parse_error : Bool

module _ {D : Type 0} ⦃d : Double D⦄ where
  -- memset to 0
  abbrev pub blank_baseline : Baseline D
  blank_baseline = record {
    available = false;
    valid = false;
    serial_mismatch = false;
    driver_mismatch = false;
    serial = [];
    uuid = [];
    driver_version = [];
    perf_w_mean = nought;
    established_at_s = 0;
    workload = [];
    sample_count = pos 0;
  }

  -- before the first line
  abbrev pub unread : Seen D
  unread = record {
    baseline = record blank_baseline { available = true };
    has_serial = false;
    has_perf_w = false;
    has_established = false;
    has_workload = false;
    has_sample_count = false;
    parse_error = false;
  }

  unfoldable pub see_perf : Option D → Seen D → Seen D
  see_perf none st = record st { parse_error = true }
  see_perf (some v) st = record st {
    baseline = record st.baseline { perf_w_mean = v };
    has_perf_w = true;
  }

  unfoldable pub see_established : ℕ → Seen D → Seen D
  see_established t st =
      let b = record st.baseline { established_at_s = t } in
      if t == 0
      then record st { baseline = b; parse_error = true }
      else record st { baseline = b; has_established = true }

  unfoldable pub see_samples : Option ℕ → Seen D → Seen D
  see_samples none st = record st { parse_error = true }
  see_samples (some n) st = record st {
    baseline = record st.baseline { sample_count = pos n };
    has_sample_count = true;
  }

  -- The checks after the loop. `valid` is false up to here.
  unfoldable pub judge : List ℕ → Seen D → Baseline D
  judge serial st =
      let b = st.baseline in
      if st.parse_error
      then b
      else if not (
          st.has_serial && st.has_perf_w && st.has_established && st.has_workload
          && st.has_sample_count)
      then b
      else if not (same_string b.serial serial)
      then record b { serial_mismatch = true }
      else if d.le b.perf_w_mean nought
      then b
      else record b { valid = true }

  module _ (clock : List ℕ → Option (ℤ × List ℕ)) where
    unfoldable pub see_pair : List ℕ → List ℕ → Seen D → Seen D
    unfolding same_string safe_strncpy see_perf see_established see_samples
    see_pair key val st =
        if same_string key (bytes "serial")
        then record st {
          baseline = record st.baseline { serial = safe_strncpy val 32 };
          has_serial = true;
        }
        else if same_string key (bytes "uuid")
        then record st { baseline = record st.baseline { uuid = safe_strncpy val 48 } }
        else if same_string key (bytes "driver_version")
        then record st { baseline = record st.baseline { driver_version = safe_strncpy val 64 } }
        else if same_string key (bytes "perf_w_mean")
        then see_perf (parse_double val nought (d.lit 1_000_000_000 0)) st
        else if same_string key (bytes "established_at")
        then see_established (parse_iso8601 clock val) st
        else if same_string key (bytes "workload")
        then record st {
          baseline = record st.baseline { workload = safe_strncpy val 128 };
          has_workload = true;
        }
        else if same_string key (bytes "sample_count")
        then see_samples (parse_int val 1 1_000_000) st
        else st

    unfoldable pub see_line : Option (List ℕ × List ℕ) → Seen D → Seen D
    unfolding see_pair
    see_line none st = st
    see_line (some (key, val)) st = see_pair key val st

    -- the loop, which ends at the first parse error
    unfoldable pub see_lines : List (List ℕ) → Seen D → Seen D
    unfolding see_line split_kv
    see_lines [] st = st
    see_lines (line ∷ lines) st =
        let rest = see_lines lines (see_line (split_kv line) st) in
        if st.parse_error then st else rest

    unfoldable pub baseline_load : Option (List ℕ) → List ℕ → Baseline D
    unfolding see_lines file_lines judge
    baseline_load none serial = blank_baseline
    baseline_load (some text) serial = judge serial (see_lines (file_lines text) unread)
