-- ===== src/HealthProbe/BaselineFile.antt =====
-- The baseline file: what write_baseline_file writes, baseline_load reads back and accepts.
use gpu_health_index.Prelude.{
  ℕ, ◌≤◌, ◌≡◌, ◌≢◌, refl, ap, sym, ◌∙◌, true, false, not, Option, none, some, List, [], ◌∷◌, ◌++◌,
  take, length, if◌then◌else◌, arith,
}
use gpu_health_index.Prelude.Int.{ℤ, pos}
use gpu_health_index.Double.{Double, nought}
use gpu_health_index.Types.{Baseline}
use gpu_health_index.Util.{same_string, safe_strncpy, str_trim, trim_start, trim_end}
use gpu_health_index.Util.Numbers.{parse_double}
use gpu_health_index.Config.Load.{c_string, is_comment}
use gpu_health_index.Config.Table.{bytes}
use gpu_health_index.Http.Buffer.{concat, take_all}
use gpu_health_index.Http.Request.{has_byte}
use gpu_health_index.Http.Reply.{decimal}
use gpu_health_index.Http.Metrics.Family.{Printf}
use gpu_health_index.State.{split_kv, parse_iso8601, file_lines}
use gpu_health_index.State.Baseline.{
  Seen, see_perf, see_established, see_samples, see_pair, see_line, see_lines, judge, baseline_load,
  unread,
}
use gpu_health_index.Process.FileSd.{Disk, same_string_refl}
use gpu_health_index.HealthProbe.{
  key_value, WriteAnswers, baseline_text, unless_empty, write_baseline_file, baseline_path,
}
use gpu_health_index.HealthProbe.Lines.{is_visible, file_lines-line, parse_int-decimal}
use gpu_health_index.HealthProbe.Keys.{
  IsShort, is_key, key_file_lines, key_split, decimal-IsShort, write_file-done,
}

abbrev comment : List ℕ
comment = bytes "# Written by gpu_health_probe 0.1.0 --establish-baseline"

comment_split : split_kv (comment ++ 10 ∷ []) ≡ none
unfolding split_kv is_comment str_trim trim_start trim_end c_string
comment_split = refl

comment_line :
    (ts : List (List ℕ))
    → file_lines (concat ((comment ++ 10 ∷ []) ∷ ts))
      ≡ (comment ++ 10 ∷ []) ∷ file_lines (concat ts)
unfolding has_byte
comment_line ts = file_lines-line comment (concat ts) refl (omega arith)

module _ {D : Type 0} ⦃d : Double D⦄ (clock : List ℕ → Option (ℤ × List ℕ)) where
  abbrev read : List (List ℕ) → Seen D → Seen D
  read ts st = see_lines clock (file_lines (concat ts)) st

  see_lines-next :
      (line : List ℕ) (o : Option (List ℕ × List ℕ)) (lines : List (List ℕ)) (st : Seen D)
      → st.parse_error ≡ false
      → split_kv line ≡ o
      → see_lines clock (line ∷ lines) st ≡ see_lines clock lines (see_line clock o st)
  unfolding see_lines
  see_lines-next line o lines st h s =
      ap (λ b. if b then st else see_lines clock lines (see_line clock (split_kv line) st)) h
      ∙ ap (λ r. see_lines clock lines (see_line clock r st)) s

  -- one more line is read
  read-key :
      (c : ℕ) (key val : List ℕ) (ts : List (List ℕ)) (st next : Seen D)
      → is_key c key ≡ true
      → IsShort val
      → st.parse_error ≡ false
      → see_pair clock (c ∷ key) val st ≡ next
      → read (key_value (c ∷ key) val ∷ ts) st ≡ read ts next
  read-key c key val ts st next k v h e =
      ap (λ l. see_lines clock l st) (key_file_lines c key val ts k v)
      ∙ see_lines-next (key_value (c ∷ key) val) (some (c ∷ key, val)) (file_lines (concat ts)) st h
          (key_split c key val k v)
      ∙ unfold see_line in ap (see_lines clock (file_lines (concat ts))) e

  -- a line that is missing where its text is empty, of a field that is empty before it
  read-unless_empty :
      (c : ℕ) (key val : List ℕ) (ts : List (List ℕ)) (st next : Seen D)
      → is_key c key ≡ true
      → IsShort val
      → st.parse_error ≡ false
      → see_pair clock (c ∷ key) val st ≡ next
      → (val ≡ [] → st ≡ next)
      → (p : Printf D) → read (unless_empty p (c ∷ key) val ts) st ≡ read ts next
  unfolding unless_empty
  read-unless_empty c key [] ts st next k v h e empty p = ap (read ts) (empty refl)
  read-unless_empty c key (x ∷ xs) ts st next k v h e empty p =
      read-key c key (x ∷ xs) ts st next k v h e

  established :
      (t : ℕ) (st : Seen D)
      → t ≢ 0
      → see_established t st ≡ record st {
        baseline = record st.baseline { established_at_s = t };
        has_established = true;
      }
  unfolding see_established
  established t st h = ground arith

  module _ (p : Printf D) (serial uuid driver_version timestamp workload : List ℕ) (mean : D)
      (n : ℕ) (v : D) (t : ℕ) where
    -- The texts stay on their lines, and the serial in its field; the printed mean reads back as `v`
    -- in the range of the loader, and the time of the clock is `t`.
    pub record IsWritable : Type 0 where
      pub serial_short : IsShort serial
      pub serial_fits : length serial ≤ 31
      pub uuid_short : IsShort uuid
      pub driver_short : IsShort driver_version
      pub timestamp_short : IsShort timestamp
      pub workload_short : IsShort workload
      pub mean_short : IsShort (p.fixed 6 mean)
      pub mean_reads : parse_double (p.fixed 6 mean) nought (d.lit 1_000_000_000 0) ≡ some v
      pub time_reads : parse_iso8601 clock timestamp ≡ t
      pub time_set : t ≢ 0
      pub count_positive : 1 ≤ n
      pub count_bound : n ≤ 1_000_000

    -- the fields of a file that has been read, before the checks
    abbrev pub written_baseline : Baseline D
    written_baseline = record {
      available = true;
      valid = false;
      serial_mismatch = false;
      driver_mismatch = false;
      serial = safe_strncpy serial 32;
      uuid = safe_strncpy uuid 48;
      driver_version = safe_strncpy driver_version 64;
      perf_w_mean = v;
      established_at_s = t;
      workload = safe_strncpy workload 128;
      sample_count = pos n;
    }

    -- what is read up to each of the lines
    abbrev named : Seen D
    named = record unread {
      baseline = record unread.baseline { serial = safe_strncpy serial 32 };
      has_serial = true;
    }

    abbrev identified : Seen D
    identified = record named { baseline = record named.baseline { uuid = safe_strncpy uuid 48 } }

    abbrev driven : Seen D
    driven = record identified {
      baseline = record identified.baseline { driver_version = safe_strncpy driver_version 64 };
    }

    abbrev measured : Seen D
    measured = record driven {
      baseline = record driven.baseline { perf_w_mean = v };
      has_perf_w = true;
    }

    abbrev dated : Seen D
    dated = record measured {
      baseline = record measured.baseline { established_at_s = t };
      has_established = true;
    }

    abbrev labelled : Seen D
    labelled = record dated {
      baseline = record dated.baseline { workload = safe_strncpy workload 128 };
      has_workload = true;
    }

    abbrev whole : Seen D
    whole = record labelled { baseline = written_baseline; has_sample_count = true }

    -- the texts from one of the lines on
    abbrev from_count : List (List ℕ)
    from_count = key_value (bytes "sample_count") (decimal n) ∷ []

    abbrev from_workload : List (List ℕ)
    from_workload = key_value (bytes "workload") workload ∷ from_count

    abbrev from_time : List (List ℕ)
    from_time = key_value (bytes "established_at") timestamp ∷ from_workload

    abbrev from_mean : List (List ℕ)
    from_mean = key_value (bytes "perf_w_mean") (p.fixed 6 mean) ∷ from_time

    abbrev from_driver : List (List ℕ)
    from_driver = unless_empty p (bytes "driver_version") driver_version from_mean

    abbrev from_uuid : List (List ℕ)
    from_uuid = unless_empty p (bytes "uuid") uuid from_driver

    abbrev from_serial : List (List ℕ)
    from_serial = key_value (bytes "serial") serial ∷ from_uuid

    no_uuid : uuid ≡ [] → named ≡ identified
    unfolding safe_strncpy
    no_uuid e = rw e refl

    no_driver : driver_version ≡ [] → identified ≡ driven
    unfolding safe_strncpy
    no_driver e = rw e refl

    rest_read : IsWritable → read from_serial unread ≡ whole
    unfolding see_pair same_string is_key is_visible has_byte
    rest_read ok =
        read-key 115 (bytes "erial") serial from_uuid unread named refl ok.serial_short refl refl
        ∙ read-unless_empty 117 (bytes "uid") uuid from_driver named identified refl ok.uuid_short
            refl refl no_uuid p
        ∙ read-unless_empty 100 (bytes "river_version") driver_version from_mean identified driven
            refl ok.driver_short refl refl no_driver p
        ∙ read-key 112 (bytes "erf_w_mean") (p.fixed 6 mean) from_time driven measured refl
            ok.mean_short refl (unfold see_perf in ap (λ x. see_perf x driven) ok.mean_reads)
        ∙ read-key 101 (bytes "stablished_at") timestamp from_workload measured dated refl
            ok.timestamp_short refl
            (ap (λ x. see_established x measured) ok.time_reads
              ∙ established t measured ok.time_set)
        ∙ read-key 119 (bytes "orkload") workload from_count dated labelled refl ok.workload_short
            refl refl
        ∙ read-key 115 (bytes "ample_count") (decimal n) [] labelled whole refl
            (decimal-IsShort n ok.count_bound) refl
            (unfold see_samples in
              ap (λ x. see_samples x labelled)
                (parse_int-decimal n 1 1_000_000 ok.count_positive ok.count_bound (omega arith)))
        ∙ unfold see_lines file_lines in refl

    texts_read :
        IsWritable
        → read (baseline_text p serial uuid driver_version timestamp mean n workload) unread ≡ whole
    unfolding baseline_text see_line
    texts_read ok =
        ap (λ l. see_lines clock l unread) (comment_line from_serial)
        ∙ see_lines-next (comment ++ 10 ∷ []) none (file_lines (concat from_serial)) unread refl
            comment_split
        ∙ rest_read ok

    kept : length serial ≤ 31 → same_string (safe_strncpy serial 32) serial ≡ true
    unfolding safe_strncpy
    kept h = ap (λ s. same_string s serial) (sym (take_all 31 serial h)) ∙ same_string_refl serial

    judged :
        length serial ≤ 31
        → judge serial whole ≡ record written_baseline { valid = not (d.le v nought) }
    unfolding judge
    judged h = ground (arith, kept h)

    -- The text of the baseline file is loaded whole.
    baseline_load-baseline_text :
        IsWritable
        → baseline_load clock
            (some (concat (baseline_text p serial uuid driver_version timestamp mean n workload)))
            serial
          ≡ record written_baseline { valid = not (d.le v nought) }
    unfolding baseline_load
    baseline_load-baseline_text ok = ap (judge serial) (texts_read ok) ∙ judged ok.serial_fits

  -- The exporter reads in the file that write_baseline_file leaves, when it returns 0 and the text has
  -- reached the disk, what the probe measured, where its texts fit and stay on their lines, its printed
  -- mean and its time read back, and the number is from 1 to 1,000,000; and takes it as a valid baseline of the GPU if the mean that is
  -- read back is positive (a mean that prints as 0 is not); also where the UUID or the driver version
  -- is missing.
  pub write_baseline_file-loads :
      (p : Printf D) (serial uuid driver_version timestamp workload : List ℕ) (mean : D) (n : ℕ)
      (v : D) (t : ℕ) (a : WriteAnswers) (baseline_dir : List ℕ) (disk : Disk)
      → IsWritable p serial uuid driver_version timestamp workload mean n v t
      → let result =
          write_baseline_file p a baseline_dir serial uuid driver_version timestamp mean n workload
            disk in
        result.1 ≡ true
        → length (concat (baseline_text p serial uuid driver_version timestamp mean n workload))
          ≤ a.reach
        → baseline_load clock (result.0 (baseline_path baseline_dir serial)) serial
          ≡ record (written_baseline p serial uuid driver_version timestamp workload mean n v t) {
            valid = not (d.le v nought);
          }
  unfolding write_baseline_file
  write_baseline_file-loads p serial uuid driver_version timestamp workload mean n v t a
        baseline_dir disk ok done reach =
      ap (λ f. baseline_load clock f serial)
        (write_file-done a (baseline_path baseline_dir serial)
          (take 519 (baseline_dir ++ (47 ∷ (serial ++ bytes ".tmp"))))
          (concat (baseline_text p serial uuid driver_version timestamp mean n workload)) disk done
          reach)
      ∙ baseline_load-baseline_text p serial uuid driver_version timestamp workload mean n v t ok
