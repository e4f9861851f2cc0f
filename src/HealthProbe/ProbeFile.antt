-- ===== src/HealthProbe/ProbeFile.antt =====
-- The probe file: what write_probe_file writes, probe_load reads back.
use gpu_health_index.Prelude.{
  ℕ, ◌-◌, ◌≤◌, ◌≡◌, ◌≢◌, refl, ap, ◌∙◌, Bool, true, false, ◌&&◌, Option, none, some, List, [], ◌∷◌,
  ◌++◌, take, length, ltb, if◌then◌else◌, arith, Bool-cases, inl, inr,
}
use gpu_health_index.Prelude.Int.{ℤ, pos, negsuc}
use gpu_health_index.Double.{Double, nought}
use gpu_health_index.Types.{ProbeResult}
use gpu_health_index.Util.{same_string, safe_strncpy, str_trim, trim_start, trim_end}
use gpu_health_index.Config.Load.{c_string, is_comment}
use gpu_health_index.Util.Numbers.{
  digits, starts_with_digit, unsigned_part, signed_part, in_long, strtol, checked_signed,
  parse_signed, parse_double,
}
use gpu_health_index.Config.Table.{bytes}
use gpu_health_index.Http.Buffer.{concat}
use gpu_health_index.Http.Request.{has_byte}
use gpu_health_index.Http.Reply.{decimal}
use gpu_health_index.Http.Metrics.Family.{Printf}
use gpu_health_index.State.{split_kv, parse_iso8601, file_lines}
use gpu_health_index.State.Probe.{
  ProbeSeen, probe_perf, probe_time, probe_exit, probe_samples, probe_duration, probe_pair,
  probe_line, probe_lines, judge_probe, probe_load, blank_probe,
}
use gpu_health_index.Process.FileSd.{Disk}
use gpu_health_index.HealthProbe.{key_value, WriteAnswers, probe_text, write_probe_file, probe_path}
use gpu_health_index.HealthProbe.Lines.{is_visible, file_lines-line, parse_int-decimal}
use gpu_health_index.HealthProbe.Keys.{
  IsShort, is_key, key_file_lines, key_split, decimal-IsShort, write_file-done,
}

probe_comment_line :
    (ts : List (List ℕ))
    → file_lines (concat ((bytes "# Written by gpu_health_probe 0.1.0" ++ 10 ∷ []) ∷ ts))
      ≡ (bytes "# Written by gpu_health_probe 0.1.0" ++ 10 ∷ []) ∷ file_lines (concat ts)
unfolding has_byte
probe_comment_line ts =
    file_lines-line (bytes "# Written by gpu_health_probe 0.1.0") (concat ts) refl (omega arith)

zero_read : parse_signed (bytes "0") (negsuc 999) (pos 1000) ≡ some (pos 0)
unfolding parse_signed checked_signed strtol digits signed_part unsigned_part starts_with_digit
    in_long trim_start
zero_read = refl

probe_comment : split_kv (bytes "# Written by gpu_health_probe 0.1.0" ++ 10 ∷ []) ≡ none
unfolding split_kv is_comment str_trim trim_start trim_end c_string
probe_comment = refl

module _ {D : Type 0} ⦃d : Double D⦄ (clock : List ℕ → Option (ℤ × List ℕ)) where
  abbrev read : List (List ℕ) → ProbeSeen D → ProbeSeen D
  read ts st = probe_lines clock (file_lines (concat ts)) st

  probe_lines-next :
      (line : List ℕ) (o : Option (List ℕ × List ℕ)) (lines : List (List ℕ)) (st : ProbeSeen D)
      → st.parse_error ≡ false
      → split_kv line ≡ o
      → probe_lines clock (line ∷ lines) st ≡ probe_lines clock lines (probe_line clock o st)
  unfolding probe_lines
  probe_lines-next line o lines st h s =
      ap (λ b. if b then st else probe_lines clock lines (probe_line clock (split_kv line) st)) h
      ∙ ap (λ r. probe_lines clock lines (probe_line clock r st)) s

  -- one more line is read
  read-key :
      (c : ℕ) (key val : List ℕ) (ts : List (List ℕ)) (st next : ProbeSeen D)
      → is_key c key ≡ true
      → IsShort val
      → st.parse_error ≡ false
      → probe_pair clock (c ∷ key) val st ≡ next
      → read (key_value (c ∷ key) val ∷ ts) st ≡ read ts next
  read-key c key val ts st next k v h e =
      ap (λ l. probe_lines clock l st) (key_file_lines c key val ts k v)
      ∙ probe_lines-next (key_value (c ∷ key) val) (some (c ∷ key, val)) (file_lines (concat ts)) st
          h (key_split c key val k v)
      ∙ unfold probe_line in ap (probe_lines clock (file_lines (concat ts))) e

  -- The fields of a file that has been read.
  abbrev pub written_probe : List ℕ → D → ℕ → List ℕ → ℕ → D → ProbeResult D
  written_probe serial perf_w_mean t workload sample_count duration_s = record {
    available = true;
    stale = false;
    serial = safe_strncpy serial 32;
    perf_w_mean = perf_w_mean;
    probe_timestamp_s = t;
    probe_exit_code = pos 0;
    workload = safe_strncpy workload 128;
    sample_count = pos sample_count;
    probe_duration_s = duration_s;
  }

  abbrev seen : ProbeResult D → Bool → Bool → Bool → Bool → ProbeSeen D
  seen probe serial perf time code = record {
    probe = probe;
    has_serial = serial;
    has_perf_w = perf;
    has_timestamp = time;
    has_exit_code = code;
    parse_error = false;
  }

  -- the record after each of the lines
  abbrev fresh : ProbeResult D
  fresh = record blank_probe { available = true }

  timed :
      (t : ℕ) (st : ProbeSeen D)
      → t ≢ 0
      → probe_time t st
        ≡ record st { probe = record st.probe { probe_timestamp_s = t }; has_timestamp = true }
  unfolding probe_time
  timed t st h = ground arith

  module _ (p : Printf D) (serial timestamp workload : List ℕ) (mean duration : D) (n : ℕ) (v w : D)
      (t : ℕ) where
    -- The texts stay on their lines, the printed numbers read back as `v` and `w` in the ranges of
    -- the loader, and the time of the clock is `t`.
    pub record IsWritable : Type 0 where
      pub serial_short : IsShort serial
      pub timestamp_short : IsShort timestamp
      pub workload_short : IsShort workload
      pub mean_short : IsShort (p.fixed 6 mean)
      pub duration_short : IsShort (p.fixed 3 duration)
      pub mean_reads : parse_double (p.fixed 6 mean) nought (d.lit 1_000_000_000 0) ≡ some v
      pub duration_reads : parse_double (p.fixed 3 duration) nought (d.lit 86400 0) ≡ some w
      pub time_reads : parse_iso8601 clock timestamp ≡ t
      pub time_set : t ≢ 0
      pub count_bound : n ≤ 1_000_000

    -- what is read up to each of the lines
    abbrev named : ProbeSeen D
    named = seen (record fresh { serial = safe_strncpy serial 32 }) true false false false

    abbrev dated : ProbeSeen D
    dated = record named {
      probe = record named.probe { probe_timestamp_s = t };
      has_timestamp = true;
    }

    abbrev lasted : ProbeSeen D
    lasted = record dated { probe = record dated.probe { probe_duration_s = w } }

    abbrev measured : ProbeSeen D
    measured = record lasted { probe = record lasted.probe { perf_w_mean = v }; has_perf_w = true }

    abbrev labelled : ProbeSeen D
    labelled = record measured {
      probe = record measured.probe { workload = safe_strncpy workload 128 };
    }

    abbrev counted : ProbeSeen D
    counted = record labelled { probe = record labelled.probe { sample_count = pos n } }

    abbrev whole : ProbeSeen D
    whole = seen (written_probe serial v t workload n w) true true true true

    -- the texts from one of the lines on
    abbrev from_code : List (List ℕ)
    from_code = key_value (bytes "probe_exit_code") (bytes "0") ∷ []

    abbrev from_count : List (List ℕ)
    from_count = key_value (bytes "sample_count") (decimal n) ∷ from_code

    abbrev from_workload : List (List ℕ)
    from_workload = key_value (bytes "workload") workload ∷ from_count

    abbrev from_mean : List (List ℕ)
    from_mean = key_value (bytes "perf_w_mean") (p.fixed 6 mean) ∷ from_workload

    abbrev from_duration : List (List ℕ)
    from_duration = key_value (bytes "probe_duration_s") (p.fixed 3 duration) ∷ from_mean

    abbrev from_time : List (List ℕ)
    from_time = key_value (bytes "probe_timestamp") timestamp ∷ from_duration

    abbrev from_serial : List (List ℕ)
    from_serial = key_value (bytes "serial") serial ∷ from_time

    abbrev nothing_read : ProbeSeen D
    nothing_read = seen fresh false false false false

    rest_read : IsWritable → read from_serial nothing_read ≡ whole
    unfolding probe_pair same_string is_key is_visible has_byte
    rest_read ok =
        read-key 115 (bytes "erial") serial from_time nothing_read named refl ok.serial_short refl
          refl
        ∙ read-key 112 (bytes "robe_timestamp") timestamp from_duration named dated refl
            ok.timestamp_short refl
            (ap (λ x. probe_time x named) ok.time_reads ∙ timed t named ok.time_set)
        ∙ read-key 112 (bytes "robe_duration_s") (p.fixed 3 duration) from_mean dated lasted refl
            ok.duration_short refl
            (unfold probe_duration in ap (λ x. probe_duration x dated) ok.duration_reads)
        ∙ read-key 112 (bytes "erf_w_mean") (p.fixed 6 mean) from_workload lasted measured refl
            ok.mean_short refl (unfold probe_perf in ap (λ x. probe_perf x lasted) ok.mean_reads)
        ∙ read-key 119 (bytes "orkload") workload from_count measured labelled refl
            ok.workload_short refl refl
        ∙ read-key 115 (bytes "ample_count") (decimal n) from_code labelled counted refl
            (decimal-IsShort n ok.count_bound) refl
            (unfold probe_samples in
              ap (λ x. probe_samples x labelled)
                (parse_int-decimal n 0 1_000_000 (omega arith) ok.count_bound (omega arith)))
        ∙ read-key 112 (bytes "robe_exit_code") (bytes "0") [] counted whole refl
            (refl, omega arith) refl (unfold probe_exit in ap (λ x. probe_exit x counted) zero_read)
        ∙ unfold probe_lines file_lines in refl

    texts_read :
        IsWritable
        → read (probe_text p serial timestamp mean duration n workload) nothing_read ≡ whole
    unfolding probe_text probe_line
    texts_read ok =
        ap (λ l. probe_lines clock l nothing_read) (probe_comment_line from_serial)
        ∙ probe_lines-next (bytes "# Written by gpu_health_probe 0.1.0" ++ 10 ∷ []) none
            (file_lines (concat from_serial)) nothing_read refl probe_comment
        ∙ rest_read ok

    judged :
        (now ttl : ℕ)
        → judge_probe now ttl whole ≡ record (written_probe serial v t workload n w) {
          stale = ltb t now && ltb ttl (now - t);
        }
    unfolding judge_probe
    judged now ttl = elim (Bool-cases (ltb t now && ltb ttl (now - t))) [
      | inl q ↦ rw q refl
      | inr q ↦ rw q refl
    ]

    -- The text of the probe file is loaded whole.
    pub probe_load-probe_text :
        IsWritable
        → (now ttl : ℕ)
        → probe_load clock
            (some (concat (probe_text p serial timestamp mean duration n workload)))
            now
            ttl
          ≡ record (written_probe serial v t workload n w) {
            stale = ltb t now && ltb ttl (now - t);
          }
    unfolding probe_load
    probe_load-probe_text ok now ttl = ap (judge_probe now ttl) (texts_read ok) ∙ judged now ttl

  -- The exporter reads in the file that write_probe_file leaves, when it returns 0 and the text has
  -- reached the disk, what the probe measured.
  pub write_probe_file-loads :
      (p : Printf D) (serial timestamp workload : List ℕ) (mean duration : D) (n : ℕ) (v w : D)
      (t : ℕ) (a : WriteAnswers) (state_dir : List ℕ) (disk : Disk) (now ttl : ℕ)
      → IsWritable p serial timestamp workload mean duration n v w t
      → let result =
          write_probe_file p a state_dir serial timestamp mean duration n workload disk in
        result.1 ≡ true
        → length (concat (probe_text p serial timestamp mean duration n workload)) ≤ a.reach
        → probe_load clock (result.0 (probe_path state_dir serial)) now ttl
          ≡ record (written_probe serial v t workload n w) {
            stale = ltb t now && ltb ttl (now - t);
          }
  unfolding write_probe_file
  write_probe_file-loads p serial timestamp workload mean duration n v w t a state_dir disk now ttl
        ok done reach =
      ap (λ f. probe_load clock f now ttl)
        (write_file-done a (probe_path state_dir serial)
          (take 519 (state_dir ++ (47 ∷ (serial ++ bytes ".probe.tmp"))))
          (concat (probe_text p serial timestamp mean duration n workload)) disk done reach)
      ∙ probe_load-probe_text p serial timestamp workload mean duration n v w t ok now ttl
