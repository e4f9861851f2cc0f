-- ===== src/State/Baseline/Valid.antt =====
-- state.c: what a baseline that is marked as valid satisfies.
use gpu_health_index.Prelude.{
  ℕ, ◌≤◌, ◌≡◌, refl, ap, ◌∙◌, ◌≢◌, ◌⊎◌, not, inl, inr, Bool, true, false, Option, none, some, List,
  [], ◌∷◌, ◌==◌, arith, Bool-cases, branches,
}
use gpu_health_index.Prelude.Int.{ℤ, pos}
use gpu_health_index.Double.{Double, nought, IsLawful}
use gpu_health_index.Types.{Baseline}
use gpu_health_index.Util.{same_string, safe_strncpy}
use gpu_health_index.Util.Numbers.{parse_int, parse_double, parse_int-bounds, parse_double-bounds}
use gpu_health_index.Config.Table.{bytes}
use gpu_health_index.State.{split_kv, parse_iso8601, file_lines}
use gpu_health_index.State.Baseline.{
  Seen, see_perf, see_established, see_samples, see_pair, see_line, see_lines, judge, baseline_load,
}

pub same_string-eq : (xs ys : List ℕ) → same_string xs ys ≡ true → xs ≡ ys
unfolding same_string
same_string-eq [] [] h = refl
same_string-eq [] (y ∷ ys) h = ground arith
same_string-eq (x ∷ xs) [] h = ground arith
same_string-eq (x ∷ xs) (y ∷ ys) h =
    let head : x ≡ y = ground arith in
    ap (λ x. x ∷ xs) head ∙ ap (λ xs. y ∷ xs) (same_string-eq xs ys (ground arith))

module _ {D : Type 0} ⦃d : Double D⦄ where
  -- What the lines read so far have established.
  record IsSound (st : Seen D) : Type 0 where
    available : st.baseline.available ≡ true
    unjudged : (st.baseline.valid ≡ false) × (st.baseline.serial_mismatch ≡ false)
    perf :
        st.has_perf_w ≡ true
        → (d.lt st.baseline.perf_w_mean nought ≡ false)
          × (d.lt (d.lit 1_000_000_000 0) st.baseline.perf_w_mean ≡ false)
    established :
        st.parse_error ≡ false → st.has_established ≡ true → st.baseline.established_at_s ≢ 0
    samples :
        st.has_sample_count ≡ true
        → (n : ℕ) × (st.baseline.sample_count ≡ pos n) × (1 ≤ n) × (n ≤ 1_000_000)

  see_perf-IsSound :
      (val : List ℕ) (o : Option D) (st : Seen D)
      → parse_double val nought (d.lit 1_000_000_000 0) ≡ o
      → IsSound st
      → IsSound (see_perf o st)
  unfolding see_perf
  see_perf-IsSound val none st e ok = record {
    available = ok.available;
    unjudged = ok.unjudged;
    perf = ok.perf;
    established = λ p. ground arith;
    samples = ok.samples;
  }
  see_perf-IsSound val (some v) st e ok = record {
    available = ok.available;
    unjudged = ok.unjudged;
    perf = λ _. parse_double-bounds val nought (d.lit 1_000_000_000 0) v e;
    established = ok.established;
    samples = ok.samples;
  }

  see_samples-IsSound :
      (val : List ℕ) (o : Option ℕ) (st : Seen D)
      → parse_int val 1 1_000_000 ≡ o
      → IsSound st
      → IsSound (see_samples o st)
  unfolding see_samples
  see_samples-IsSound val none st e ok = record {
    available = ok.available;
    unjudged = ok.unjudged;
    perf = ok.perf;
    established = λ p. ground arith;
    samples = ok.samples;
  }
  see_samples-IsSound val (some n) st e ok = record {
    available = ok.available;
    unjudged = ok.unjudged;
    perf = ok.perf;
    established = ok.established;
    samples = λ _. let (low, high) = parse_int-bounds val 1 1_000_000 n e in (n, refl, low, high);
  }

  see_established-IsSound : (t : ℕ) (st : Seen D) → IsSound st → IsSound (see_established t st)
  unfolding see_established
  see_established-IsSound t st ok = elim (Bool-cases (t == 0)) [
    | inl q ↦ rw q (record {
      available = ok.available;
      unjudged = ok.unjudged;
      perf = ok.perf;
      established = λ p. ground arith;
      samples = ok.samples;
    })
    | inr q ↦ rw q (record {
      available = ok.available;
      unjudged = ok.unjudged;
      perf = ok.perf;
      established = λ _ _. ground arith;
      samples = ok.samples;
    })
  ]

  -- a field that no check depends on
  kept :
      (st : Seen D) (serial uuid driver_version workload : List ℕ) (has_serial has_workload : Bool)
      → IsSound st
      → IsSound (record st {
        baseline = record st.baseline {
          serial = serial;
          uuid = uuid;
          driver_version = driver_version;
          workload = workload;
        };
        has_serial = has_serial;
        has_workload = has_workload;
      })
  kept st serial uuid driver_version workload has_serial has_workload ok = record {
    available = ok.available;
    unjudged = ok.unjudged;
    perf = ok.perf;
    established = ok.established;
    samples = ok.samples;
  }

  module _ (clock : List ℕ → Option (ℤ × List ℕ)) where
    see_pair-IsSound :
        (key val : List ℕ) (st : Seen D) → IsSound st → IsSound (see_pair clock key val st)
    unfolding see_pair
    see_pair-IsSound key val st ok =
        branches IsSound (same_string key (bytes "serial"))
          (kept st (safe_strncpy val 32) b.uuid b.driver_version b.workload true st.has_workload ok)
          (branches IsSound (same_string key (bytes "uuid"))
            (kept st b.serial (safe_strncpy val 48) b.driver_version b.workload st.has_serial
              st.has_workload ok)
            (branches IsSound (same_string key (bytes "driver_version"))
              (kept st b.serial b.uuid (safe_strncpy val 64) b.workload st.has_serial
                st.has_workload ok)
              (branches IsSound (same_string key (bytes "perf_w_mean"))
                (see_perf-IsSound val _ st refl ok)
                (branches IsSound (same_string key (bytes "established_at"))
                  (see_established-IsSound (parse_iso8601 clock val) st ok)
                  (branches IsSound (same_string key (bytes "workload"))
                    (kept st b.serial b.uuid b.driver_version (safe_strncpy val 128) st.has_serial
                      true ok)
                    (branches IsSound (same_string key (bytes "sample_count"))
                      (see_samples-IsSound val _ st refl ok) ok))))))
      where
        b : Baseline D
        b = st.baseline

    see_line-IsSound :
        (o : Option (List ℕ × List ℕ)) (st : Seen D) → IsSound st → IsSound (see_line clock o st)
    unfolding see_line
    see_line-IsSound none st ok = ok
    see_line-IsSound (some (key, val)) st ok = see_pair-IsSound key val st ok

    see_lines-IsSound :
        (lines : List (List ℕ)) (st : Seen D) → IsSound st → IsSound (see_lines clock lines st)
    unfolding see_lines
    see_lines-IsSound [] st ok = ok
    see_lines-IsSound (line ∷ lines) st ok =
        branches IsSound st.parse_error ok
          (see_lines-IsSound lines _ (see_line-IsSound (split_kv line) st ok))

  -- a baseline that the scorer may use for the device with this serial
  pub record IsUsable (serial : List ℕ) (b : Baseline D) : Type 0 where
    pub available : b.available ≡ true
    pub same_serial : b.serial ≡ serial
    pub no_mismatch : b.serial_mismatch ≡ false
    pub not_below : d.lt b.perf_w_mean nought ≡ false
    pub not_above : d.lt (d.lit 1_000_000_000 0) b.perf_w_mean ≡ false
    pub not_zero : d.le b.perf_w_mean nought ≡ false
    pub established : b.established_at_s ≢ 0
    pub samples : (n : ℕ) × (b.sample_count ≡ pos n) × (1 ≤ n) × (n ≤ 1_000_000)

  judge-IsUsable :
      (serial : List ℕ) (st : Seen D)
      → IsSound st
      → (judge serial st).valid ≡ true
      → IsUsable serial (judge serial st)
  unfolding judge
  judge-IsUsable serial st ok h = ground (arith, same_string-eq st.baseline.serial serial)

  pub valid-IsUsable :
      (clock : List ℕ → Option (ℤ × List ℕ)) (file : Option (List ℕ)) (serial : List ℕ)
      → (baseline_load {D = D} clock file serial).valid ≡ true
      → IsUsable serial (baseline_load {D = D} clock file serial)
  unfolding baseline_load
  valid-IsUsable clock none serial h = ground arith
  valid-IsUsable clock (some text) serial h =
      judge-IsUsable serial _
        (see_lines-IsSound clock (file_lines text) _ (record {
          available = refl;
          unjudged = (refl, refl);
          perf = λ p. ground arith;
          established = λ _ p. ground arith;
          samples = λ p. ground arith;
        }))
        h

  -- not a number, or positive and at most 10^9
  abbrev pub NanOrInRange : D → Type 0
  NanOrInRange x =
      (d.le x x ≡ false) ⊎ ((d.lt nought x ≡ true) × (d.le x (d.lit 1_000_000_000 0) ≡ true))

  usable-NanOrInRange :
      IsLawful D
      → (serial : List ℕ) (b : Baseline D) → IsUsable serial b
      → NanOrInRange b.perf_w_mean
  usable-NanOrInRange laws serial b u = elim (Bool-cases (d.le b.perf_w_mean b.perf_w_mean)) [
    | inr q ↦ inl q
    | inl q ↦ inr (
      laws.lt-eq-not-le nought b.perf_w_mean (laws.lit_mono 0 0 (omega arith) (omega arith)) q
          ∙ ap not u.not_zero,
      ground (
        arith,
        u.not_above,
        laws.lt-eq-not-le (d.lit 1_000_000_000 0) b.perf_w_mean
            (laws.lit_mono 1_000_000_000 1_000_000_000 (omega arith) (omega arith)) q,
      ),
    )
  ]

  -- Whatever the file holds, a baseline that baseline_load marks as valid has a file, with the serial
  -- of the device; its perf_w_mean passed the tests against 0 and 10^9 and is not at most 0, so that,
  -- for doubles with the laws of IEEE 754, it is NaN (which the loader accepts) or positive and at most
  -- 10^9; the time at which it was established is not 0; and it stands for 1 to 1,000,000 samples.
  pub baseline_load-IsUsable :
      (laws : IsLawful D) (clock : List ℕ → Option (ℤ × List ℕ)) (file : Option (List ℕ))
      (serial : List ℕ)
      → (baseline_load {D = D} clock file serial).valid ≡ true
      → IsUsable serial (baseline_load {D = D} clock file serial)
        × NanOrInRange (baseline_load {D = D} clock file serial).perf_w_mean
  baseline_load-IsUsable laws clock file serial h =
      let u = valid-IsUsable clock file serial h in (u, usable-NanOrInRange laws serial _ u)
