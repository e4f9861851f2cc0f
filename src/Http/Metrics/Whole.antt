-- ===== src/Http/Metrics/Whole.antt =====
-- The text of /metrics as a scraper reads it: the values of every family for every GPU that has
-- reported, and nothing else.
use gpu_health_index.Prelude.{
  ℕ, ◌-◌, ◌≤◌, ◌≡◌, refl, ap, sym, ◌∙◌, Bool, true, false, ◌&&◌, Option, none, some, List, [], ◌∷◌,
  ◌++◌, append_assoc, All, length, drop, if◌then◌else◌, arith, Bool-cases, inl, inr,
}
use gpu_health_index.Double.{Double}
use gpu_health_index.Types.{Snapshot}
use gpu_health_index.Config.Table.{bytes}
use gpu_health_index.Http.Request.{has_byte}
use gpu_health_index.Http.Slots.{Slot}
use gpu_health_index.Http.Buffer.{concat, bprintf_all, bprintf_all-take, take_all}
use gpu_health_index.Http.Metrics.Family.{
  Printf, IsOneLine, Value, Family, print, header_text, help_line, type_line, sample_line,
}
use gpu_health_index.Http.Metrics.Render.{
  family_texts, sample_texts, value_text, info_texts, info_line, info_rest, info_parts, families,
  metrics_texts, render_metrics, exporter_info, gpu_info, exporter_line,
}
use gpu_health_index.Http.Metrics.Scrape.{
  Reading, read_metrics, read_from, read_text_line, read_from-line, opt_cons, reads_labelled,
  without,
}
use gpu_health_index.Http.Metrics.Lines.{
  is_readable, IsPlain, help_line_line, type_line_line, sample_line_line, info_line_line,
  print_line, readable_parts, reads_named,
}

-- what a text says after its first line
read_from-text :
    (line : List ℕ) (ts : List (List ℕ))
    → has_byte 10 line ≡ false
    → read_from [] (concat ((line ++ 10 ∷ []) ∷ ts))
      ≡ opt_cons (read_text_line line) (read_from [] (concat ts))
read_from-text line ts h =
    ap (read_from []) (append_assoc line (10 ∷ []) (concat ts))
    ∙ read_from-line [] line (concat ts) h

module _ {D : Type 0} (p : Printf D) where
  -- the readings that a family has for one GPU, and for all
  abbrev pub value_reading : Family D → List ℕ → Option (Value D) → List Reading
  value_reading f serial none = []
  value_reading f serial (some v) = (f.name, serial, print p v) ∷ []

  abbrev pub family_readings : Family D → List (Slot D) → List Reading
  family_readings f [] = []
  family_readings f (s ∷ ss) =
      (if s.received then value_reading f s.snap.serial (f.value s.snap) else [])
      ++ family_readings f ss

  abbrev pub readings : List (Family D) → List (Slot D) → List Reading
  readings [] slots = []
  readings (f ∷ fs) slots = family_readings f slots ++ readings fs slots

abbrev AreReadable : {D : Type 0} → List (Family D) → Type 0
AreReadable fs = All (λ f. is_readable f ≡ true) fs

abbrev pub ArePlain : {D : Type 0} → List (Slot D) → Type 0
ArePlain slots = All (λ s. IsPlain s.snap) slots

module _ {D : Type 0} where
  -- after the serial stands a comma
  info_passed : (s : Snapshot D) → IsPlain s → read_text_line (info_line s) ≡ none
  unfolding info_line info_rest info_parts has_byte without
  info_passed s k =
      reads_labelled 103 (bytes "pu_info") s.serial (drop 1 (info_rest s)) refl refl
        k.serial_unquoted

  help_passed : (f : Family D) → read_text_line (help_line f) ≡ none
  unfolding help_line read_text_line
  help_passed f = refl

  type_passed : (f : Family D) → read_text_line (type_line f) ≡ none
  unfolding type_line read_text_line
  type_passed f = refl

  read_from-header :
      (f : Family D) (ts : List (List ℕ))
      → is_readable f ≡ true
      → read_from [] (concat (header_text f ∷ ts)) ≡ read_from [] (concat ts)
  unfolding header_text
  read_from-header f ts h =
      ap (read_from []) (append_assoc (help_line f) (10 ∷ (type_line f ++ 10 ∷ [])) (concat ts))
      ∙ read_from-line [] (help_line f) ((type_line f ++ 10 ∷ []) ++ concat ts) (help_line_line f h)
      ∙ ap (λ r. opt_cons r (read_from [] ((type_line f ++ 10 ∷ []) ++ concat ts))) (help_passed f)
      ∙ read_from-text (type_line f) ts (type_line_line f h)
      ∙ ap (λ r. opt_cons r (read_from [] (concat ts))) (type_passed f)

  read_from-info :
      (slots : List (Slot D)) (ts : List (List ℕ))
      → ArePlain slots
      → read_from [] (concat (info_texts slots ++ ts)) ≡ read_from [] (concat ts)
  unfolding info_texts
  read_from-info [] ts k = refl
  read_from-info (s ∷ ss) ts k = elim (Bool-cases s.received) [
    | inl q ↦ rw q (
        read_from-text (info_line s.snap) (info_texts ss ++ ts) (info_line_line s.snap k.0)
        ∙ ap (λ r. opt_cons r (read_from [] (concat (info_texts ss ++ ts))))
            (info_passed s.snap k.0)
        ∙ read_from-info ss ts k.1)
    | inr q ↦ rw q (read_from-info ss ts k.1)
  ]

module _ {D : Type 0} {p : Printf D} (laws : IsOneLine p) where
  read_from-value :
      (f : Family D) (s : Snapshot D) (o : Option (Value D)) (ts : List (List ℕ))
      → is_readable f ≡ true
      → IsPlain s
      → read_from [] (concat (value_text p f s o ts))
        ≡ value_reading p f s.serial o ++ read_from [] (concat ts)
  unfolding value_text
  read_from-value f s none ts h k = refl
  read_from-value f s (some v) ts h k =
      let named = (readable_parts f h).0 in
      read_from-text (sample_line f.name s.serial (print p v)) ts
        (sample_line_line f.name s.serial (print p v) named k.serial_line (print_line laws v))
      ∙ ap (λ r. opt_cons r (read_from [] (concat ts)))
          (reads_named f.name s.serial (print p v) named k.serial_unquoted)

  value_text-append :
      (f : Family D) (s : Snapshot D) (o : Option (Value D)) (rest ts : List (List ℕ))
      → value_text p f s o rest ++ ts ≡ value_text p f s o (rest ++ ts)
  unfolding value_text
  value_text-append f s none rest ts = refl
  value_text-append f s (some v) rest ts = refl

  read_from-samples :
      (f : Family D) (slots : List (Slot D)) (ts : List (List ℕ))
      → is_readable f ≡ true
      → ArePlain slots
      → read_from [] (concat (sample_texts p f slots ++ ts))
        ≡ family_readings p f slots ++ read_from [] (concat ts)
  unfolding sample_texts
  read_from-samples f [] ts h k = refl
  read_from-samples f (s ∷ ss) ts h k = elim (Bool-cases s.received) [
    | inl q ↦ rw q (
        ap (λ l. read_from [] (concat l))
          (value_text-append f s.snap (f.value s.snap) (sample_texts p f ss) ts)
        ∙ read_from-value f s.snap (f.value s.snap) (sample_texts p f ss ++ ts) h k.0
        ∙ ap (λ l. value_reading p f s.snap.serial (f.value s.snap) ++ l)
            (read_from-samples f ss ts h k.1)
        ∙ sym (
            append_assoc (value_reading p f s.snap.serial (f.value s.snap)) (family_readings p f ss)
              (read_from [] (concat ts))))
    | inr q ↦ rw q (read_from-samples f ss ts h k.1)
  ]

  read_from-families :
      (fs : List (Family D)) (slots : List (Slot D))
      → AreReadable fs
      → ArePlain slots
      → read_from [] (concat (family_texts p fs slots)) ≡ readings p fs slots
  unfolding family_texts read_from
  read_from-families [] slots h k = refl
  read_from-families (f ∷ fs) slots h k =
      read_from-header f (sample_texts p f slots ++ family_texts p fs slots) h.0
      ∙ read_from-samples f slots (family_texts p fs slots) h.0 k
      ∙ ap (λ l. family_readings p f slots ++ l) (read_from-families fs slots h.1 k)

info_readable :
    (D : Type 0)
    → (is_readable (exporter_info {D = D}) ≡ true)
      × (has_byte 10 exporter_line ≡ false)
      × (read_text_line exporter_line ≡ none)
      × (is_readable (gpu_info {D = D}) ≡ true)
unfolding is_readable has_byte read_text_line
info_readable D = (refl, refl, refl, refl)

all_readable : {D : Type 0} → List (Family D) → Bool
all_readable [] = true
all_readable (f ∷ fs) = is_readable f && all_readable fs

all_readable_sound : {D : Type 0} (fs : List (Family D)) → all_readable fs ≡ true → AreReadable fs
unfolding all_readable
all_readable_sound [] h = tt
all_readable_sound (f ∷ fs) h = (ground arith, all_readable_sound fs (ground arith))

families_checked : (D : Type 0) ⦃d : Double D⦄ → all_readable (families {D = D}) ≡ true
unfolding all_readable families is_readable
families_checked D = refl

module _ {D : Type 0} ⦃d : Double D⦄ {p : Printf D} (laws : IsOneLine p) where
  whole_text :
      (size : ℕ) (ts : List (List ℕ))
      → length (concat ts) ≤ size - 1
      → bprintf_all size [] ts ≡ concat ts
  whole_text size ts h =
      (bprintf_all-take size [] ts (omega arith)).0 ∙ sym (take_all (size - 1) (concat ts) h)

  read_texts :
      (slots : List (Slot D))
      → ArePlain slots
      → read_metrics (concat (metrics_texts p slots)) ≡ readings p families slots
  unfolding metrics_texts read_metrics
  read_texts slots k =
      let families_part = info_texts slots ++ family_texts p families slots in
      read_from-header (exporter_info {D = D})
        ((exporter_line ++ 10 ∷ []) ∷ (header_text (gpu_info {D = D}) ∷ families_part))
        (info_readable D).0
      ∙ read_from-text exporter_line (header_text (gpu_info {D = D}) ∷ families_part)
          (info_readable D).1
      ∙ ap
          (λ r. opt_cons r (read_from [] (concat (header_text (gpu_info {D = D}) ∷ families_part))))
          (info_readable D).2
      ∙ read_from-header (gpu_info {D = D}) families_part (info_readable D).3
      ∙ read_from-info slots (family_texts p families slots) k
      ∙ read_from-families laws families slots (all_readable_sound families (families_checked D)) k

  -- The scraper reads in /metrics, where the text fits in the buffer, exactly the readings of the
  -- families: for each family and each GPU that has reported, in the order of the slots, the name
  -- of the family, the serial of the GPU and the printed value.
  pub render_metrics-readings :
      (size : ℕ) (slots : List (Slot D))
      → ArePlain slots
      → length (concat (metrics_texts p slots)) ≤ size - 1
      → read_metrics (render_metrics p size (some slots)) ≡ readings p families slots
  unfolding render_metrics
  render_metrics-readings size slots k fits =
      ap read_metrics (whole_text size (metrics_texts p slots) fits) ∙ read_texts slots k
