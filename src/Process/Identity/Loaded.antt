-- ===== src/Process/Identity/Loaded.antt =====
-- What the contexts hold before the threads start.
use gpu_health_index.Prelude.{
  ℕ, ◌≤◌, ◌<◌, ◌≡◌, ◌↔◌, refl, ap, sym, ◌∙◌, true, false, Option, none, some, List, [], ◌∷◌, length,
  arith, branches,
}
use gpu_health_index.Prelude.Int.{ℤ}
use gpu_health_index.Double.{Double}
use gpu_health_index.Types.{Baseline, serial_number, uuid_fallback}
use gpu_health_index.Util.{same_string, safe_strncpy}
use gpu_health_index.State.{split_kv, file_lines}
use gpu_health_index.State.Baseline.{
  Seen, see_perf, see_established, see_samples, see_pair, see_line, see_lines, judge, baseline_load,
  unread,
}
use gpu_health_index.State.Baseline.Valid.{IsUsable, valid-IsUsable}
use gpu_health_index.Process.Identity.{Board, Files, identify, check_driver, setup_gpu, or_else}

module _ {D : Type 0} ⦃d : Double D⦄ (clock : List ℕ → Option (ℤ × List ℕ)) where
  abbrev IsUnset : Seen D → Type 0
  IsUnset st = st.baseline.driver_mismatch ≡ false

  pair-IsUnset : (key val : List ℕ) (st : Seen D) → IsUnset st → IsUnset (see_pair clock key val st)
  unfolding see_pair see_perf see_established see_samples
  pair-IsUnset key val st h = ground arith

  line-IsUnset :
      (o : Option (List ℕ × List ℕ)) (st : Seen D) → IsUnset st → IsUnset (see_line clock o st)
  unfolding see_line
  line-IsUnset none st h = h
  line-IsUnset (some (key, val)) st h = pair-IsUnset key val st h

  lines-IsUnset :
      (lines : List (List ℕ)) (st : Seen D) → IsUnset st → IsUnset (see_lines clock lines st)
  unfolding see_lines
  lines-IsUnset [] st h = h
  lines-IsUnset (line ∷ lines) st h =
      branches IsUnset st.parse_error h (lines-IsUnset lines _ (line-IsUnset (split_kv line) st h))

  judge-IsUnset :
      (serial : List ℕ) (st : Seen D) → IsUnset st → (judge serial st).driver_mismatch ≡ false
  unfolding judge
  judge-IsUnset serial st h = ground arith

load-IsUnset :
    (D : Type 0) ⦃d : Double D⦄ (clock : List ℕ → Option (ℤ × List ℕ)) (file : Option (List ℕ))
    (serial : List ℕ)
    → (baseline_load {D = D} clock file serial).driver_mismatch ≡ false
unfolding baseline_load
load-IsUnset D clock none serial = refl
load-IsUnset D clock (some text) serial =
    judge-IsUnset clock serial (see_lines clock (file_lines text) unread)
      (lines-IsUnset clock (file_lines text) unread refl)

module _ {D : Type 0} ⦃d : Double D⦄ where
  checked :
      (driver : List ℕ) (b : Baseline D)
      → b.driver_mismatch ≡ false
      → (b.valid ≡ true → b.available ≡ true)
      → let c = check_driver driver b in
        (c.valid ≡ b.valid)
        × (c.serial ≡ b.serial)
        × (c.driver_version ≡ b.driver_version)
        × ((c.driver_mismatch ≡ true)
            ↔ ((b.valid ≡ true) × (same_string b.driver_version driver ≡ false)))
  unfolding check_driver
  checked driver b h v = ground arith

identify-serial :
    (b : Board) (s : List ℕ) → b.get_serial 32 ≡ some s → identify b ≡ (s, serial_number)
unfolding identify
identify-serial b s h = rw h refl

identify-uuid :
    (b : Board) → b.get_serial 32 ≡ none → identify b ≡ (or_else (b.get_uuid 32) [], uuid_fallback)
unfolding identify
identify-uuid b h = rw h refl

-- Before the threads start, whatever NVML answers and the files hold: the serial of a GPU is the one
-- that NVML reports, and only where it reports none the UUID, if that fits in the 32 bytes of the
-- field; a baseline that is marked as valid has this serial; and the driver mismatch is set exactly
-- if the baseline is valid and its driver version differs from that of the GPU.
pub setup_gpu-identity :
    (D : Type 0) ⦃d : Double D⦄ (files : Files) (driver : List ℕ) (i : ℕ) (b : Board)
    → let c = setup_gpu {D = D} files driver i b in
      ((s : List ℕ)
        → b.get_serial 32 ≡ some s
        → (c.serial ≡ s) × (c.identity_source ≡ serial_number))
      × (b.get_serial 32 ≡ none
          → (c.serial ≡ or_else (b.get_uuid 32) []) × (c.identity_source ≡ uuid_fallback))
      × (c.baseline.valid ≡ true → c.baseline.serial ≡ c.serial)
      × ((c.baseline.driver_mismatch ≡ true) ↔ (
          (c.baseline.valid ≡ true)
          × (same_string c.baseline.driver_version c.driver_version ≡ false)))
unfolding setup_gpu
setup_gpu-identity D files driver i b = (
  λ s h. (ap (λ r. r.0) (identify-serial b s h), ap (λ r. r.1) (identify-serial b s h)),
  λ h. (ap (λ r. r.0) (identify-uuid b h), ap (λ r. r.1) (identify-uuid b h)),
  λ v. facts.1 ∙ (usable (sym facts.0 ∙ v)).same_serial,
  (
    λ m. let (v, e) = facts.3.0 m in (facts.0 ∙ v, rw (facts.2) e),
    λ (v, e). facts.3.1 (sym facts.0 ∙ v, rw (← facts.2) e),
  ),
)
  where
    loaded : Baseline D
    loaded = baseline_load files.clock (files.baseline_file (identify b).0) (identify b).0

    usable : loaded.valid ≡ true → IsUsable (identify b).0 loaded
    usable v = valid-IsUsable files.clock (files.baseline_file (identify b).0) (identify b).0 v

    facts :
        let c = check_driver (safe_strncpy driver 64) loaded in
        (c.valid ≡ loaded.valid)
        × (c.serial ≡ loaded.serial)
        × (c.driver_version ≡ loaded.driver_version)
        × ((c.driver_mismatch ≡ true) ↔ (
            (loaded.valid ≡ true)
            × (same_string loaded.driver_version (safe_strncpy driver 64) ≡ false)))
    facts =
        checked (safe_strncpy driver 64) loaded
          (load-IsUnset D files.clock (files.baseline_file (identify b).0) (identify b).0)
          (λ v. (usable v).available)

-- A UUID that does not fit in the 32 bytes of the serial: NVML writes a text only where it fits with
-- its NUL, so a GPU without a serial, of which the UUID has 32 bytes or more, has an empty serial,
-- though it has been given its UUID, and so has every such GPU, in place of an identity of its own.
pub setup_gpu-uuid_lost :
    (D : Type 0) ⦃d : Double D⦄ (files : Files) (driver : List ℕ) (i : ℕ) (b : Board) (u : List ℕ)
    → b.get_serial 32 ≡ none
    → b.get_uuid 48 ≡ some u
    → 32 ≤ length u
    → ((n : ℕ) (v : List ℕ) → b.get_uuid n ≡ some v → (v ≡ u) × (length v < n))
    → let c = setup_gpu {D = D} files driver i b in (c.uuid ≡ u) × (c.serial ≡ [])
unfolding setup_gpu
setup_gpu-uuid_lost D files driver i b u h k long fits =
    (rw k refl, ap (λ r. r.0) (identify-uuid b h) ∙ empty (b.get_uuid 32) (fits 32))
  where
    empty :
        (o : Option (List ℕ))
        → ((v : List ℕ) → o ≡ some v → (v ≡ u) × (length v < 32))
        → or_else o [] ≡ []
    empty none f = refl
    empty (some v) f = let (same, short) = f v refl in absurd (omega (arith, ap length same))
