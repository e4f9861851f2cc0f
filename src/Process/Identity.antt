-- ===== src/Process/Identity.antt =====
-- main.c: the static properties of each GPU, its baseline and its probe result, before the threads
-- start. What NVML answers, the files and the clock are arguments.
pub mod Loaded
use gpu_health_index.Prelude.{
  ℕ, zero, suc, ◌+◌, ◌<◌, ◌≡◌, Bool, true, false, not, ◌&&◌, Option, none, some, List, [], ◌∷◌,
  if◌then◌else◌,
}
use gpu_health_index.Prelude.Int.{ℤ, pos, negsuc, to_int}
use gpu_health_index.Double.{Double}
use gpu_health_index.Types.{IdentitySource, serial_number, uuid_fallback, Baseline, State}
use gpu_health_index.Ring.{fresh_ring}
use gpu_health_index.Util.{same_string, safe_strncpy}
use gpu_health_index.Config.Table.{bytes}
use gpu_health_index.Snapshot.Update.{blank_snapshot}
use gpu_health_index.State.Baseline.{baseline_load, blank_baseline}
use gpu_health_index.State.Probe.{probe_load, blank_probe}
use gpu_health_index.Collector.Nvml.{blank_state}
use gpu_health_index.Collector.Context.{Ctx}

-- The answers of NVML for one device. A text is asked for with the size of its buffer; `none` where
-- the call fails, and then the buffer stays as it is.
pub record Board : Type 0 where
  pub get_serial : ℕ → Option (List ℕ)
  pub get_uuid : ℕ → Option (List ℕ)
  pub get_name : ℕ → Option (List ℕ)
  pub max_pcie_link_gen : Option ℕ
  pub max_pcie_link_width : Option ℕ

-- the files by the serial, strptime with timegm, the time, and probe_ttl_s
pub record Files : Type 0 where
  pub baseline_file : List ℕ → Option (List ℕ)
  pub probe_file : List ℕ → Option (List ℕ)
  pub clock : List ℕ → Option (ℤ × List ℕ)
  pub now_s : ℕ
  pub probe_ttl_s : ℕ

abbrev pub or_else {ℓ} : {A : Type ℓ} → Option A → A → A
or_else none old = old
or_else (some a) old = a

-- ctx->serial and ctx->identity_source, in a field of 32 bytes
unfoldable pub identify : Board → List ℕ × IdentitySource
identify b = by_serial (b.get_serial 32)
  where
    by_serial : Option (List ℕ) → List ℕ × IdentitySource
    by_serial (some serial) = (serial, serial_number)
    by_serial none = (or_else (b.get_uuid 32) [], uuid_fallback)

-- (int)u of an unsigned int, where the call succeeds
abbrev static_limit : Option ℕ → ℤ
static_limit none = pos 0
static_limit (some u) = to_int u

-- the driver version, which is the same for all
unfoldable pub driver_text : Option (List ℕ) → List ℕ
driver_text answer = or_else answer (bytes "(unknown)")

module _ {D : Type 0} ⦃d : Double D⦄ where
  -- a mismatch of the driver, for a valid baseline only
  unfoldable pub check_driver : List ℕ → Baseline D → Baseline D
  unfolding same_string
  check_driver driver_version b =
      if b.available && b.valid
      then record b { driver_mismatch = not (same_string b.driver_version driver_version) }
      else b

  -- The context of the GPU `i`; calloc has zeroed what is not set.
  unfoldable pub setup_gpu : Files → List ℕ → ℕ → Board → Ctx D
  unfolding identify safe_strncpy check_driver baseline_load probe_load
  setup_gpu files driver i b =
      let (serial, source) = identify b in
      let driver_version = safe_strncpy driver 64 in
      record {
        serial = serial;
        uuid = or_else (b.get_uuid 48) [];
        gpu_model = or_else (b.get_name 64) [];
        driver_version = driver_version;
        gpu_index = i;
        identity_source = source;
        pcie_link_gen_max = static_limit b.max_pcie_link_gen;
        pcie_link_width_max = static_limit b.max_pcie_link_width;
        ring = fresh_ring 0;
        state = record (blank_state (pos 0) (pos 0)) { fan_speed_pct = negsuc 0 };
        snapshot = blank_snapshot;
        baseline =
            check_driver driver_version
              (baseline_load files.clock (files.baseline_file serial) serial);
        probe = probe_load files.clock (files.probe_file serial) files.now_s files.probe_ttl_s;
        ready = false;
        stop = false;
        gpu_present = true;
        gpu_available = true;
        consecutive_errors = 0;
        consecutive_hard_errors = 0;
        last_retry_ms = 0;
        collector_errors_total = 0;
      }

  -- the loop over the devices
  unfoldable pub setup_gpus : Files → List ℕ → ℕ → List Board → List (Ctx D)
  unfolding setup_gpu
  setup_gpus files driver i [] = []
  setup_gpus files driver i (b ∷ bs) =
      setup_gpu files driver i b ∷ setup_gpus files driver (i + 1) bs
