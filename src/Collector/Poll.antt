-- ===== src/Collector/Poll.antt =====
-- collector.c: poll_thread, one round of its loop at a time, and collector_start.
pub mod Errors
pub mod Cycle
pub mod Run
pub mod Buffer
use gpu_health_index.Prelude.{
  ℕ, ◌+◌, ◌-◌, ◌*◌, ◌/◌, ◌%◌, ◌^◌, Bool, true, false, not, ◌&&◌, ◌||◌, Option, none, some, List, [],
  ◌∷◌, ltb, leb, ◌==◌, if◌then◌else◌,
}
use gpu_health_index.Prelude.Int.{ℤ, pos, negsuc}
use gpu_health_index.Double.{Double, nought}
use gpu_health_index.Types.{Sample, State, Baseline, Snapshot, IpcMsg, ScoreResult}
use gpu_health_index.Ring.{ring_push, fresh_ring}
use gpu_health_index.Config.{Config}
use gpu_health_index.Config.Fields.{IntField}
use gpu_health_index.Scorer.Score.{Inputs, score_gpu}
use gpu_health_index.Snapshot.Update.{blank_snapshot, snapshot_update}
use gpu_health_index.Collector.Context.{Ctx}
use gpu_health_index.Collector.Nvml.{Device, Reply, success, failure, do_nvml_poll, blank_state}
use gpu_health_index.Collector.DcgmState.{DcgmFields, apply_dcgm_state}

-- What one round meets: the clock readings, the answers of NVML and DCGM, the baseline file if the
-- inotify check reports an event, and whether the mallocs of the scorer succeed.
pub record Env (D : Type 0) : Type 0 where
  pub retry_now_ms : ℕ
  pub sample_ms : ℕ
  pub device : Device
  -- `none` where exp->dcgm_available is 0; then `none` where dcgm_poll fails
  pub dcgm : Option (Option (DcgmFields D))
  -- the result of baseline_load, where inotify reports a change
  pub reloaded : Option (Baseline D)
  pub now_s : ℕ
  pub poll_ms : ℕ
  pub temp_heap : Bool
  pub hbm_heap : Bool

-- What a round leaves: the context, the message that is sent, and whether the loop goes on.
pub record Round (D : Type 0) : Type 0 where
  pub ctx : Ctx D
  pub sent : Option (IpcMsg D)
  pub goes_on : Bool

-- NVML_IS_HARD_ERROR: GPU_IS_LOST or DRIVER_NOT_LOADED
abbrev pub is_hard_error : ℕ → Bool
is_hard_error code = code == 15 || code == 9

bytes_eq : List ℕ → List ℕ → Bool
bytes_eq [] [] = true
bytes_eq [] (y ∷ ys) = false
bytes_eq (x ∷ xs) [] = false
bytes_eq (x ∷ xs) (y ∷ ys) = x == y && bytes_eq xs ys

-- window_s / poll_interval_s, at least 1
unfoldable pub ring_capacity : {D : Type 0} → Config D → ℕ
ring_capacity cfg =
    let n = cfg.int IntField.window_s / cfg.int IntField.poll_interval_s in if ltb n 1 then 1 else n

abbrev pub sent_with : {D : Type 0} → Option (IpcMsg D) → List (IpcMsg D) → List (IpcMsg D)
sent_with none ms = ms
sent_with (some m) ms = m ∷ ms

module _ {D : Type 0} ⦃d : Double D⦄ where
  abbrev pub quiet : Ctx D → Round D
  quiet c = record { ctx = c; sent = none; goes_on = true }

  -- the counters after a failed poll
  count_error : ℕ → Ctx D → Ctx D
  count_error code c = record c {
    consecutive_errors = c.consecutive_errors + 1;
    collector_errors_total = (c.collector_errors_total + 1) % 2 ^ 64;
    consecutive_hard_errors =
        if is_hard_error code then c.consecutive_hard_errors + 1 else c.consecutive_hard_errors;
  }

  unfoldable pub on_failure : Config D → ℕ → Ctx D → Round D
  unfolding count_error
  on_failure cfg code c =
      let c = count_error code c in
      if is_hard_error code
        && leb (cfg.int IntField.nvml_hard_error_threshold) c.consecutive_hard_errors
      then record {
        ctx = record c { gpu_present = false; ready = true };
        sent = none;
        goes_on = false;
      }
      else quiet (record c {
        gpu_available =
            if leb (cfg.int IntField.nvml_error_threshold) c.consecutive_errors
            then false
            else c.gpu_available;
        ready = true;
      })

  -- A reloaded baseline replaces the old one whether it is valid or not. (strncmp over the size of
  -- the field compares the whole strings.)
  reload : Option (Baseline D) → List ℕ → Baseline D → Baseline D
  unfolding bytes_eq
  reload none driver_version old = old
  reload (some b) driver_version old = record b {
    driver_mismatch = not (bytes_eq b.driver_version driver_version);
  }

  with_dcgm : Option (Option (DcgmFields D)) → State D → State D
  with_dcgm (some (some f)) st = apply_dcgm_state st f
  with_dcgm _ st = st

  unfoldable pub is_some_dcgm : Option (Option (DcgmFields D)) → Bool
  is_some_dcgm none = false
  is_some_dcgm (some f) = true

  -- the sample, the state and the baseline in place, the counters reset
  unfoldable pub record_success : Env D → Sample D → State D → Ctx D → Ctx D
  unfolding reload with_dcgm
  record_success e s st c =
      let c = record c {
        consecutive_errors = 0;
        consecutive_hard_errors = 0;
        gpu_available = true;
      } in
      record c {
        baseline = reload e.reloaded c.driver_version c.baseline;
        ring = ring_push c.ring s;
        state = with_dcgm e.dcgm st;
      }

  abbrev pub score_inputs : Config D → Env D → Ctx D → Inputs D
  score_inputs cfg e c = record {
    ring = c.ring;
    state = c.state;
    baseline = some c.baseline;
    probe = some c.probe;
    cfg = cfg;
    temp_heap = e.temp_heap;
    hbm_heap = e.hbm_heap;
  }

  -- A failed send is logged and changes nothing here.
  unfoldable pub on_success : Config D → Env D → Sample D → State D → Ctx D → Round D
  unfolding record_success is_some_dcgm
  on_success cfg e s st c =
      let c = record_success e s st c in
      let c =
        snapshot_update c (score_gpu (score_inputs cfg e c)) (is_some_dcgm e.dcgm) e.now_s
          e.poll_ms in
      record {
        ctx = record c { ready = true };
        sent = some (record { gpu_index = pos c.gpu_index; snapshot = c.snapshot });
        goes_on = true;
      }

  unfoldable pub finish_poll : Config D → Env D → Ctx D → Reply (Sample D × State D) → Round D
  unfolding on_failure on_success
  finish_poll cfg e c (failure code) = on_failure cfg code c
  finish_poll cfg e c (success (s, st)) = on_success cfg e s st c

  -- what NVML answers this round
  unfoldable pub nvml_answer : Env D → Ctx D → Reply (Sample D × State D)
  nvml_answer e c =
      do_nvml_poll {D = D} e.device e.sample_ms
        (blank_state c.pcie_link_gen_max c.pcie_link_width_max)

  unfoldable pub poll_device : Config D → Env D → Ctx D → Round D
  unfolding finish_poll nvml_answer
  poll_device cfg e c = finish_poll cfg e c (nvml_answer e c)

  -- whether the back-off still runs; the difference of `uint64_t` wraps
  unfoldable pub backing_off : Config D → Env D → Ctx D → Bool
  backing_off cfg e c =
      ltb ((e.retry_now_ms + 2 ^ 64 - c.last_retry_ms) % 2 ^ 64)
        (cfg.int IntField.nvml_retry_interval_s * 1000)

  -- a retry after the back-off is noted
  unfoldable pub note_retry : Env D → Ctx D → Ctx D
  note_retry e c = record c {
    last_retry_ms = if c.gpu_available then c.last_retry_ms else e.retry_now_ms;
  }

  -- One round of the loop, entered with ctx->stop clear.
  unfoldable pub poll_round : Config D → Env D → Ctx D → Round D
  unfolding poll_device backing_off note_retry
  poll_round cfg e c =
      if not c.gpu_present
      then quiet c
      else if not c.gpu_available && backing_off cfg e c
      then quiet c
      else poll_device cfg e (note_retry e c)

  -- The rounds of the loop in turn; the loop ends where a round does not go on. The messages are in
  -- the order in which they are sent.
  unfoldable pub run : Config D → List (Env D) → Ctx D → Ctx D × List (IpcMsg D)
  unfolding poll_round
  run cfg [] c = (c, [])
  run cfg (e ∷ es) c =
      let r = poll_round cfg e c in
      let rest = run cfg es r.ctx in
      if r.goes_on then (rest.0, sent_with r.sent rest.1) else (r.ctx, sent_with r.sent [])

  -- What collector_start sets in the context before it starts the thread, where the ring buffer, the
  -- arguments and the thread are to be had; else it returns -1 and no round follows.
  unfoldable pub collector_start : Config D → Ctx D → Ctx D
  unfolding ring_capacity
  collector_start cfg c = record c {
    ring = fresh_ring (ring_capacity cfg);
    snapshot = blank_snapshot;
    ready = false;
    stop = false;
    gpu_present = true;
    gpu_available = true;
    consecutive_errors = 0;
    consecutive_hard_errors = 0;
    last_retry_ms = 0;
    collector_errors_total = 0;
    state = record (blank_state c.pcie_link_gen_max c.pcie_link_width_max) {
      fan_speed_pct = negsuc 0;
    };
  }
