-- ===== src/Collector/Poll/Cycle.antt =====
-- collector.c: what the rounds of poll_thread do to the ring, and what they send.
use gpu_health_index.Prelude.{
  ℕ, ◌≡◌, refl, ap, ◌⊎◌, inl, inr, Bool, true, false, not, ◌&&◌, none, some, arith, ltb, ◌+◌, ◌-◌,
  ◌*◌, ◌%◌, ◌^◌, ◌<◌,
}
use gpu_health_index.Prelude.Int.{pos}
use gpu_health_index.Double.{Double, nought}
use gpu_health_index.Types.{Sample, State, Ring, Snapshot, ScoreResult, IpcMsg}
use gpu_health_index.Ring.{ring_push}
use gpu_health_index.Ring.Refine.{IsValid, latest-push}
use gpu_health_index.Config.{Config}
use gpu_health_index.Config.Fields.{IntField}
use gpu_health_index.Scorer.Score.{score_gpu}
use gpu_health_index.Snapshot.Update.{snapshot_update, assemble, from_latest}
use gpu_health_index.Collector.Context.{Ctx}
use gpu_health_index.Collector.Nvml.{Reply, success, failure}
use gpu_health_index.Collector.Poll.{
  Env, Round, on_failure, record_success, on_success, finish_poll, nvml_answer, score_inputs,
  poll_device, note_retry, poll_round, is_some_dcgm, backing_off, quiet,
}
use gpu_health_index.Collector.Poll.Errors.{poll_round-cases}

module _ {D : Type 0} ⦃d : Double D⦄ where
  -- The parts of a context that only a successful poll may change.
  pub record SameData (c c' : Ctx D) : Type 0 where
    pub same_ring : c'.ring ≡ c.ring
    pub same_state : c'.state ≡ c.state
    pub same_snapshot : c'.snapshot ≡ c.snapshot
    pub same_baseline : c'.baseline ≡ c.baseline
    pub same_probe : c'.probe ≡ c.probe

  -- A snapshot shows the fields of a sample.
  pub record Shows (s : Sample D) (shown : Snapshot D) : Type 0 where
    pub power : shown.power_w ≡ s.power_w
    pub power_limit : shown.power_limit_w ≡ s.power_limit_w
    pub temp : shown.temp_c ≡ s.temp_c
    pub hbm_temp : shown.hbm_temp_c ≡ s.hbm_temp_c
    pub sm_clock : shown.sm_clock_mhz ≡ s.sm_clock_mhz
    pub sbe : shown.ecc_sbe_volatile ≡ s.ecc_sbe_volatile
    pub dbe : shown.ecc_dbe_volatile ≡ s.ecc_dbe_volatile

  from_latest-push {ℓ} :
      {A : Type ℓ} {r : Ring D} (s : Sample D) (field : Sample D → A) (default : A)
      → IsValid r
      → from_latest (ring_push r s) field default ≡ field s
  from_latest-push {r = r} s field default v = rw counted (ap field (latest-push s v))
    where
      counted : ltb 0 (ring_push r s).count ≡ true
      counted = unfold ring_push in ground arith

  shown {ℓ} :
      {A : Type ℓ} {r ring : Ring D} (s : Sample D) (field : Sample D → A) (default : A)
      → IsValid ring
      → r ≡ ring_push ring s
      → from_latest r field default ≡ field s
  shown s field default v e = rw e (from_latest-push s field default v)

  assemble-Shows :
      (c : Ctx D) (r : ScoreResult D) (b : Bool) (now_s now_ms : ℕ) (ring : Ring D) (s : Sample D)
      → IsValid ring
      → c.ring ≡ ring_push ring s
      → Shows s (assemble c r b now_s now_ms)
  unfolding assemble
  assemble-Shows c r b now_s now_ms ring s v e = record {
    power = shown s (λ s. s.power_w) nought v e;
    power_limit = shown s (λ s. s.power_limit_w) nought v e;
    temp = shown s (λ s. s.temp_c) nought v e;
    hbm_temp = shown s (λ s. s.hbm_temp_c) nought v e;
    sm_clock = shown s (λ s. s.sm_clock_mhz) nought v e;
    sbe = shown s (λ s. s.ecc_sbe_volatile) 0 v e;
    dbe = shown s (λ s. s.ecc_dbe_volatile) 0 v e;
  }

  -- A sample that NVML answered is stored, scored and sent.
  pub record Delivered (cfg : Config D) (e : Env D) (c : Ctx D) (r : Round D) : Type 0 where
    pub sample : Sample D
    pub state : State D
    pub message : IpcMsg D
    pub answered : nvml_answer e c ≡ success (sample, state)
    pub pushed : r.ctx.ring ≡ ring_push c.ring sample
    pub sent : r.sent ≡ some message
    pub kept : message.snapshot ≡ r.ctx.snapshot
    pub score_sent : message.snapshot.score ≡ (score_gpu (score_inputs cfg e r.ctx)).score
    pub class_sent :
        message.snapshot.classification ≡ (score_gpu (score_inputs cfg e r.ctx)).classification
    pub mask_sent :
        message.snapshot.reason_mask ≡ (score_gpu (score_inputs cfg e r.ctx)).reason_mask
    pub shows : Shows sample message.snapshot
    pub present_sent : message.snapshot.gpu_present ≡ true
    pub available_sent : message.snapshot.gpu_available ≡ true
    pub same_probe : r.ctx.probe ≡ c.probe
    pub reset : r.ctx.consecutive_errors ≡ 0

  -- The loop does not poll: the GPU is lost, or it is not available and less than
  -- nvml_retry_interval_s has passed since the last retry, on a clock of 64 bits.
  abbrev pub IsIdle : Config D → Env D → Ctx D → Type 0
  IsIdle cfg e c =
      (c.gpu_present ≡ false)
      ⊎ ((c.gpu_available ≡ false)
          × ((e.retry_now_ms + 2 ^ 64 - c.last_retry_ms) % 2 ^ 64
              < cfg.int IntField.nvml_retry_interval_s * 1000))

  -- NVML answers with an error.
  pub record Refused (e : Env D) (c : Ctx D) (r : Round D) : Type 0 where
    pub code : ℕ
    pub answered : nvml_answer e c ≡ failure code
    pub same_data : SameData c r.ctx
    pub unsent : r.sent ≡ none
    pub counted : r.ctx.consecutive_errors ≡ c.consecutive_errors + 1

  abbrev pub Outcome : Config D → Env D → Ctx D → Round D → Type 0
  Outcome cfg e c r =
      (IsIdle cfg e c × (r ≡ quiet c)) ⊎ (¬ IsIdle cfg e c × (Refused e c r ⊎ Delivered cfg e c r))

  SameData-refl : (c : Ctx D) → SameData c c
  SameData-refl c = record {
    same_ring = refl;
    same_state = refl;
    same_snapshot = refl;
    same_baseline = refl;
    same_probe = refl;
  }

  -- the outcome by what is sent
  pub silent_or_Delivered :
      {cfg : Config D} {e : Env D} {c : Ctx D} {r : Round D}
      → Outcome cfg e c r
      → (SameData c r.ctx × (r.sent ≡ none)) ⊎ Delivered cfg e c r
  silent_or_Delivered {c = c} (inl (idle, q)) = rw q (inl (SameData-refl c, refl))
  silent_or_Delivered (inr (polls, inl k)) = inl (k.same_data, k.unsent)
  silent_or_Delivered (inr (polls, inr k)) = inr k

  on_success-delivers :
      (cfg : Config D) (e : Env D) (s : Sample D) (st : State D) (c : Ctx D)
      → nvml_answer e c ≡ success (s, st)
      → c.gpu_present ≡ true
      → IsValid c.ring
      → Delivered cfg e c (on_success cfg e s st c)
  unfolding on_success record_success snapshot_update
  on_success-delivers cfg e s st c a p v = record {
    sample = s;
    state = st;
    message = record {
      gpu_index = pos c.gpu_index;
      snapshot = (on_success cfg e s st c).ctx.snapshot;
    };
    answered = a;
    pushed = refl;
    sent = refl;
    kept = refl;
    score_sent = refl;
    class_sent = refl;
    mask_sent = refl;
    shows =
        assemble-Shows (record_success e s st c)
          (score_gpu (score_inputs cfg e (record_success e s st c))) (is_some_dcgm e.dcgm) e.now_s
          e.poll_ms c.ring s v refl;
    present_sent = p;
    available_sent = refl;
    same_probe = refl;
    reset = refl;
  }

  on_failure-Refused :
      (cfg : Config D) (e : Env D) (code : ℕ) (c : Ctx D)
      → nvml_answer e c ≡ failure code
      → Refused e c (on_failure cfg code c)
  unfolding on_failure
  on_failure-Refused cfg e code c a = record {
    code = code;
    answered = a;
    same_data = ground arith;
    unsent = ground arith;
    counted = ground arith;
  }

  finish_poll-outcome :
      (cfg : Config D) (e : Env D) (c : Ctx D) (r : Reply (Sample D × State D))
      → nvml_answer e c ≡ r
      → c.gpu_present ≡ true
      → IsValid c.ring
      → Refused e c (finish_poll cfg e c r) ⊎ Delivered cfg e c (finish_poll cfg e c r)
  unfolding finish_poll
  finish_poll-outcome cfg e c (failure code) a p v = inl (on_failure-Refused cfg e code c a)
  finish_poll-outcome cfg e c (success (s, st)) a p v = inr (on_success-delivers cfg e s st c a p v)

  retried-outcome :
      (cfg : Config D) (e : Env D) (c : Ctx D) (r : Round D)
      → Refused e (note_retry e c) r ⊎ Delivered cfg e (note_retry e c) r
      → Refused e c r ⊎ Delivered cfg e c r
  unfolding note_retry nvml_answer
  retried-outcome cfg e c r (inl k) = inl (record {
    code = k.code;
    answered = k.answered;
    same_data = record {
      same_ring = k.same_data.same_ring;
      same_state = k.same_data.same_state;
      same_snapshot = k.same_data.same_snapshot;
      same_baseline = k.same_data.same_baseline;
      same_probe = k.same_data.same_probe;
    };
    unsent = k.unsent;
    counted = k.counted;
  })
  retried-outcome cfg e c r (inr k) = inr (record {
    sample = k.sample;
    state = k.state;
    message = k.message;
    answered = k.answered;
    pushed = k.pushed;
    sent = k.sent;
    kept = k.kept;
    score_sent = k.score_sent;
    class_sent = k.class_sent;
    mask_sent = k.mask_sent;
    shows = k.shows;
    present_sent = k.present_sent;
    available_sent = k.available_sent;
    same_probe = k.same_probe;
    reset = k.reset;
  })

  backing_off-IsIdle :
      (cfg : Config D) (e : Env D) (c : Ctx D)
      → (c.gpu_present ≡ false) ⊎ ((c.gpu_available ≡ false) × (backing_off cfg e c ≡ true))
      → IsIdle cfg e c
  unfolding backing_off
  backing_off-IsIdle cfg e c (inl p) = inl p
  backing_off-IsIdle cfg e c (inr (a, b)) = inr (a, ground arith)

  polling_round :
      (cfg : Config D) (e : Env D) (c : Ctx D)
      → c.gpu_present ≡ true
      → (not c.gpu_available && backing_off cfg e c) ≡ false
      → ¬ IsIdle cfg e c
  unfolding backing_off
  polling_round cfg e c p q (inl l) = absurd (cc)
  polling_round cfg e c p q (inr (a, b)) = ground arith

  -- A round of the poll loop on a valid ring has one of three outcomes. It does nothing at all and
  -- sends nothing, exactly if the GPU is lost, or is not available while less than the retry interval
  -- has passed since the last retry (of which the difference wraps at 2^64). In every other round
  -- NVML is asked. Where it answers with an error, nothing is sent, the ring, the state, the snapshot,
  -- the baseline and the probe result stay, and one more error in a row is counted. Where it answers
  -- with a sample, this is pushed into the ring; the message sent holds the new snapshot of the
  -- context, with the score, the class and the reasons that score_gpu gives for the new context, with
  -- the fields of that very sample, and with both presence flags set; the probe result stays, and
  -- the error streak is reset.
  pub poll_round-outcome :
      (cfg : Config D) (e : Env D) (c : Ctx D)
      → IsValid c.ring
      → Outcome cfg e c (poll_round cfg e c)
  unfolding poll_device
  poll_round-outcome cfg e c v = elim (poll_round-cases cfg e c) [
    | inl (same, q) ↦ inl (backing_off-IsIdle cfg e c q, same)
    | inr (same, p, q) ↦ rw same (
        inr (
          polling_round cfg e c p q,
          retried-outcome cfg e c _
              (finish_poll-outcome cfg e (note_retry e c) _ refl (present p) (valid v)),
        ))
  ]
    where
      present : c.gpu_present ≡ true → (note_retry e c).gpu_present ≡ true
      present p = unfold note_retry in p

      valid : IsValid c.ring → IsValid (note_retry e c).ring
      valid v = unfold note_retry in v
