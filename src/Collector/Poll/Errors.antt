-- ===== src/Collector/Poll/Errors.antt =====
-- collector.c: what the rounds of poll_thread do to the error counters and the flags.
use gpu_health_index.Prelude.{
  ℕ, ◌≤◌, ◌<◌, ◌≡◌, refl, ◌⊎◌, inl, inr, true, false, not, ◌&&◌, List, [], ◌∷◌, arith, ltb,
  Bool-cases,
}
use gpu_health_index.Double.{Double}
use gpu_health_index.Types.{Sample, State}
use gpu_health_index.Config.{Config}
use gpu_health_index.Config.Fields.{IntField}
use gpu_health_index.Snapshot.Update.{snapshot_update}
use gpu_health_index.Collector.Context.{Ctx}
use gpu_health_index.Collector.Nvml.{Reply, success, failure}
use gpu_health_index.Collector.Poll.{
  Env, on_failure, record_success, on_success, finish_poll, nvml_answer, poll_device, backing_off,
  quiet, note_retry, poll_round, run, collector_start,
}

module _ {D : Type 0} (cfg : Config D) where
  -- While the GPU is present, `gpu_available` says that the error streak is below its threshold and
  -- the hard streak is below its own; a lost GPU has reached the hard threshold.
  pub record CountersAgree (c : Ctx D) : Type 0 where
    pub hard_le : c.consecutive_hard_errors ≤ c.consecutive_errors
    pub present :
        c.gpu_present ≡ true
        → (c.gpu_available ≡ ltb c.consecutive_errors (cfg.int IntField.nvml_error_threshold))
          × (c.consecutive_hard_errors < cfg.int IntField.nvml_hard_error_threshold)
    pub lost :
        c.gpu_present ≡ false
        → cfg.int IntField.nvml_hard_error_threshold ≤ c.consecutive_hard_errors

module _ {D : Type 0} ⦃d : Double D⦄ where
  pub poll_round-cases :
      (cfg : Config D) (e : Env D) (c : Ctx D)
      → ((poll_round cfg e c ≡ quiet c)
          × ((c.gpu_present ≡ false) ⊎ ((c.gpu_available ≡ false) × (backing_off cfg e c ≡ true))))
        ⊎ ((poll_round cfg e c ≡ poll_device cfg e (note_retry e c))
            × (c.gpu_present ≡ true)
            × (not c.gpu_available && backing_off cfg e c ≡ false))
  unfolding poll_round
  poll_round-cases cfg e c = elim (Bool-cases c.gpu_present) [
    | inr p ↦ inl (rw p refl, inl p)
    | inl p ↦ elim (Bool-cases (not c.gpu_available && backing_off cfg e c)) [
      | inl q ↦ inl (rw (p, q) refl, inr (ground arith))
      | inr q ↦ inr (rw (p, q) refl, p, q)
    ]
  ]

module _ {D : Type 0} ⦃d : Double D⦄ {cfg : Config D}
    (soft : 0 < cfg.int IntField.nvml_error_threshold)
    (hard : 0 < cfg.int IntField.nvml_hard_error_threshold) where
  on_failure-agree :
      (code : ℕ) {c : Ctx D}
      → c.gpu_present ≡ true
      → CountersAgree cfg c
      → CountersAgree cfg (on_failure cfg code c).ctx
  unfolding on_failure
  on_failure-agree code {c} p v = ground arith

  on_success-agree :
      (e : Env D) (s : Sample D) (st : State D) (c : Ctx D)
      → c.gpu_present ≡ true
      → CountersAgree cfg (on_success cfg e s st c).ctx
  unfolding on_success record_success snapshot_update
  on_success-agree e s st c p = record {
    hard_le = omega arith;
    present = λ q. (ground arith, hard);
    lost = λ q. ground arith;
  }

  finish_poll-agree :
      (e : Env D) (r : Reply (Sample D × State D)) (c : Ctx D)
      → c.gpu_present ≡ true
      → CountersAgree cfg c
      → CountersAgree cfg (finish_poll cfg e c r).ctx
  unfolding finish_poll
  finish_poll-agree e (failure code) c p v = on_failure-agree code p v
  finish_poll-agree e (success (s, st)) c p v = on_success-agree e s st c p

  poll_device-agree :
      (e : Env D) (c : Ctx D)
      → c.gpu_present ≡ true
      → CountersAgree cfg c
      → CountersAgree cfg (poll_device cfg e (note_retry e c)).ctx
  unfolding poll_device note_retry
  poll_device-agree e c p v =
      finish_poll-agree e (nvml_answer e (note_retry e c)) (note_retry e c) p
        (record { hard_le = v.hard_le; present = v.present; lost = v.lost })

  -- One round of the poll loop keeps the error streaks and the flags of a GPU in agreement.
  pub poll_round-agree :
      (e : Env D) (c : Ctx D) → CountersAgree cfg c → CountersAgree cfg (poll_round cfg e c).ctx
  poll_round-agree e c v = elim (poll_round-cases cfg e c) [
    | inl (same, q) ↦ rw same v
    | inr (same, p, q) ↦ rw same (poll_device-agree e c p v)
  ]

  pub run-agree :
      (es : List (Env D)) (c : Ctx D) → CountersAgree cfg c → CountersAgree cfg (run cfg es c).0
  unfolding run
  run-agree [] c v = v
  run-agree (e ∷ es) c v = elim (Bool-cases (poll_round cfg e c).goes_on) [
    | inl q ↦ rw q (run-agree es (poll_round cfg e c).ctx (poll_round-agree e c v))
    | inr q ↦ rw q (poll_round-agree e c v)
  ]

  collector_start-agree : (c : Ctx D) → CountersAgree cfg (collector_start cfg c)
  unfolding collector_start
  collector_start-agree c = ground arith

  -- Where both thresholds are positive, as the bounds of the configuration have it, then after any
  -- rounds of the poll loop from the start: the hard streak is at most the streak; as long as the
  -- GPU is present, `gpu_available` is set exactly if the streak is below its threshold, and the
  -- hard streak is below its threshold; a GPU that is lost has reached the hard threshold.
  pub run-counters :
      (es : List (Env D)) (c : Ctx D) → CountersAgree cfg (run cfg es (collector_start cfg c)).0
  run-counters es c = run-agree es (collector_start cfg c) (collector_start-agree c)
