-- ===== src/Collector/Poll/Run.antt =====
-- collector.c: whole runs of poll_thread.
use gpu_health_index.Prelude.{
  suc, ◌≡◌, refl, ap, ◌∙◌, ◌⊎◌, inl, inr, true, false, none, List, [], ◌∷◌, ◌++◌, length, All,
  arith, Bool-cases,
}
use gpu_health_index.Double.{Double}
use gpu_health_index.Types.{Sample, IpcMsg}
use gpu_health_index.Ring.Window.{keep_last}
use gpu_health_index.Ring.Refine.{IsValid, contents, push_all, push_all_refines, ring_push-IsValid}
use gpu_health_index.Config.{Config}
use gpu_health_index.Collector.Context.{Ctx}
use gpu_health_index.Collector.Poll.{Env, Round, quiet, poll_round, run, sent_with}
use gpu_health_index.Collector.Poll.Cycle.{
  Delivered, SameData, poll_round-outcome, silent_or_Delivered,
}

module _ {D : Type 0} ⦃d : Double D⦄ where
  -- both presence flags of a message are set
  abbrev pub SaysPresent : IpcMsg D → Type 0
  SaysPresent m = (m.snapshot.gpu_present ≡ true) × (m.snapshot.gpu_available ≡ true)

  -- a run's ring is what pushing one sample for each message makes of the ring before it
  pub record RunOutcome (c : Ctx D) (r : Ctx D × List (IpcMsg D)) : Type 0 where
    pub samples : List (Sample D)
    pub one_each : length samples ≡ length r.1
    pub ring_after : r.0.ring ≡ push_all c.ring samples
    pub present_sent : All SaysPresent r.1
    pub probe_after : r.0.probe ≡ c.probe

  -- what one round adds to the outcome of the rounds after it
  prepend :
      {cfg : Config D} {e : Env D} {c : Ctx D} {o : Round D} {c' : Ctx D} {ms : List (IpcMsg D)}
      → (SameData c o.ctx × (o.sent ≡ none)) ⊎ Delivered cfg e c o
      → RunOutcome o.ctx (c', ms)
      → RunOutcome c (c', sent_with o.sent ms)
  unfolding push_all
  prepend (inl (k, n)) r = rw n (record {
    samples = r.samples;
    one_each = r.one_each;
    ring_after = r.ring_after ∙ ap (λ x. push_all x r.samples) k.same_ring;
    present_sent = r.present_sent;
    probe_after = r.probe_after ∙ k.same_probe;
  })
  prepend (inr k) r = rw k.sent (record {
    samples = k.sample ∷ r.samples;
    one_each = ap suc r.one_each;
    ring_after = r.ring_after ∙ ap (λ x. push_all x r.samples) k.pushed;
    present_sent = ((k.present_sent, k.available_sent), r.present_sent);
    probe_after = r.probe_after ∙ k.same_probe;
  })

  stopped : (c : Ctx D) → RunOutcome c (c, [])
  unfolding push_all
  stopped c = record {
    samples = [];
    one_each = refl;
    ring_after = refl;
    present_sent = tt;
    probe_after = refl;
  }

  round-IsValid :
      {cfg : Config D} {e : Env D} {c : Ctx D} {o : Round D}
      → IsValid c.ring
      → (SameData c o.ctx × (o.sent ≡ none)) ⊎ Delivered cfg e c o
      → IsValid o.ctx.ring
  round-IsValid v (inl (k, n)) = rw k.same_ring v
  round-IsValid v (inr k) = rw k.pushed (ring_push-IsValid k.sample v)

  pub run-outcome :
      (cfg : Config D) (es : List (Env D)) (c : Ctx D)
      → IsValid c.ring
      → RunOutcome c (run cfg es c)
  unfolding run
  run-outcome cfg [] c v = stopped c
  run-outcome cfg (e ∷ es) c v = elim (Bool-cases (poll_round cfg e c).goes_on) [
    | inl q ↦ rw q (prepend o (run-outcome cfg es _ (round-IsValid v o)))
    | inr q ↦ rw q (prepend o (stopped (poll_round cfg e c).ctx))
  ]
    where
      o :
          (SameData c (poll_round cfg e c).ctx × ((poll_round cfg e c).sent ≡ none))
          ⊎ Delivered cfg e c (poll_round cfg e c)
      o = silent_or_Delivered (poll_round-outcome cfg e c v)

  -- After any rounds of the poll loop on a valid ring, the ring holds the last `capacity` of the
  -- samples that it held and of new ones, oldest first, of which there is one for each message that
  -- was sent; every message sent has both gpu_present and gpu_available set, also where errors come
  -- between or the GPU is lost; the probe result is the one at the start.
  pub run_refines :
      (cfg : Config D) (es : List (Env D)) (c : Ctx D)
      → IsValid c.ring
      → (ss : List (Sample D)) × (length ss ≡ length (run cfg es c).1)
        × (contents (run cfg es c).0.ring ≡ keep_last c.ring.capacity (contents c.ring ++ ss))
        × All SaysPresent (run cfg es c).1
        × ((run cfg es c).0.probe ≡ c.probe)
  run_refines cfg es c v =
      let r = run-outcome cfg es c v in
      (
        r.samples,
        r.one_each,
        ap contents r.ring_after ∙ (push_all_refines r.samples v).0,
        r.present_sent,
        r.probe_after,
      )

  present_rounds_stop :
      (cfg : Config D) (e : Env D) (c : Ctx D)
      → c.gpu_present ≡ false
      → poll_round cfg e c ≡ quiet c
  unfolding poll_round
  present_rounds_stop cfg e c p = rw p refl

  lost_run :
      (cfg : Config D) (es : List (Env D)) (c : Ctx D)
      → c.gpu_present ≡ false
      → run cfg es c ≡ (c, [])
  unfolding run
  lost_run cfg [] c p = refl
  lost_run cfg (e ∷ es) c p = rw (present_rounds_stop cfg e c p, lost_run cfg es c p) refl

  -- A GPU that is lost stays lost: what a run has left when it has cleared `gpu_present`, and what
  -- it has sent, is the same whatever rounds come after it.
  pub run-lost :
      (cfg : Config D) (es more : List (Env D)) (c : Ctx D)
      → (run cfg es c).0.gpu_present ≡ false
      → run cfg (es ++ more) c ≡ run cfg es c
  unfolding run
  run-lost cfg [] more c p = lost_run cfg more c p
  run-lost cfg (e ∷ es) more c p = elim (Bool-cases (poll_round cfg e c).goes_on) [
    | inl q ↦
        let same = run-lost cfg es more (poll_round cfg e c).ctx (lost_later q) in rw (q, same) refl
    | inr q ↦ rw q refl
  ]
    where
      lost_later :
          (poll_round cfg e c).goes_on ≡ true
          → (run cfg es (poll_round cfg e c).ctx).0.gpu_present ≡ false
      lost_later q = ground arith
