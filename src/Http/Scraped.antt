-- ===== src/Http/Scraped.antt =====
-- http.c: GET /metrics from the messages of the parent to what a scraper reads.
use gpu_health_index.Prelude.{
  ℕ, zero, suc, ◌-◌, ◌≤◌, ◌<◌, ◌≡◌, refl, ap, ◌∙◌, Bool, true, false, Option, none, some, List, [],
  ◌∷◌, ◌++◌, length, if◌then◌else◌, arith, Bool-cases, inl, inr,
}
use gpu_health_index.Double.{Double}
use gpu_health_index.Types.{Snapshot, IpcMsg}
use gpu_health_index.Util.{same_string}
use gpu_health_index.Config.Table.{bytes}
use gpu_health_index.Http.Slots.{Slot, Receiver, ipc_receiver, fresh_receiver}
use gpu_health_index.Http.Slots.Refine.{
  view, last_for, arrivals, received_length, ipc_receiver-refines,
}
use gpu_health_index.Http.Request.{Response, handle_request}
use gpu_health_index.Http.Buffer.{concat}
use gpu_health_index.Http.Serve.{Client, answer}
use gpu_health_index.Http.Metrics.Family.{Printf, IsOneLine, Family}
use gpu_health_index.Http.Metrics.Render.{
  families, metrics_texts, render_metrics, copy_slots, metrics_buf_size,
}
use gpu_health_index.Http.Metrics.Scrape.{Reading, read_metrics}
use gpu_health_index.Http.Metrics.Whole.{
  ArePlain, value_reading, family_readings, readings, render_metrics-readings,
}

-- the values of a function at 0, 1, up to n - 1
unfoldable pub tabulate {ℓ} : {A : Type ℓ} → ℕ → (ℕ → A) → List A
tabulate zero f = []
tabulate (suc n) f = f 0 ∷ tabulate n (λ i. f (suc i))

module _ {D : Type 0} where
  -- what every GPU has reported
  abbrev views : List (Slot D) → List (Option (Snapshot D))
  views [] = []
  views (s ∷ ss) = (if s.received then some s.snap else none) ∷ views ss

  views-tabulate :
      (ss : List (Slot D)) (n : ℕ) (f : ℕ → Option (Snapshot D))
      → length ss ≡ n
      → ((i : ℕ) → i < n → view ss i ≡ f i)
      → views ss ≡ tabulate n f
  unfolding tabulate
  views-tabulate [] zero f h k = refl
  views-tabulate [] (suc n) f h k = absurd (omega (arith, h))
  views-tabulate (s ∷ ss) zero f h k = absurd (omega (arith, h))
  views-tabulate (s ∷ ss) (suc n) f h k =
      let first = k 0 (omega arith) in
      let others =
        views-tabulate ss n (λ i. f (suc i)) (omega (arith, h)) (λ i p. k (suc i) (omega arith)) in
      λ j. first j ∷ others j

module _ {D : Type 0} (p : Printf D) where
  -- The readings of a family for GPUs with a last message, and those of all the families.
  abbrev pub expected_family : Family D → List (Option (Snapshot D)) → List Reading
  expected_family f [] = []
  expected_family f (none ∷ ss) = expected_family f ss
  expected_family f (some s ∷ ss) = value_reading p f s.serial (f.value s) ++ expected_family f ss

  abbrev pub expected : List (Family D) → List (Option (Snapshot D)) → List Reading
  expected [] ss = []
  expected (f ∷ fs) ss = expected_family f ss ++ expected fs ss

  family_readings-views :
      (f : Family D) (ss : List (Slot D)) → family_readings p f ss ≡ expected_family f (views ss)
  family_readings-views f [] = refl
  family_readings-views f (s ∷ ss) = elim (Bool-cases s.received) [
    | inl q ↦ rw q (
        ap (λ l. value_reading p f s.snap.serial (f.value s.snap) ++ l)
          (family_readings-views f ss))
    | inr q ↦ rw q (family_readings-views f ss)
  ]

  readings-views :
      (fs : List (Family D)) (ss : List (Slot D)) → readings p fs ss ≡ expected fs (views ss)
  readings-views [] ss = refl
  readings-views (f ∷ fs) ss = λ j. family_readings-views f ss j ++ readings-views fs ss j

module _ {D : Type 0} ⦃d : Double D⦄ {p : Printf D} (laws : IsOneLine p) where
  -- the response to GET /metrics
  abbrev scraped : ℕ → Receiver D → Client → Response
  scraped stale_ms st k = answer p stale_ms st k (bytes "GET") (bytes "/metrics")

  scraped_lem :
      (stale_ms : ℕ) (st : Receiver D) (k : Client)
      → k.buffer_ok ≡ true
      → ((scraped stale_ms st k).status ≡ 200)
        × ((scraped stale_ms st k).body
            ≡ render_metrics p metrics_buf_size (copy_slots k.copy_ok st))
  unfolding answer handle_request same_string
  scraped_lem stale_ms st k h = rw h (refl, refl)

  no_buffer :
      (stale_ms : ℕ) (st : Receiver D) (k : Client)
      → k.buffer_ok ≡ false
      → (scraped stale_ms st k).status ≡ 500
  unfolding answer handle_request same_string
  no_buffer stale_ms st k h = rw h refl

  module _ (n : ℕ) (zeroed : Snapshot D) (ms : List (IpcMsg D)) where
    -- the receiver after the messages
    abbrev pub end_of : Receiver D
    end_of = ipc_receiver (arrivals ms) (fresh_receiver n zeroed)

    views_lem : 0 < n → views end_of.slots ≡ tabulate n (λ i. last_for i ms none)
    views_lem h =
        views-tabulate end_of.slots n (λ i. last_for i ms none) (received_length n zeroed ms h)
          (λ i q. (ipc_receiver-refines n zeroed ms i q).0)

    body_read :
        (copy_ok : Bool)
        → 0 < n
        → ArePlain end_of.slots
        → length (concat (metrics_texts p end_of.slots)) ≤ metrics_buf_size - 1
        → read_metrics (render_metrics p metrics_buf_size (copy_slots copy_ok end_of))
          ≡ (if copy_ok then expected p families (tabulate n (λ i. last_for i ms none)) else [])
    unfolding copy_slots
    body_read true h k fits =
        render_metrics-readings laws metrics_buf_size end_of.slots k fits
        ∙ readings-views p families end_of.slots
        ∙ ap (expected p families) (views_lem h)
    body_read false h k fits = unfold render_metrics read_metrics in refl

    -- With at least one GPU, after any messages in any order, and where the text fits in the buffer:
    -- GET /metrics is answered with 200, and a scraper reads in it exactly the families' values of the
    -- last snapshot that arrived for each GPU, in the order of the GPUs, and nothing of a GPU for
    -- which none arrived. It reads nothing where the slots cannot be copied, and the status is 500
    -- where the buffer cannot be allocated.
    pub metrics-served :
        (stale_ms : ℕ) (k : Client)
        → 0 < n
        → ArePlain end_of.slots
        → length (concat (metrics_texts p end_of.slots)) ≤ metrics_buf_size - 1
        → let r = answer p stale_ms end_of k (bytes "GET") (bytes "/metrics") in
          (k.buffer_ok ≡ true
            → (r.status ≡ 200)
              × (read_metrics r.body ≡ (
                  if k.copy_ok
                  then expected p families (tabulate n (λ i. last_for i ms none))
                  else [])))
          × (k.buffer_ok ≡ false → r.status ≡ 500)
    metrics-served stale_ms k h plain fits = (
      λ b.
          let (status, body) = scraped_lem stale_ms end_of k b in
          (status, ap read_metrics body ∙ body_read k.copy_ok h plain fits),
      λ b. no_buffer stale_ms end_of k b,
    )
