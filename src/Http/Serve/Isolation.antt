-- ===== src/Http/Serve/Isolation.antt =====
-- Clients do not disturb one another: what a client is sent depends on the messages of the parent
-- before it, and on no other client.
use gpu_health_index.Prelude.{
  ℕ, ◌≡◌, refl, ap, sym, ◌∙◌, true, false, List, [], ◌∷◌, ◌++◌, append_assoc, if◌then◌else◌,
  Bool-cases, inl, inr,
}
use gpu_health_index.Double.{Double}
use gpu_health_index.Http.Metrics.Family.{Printf}
use gpu_health_index.Http.Serve.{
  Event, ipc, sigterm, timed_out, select_interrupted, select_failed, accept_failed, client, Client,
  Child, Sent, child_step, http_accept_loop, goes_on, serve_client,
}

module _ {D : Type 0} where
  -- the schedule without its clients
  unfoldable pub without_clients : List (Event D) → List (Event D)
  without_clients [] = []
  without_clients (client k ∷ es) = without_clients es
  without_clients (ipc m ∷ es) = ipc m ∷ without_clients es
  without_clients (sigterm ∷ es) = sigterm ∷ without_clients es
  without_clients (timed_out ∷ es) = timed_out ∷ without_clients es
  without_clients (select_interrupted ∷ es) = select_interrupted ∷ without_clients es
  without_clients (select_failed ∷ es) = select_failed ∷ without_clients es
  without_clients (accept_failed ∷ es) = accept_failed ∷ without_clients es

module _ {D : Type 0} ⦃d : Double D⦄ (p : Printf D) (stale_ms : ℕ) where
  abbrev loop : List (Event D) → Child D → Child D × List Sent
  loop = http_accept_loop p stale_ms

  -- a loop that has ended stays as it is
  loop_over : (es : List (Event D)) (c : Child D) → goes_on c ≡ false → loop es c ≡ (c, [])
  unfolding http_accept_loop
  loop_over [] c h = refl
  loop_over (e ∷ es) c h = rw h refl

  loop_goes :
      (e : Event D) (es : List (Event D)) (c : Child D)
      → goes_on c ≡ true
      → loop (e ∷ es) c ≡ (
        (loop es (child_step p stale_ms c e).0).0,
        (child_step p stale_ms c e).1 ++ (loop es (child_step p stale_ms c e).0).1,
      )
  unfolding http_accept_loop
  loop_goes e es c h = rw h refl

  pub loop-append :
      (es fs : List (Event D)) (c : Child D)
      → loop (es ++ fs) c ≡ ((loop fs (loop es c).0).0, (loop es c).1 ++ (loop fs (loop es c).0).1)
  loop-append [] fs c = unfold http_accept_loop in refl
  loop-append (e ∷ es) fs c = elim (Bool-cases (goes_on c)) [
    | inl q ↦ rw (loop_goes e (es ++ fs) c q) (
        rw (loop_goes e es c q) (
          ap (λ r. (r.0, out ++ r.1)) (loop-append es fs next)
          ∙ ap (λ l. ((loop fs (loop es next).0).0, l))
              (sym (append_assoc out (loop es next).1 (loop fs (loop es next).0).1))))
    | inr q ↦
        rw (loop_over (e ∷ es ++ fs) c q) (rw (loop_over (e ∷ es) c q) (rw (loop_over fs c q) refl))
  ]
    where
      next : Child D
      next = (child_step p stale_ms c e).0

      out : List Sent
      out = (child_step p stale_ms c e).1

  -- what the loop sends one more client
  sent_last : (k : Client) (c : Child D) → List Sent
  sent_last k c = if goes_on c then serve_client p stale_ms c.receiver k ∷ [] else []
