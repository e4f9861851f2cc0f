-- ===== src/Http/Ready.antt =====
-- http.c: /ready from the first message to the answer.
use gpu_health_index.Prelude.{
  ℕ, zero, suc, ◌<◌, ◌≡◌, refl, sym, ◌∙◌, ◌≢◌, ◌↔◌, Bool, true, false, Option, none, List, [], ◌∷◌,
  length, arith,
}
use gpu_health_index.Util.{same_string}
use gpu_health_index.Config.Table.{bytes}
use gpu_health_index.Types.{Snapshot, IpcMsg}
use gpu_health_index.Http.Slots.{Slot, Receiver, all_received, ipc_receiver, fresh_receiver}
use gpu_health_index.Http.Slots.Refine.{
  view, last_for, arrivals, ipc_receiver-refines, received_length,
}
use gpu_health_index.Http.Request.{handle_request}

ready_status :
    (metrics : Option (List ℕ)) (all_ready alive : Bool)
    → ((handle_request metrics all_ready alive (bytes "GET") (bytes "/ready")).status ≡ 200)
      ↔ (all_ready ≡ true)
unfolding handle_request same_string
ready_status metrics true alive = ((λ _. refl), λ _. refl)
ready_status metrics false alive = ((λ h. ground arith), λ h. ground arith)

module _ {D : Type 0} where
  all_received→view :
      (ss : List (Slot D)) (i : ℕ) → all_received ss ≡ true → i < length ss → view ss i ≢ none
  unfolding all_received
  all_received→view [] i h p = absurd (omega arith)
  all_received→view (s ∷ ss) zero h p = λ q. ground arith
  all_received→view (s ∷ ss) (suc i) h p = all_received→view ss i (ground arith) (omega arith)

  view→all_received :
      (ss : List (Slot D)) → ((i : ℕ) → i < length ss → view ss i ≢ none) → all_received ss ≡ true
  unfolding all_received
  view→all_received [] h = refl
  view→all_received (s ∷ ss) h =
      let here = h 0 (omega arith) in
      let rest = view→all_received ss (λ i p. h (suc i) (omega arith)) in ground arith

  -- With at least one GPU, and after any messages in any order, GET /ready is answered with 200
  -- exactly if a message has arrived for every GPU.
  pub ready_iff :
      (n : ℕ) (zeroed : Snapshot D) (ms : List (IpcMsg D)) (metrics : Option (List ℕ))
      (alive : Bool)
      → 0 < n
      → let end = ipc_receiver (arrivals ms) (fresh_receiver n zeroed) in
        ((handle_request metrics end.all_ready alive (bytes "GET") (bytes "/ready")).status ≡ 200)
        ↔ ((i : ℕ) → i < n → last_for i ms none ≢ none)
  ready_iff n zeroed ms metrics alive h = (
    λ status i p q.
        all_received→view end.slots i
          (sym agrees ∙ (ready_status metrics end.all_ready alive).0 status) (omega (arith, len))
          ((at i p).0 ∙ q),
    λ all. (ready_status metrics end.all_ready alive).1 (
        agrees
        ∙ view→all_received end.slots
            (λ i p q. all i (omega (arith, len)) (sym (at i (omega (arith, len))).0 ∙ q))),
  )
    where
      end : Receiver D
      end = ipc_receiver (arrivals ms) (fresh_receiver n zeroed)

      at :
          (i : ℕ)
          → i < n
          → (view end.slots i ≡ last_for i ms none) × (end.all_ready ≡ all_received end.slots)
      at i p = ipc_receiver-refines n zeroed ms i p

      agrees : end.all_ready ≡ all_received end.slots
      agrees = (at 0 h).1

      len : length end.slots ≡ n
      len = received_length n zeroed ms h
