-- ===== src/Http/Slots/Refine.antt =====
-- http.c: what the slots hold after any messages, and what /ready and /live say of them.
use gpu_health_index.Prelude.{
  ℕ, zero, suc, ◌+◌, ◌-◌, ◌%◌, ◌^◌, ◌≤◌, ◌<◌, ◌≡◌, refl, ap, sym, ◌∙◌, subst, ◌↔◌, Bool, true,
  false, Option, none, some, List, [], ◌∷◌, map, length, set, ltb, ◌==◌, if◌then◌else◌, arith, All,
  length-set, length-replicate,
}
use gpu_health_index.Prelude.Int.{ℤ, pos, negsuc}
use gpu_health_index.Ring.Refine.{mod_cases}
use gpu_health_index.Types.{Snapshot, IpcMsg}
use gpu_health_index.Http.Slots.{
  Slot, Receiver, all_received, store, receive_at, receive, ipc_receiver, fresh_receiver,
  check_liveness,
}

if_true {ℓ} : {A : Type ℓ} (b : Bool) (x y : A) → b ≡ true → (if b then x else y) ≡ x
if_true b x y h = rw h refl

age_lem :
    (now last stale : ℕ)
    → now + stale < 2 ^ 63
    → last < 2 ^ 63
    → (ltb stale ((now + 2 ^ 64 - last) % 2 ^ 64) ≡ false) ↔ ((last ≤ now) × (now ≤ last + stale))
age_lem now last stale h p = ground (arith, mod_cases (now + 2 ^ 64 - last) (2 ^ 64))

module _ {D : Type 0} where
  -- The snapshot for slot `i` after one more message.
  unfoldable pub newer : ℕ → ℤ → Snapshot D → Option (Snapshot D) → Option (Snapshot D)
  newer i (negsuc n) snap old = old
  newer i (pos j) snap old = if i == j then some snap else old

  -- The last snapshot that the messages hold for slot `i`, else the one before them.
  unfoldable pub last_for : ℕ → List (IpcMsg D) → Option (Snapshot D) → Option (Snapshot D)
  unfolding newer
  last_for i [] old = old
  last_for i (m ∷ ms) old = last_for i ms (newer i m.gpu_index m.snapshot old)

  -- what a slot tells of its GPU
  abbrev pub reported : Slot D → Option (Snapshot D)
  reported s = if s.received then some s.snap else none

  abbrev pub view : List (Slot D) → ℕ → Option (Snapshot D)
  view [] i = none
  view (s ∷ ss) zero = reported s
  view (s ∷ ss) (suc i) = view ss i

  view-set :
      (ss : List (Slot D)) (i j : ℕ) (snap : Snapshot D)
      → i < length ss
      → view (set ss j (record { snap = snap; received = true })) i
        ≡ (if i == j then some snap else view ss i)
  view-set [] i j snap h = absurd (omega arith)
  view-set (t ∷ ss) zero zero snap h = refl
  view-set (t ∷ ss) zero (suc j) snap h = ground arith
  view-set (t ∷ ss) (suc i) zero snap h = ground arith
  view-set (t ∷ ss) (suc i) (suc j) snap h = ground (arith, view-set ss i j snap)

  pub all_received-set :
      (ss : List (Slot D)) (i : ℕ) (snap : Snapshot D)
      → all_received ss ≡ true
      → all_received (set ss i (record { snap = snap; received = true })) ≡ true
  unfolding all_received
  all_received-set [] i snap h = refl
  all_received-set (s ∷ ss) zero snap h = ground arith
  all_received-set (s ∷ ss) (suc i) snap h = ground (arith, all_received-set ss i snap)

  -- the flag says what the slots say
  abbrev pub Agrees : Receiver D → Type 0
  Agrees st = st.all_ready ≡ all_received st.slots

  store-agrees :
      (i : ℕ) (snap : Snapshot D) (st : Receiver D) → Agrees st → Agrees (store i snap st)
  unfolding store
  store-agrees i snap st h = ground (arith, all_received-set st.slots i snap)

  receive_at-agrees :
      (st : Receiver D) (k : ℤ) (snap : Snapshot D) → Agrees st → Agrees (receive_at st k snap)
  unfolding receive_at
  receive_at-agrees st (negsuc n) snap h = h
  receive_at-agrees st (pos i) snap h = ground (arith, store-agrees i snap st)

  pub receive_at-shape :
      (st : Receiver D) (k : ℤ) (snap : Snapshot D)
      → (length (receive_at st k snap).slots ≡ length st.slots)
        × ((receive_at st k snap).running ≡ st.running)
  unfolding receive_at store
  receive_at-shape st (negsuc n) snap = (refl, refl)
  receive_at-shape st (pos i) snap =
      ground (arith, length-set st.slots i (record { snap = snap; received = true }))

  receive_at-view :
      (st : Receiver D) (k : ℤ) (snap : Snapshot D) (i : ℕ)
      → i < length st.slots
      → view (receive_at st k snap).slots i ≡ newer i k snap (view st.slots i)
  unfolding receive_at store newer
  receive_at-view st (negsuc n) snap i h = refl
  receive_at-view st (pos j) snap i h = ground (arith, view-set st.slots i j snap)

  -- the messages that arrive before anything else, one call of snapshot_recv each
  abbrev pub arrivals : List (IpcMsg D) → List (Option (IpcMsg D))
  arrivals = map some

  received :
      (ms : List (IpcMsg D)) (st : Receiver D) (i : ℕ)
      → Agrees st
      → st.running ≡ true
      → i < length st.slots
      → let end = ipc_receiver (arrivals ms) st in
        Agrees end
        × (end.running ≡ true)
        × (length end.slots ≡ length st.slots)
        × (view end.slots i ≡ last_for i ms (view st.slots i))
  unfolding ipc_receiver last_for receive
  received [] st i h r p = (h, r, refl, refl)
  received (m ∷ ms) st i h r p =
      let (same_length, still) = receive_at-shape st m.gpu_index m.snapshot in
      let (agrees, running, len, v) =
        received ms (receive st m) i (receive_at-agrees st m.gpu_index m.snapshot h) (still ∙ r)
          (omega arith) in
      subst
        (λ end.
          Agrees end
          × (end.running ≡ true)
          × (length end.slots ≡ length st.slots)
          × (view end.slots i ≡ last_for i (m ∷ ms) (view st.slots i)))
        (sym (if_true st.running _ _ r))
        (
          agrees,
          running,
          len ∙ same_length,
          v ∙ ap (last_for i ms) (receive_at-view st m.gpu_index m.snapshot i p),
        )

  fresh-agrees : (n : ℕ) (zeroed : Snapshot D) → 0 < n → Agrees (fresh_receiver n zeroed)
  unfolding fresh_receiver all_received
  fresh-agrees zero zeroed h = absurd (omega arith)
  fresh-agrees (suc n) zeroed h = refl

  fresh-view : (n i : ℕ) (zeroed : Snapshot D) → view (fresh_receiver n zeroed).slots i ≡ none
  unfolding fresh_receiver
  fresh-view zero i zeroed = refl
  fresh-view (suc n) zero zeroed = refl
  fresh-view (suc n) (suc i) zeroed = fresh-view n i zeroed

  fresh_shape :
      (n : ℕ) (zeroed : Snapshot D)
      → ((fresh_receiver n zeroed).running ≡ true) × (length (fresh_receiver n zeroed).slots ≡ n)
  unfolding fresh_receiver
  fresh_shape n zeroed =
      (refl, length-replicate {A = Slot D} n (record { snap = zeroed; received = false }))

  pub received_length :
      (n : ℕ) (zeroed : Snapshot D) (ms : List (IpcMsg D))
      → 0 < n
      → length (ipc_receiver (arrivals ms) (fresh_receiver n zeroed)).slots ≡ n
  received_length n zeroed ms h =
      let (running, len) = fresh_shape n zeroed in
      let (_, _, same, _) =
        received ms (fresh_receiver n zeroed) 0 (fresh-agrees n zeroed h) running (omega arith) in
      same ∙ len

  -- With `n` GPUs, after any messages in any order, those with an index out of range among them: a
  -- slot holds the last snapshot that arrived for its GPU, and has not received where none did; and
  -- the flag that /ready answers from is set exactly if every slot has received one.
  pub ipc_receiver-refines :
      (n : ℕ) (zeroed : Snapshot D) (ms : List (IpcMsg D)) (i : ℕ)
      → i < n
      → let end = ipc_receiver (arrivals ms) (fresh_receiver n zeroed) in
        (view end.slots i ≡ last_for i ms none) × (end.all_ready ≡ all_received end.slots)
  ipc_receiver-refines n zeroed ms i h =
      let (running, len) = fresh_shape n zeroed in
      let (agrees, _, _, v) =
        received ms (fresh_receiver n zeroed) i (fresh-agrees n zeroed (omega arith)) running
          (omega arith) in
      (v ∙ ap (last_for i ms) (fresh-view n i zeroed), agrees)

  -- polled no later than the reading, and not too long before it
  abbrev pub IsFresh : ℕ → ℕ → Slot D → Type 0
  IsFresh now_ms stale_ms s =
      s.received ≡ true → (s.snap.last_poll_ms ≤ now_ms) × (now_ms ≤ s.snap.last_poll_ms + stale_ms)

  -- Where the clock has not wrapped, /live answers "alive" exactly if each slot that has reported
  -- was polled no later than the clock reading and at most `stale_ms` before it. So a slot that has
  -- never reported does not make it stale, and a poll later than the reading does.
  pub check_liveness_iff :
      (now_ms stale_ms : ℕ) (ss : List (Slot D))
      → now_ms + stale_ms < 2 ^ 63
      → All (λ s. s.snap.last_poll_ms < 2 ^ 63) ss
      → (check_liveness now_ms stale_ms ss ≡ true) ↔ All (IsFresh now_ms stale_ms) ss
  unfolding check_liveness
  check_liveness_iff now_ms stale_ms [] b h = ((λ _. tt), λ _. refl)
  check_liveness_iff now_ms stale_ms (s ∷ ss) b (p, h) = ground (
    arith,
    age_lem now_ms s.snap.last_poll_ms stale_ms b p,
    check_liveness_iff now_ms stale_ms ss b h,
  )
