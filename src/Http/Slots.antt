-- ===== src/Http/Slots.antt =====
-- http.c: ipc_receiver_thread, and what check_ready and check_liveness read. A message is handled
-- under g_lock, so one message is one step.
pub mod Refine
use gpu_health_index.Prelude.{
  ℕ, zero, suc, ◌+◌, ◌-◌, ◌*◌, ◌%◌, ◌^◌, ◌≤◌, ◌<◌, ◌≡◌, refl, ap, sym, ◌∙◌, Bool, true, false, not,
  ◌&&◌, Option, none, some, List, [], ◌∷◌, length, get_or, set, replicate, ltb, leb, if◌then◌else◌,
  arith, All,
}
use gpu_health_index.Prelude.Int.{ℤ, pos, negsuc}
use gpu_health_index.Types.{Snapshot, IpcMsg}

-- http_slot_t
pub record Slot (D : Type 0) : Type 0 where
  pub snap : Snapshot D
  pub received : Bool

-- g_slots, g_all_ready and g_running; g_num_gpus is the length of g_slots
pub record Receiver (D : Type 0) : Type 0 where
  pub slots : List (Slot D)
  pub all_ready : Bool
  pub running : Bool

module _ {D : Type 0} where
  -- the loop over the slots that breaks at the first which has not reported
  unfoldable pub all_received : List (Slot D) → Bool
  all_received [] = true
  all_received (s ∷ ss) = let rest = all_received ss in if s.received then rest else false

  unfoldable pub store : ℕ → Snapshot D → Receiver D → Receiver D
  unfolding all_received
  store i snap st =
      let slots = set st.slots i (record { snap = snap; received = true }) in
      record {
        slots = slots;
        all_ready = if not st.all_ready then all_received slots else true;
        running = st.running;
      }

  unfoldable pub receive_at : Receiver D → ℤ → Snapshot D → Receiver D
  unfolding store
  receive_at st (negsuc n) snap = st
  receive_at st (pos i) snap = if leb (length st.slots) i then st else store i snap st

  -- one message; one that names no slot is dropped
  unfoldable pub receive : Receiver D → IpcMsg D → Receiver D
  unfolding receive_at
  receive st m = receive_at st m.gpu_index m.snapshot

  -- snapshot_recv fails: the socket is closed
  unfoldable pub lose_parent : Receiver D → Receiver D
  lose_parent st = record st { running = false }

  -- the thread, over what snapshot_recv returns call by call
  unfoldable pub ipc_receiver : List (Option (IpcMsg D)) → Receiver D → Receiver D
  unfolding receive lose_parent
  ipc_receiver [] st = st
  ipc_receiver (none ∷ ms) st = if st.running then lose_parent st else st
  ipc_receiver (some m ∷ ms) st =
      let rest = ipc_receiver ms (receive st m) in if st.running then rest else st

module _ {D : Type 0} where
  -- what http_child_run sets up: the slots of calloc
  unfoldable pub fresh_receiver : ℕ → Snapshot D → Receiver D
  fresh_receiver num_gpus zeroed = record {
    slots = replicate num_gpus (record { snap = zeroed; received = false });
    all_ready = false;
    running = true;
  }

  -- The loop of check_liveness: a slot that has not reported is passed over. The age, a difference
  -- of `uint64_t`, wraps.
  unfoldable pub check_liveness : ℕ → ℕ → List (Slot D) → Bool
  check_liveness now_ms stale_ms [] = true
  check_liveness now_ms stale_ms (s ∷ ss) =
      let rest = check_liveness now_ms stale_ms ss in
      if not s.received
      then rest
      else if ltb stale_ms ((now_ms + 2 ^ 64 - s.snap.last_poll_ms) % 2 ^ 64)
      then false
      else rest

-- g_stale_ms of http_child_run
unfoldable pub stale_threshold : ℕ → ℕ
stale_threshold poll_interval_s =
    let ms = poll_interval_s * 3 * 1000 in if ltb ms 5000 then 5000 else ms
