-- ===== src/Http/Child.antt =====
-- http.c: http_child_run up to the accept loop. What read returns, call by call, is an argument, with
-- whether the allocations, the thread and the listening socket are to be had.
pub mod Init
use gpu_health_index.Prelude.{
  ℕ, zero, suc, ◌+◌, ◌-◌, ◌*◌, ◌/◌, ◌%◌, ◌^◌, Bool, true, false, not, ◌&&◌, ◌||◌, Option, none,
  some, List, [], ◌∷◌, ◌++◌, take, drop, length, ltb, leb, ◌==◌, if◌then◌else◌,
}
use gpu_health_index.Prelude.Int.{ℤ, pos, negsuc, to_int}
use gpu_health_index.Types.{Snapshot}
use gpu_health_index.Snapshot.Transfer.{
  Call, moved, interrupted, failed, Outcome, ok, error, waiting,
}
use gpu_health_index.Http.Slots.{fresh_receiver, stale_threshold}
use gpu_health_index.Http.Serve.{Child}
use gpu_health_index.Http.Listen.{ListenAnswers, bind_listen, is_some}

-- gpu_ipc_init_t, an int32_t in the byte order of x86_64
unfoldable pub init_bytes : ℕ → List ℕ
init_bytes n = n % 256 ∷ (n / 2 ^ 8) % 256 ∷ (n / 2 ^ 16) % 256 ∷ (n / 2 ^ 24) % 256 ∷ []

unfoldable pub init_value : List ℕ → ℕ
init_value [] = 0
init_value (b ∷ bs) = b + 256 * init_value bs

-- The loop that reads the message: a read of no bytes, EINTR and any other error end the child.
unfoldable pub read_init : ℕ → List ℕ → List ℕ → List Call → List ℕ × List ℕ × Outcome
read_init zero wire buf cs = (buf, wire, ok)
read_init (suc r) wire buf [] = (buf, wire, waiting)
read_init (suc r) wire buf (interrupted ∷ cs) = (buf, wire, error)
read_init (suc r) wire buf (failed ∷ cs) = (buf, wire, error)
read_init (suc r) wire buf (moved n ∷ cs) =
    let got = take n (take (suc r) wire) in
    let rest = read_init (suc r - length got) (drop (length got) wire) (buf ++ got) cs in
    if length got == 0 then (buf, wire, error) else rest

pub record ChildAnswers : Type 0 where
  pub reads : List Call
  pub slots_allocated : Bool
  pub thread_starts : Bool
  pub listen : ListenAnswers

-- exit(1); a read that waits; or the accept loop, with the threshold of /live and what is left to
-- read
pub data ChildStart (D : Type 0) : Type 0 where
  exits : ChildStart D
  waits : ChildStart D
  serves : Child D → ℕ → List ℕ → ChildStart D

module _ {D : Type 0} (zeroed : Snapshot D) where
  -- with num_gpus known
  unfoldable pub with_gpus : ChildAnswers → ℕ → ℤ → List ℕ → ChildStart D
  unfolding fresh_receiver stale_threshold bind_listen
  with_gpus a poll_interval_s (negsuc n) wire = exits
  with_gpus a poll_interval_s (pos n) wire =
      if n == 0 || ltb 256 n
      then exits
      else if not a.slots_allocated
      then exits
      else if not a.thread_starts
      then exits
      else if not (is_some (bind_listen a.listen).0)
      then exits
      else serves (record { receiver = fresh_receiver n zeroed; serving = true })
          (stale_threshold poll_interval_s) wire

  abbrev pub after_init : ChildAnswers → ℕ → List ℕ × List ℕ × Outcome → ChildStart D
  after_init a poll_interval_s (buf, wire, ok) =
      with_gpus a poll_interval_s (to_int (init_value buf)) wire
  after_init a poll_interval_s (buf, wire, error) = exits
  after_init a poll_interval_s (buf, wire, waiting) = waits

  unfoldable pub http_child_run : ChildAnswers → ℕ → List ℕ → ChildStart D
  unfolding read_init with_gpus init_value
  http_child_run a poll_interval_s wire = after_init a poll_interval_s (read_init 4 wire [] a.reads)
