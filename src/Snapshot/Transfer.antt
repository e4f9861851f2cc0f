-- ===== src/Snapshot/Transfer.antt =====
-- snapshot.c: snapshot_send and snapshot_recv. What write and read return, call by call, is an
-- argument, and a message is its bytes.
pub mod Whole
use gpu_health_index.Prelude.{
  ℕ, zero, suc, ◌-◌, List, [], ◌∷◌, ◌++◌, take, drop, length, ◌==◌, if◌then◌else◌,
}

-- A call: so many bytes are moved, or fewer where fewer are left; EINTR; or another error.
pub data Call : Type 0 where
  moved : ℕ → Call
  interrupted : Call
  failed : Call

-- 0, -1, or a loop that waits for a call that is not in the list
pub data Outcome : Type 0 where
  ok : Outcome
  error : Outcome
  waiting : Outcome

-- What is written of the bytes that are left, and how it ends.
unfoldable pub snapshot_send : List ℕ → List Call → List ℕ × Outcome
snapshot_send [] cs = ([], ok)
snapshot_send (b ∷ bs) [] = ([], waiting)
snapshot_send (b ∷ bs) (interrupted ∷ cs) = snapshot_send (b ∷ bs) cs
snapshot_send (b ∷ bs) (failed ∷ cs) = ([], error)
snapshot_send (b ∷ bs) (moved n ∷ cs) =
    let (sent, outcome) = snapshot_send (drop n (b ∷ bs)) cs in (take n (b ∷ bs) ++ sent, outcome)

-- The buffer, what is left on the wire, and how it ends. A read of no bytes is the end of the stream.
unfoldable pub snapshot_recv : ℕ → List ℕ → List ℕ → List Call → List ℕ × List ℕ × Outcome
snapshot_recv zero wire buf cs = (buf, wire, ok)
snapshot_recv (suc r) wire buf [] = (buf, wire, waiting)
snapshot_recv (suc r) wire buf (interrupted ∷ cs) = snapshot_recv (suc r) wire buf cs
snapshot_recv (suc r) wire buf (failed ∷ cs) = (buf, wire, error)
snapshot_recv (suc r) wire buf (moved n ∷ cs) =
    let got = take n (take (suc r) wire) in
    let rest = snapshot_recv (suc r - length got) (drop (length got) wire) (buf ++ got) cs in
    if length got == 0 then (buf, wire, error) else rest
