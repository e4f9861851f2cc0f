-- ===== src/Http/Connection.antt =====
-- http.c: conn_write_all and the writes of write_response. What conn_write returns, call by call, is
-- an argument: a call that moves no byte is one that returns 0.
pub mod Delivery
use gpu_health_index.Prelude.{
  ℕ, zero, suc, Bool, true, false, Option, none, some, List, [], ◌∷◌, ◌++◌, take, drop, length, leb,
  if◌then◌else◌,
}
use gpu_health_index.Snapshot.Transfer.{
  Call, moved, interrupted, failed, Outcome, ok, error, waiting,
}
use gpu_health_index.Http.Request.{Response}
use gpu_health_index.Http.Reply.{header}

-- What is on the wire, how the loop ends, and the calls that are left for the next one.
unfoldable pub conn_write_all : List ℕ → List Call → List ℕ × Outcome × List Call
conn_write_all [] cs = ([], ok, cs)
conn_write_all (b ∷ bs) [] = ([], waiting, [])
conn_write_all (b ∷ bs) (interrupted ∷ cs) = conn_write_all (b ∷ bs) cs
conn_write_all (b ∷ bs) (failed ∷ cs) = ([], error, cs)
conn_write_all (b ∷ bs) (moved zero ∷ cs) = ([], error, cs)
conn_write_all (b ∷ bs) (moved (suc n) ∷ cs) =
    let (sent, outcome, left) = conn_write_all (drop n bs) cs in
    (b ∷ (take n bs ++ sent), outcome, left)

-- the body, once all of the header is written
unfoldable pub then_body : List ℕ → List ℕ × Outcome × List Call → List ℕ × Outcome
unfolding conn_write_all
then_body body (sent, ok, left) =
    let (more, outcome, _) = conn_write_all body left in (sent ++ more, outcome)
then_body body (sent, error, left) = (sent, error)
then_body body (sent, waiting, left) = (sent, waiting)

-- What write_response has put on the wire, and its result.
unfoldable pub send_response : Response → List Call → List ℕ × Outcome
unfolding then_body header
send_response r cs =
    if leb 256 (length (header r))
    then ([], error)
    else then_body r.body (conn_write_all (header r) cs)
