-- ===== src/Http/Serve/Answer.antt =====
-- A client that sends a request and takes the bytes is answered, whatever came before it.
use gpu_health_index.Prelude.{
  ℕ, zero, suc, ◌+◌, ◌≤◌, ◌≡◌, refl, ap, sym, ◌∙◌, Bool, true, false, none, some, List, [], ◌∷◌,
  ◌++◌, append-nil, length, drop, leb, if◌then◌else◌, arith, Bool-cases, inl, inr, length-append,
  length-drop,
}
use gpu_health_index.Double.{Double}
use gpu_health_index.Snapshot.Transfer.{
  Call, moved, interrupted, failed, Outcome, ok, error, waiting,
}
use gpu_health_index.Snapshot.Transfer.Whole.{progress}
use gpu_health_index.Http.Request.{Response}
use gpu_health_index.Http.Reply.{header, write_response}
use gpu_health_index.Http.Connection.{conn_write_all, then_body, send_response}
use gpu_health_index.Http.Connection.Delivery.{send_response-IsDelivered}
use gpu_health_index.Http.Serve.{
  Event, ipc, sigterm, timed_out, select_interrupted, select_failed, accept_failed, client,
}

-- no call fails, and none moves nothing
unfoldable pub is_steady : List Call → Bool
is_steady [] = true
is_steady (interrupted ∷ cs) = is_steady cs
is_steady (failed ∷ cs) = false
is_steady (moved zero ∷ cs) = false
is_steady (moved (suc n) ∷ cs) = is_steady cs

conn_write_all-ends :
    (bs : List ℕ) (cs : List Call)
    → is_steady cs ≡ true
    → length bs ≤ progress cs
    → ((conn_write_all bs cs).1 ≡ ok)
      × (is_steady (conn_write_all bs cs).2 ≡ true)
      × (progress cs ≤ progress (conn_write_all bs cs).2 + length bs)
unfolding conn_write_all is_steady progress
conn_write_all-ends [] cs s h = (refl, s, omega arith)
conn_write_all-ends (b ∷ bs) [] s h = absurd (omega arith)
conn_write_all-ends (b ∷ bs) (interrupted ∷ cs) s h = conn_write_all-ends (b ∷ bs) cs s h
conn_write_all-ends (b ∷ bs) (failed ∷ cs) s h = absurd (cc)
conn_write_all-ends (b ∷ bs) (moved zero ∷ cs) s h = absurd (cc)
conn_write_all-ends (b ∷ bs) (moved (suc n) ∷ cs) s h =
    let (done, steady, left) =
      conn_write_all-ends (drop n bs) cs s (omega (arith, length-drop n bs)) in
    (done, steady, omega (arith, left, length-drop n bs))

then_body-ends :
    (body sent : List ℕ) (outcome : Outcome) (left : List Call)
    → outcome ≡ ok
    → is_steady left ≡ true
    → length body ≤ progress left
    → (then_body body (sent, outcome, left)).1 ≡ ok
unfolding then_body
then_body-ends body sent ok left e s h = (conn_write_all-ends body left s h).0
then_body-ends body sent error left e s h = ground arith
then_body-ends body sent waiting left e s h = ground arith

refused :
    {b : Bool} (bs : List ℕ) {out : List ℕ}
    → b ≡ true
    → (if b then none else some bs) ≡ some out
    → ⊥
refused bs q w = ground arith

written_length :
    (head body out : List ℕ)
    → leb 256 (length head) ≡ false
    → (if leb 256 (length head) then none else some (head ++ body)) ≡ some out
    → length head + length body ≡ length out
written_length head body out q w =
    sym (length-append head body) ∙ ap length (same (leb 256 (length head)) q w)
  where
    same :
        (b : Bool)
        → b ≡ false
        → (if b then none else some (head ++ body)) ≡ some out
        → head ++ body ≡ out
    same true q w = absurd (cc)
    same false q w = cc

outcome_ok :
    (r : Response) (cs : List Call) (out : List ℕ)
    → write_response r ≡ some out
    → is_steady cs ≡ true
    → length out ≤ progress cs
    → (send_response r cs).1 ≡ ok
unfolding send_response write_response
outcome_ok r cs out w s h = elim (Bool-cases (leb 256 (length (header r)))) [
  | inl q ↦ absurd (refused (header r ++ r.body) q w)
  | inr q ↦ rw q (
      then_body-ends r.body (conn_write_all (header r) cs).0 (conn_write_all (header r) cs).1
        (conn_write_all (header r) cs).2 (head q).0 (head q).1
        (omega (arith, (head q).2, written_length (header r) r.body out q w)))
]
  where
    head :
        leb 256 (length (header r)) ≡ false
        → ((conn_write_all (header r) cs).1 ≡ ok)
          × (is_steady (conn_write_all (header r) cs).2 ≡ true)
          × (progress cs ≤ progress (conn_write_all (header r) cs).2 + length (header r))
    head q =
        conn_write_all-ends (header r) cs s
          (omega (arith, written_length (header r) r.body out q w))

pub send_response-ends :
    (r : Response) (cs : List Call) (out : List ℕ)
    → write_response r ≡ some out
    → is_steady cs ≡ true
    → length out ≤ progress cs
    → send_response r cs ≡ (out, ok)
send_response-ends r cs out w s h =
    let ends = outcome_ok r cs out w s h in
    let (rest, whole, all) = (send_response-IsDelivered r cs).0 out w in
    λ i. (
      (sym (append-nil (send_response r cs).0)
            ∙ ap (λ l. (send_response r cs).0 ++ l) (sym (all ends))
            ∙ whole)
          i,
      ends i,
    )

module _ {D : Type 0} where
  -- an event after which the loop goes on
  unfoldable pub is_harmless : Event D → Bool
  is_harmless (ipc none) = false
  is_harmless (ipc (some m)) = true
  is_harmless sigterm = false
  is_harmless timed_out = true
  is_harmless select_interrupted = true
  is_harmless select_failed = false
  is_harmless accept_failed = true
  is_harmless (client k) = true
