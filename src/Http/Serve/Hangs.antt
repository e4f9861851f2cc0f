-- ===== src/Http/Serve/Hangs.antt =====
-- The timeouts of a connection: no client makes the accept loop wait for ever, and a client that does
-- its part is served as without them.
use gpu_health_index.Prelude.{
  ℕ, zero, suc, ◌-◌, ◌≡◌, ◌⊎◌, inl, inr, refl, ap, ◌∙◌, Bool, true, false, not, ◌&&◌, ◌||◌, Option,
  none, some, List, [], ◌∷◌, ◌++◌, take, drop, length, leb, if◌then◌else◌, arith, Bool-cases,
}
use gpu_health_index.Double.{Double}
use gpu_health_index.Snapshot.Transfer.{
  Call, moved, interrupted, failed, Outcome, ok, error, waiting,
}
use gpu_health_index.Http.Slots.{Receiver}
use gpu_health_index.Http.Request.{
  Read, arrived, closed, Response, read_until, with_buffer, read_request_line,
}
use gpu_health_index.Http.Reply.{header}
use gpu_health_index.Http.Connection.{conn_write_all, then_body, send_response}
use gpu_health_index.Http.Listen.{Handshake, finished, want, refused, shake, tls_wrap_client}
use gpu_health_index.Http.Metrics.Family.{Printf}
use gpu_health_index.Http.Serve.{
  Client, wrapped, timed_reads, timed_writes, timed_tls, timed_handshake, set_timeouts, shake_waits,
  wrap_waits, read_waits, write_waits, serve_client, serve_request, answer, hangs, Child,
  child_step, client,
}

and_true : (b : Bool) → (b && true) ≡ b
and_true true = refl
and_true false = refl

nothing_waits : (b : Bool) → ((b && false) || false) ≡ false
nothing_waits true = refl
nothing_waits false = refl

shake_ends : (hs : List Handshake) → shake_waits (hs ++ refused ∷ []) ≡ false
unfolding shake_waits
shake_ends [] = refl
shake_ends (finished ∷ hs) = refl
shake_ends (want ∷ hs) = shake_ends hs
shake_ends (refused ∷ hs) = refl

wrap_ends : (tls : Option (Bool × List Handshake)) → wrap_waits (timed_tls set_timeouts tls) ≡ false
unfolding wrap_waits timed_tls timed_handshake set_timeouts
wrap_ends none = refl
wrap_ends (some (true, hs)) = shake_ends hs
wrap_ends (some (false, hs)) = refl

read_ends :
    (room : ℕ) (buf : List ℕ) (rs : List Read) → read_waits room buf (rs ++ closed ∷ []) ≡ false
unfolding read_waits
read_ends room buf [] = refl
read_ends room buf (Read.interrupted ∷ rs) = ground (arith, read_ends room buf rs)
read_ends room buf (closed ∷ rs) = refl
read_ends room buf (arrived [] ∷ rs) = refl
read_ends room buf (arrived (b ∷ bs) ∷ rs) =
    let got = take room (b ∷ bs) in ground (arith, read_ends (room - length got) (buf ++ got) rs)

-- where it does not end by itself, the error is still to come
Stops : List ℕ × Outcome × List Call → Type 0
Stops r = (r.1 ≡ error) ⊎ ((r.1 ≡ ok) × ((cs : List Call) × (r.2 ≡ cs ++ failed ∷ [])))

conn_write_all-Stops :
    (bs : List ℕ) (cs : List Call) → Stops (conn_write_all bs (cs ++ failed ∷ []))
unfolding conn_write_all Stops
conn_write_all-Stops [] cs = inr (refl, (cs, refl))
conn_write_all-Stops (b ∷ bs) [] = inl refl
conn_write_all-Stops (b ∷ bs) (interrupted ∷ cs) = conn_write_all-Stops (b ∷ bs) cs
conn_write_all-Stops (b ∷ bs) (failed ∷ cs) = inl refl
conn_write_all-Stops (b ∷ bs) (moved zero ∷ cs) = inl refl
conn_write_all-Stops (b ∷ bs) (moved (suc n) ∷ cs) = conn_write_all-Stops (drop n bs) cs

then_body-Stops :
    (body sent : List ℕ) (outcome : Outcome) (left : List Call)
    → Stops (sent, outcome, left)
    → write_waits (then_body body (sent, outcome, left)).1 ≡ false
unfolding then_body Stops write_waits
then_body-Stops body sent ok left (inl e) = absurd (cc)
then_body-Stops body sent ok left (inr (e, (cs, q))) =
    rw q (elim (conn_write_all-Stops body cs) [ inl e ↦ rw e refl | inr (e, rest) ↦ rw e refl ])
then_body-Stops body sent error left s = refl
then_body-Stops body sent waiting left (inl e) = absurd (cc)
then_body-Stops body sent waiting left (inr (e, rest)) = absurd (cc)

send_ends :
    (r : Response) (cs : List Call) → write_waits (send_response r (cs ++ failed ∷ [])).1 ≡ false
unfolding send_response write_waits
send_ends r cs = elim (Bool-cases (leb 256 (length (header r)))) [
  | inl q ↦ rw q refl
  | inr q ↦ rw q (then_body-Stops r.body _ _ _ (conn_write_all-Stops (header r) cs))
]

module _ {D : Type 0} ⦃d : Double D⦄ (p : Printf D) (stale_ms : ℕ) where
  request_ends :
      (st : Receiver D) (k : Client) (request : Option (List ℕ × List ℕ))
      → write_waits (serve_request p stale_ms st k request (timed_writes set_timeouts k.writes)).1
        ≡ false
  unfolding serve_request write_waits timed_writes set_timeouts
  request_ends st k none = refl
  request_ends st k (some (method, path)) = send_ends (answer p stale_ms st k method path) k.writes

  serve_ends : (st : Receiver D) (k : Client) → write_waits (serve_client p stale_ms st k).1 ≡ false
  unfolding serve_client
  serve_ends st k = elim (Bool-cases (wrapped (timed_tls set_timeouts k.tls))) [
    | inl q ↦ rw q (request_ends st k (read_request_line 4096 (timed_reads set_timeouts k.reads)))
    | inr q ↦ rw q (unfold write_waits in refl)
  ]

  -- With the timeouts that the loop sets, every call for a connection returns.
  never_hangs : (st : Receiver D) (k : Client) → hangs p stale_ms st k ≡ false
  unfolding hangs timed_reads set_timeouts
  never_hangs st k =
      rw (wrap_ends k.tls, read_ends 4095 [] k.reads, serve_ends st k)
        (nothing_waits (wrapped (timed_tls set_timeouts k.tls)))

  -- A client leaves the child as it was.
  pub client_step :
      (c : Child D) (k : Client)
      → child_step p stale_ms c (client k) ≡ (c, serve_client p stale_ms c.receiver k ∷ [])
  unfolding child_step
  client_step c k =
      ap
        (λ waits. (
          record c { serving = c.serving && not waits },
          serve_client p stale_ms c.receiver k ∷ [],
        ))
        (never_hangs c.receiver k)
      ∙ ap (λ serving. (record c { serving = serving }, serve_client p stale_ms c.receiver k ∷ []))
          (and_true c.serving)

shake_served : (hs : List Handshake) → shake hs ≡ true → shake (hs ++ refused ∷ []) ≡ true
unfolding shake
shake_served [] h = absurd (cc)
shake_served (finished ∷ hs) h = refl
shake_served (want ∷ hs) h = shake_served hs h
shake_served (refused ∷ hs) h = absurd (cc)

pub wrapped_served :
    (tls : Option (Bool × List Handshake))
    → wrapped tls ≡ true
    → wrapped (timed_tls set_timeouts tls) ≡ true
unfolding wrapped timed_tls timed_handshake set_timeouts tls_wrap_client
wrapped_served none h = refl
wrapped_served (some (true, hs)) h = shake_served hs h
wrapped_served (some (false, hs)) h = absurd (cc)

read_until_served :
    (room : ℕ) (buf : List ℕ) (rs : List Read) (out : List ℕ)
    → read_until room buf rs ≡ some out
    → read_until room buf (rs ++ closed ∷ []) ≡ some out
unfolding read_until
read_until_served room buf [] out h = ground (arith, h)
read_until_served room buf (Read.interrupted ∷ rs) out h =
    ground (arith, h, read_until_served room buf rs out)
read_until_served room buf (closed ∷ rs) out h = h
read_until_served room buf (arrived [] ∷ rs) out h = h
read_until_served room buf (arrived (b ∷ bs) ∷ rs) out h =
    let got = take room (b ∷ bs) in
    ground (arith, h, read_until_served (room - length got) (buf ++ got) rs out)

with_buffer_served :
    (o o' : Option (List ℕ)) (request : List ℕ × List ℕ)
    → ((out : List ℕ) → o ≡ some out → o' ≡ some out)
    → with_buffer o ≡ some request
    → with_buffer o' ≡ some request
with_buffer_served none o' request h e = unfold with_buffer in ground arith
with_buffer_served (some out) o' request h e = ap with_buffer (h out refl) ∙ e

pub request_served :
    (rs : List Read) (request : List ℕ × List ℕ)
    → read_request_line 4096 rs ≡ some request
    → read_request_line 4096 (timed_reads set_timeouts rs) ≡ some request
unfolding read_request_line timed_reads set_timeouts
request_served rs request h =
    with_buffer_served (read_until 4095 [] rs) _ request (λ out. read_until_served 4095 [] rs out) h

write_all_served :
    (bs : List ℕ) (cs more : List Call)
    → (conn_write_all bs cs).1 ≡ ok
    → conn_write_all bs (cs ++ more)
      ≡ ((conn_write_all bs cs).0, ok, (conn_write_all bs cs).2 ++ more)
unfolding conn_write_all
write_all_served [] cs more h = refl
write_all_served (b ∷ bs) [] more h = absurd (cc)
write_all_served (b ∷ bs) (interrupted ∷ cs) more h = write_all_served (b ∷ bs) cs more h
write_all_served (b ∷ bs) (failed ∷ cs) more h = absurd (cc)
write_all_served (b ∷ bs) (moved zero ∷ cs) more h = absurd (cc)
write_all_served (b ∷ bs) (moved (suc n) ∷ cs) more h =
    ap (λ (r : List ℕ × Outcome × List Call). (b ∷ (take n bs ++ r.0), r.1, r.2))
      (write_all_served (drop n bs) cs more h)

body_served :
    (body : List ℕ) (r : List ℕ × Outcome × List Call) (more : List Call) (out : List ℕ)
    → then_body body r ≡ (out, ok)
    → (r.1 ≡ ok) × (then_body body (r.0, ok, r.2 ++ more) ≡ (out, ok))
unfolding then_body
body_served body (sent, ok, left) more out h =
    (refl, rw (write_all_served body left more (ap (λ r. r.1) h)) (ground arith))
body_served body (sent, error, left) more out h = absurd (ground arith)
body_served body (sent, waiting, left) more out h = absurd (ground arith)

by_size :
    (b : Bool) (x y : List ℕ × Outcome) (out : List ℕ)
    → (if b then ([], error) else x) ≡ (out, ok)
    → (x ≡ (out, ok) → y ≡ (out, ok))
    → (if b then ([], error) else y) ≡ (out, ok)
by_size true x y out h f = absurd (ground arith)
by_size false x y out h f = f h

-- What is sent whole without a timeout is sent whole with it.
pub send_served :
    (r : Response) (cs : List Call) (out : List ℕ)
    → send_response r cs ≡ (out, ok)
    → send_response r (timed_writes set_timeouts cs) ≡ (out, ok)
unfolding send_response timed_writes set_timeouts
send_served r cs out h =
    by_size (leb 256 (length (header r))) (then_body r.body (conn_write_all (header r) cs)) _ out h
      (λ h.
        let (head, body) = body_served r.body (conn_write_all (header r) cs) (failed ∷ []) out h in
        ap (then_body r.body) (write_all_served (header r) cs (failed ∷ []) head) ∙ body)
