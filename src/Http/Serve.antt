-- ===== src/Http/Serve.antt =====
-- http.c: http_accept_loop beside ipc_receiver_thread, as a schedule of events. A client is served
-- in one step, from the slots as they are when it is answered.
pub mod Hangs
pub mod Isolation
pub mod Answer
use gpu_health_index.Prelude.{
  ℕ, ◌-◌, Bool, true, false, not, ◌&&◌, ◌||◌, ◌==◌, length, take, Option, none, some, List, [], ◌∷◌,
  ◌++◌, if◌then◌else◌,
}
use gpu_health_index.Double.{Double}
use gpu_health_index.Types.{IpcMsg}
use gpu_health_index.Snapshot.Transfer.{Call, failed, Outcome, ok, error, waiting}
use gpu_health_index.Http.Slots.{Receiver, ipc_receiver, check_liveness}
use gpu_health_index.Http.Request.{
  Read, arrived, interrupted, closed, has_byte, Response, read_request_line, handle_request,
}
use gpu_health_index.Http.Connection.{send_response}
use gpu_health_index.Http.Listen.{Handshake, finished, want, refused, tls_wrap_client}
use gpu_health_index.Http.Metrics.Family.{Printf}
use gpu_health_index.Http.Metrics.Render.{copy_slots, render_metrics, metrics_buf_size}

-- An accepted connection: what tls_wrap_client meets, what its reads and writes return as long as the
-- client does something, whether the two calls of malloc succeed, and the clock.
pub record Client : Type 0 where
  -- without TLS `none`; else whether the session is set up, and the handshake
  pub tls : Option (Bool × List Handshake)
  pub reads : List Read
  pub writes : List Call
  pub buffer_ok : Bool
  pub copy_ok : Bool
  pub now_ms : ℕ

-- the options of the socket of a connection, and what setsockopt makes of them
pub data SocketOption : Type 0 where
  so_sndtimeo : SocketOption
  so_rcvtimeo : SocketOption

pub record Timeouts : Type 0 where
  pub send : Bool
  pub receive : Bool

unfoldable pub setsockopt : SocketOption → Timeouts → Timeouts
setsockopt so_sndtimeo t = record t { send = true }
setsockopt so_rcvtimeo t = record t { receive = true }

-- the two calls after accept, each with SEND_TIMEOUT_S; the socket has no timeout before them
unfoldable pub set_timeouts : Timeouts
unfolding setsockopt
set_timeouts =
    setsockopt so_rcvtimeo (setsockopt so_sndtimeo (record { send = false; receive = false }))

-- The calls of a connection. The client does nothing more where a list ends: with its timeout set, the
-- next call returns -1 with EAGAIN, which is an error to all callers; without it, the call waits.
unfoldable pub timed_reads : Timeouts → List Read → List Read
timed_reads t rs = if t.receive then rs ++ closed ∷ [] else rs

unfoldable pub timed_writes : Timeouts → List Call → List Call
timed_writes t cs = if t.send then cs ++ failed ∷ [] else cs

-- A handshake reads and writes. mbedTLS takes EAGAIN on a blocking socket for an error of the
-- connection, and not for a call to repeat.
unfoldable pub timed_handshake : Timeouts → List Handshake → List Handshake
timed_handshake t hs = if t.send && t.receive then hs ++ refused ∷ [] else hs

-- the connection is usable
unfoldable pub wrapped : Option (Bool × List Handshake) → Bool
unfolding tls_wrap_client
wrapped none = true
wrapped (some (setup_ok, hs)) = tls_wrap_client setup_ok hs

unfoldable pub timed_tls :
    Timeouts → Option (Bool × List Handshake) → Option (Bool × List Handshake)
unfolding timed_handshake
timed_tls t none = none
timed_tls t (some (setup_ok, hs)) = some (setup_ok, timed_handshake t hs)

-- the handshake makes a call after the last one of the list
unfoldable pub shake_waits : List Handshake → Bool
shake_waits [] = true
shake_waits (finished ∷ hs) = false
shake_waits (want ∷ hs) = shake_waits hs
shake_waits (refused ∷ hs) = false

unfoldable pub wrap_waits : Option (Bool × List Handshake) → Bool
unfolding shake_waits
wrap_waits none = false
wrap_waits (some (setup_ok, hs)) = setup_ok && shake_waits hs

-- the loop of read_request_line makes a call after the last one of the list
unfoldable pub read_waits : ℕ → List ℕ → List Read → Bool
unfolding has_byte
read_waits room buf [] = not (room == 0)
read_waits room buf (interrupted ∷ rs) =
    let rest = read_waits room buf rs in if room == 0 then false else rest
read_waits room buf (closed ∷ rs) = false
read_waits room buf (arrived [] ∷ rs) = false
read_waits room buf (arrived (b ∷ bs) ∷ rs) =
    let got = take room (b ∷ bs) in
    let rest = read_waits (room - length got) (buf ++ got) rs in
    if room == 0 then false else if has_byte 10 (buf ++ got) then false else rest

-- the write has not ended
unfoldable pub write_waits : Outcome → Bool
write_waits ok = false
write_waits error = false
write_waits waiting = true

pub data Event (D : Type 0) : Type 0 where
  ipc : Option (IpcMsg D) → Event D
  sigterm : Event D
  timed_out : Event D
  select_interrupted : Event D
  select_failed : Event D
  accept_failed : Event D
  client : Client → Event D

-- The state of the child; `serving` is cleared where the loop breaks, or never gets on.
pub record Child (D : Type 0) : Type 0 where
  pub receiver : Receiver D
  pub serving : Bool

-- what a client has been sent, and how the write ended
abbrev pub Sent : Type 0
Sent = List ℕ × Outcome

module _ {D : Type 0} where
  -- whether the loop goes on
  abbrev pub goes_on : Child D → Bool
  goes_on c = c.receiver.running && c.serving

module _ {D : Type 0} ⦃d : Double D⦄ (p : Printf D) (stale_ms : ℕ) where
  -- handle_request, from the state of the child
  unfoldable pub answer : Receiver D → Client → List ℕ → List ℕ → Response
  unfolding handle_request render_metrics copy_slots check_liveness
  answer st k method path =
      handle_request
        (if k.buffer_ok
          then some (render_metrics p metrics_buf_size (copy_slots k.copy_ok st))
          else none)
        st.all_ready (check_liveness k.now_ms stale_ms st.slots) method path

  unfoldable pub serve_request : Receiver D → Client → Option (List ℕ × List ℕ) → List Call → Sent
  unfolding answer send_response
  serve_request st k none writes = ([], error)
  serve_request st k (some (method, path)) writes = send_response (answer st k method path) writes

  -- One round of the loop with a connection; REQ_BUF_SIZE is 4096.
  unfoldable pub serve_client : Receiver D → Client → Sent
  unfolding serve_request read_request_line wrapped timed_tls timed_reads timed_writes set_timeouts
  serve_client st k =
      let t = set_timeouts in
      if wrapped (timed_tls t k.tls)
      then serve_request st k (read_request_line 4096 (timed_reads t k.reads))
          (timed_writes t k.writes)
      else ([], error)

  -- One of the calls for the connection never returns.
  unfoldable pub hangs : Receiver D → Client → Bool
  unfolding serve_client wrap_waits read_waits write_waits
  hangs st k =
      let t = set_timeouts in
      wrap_waits (timed_tls t k.tls)
      || (wrapped (timed_tls t k.tls) && read_waits 4095 [] (timed_reads t k.reads))
      || write_waits (serve_client st k).1

  unfoldable pub child_step : Child D → Event D → Child D × List Sent
  unfolding serve_client ipc_receiver hangs
  child_step c (ipc m) = (record c { receiver = ipc_receiver (m ∷ []) c.receiver }, [])
  child_step c sigterm = (record c { receiver = record c.receiver { running = false } }, [])
  child_step c timed_out = (c, [])
  child_step c select_interrupted = (c, [])
  child_step c select_failed = (record c { serving = false }, [])
  child_step c accept_failed = (c, [])
  child_step c (client k) =
      (record c { serving = c.serving && not (hangs c.receiver k) }, serve_client c.receiver k ∷ [])

  -- the schedule, and what the clients are sent, in their order
  unfoldable pub http_accept_loop : List (Event D) → Child D → Child D × List Sent
  unfolding child_step
  http_accept_loop [] c = (c, [])
  http_accept_loop (e ∷ es) c =
      let here = child_step c e in
      let rest = http_accept_loop es here.0 in
      if goes_on c then (rest.0, here.1 ++ rest.1) else (c, [])
