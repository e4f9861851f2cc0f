-- ===== src/Tests/Serving.antt =====
-- Runs of the HTTP child and of the transfers between the processes.
use gpu_health_index.Prelude.{
  ℕ, ◌<◌, ◌≡◌, refl, ◌↔◌, ◌≢◌, true, false, none, some, List, [], ◌∷◌, ◌++◌, All, arith,
}
use gpu_health_index.Double.Fixed.{Fixed, fixed_double}
use gpu_health_index.Types.{IpcMsg}
use gpu_health_index.Config.Table.{bytes}
use gpu_health_index.Snapshot.Update.{blank_snapshot}
use gpu_health_index.Snapshot.Transfer.{Call, moved, ok, snapshot_send, snapshot_recv}
use gpu_health_index.Snapshot.Transfer.Whole.{send-recv, send-ends, no_failure, progress}
use gpu_health_index.Http.Slots.{Slot, all_received, ipc_receiver, fresh_receiver, check_liveness}
use gpu_health_index.Http.Slots.Refine.{
  view, last_for, arrivals, IsFresh, ipc_receiver-refines, check_liveness_iff,
}
use gpu_health_index.Util.Numbers.{digits}
use gpu_health_index.Http.Reply.{
  decimal, header_start, header_end, write_response, write_response-length,
}
use gpu_health_index.Http.Ready.{ready_iff}
use gpu_health_index.Http.Request.{
  Read, Response, arrived, has_byte, handle_request, parse_line, read_request_line,
}
use gpu_health_index.Http.Request.Fragments.{stream, read_request_line-fragments}
use gpu_health_index.Tests.Data.{message_for}

-- two GPUs; the third message names none
abbrev messages : List (IpcMsg Fixed)
messages = message_for 1 ∷ message_for 7 ∷ message_for 0 ∷ []

ipc_receiver-refines_example :
    let end = ipc_receiver (arrivals messages) (fresh_receiver 2 blank_snapshot) in
    (view end.slots 1 ≡ last_for 1 messages none) × (end.all_ready ≡ all_received end.slots)
ipc_receiver-refines_example = ipc_receiver-refines 2 blank_snapshot messages 1 (omega arith)

ready_iff_example :
    let end = ipc_receiver (arrivals messages) (fresh_receiver 2 blank_snapshot) in
    ((handle_request none end.all_ready true (bytes "GET") (bytes "/ready")).status ≡ 200)
    ↔ ((i : ℕ) → i < 2 → last_for i messages none ≢ none)
ready_iff_example = ready_iff 2 blank_snapshot messages none true (omega arith)

-- polled at 4 s
abbrev slot : Slot Fixed
slot = record { snap = record blank_snapshot { last_poll_ms = 4000 }; received = true }

check_liveness_iff_example :
    (check_liveness 8000 5000 (slot ∷ []) ≡ true) ↔ All (IsFresh 8000 5000) (slot ∷ [])
check_liveness_iff_example =
    check_liveness_iff 8000 5000 (slot ∷ []) (omega arith) (omega arith, tt)

abbrev request_line : List ℕ
request_line = bytes "GET /live HTTP/1.1"

abbrev reads : List Read
reads = arrived (bytes "GET /li") ∷ Read.interrupted ∷ arrived (bytes "ve HTTP/1.1\nHost: x\n") ∷ []

request_parsed : parse_line request_line ≡ some (bytes "GET", bytes "/live")
unfolding parse_line
request_parsed = refl

request_split :
    (has_byte 10 request_line ≡ false) × (stream reads ≡ request_line ++ 10 ∷ bytes "Host: x\n")
unfolding has_byte stream
request_split = (refl, refl)

read_request_line-fragments_example : read_request_line 4096 reads ≡ parse_line request_line
read_request_line-fragments_example =
    read_request_line-fragments 4096 request_line (bytes "Host: x\n") reads request_split.0
      (omega arith) request_split.1

abbrev message : List ℕ
message = 1 ∷ 2 ∷ 3 ∷ 4 ∷ 5 ∷ []

abbrev writes : List Call
writes = moved 2 ∷ Call.interrupted ∷ moved 9 ∷ []

abbrev receives : List Call
receives = moved 1 ∷ moved 1 ∷ moved 1 ∷ moved 7 ∷ []

sent : (snapshot_send message writes).1 ≡ ok
unfolding snapshot_send
sent = refl

delivered : (snapshot_recv 5 ((snapshot_send message writes).0 ++ 6 ∷ []) [] receives).2 ≡ ok
unfolding snapshot_recv snapshot_send
delivered = refl

send-recv_example :
    ((snapshot_recv 5 ((snapshot_send message writes).0 ++ 6 ∷ []) [] receives).0 ≡ message)
    × ((snapshot_recv 5 ((snapshot_send message writes).0 ++ 6 ∷ []) [] receives).1 ≡ 6 ∷ [])
send-recv_example = send-recv message (6 ∷ []) writes receives sent delivered

send-ends_example : (snapshot_send (1 ∷ []) (Call.interrupted ∷ moved 1 ∷ [])).1 ≡ ok
unfolding no_failure progress
send-ends_example = send-ends (1 ∷ []) (Call.interrupted ∷ moved 1 ∷ []) refl (omega arith)

abbrev stale_reply : Response
stale_reply = record { status = 503; body = bytes "stale\n"; content_type = bytes "text/plain" }

abbrev reply_bytes : List ℕ
reply_bytes =
    bytes
      "HTTP/1.1 503 Service Unavailable\r\nContent-Type: text/plain\r\nContent-Length: 6\r\nConnection: close\r\n\r\nstale\n"

replied : write_response stale_reply ≡ some reply_bytes
unfolding write_response
replied = refl

write_response-length_example :
    (reply_bytes ≡ header_start stale_reply ++ (decimal 6 ++ (header_end ++ bytes "stale\n")))
    × (digits 0 (decimal 6 ++ (header_end ++ bytes "stale\n")) ≡ (6, header_end ++ bytes "stale\n"))
write_response-length_example = write_response-length stale_reply reply_bytes replied
