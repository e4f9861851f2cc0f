-- ===== src/Tests/Child.antt =====
-- Runs of the accept loop of the HTTP child.
use gpu_health_index.Prelude.{ℕ, ◌≡◌, true, none, some, List, [], ◌∷◌, replicate}
use gpu_health_index.Double.Fixed.{Fixed, fixed_double}
use gpu_health_index.Config.Table.{bytes}
use gpu_health_index.Snapshot.Transfer.{Call, moved, error}
use gpu_health_index.Snapshot.Update.{blank_snapshot}
use gpu_health_index.Http.Slots.{fresh_receiver}
use gpu_health_index.Http.Request.{Response, arrived}
use gpu_health_index.Http.Reply.{write_response}
use gpu_health_index.Http.Connection.{send_response}
use gpu_health_index.Http.Connection.Delivery.{IsDelivered, send_response-IsDelivered}
use gpu_health_index.Http.Serve.{Event, ipc, timed_out, client, Client, Child}
use gpu_health_index.Tests.Data.{message_for}

abbrev not_found : Response
not_found = record { status = 404; body = bytes "Not Found\n"; content_type = bytes "text/plain" }

-- the connection breaks within the header
abbrev broken : List Call
broken = moved 12 ∷ Call.interrupted ∷ moved 3 ∷ Call.failed ∷ []

send_response-IsDelivered_example :
    ((out : List ℕ)
      → write_response not_found ≡ some out
      → IsDelivered (send_response not_found broken).0 (send_response not_found broken).1 out)
    × (write_response not_found ≡ none → send_response not_found broken ≡ ([], error))
send_response-IsDelivered_example = send_response-IsDelivered not_found broken

-- a client that connects and then does nothing, and one that asks for /ready
abbrev dead_client : Client
dead_client = record {
  tls = none;
  reads = [];
  writes = [];
  buffer_ok = true;
  copy_ok = true;
  now_ms = 0;
}

-- 200 writes of a byte each
abbrev takes_all : List Call
takes_all = replicate 200 (moved 1)

abbrev ready_client : Client
ready_client = record {
  tls = none;
  reads = arrived (bytes "GET /ready HTTP/1.1\r\n") ∷ [];
  writes = takes_all;
  buffer_ok = true;
  copy_ok = true;
  now_ms = 0;
}

abbrev child : Child Fixed
child = record { receiver = fresh_receiver 2 blank_snapshot; serving = true }

abbrev schedule : List (Event Fixed)
schedule = client dead_client ∷ ipc (some (message_for 1)) ∷ timed_out ∷ []

abbrev not_ready_bytes : List ℕ
not_ready_bytes =
    bytes
      "HTTP/1.1 503 Service Unavailable\r\nContent-Type: text/plain\r\nContent-Length: 10\r\nConnection: close\r\n\r\nnot ready\n"
