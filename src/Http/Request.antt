-- ===== src/Http/Request.antt =====
-- http.c: read_request_line and handle_request. What conn_read returns, call by call, is an argument.
pub mod Fragments
use gpu_health_index.Prelude.{
  ℕ, ◌+◌, ◌-◌, ◌≡◌, Bool, true, false, not, ◌&&◌, ◌||◌, Option, none, some, List, [], ◌∷◌, ◌++◌,
  take, length, ◌==◌, if◌then◌else◌,
}
use gpu_health_index.Util.{same_string}
use gpu_health_index.Config.Table.{bytes}

-- A call of conn_read: bytes (as many of them as fit are read, and none is the end of the connection),
-- EINTR, or another error.
pub data Read : Type 0 where
  arrived : List ℕ → Read
  interrupted : Read
  closed : Read

unfoldable pub has_byte : ℕ → List ℕ → Bool
has_byte b [] = false
has_byte b (c ∷ cs) = let rest = has_byte b cs in if c == b then true else rest

-- The loop: what is in the buffer when it ends, with room for `room` more bytes. `none` where it
-- returns -1, or waits for a call that is not in the list.
unfoldable pub read_until : ℕ → List ℕ → List Read → Option (List ℕ)
unfolding has_byte
read_until room buf [] = if room == 0 then some buf else none
read_until room buf (interrupted ∷ rs) =
    let rest = read_until room buf rs in if room == 0 then some buf else rest
read_until room buf (closed ∷ rs) = if room == 0 then some buf else none
read_until room buf (arrived [] ∷ rs) = if room == 0 then some buf else none
read_until room buf (arrived (b ∷ bs) ∷ rs) =
    let got = take room (b ∷ bs) in
    let rest = read_until (room - length got) (buf ++ got) rs in
    if room == 0 then some buf else if has_byte 10 (buf ++ got) then some (buf ++ got) else rest

-- the bytes before the first `b`, and those after it; `none` where there is none
unfoldable pub split_at : ℕ → List ℕ → Option (List ℕ × List ℕ)
split_at b [] = none
split_at b (c ∷ cs) =
    let rest = split_at b cs in if c == b then some ([], cs) else after_byte c rest
  where
    after_byte : ℕ → Option (List ℕ × List ℕ) → Option (List ℕ × List ℕ)
    after_byte c none = none
    after_byte c (some (before, after)) = some (c ∷ before, after)

-- what stands before the first `b`, or all
unfoldable pub before_byte : ℕ → List ℕ → List ℕ
before_byte b [] = []
before_byte b (c ∷ cs) = let rest = before_byte b cs in if c == b then [] else c ∷ rest

-- a '\r' at the end goes
unfoldable pub drop_cr : List ℕ → List ℕ
drop_cr [] = []
drop_cr (c ∷ []) = if c == 13 then [] else c ∷ []
drop_cr (c ∷ d ∷ cs) = c ∷ drop_cr (d ∷ cs)

with_space : Option (List ℕ × List ℕ) → Option (List ℕ × List ℕ)
unfolding before_byte
with_space none = none
with_space (some (method, rest)) = some (method, before_byte 32 rest)

-- The method and the path of a line without its newline. The strings end at a NUL.
unfoldable pub parse_line : List ℕ → Option (List ℕ × List ℕ)
unfolding split_at before_byte drop_cr with_space
parse_line line = with_space (split_at 32 (before_byte 0 (drop_cr line)))

-- the line of a buffer; `none` where it has no newline
unfoldable pub parse_request : List ℕ → Option (List ℕ × List ℕ)
unfolding split_at parse_line
parse_request buf = with_line (split_at 10 buf)
  where
    with_line : Option (List ℕ × List ℕ) → Option (List ℕ × List ℕ)
    with_line none = none
    with_line (some (line, after)) = parse_line line

unfoldable pub with_buffer : Option (List ℕ) → Option (List ℕ × List ℕ)
unfolding parse_request
with_buffer none = none
with_buffer (some buf) = parse_request buf

unfoldable pub read_request_line : ℕ → List Read → Option (List ℕ × List ℕ)
unfolding read_until with_buffer
read_request_line size rs = with_buffer (read_until (size - 1) [] rs)

-- what write_response is called with
pub record Response : Type 0 where
  pub status : ℕ
  pub body : List ℕ
  pub content_type : List ℕ

abbrev plain : ℕ → List ℕ → Response
plain status body = record { status = status; body = body; content_type = bytes "text/plain" }

-- `metrics` is what render_metrics gives, or `none` where its buffer cannot be allocated; `alive` is
-- what check_liveness gives.
unfoldable pub handle_request : Option (List ℕ) → Bool → Bool → List ℕ → List ℕ → Response
unfolding same_string
handle_request metrics all_ready alive method path =
    if not (same_string method (bytes "GET"))
    then plain 405 (bytes "Method Not Allowed\n")
    else if same_string path (bytes "/metrics")
    then metrics_response metrics
    else if same_string path (bytes "/ready")
    then (if all_ready then plain 200 (bytes "ready\n") else plain 503 (bytes "not ready\n"))
    else if same_string path (bytes "/live")
    then (if alive then plain 200 (bytes "alive\n") else plain 503 (bytes "stale\n"))
    else plain 404 (bytes "Not Found\n")
  where
    metrics_response : Option (List ℕ) → Response
    metrics_response none = plain 500 (bytes "Internal Server Error\n")
    metrics_response (some text) = record {
      status = 200;
      body = text;
      content_type = bytes "text/plain; version=0.0.4; charset=utf-8";
    }
