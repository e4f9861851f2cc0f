-- ===== src/Process/Spawn.antt =====
-- main.c: write_ipc_init, spawn_http_child with the sockets of both sides, and the monitor loop.
pub mod Monitor
use gpu_health_index.Prelude.{
  ℕ, Bool, true, false, not, Option, none, some, List, [], ◌∷◌, ◌++◌, ◌==◌, if◌then◌else◌,
}
use gpu_health_index.Snapshot.Transfer.{Call, Outcome, ok, error, waiting}
use gpu_health_index.Http.Connection.{conn_write_all}
use gpu_health_index.Types.{Snapshot}
use gpu_health_index.Privileges.{Privileges, procpriv_child_setup}
use gpu_health_index.Http.Listen.{TlsAnswers, http_child_tls_init, is_some}
use gpu_health_index.Http.Child.{init_bytes, ChildAnswers, ChildStart, exits, http_child_run}

-- The parts of exporter_t that the main thread changes, with the socket descriptors that the parent
-- has open, and the g_running of the process.
pub record Exporter : Type 0 where
  pub num_gpus : ℕ
  pub parent_fd : Option ℕ
  pub child_pid : Option ℕ
  pub sockets : List ℕ
  pub running : Bool

-- What the system answers: the two descriptors of socketpair, what each call of write returns, and
-- the process id that fork gives.
pub record SpawnAnswers : Type 0 where
  pub pair : Option (ℕ × ℕ)
  pub writes : List Call
  pub fork : Option ℕ

-- close(fd)
unfoldable pub close : ℕ → List ℕ → List ℕ
close fd [] = []
close fd (s ∷ ss) = let rest = close fd ss in if s == fd then rest else s ∷ rest

abbrev pub close_old : Option ℕ → List ℕ → List ℕ
close_old none ss = ss
close_old (some fd) ss = close fd ss

-- The message that is written, and the result. The loop is that of conn_write_all: EINTR is tried
-- again, and any other call that moves no byte is an error.
unfoldable pub write_ipc_init : ℕ → List Call → List ℕ × Outcome
unfolding conn_write_all init_bytes
write_ipc_init num_gpus cs =
    let (sent, outcome, _) = conn_write_all (init_bytes num_gpus) cs in (sent, outcome)

-- The exporter, and the bytes that the new child finds on its socket; `none` for -1, or where a
-- write waits for ever.
abbrev pub Spawned : Type 0
Spawned = Exporter × Option (List ℕ)

-- The sockets on the side of the child, which closes the end of the parent and the old socket.
unfoldable pub child_sockets : Exporter → ℕ → List ℕ
unfolding close
child_sockets e parent = close_old e.parent_fd (close parent e.sockets)

-- the side of the parent
unfoldable pub forked : Exporter → ℕ → ℕ → List ℕ → Option ℕ → Spawned
unfolding close
forked e parent child sent none =
    (record e { sockets = close child (close parent e.sockets) }, none)
forked e parent child sent (some pid) = (
  record e {
    parent_fd = some parent;
    child_pid = some pid;
    sockets = close_old e.parent_fd (close child e.sockets);
  },
  some sent,
)

unfoldable pub with_message : Exporter → ℕ → ℕ → Option ℕ → List ℕ × Outcome → Spawned
unfolding forked close
with_message e parent child fork (sent, ok) = forked e parent child sent fork
with_message e parent child fork (sent, error) =
    (record e { sockets = close child (close parent e.sockets) }, none)
with_message e parent child fork (sent, waiting) =
    (record e { sockets = close child (close parent e.sockets) }, none)

unfoldable pub with_pair : Exporter → SpawnAnswers → Option (ℕ × ℕ) → Spawned
unfolding with_message write_ipc_init
with_pair e a none = (e, none)
with_pair e a (some (parent, child)) =
    with_message (record e { sockets = parent ∷ child ∷ e.sockets }) parent child a.fork
      (write_ipc_init e.num_gpus a.writes)

unfoldable pub spawn_http_child : Exporter → SpawnAnswers → Spawned
unfolding with_pair
spawn_http_child e a = with_pair e a a.pair

-- What the child meets before http_child_run: http_child_tls_init, and the calls of
-- procpriv_child_setup.
pub record ChildSetup : Type 0 where
  pub cert_path : List ℕ
  pub key_path : List ℕ
  pub tls : TlsAnswers
  pub prctl_ok : Bool
  pub capset_ok : Bool
  pub seccomp_ok : Bool

abbrev pub no_privileges_dropped : Privileges
no_privileges_dropped = record { no_new_privs = false; no_capabilities = false; filtered = false }

-- The side of the child, from what it reads; _exit where the setup fails.
unfoldable pub run_child :
    {D : Type 0} → Snapshot D → ChildSetup → ChildAnswers → ℕ → List ℕ → ChildStart D
unfolding http_child_tls_init procpriv_child_setup http_child_run
run_child zeroed c a poll_interval_s wire =
    if is_some (http_child_tls_init c.cert_path c.key_path c.tls)
    then (if is_some
          (procpriv_child_setup c.prctl_ok c.capset_ok c.seccomp_ok no_privileges_dropped)
        then http_child_run zeroed a poll_interval_s wire
        else exits)
    else exits

-- What a round of the monitor loop meets: nothing; SIGTERM or SIGINT; or the end of the child, with
-- the answers for the next one, before which a signal may arrive.
pub data Tick : Type 0 where
  quiet : Tick
  signal : Tick
  child_ended : Bool → SpawnAnswers → Tick

abbrev pub respawned : Spawned → Exporter
respawned (e, none) = record e { running = false }
respawned (e, some sent) = e

unfoldable pub monitor_step : Tick → Exporter → Exporter
unfolding spawn_http_child
monitor_step quiet e = e
monitor_step signal e = record e { running = false }
monitor_step (child_ended signalled a) e =
    if signalled then record e { running = false } else respawned (spawn_http_child e a)

unfoldable pub monitor : List Tick → Exporter → Exporter
unfolding monitor_step
monitor [] e = e
monitor (t ∷ ts) e = let rest = monitor ts (monitor_step t e) in if e.running then rest else e
