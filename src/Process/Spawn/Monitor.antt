-- ===== src/Process/Spawn/Monitor.antt =====
-- The sockets of the parent over any number of children.
use gpu_health_index.Prelude.{
  ℕ, ◌≡◌, ◌≢◌, refl, ap, sym, ◌∙◌, subst, Bool, true, false, Option, none, some, List, [], ◌∷◌,
  ◌++◌, if◌then◌else◌, arith, append-nil, branches, not, ◌&&◌, ltb, ◌<◌, ◌^◌,
}
use gpu_health_index.Snapshot.Transfer.{Call, Outcome, ok, error, waiting}
use gpu_health_index.Http.Connection.{conn_write_all}
use gpu_health_index.Http.Connection.Delivery.{conn_write_all-IsDelivered}
use gpu_health_index.Types.{Snapshot}
use gpu_health_index.Http.Slots.{fresh_receiver, stale_threshold}
use gpu_health_index.Http.Listen.{bind_listen, http_child_tls_init, is_some}
use gpu_health_index.Privileges.{procpriv_child_setup}
use gpu_health_index.Http.Child.{
  ChildStart, init_bytes, read_init, ChildAnswers, exits, serves, http_child_run,
}
use gpu_health_index.Http.Child.Init.{http_child_run-gpus}
use gpu_health_index.Process.Spawn.{
  Exporter, SpawnAnswers, ChildSetup, run_child, child_sockets, close, close_old, respawned,
  write_ipc_init, Spawned, forked, with_message, with_pair, spawn_http_child, Tick, quiet, signal,
  child_ended, monitor_step, monitor,
}

abbrev pub only : Option ℕ → List ℕ
only none = []
only (some fd) = fd ∷ []

-- The parent has exactly its end of the socket pair open.
abbrev pub IsTidy : Exporter → Type 0
IsTidy e = e.sockets ≡ only e.parent_fd

-- socketpair gives two different descriptors that are not in use
abbrev pub AreFresh : Exporter → Option (ℕ × ℕ) → Type 0
AreFresh e none = Unit
AreFresh e (some (parent, child)) =
    (parent ≢ child) × (e.parent_fd ≢ some parent) × (e.parent_fd ≢ some child)

abbrev pub FreshTick : Exporter → Tick → Type 0
FreshTick e quiet = Unit
FreshTick e signal = Unit
FreshTick e (child_ended signalled a) = AreFresh e a.pair

abbrev pub FreshTicks : Exporter → List Tick → Type 0
FreshTicks e [] = Unit
FreshTicks e (t ∷ ts) = FreshTick e t × FreshTicks (monitor_step t e) ts

-- a failed spawn closes both ends, and a good one its child's end and the old socket
close-both :
    (parent child : ℕ) (o : Option ℕ)
    → parent ≢ child
    → o ≢ some parent
    → o ≢ some child
    → close child (close parent (parent ∷ child ∷ only o)) ≡ only o
unfolding close
close-both parent child none p q r = ground arith
close-both parent child (some old) p q r = ground arith

close-ends :
    (parent child : ℕ) (o : Option ℕ)
    → parent ≢ child
    → o ≢ some parent
    → o ≢ some child
    → close_old o (close child (parent ∷ child ∷ only o)) ≡ parent ∷ []
unfolding close
close-ends parent child none p q r = ground arith
close-ends parent child (some old) p q r = ground arith

close-parent :
    (parent child : ℕ) (o : Option ℕ)
    → parent ≢ child
    → o ≢ some parent
    → o ≢ some child
    → close_old o (close parent (parent ∷ child ∷ only o)) ≡ child ∷ []
unfolding close
close-parent parent child none p q r = ground arith
close-parent parent child (some old) p q r = ground arith

module _ (e : Exporter) (parent child : ℕ) (tidy : e.sockets ≡ parent ∷ child ∷ only e.parent_fd)
    (apart : (parent ≢ child) × (e.parent_fd ≢ some parent) × (e.parent_fd ≢ some child)) where
  both_closed : close child (close parent e.sockets) ≡ only e.parent_fd
  both_closed =
      ap (λ l. close child (close parent l)) tidy
      ∙ close-both parent child e.parent_fd apart.0 apart.1 apart.2

  forked-IsTidy : (sent : List ℕ) (fork : Option ℕ) → IsTidy (forked e parent child sent fork).0
  unfolding forked
  forked-IsTidy sent none = both_closed
  forked-IsTidy sent (some pid) =
      ap (λ l. close_old e.parent_fd (close child l)) tidy
      ∙ close-ends parent child e.parent_fd apart.0 apart.1 apart.2

  message-IsTidy :
      (fork : Option ℕ) (sent : List ℕ) (outcome : Outcome)
      → IsTidy (with_message e parent child fork (sent, outcome)).0
  unfolding with_message
  message-IsTidy fork sent ok = forked-IsTidy sent fork
  message-IsTidy fork sent error = both_closed
  message-IsTidy fork sent waiting = both_closed

pair-IsTidy :
    (e : Exporter) (a : SpawnAnswers) (pair : Option (ℕ × ℕ))
    → IsTidy e
    → AreFresh e pair
    → IsTidy (with_pair e a pair).0
unfolding with_pair
pair-IsTidy e a none h f = h
pair-IsTidy e a (some (parent, child)) h f =
    message-IsTidy (record e { sockets = parent ∷ child ∷ e.sockets }) parent child
      (ap (λ l. parent ∷ child ∷ l) h) f a.fork (write_ipc_init e.num_gpus a.writes).0
      (write_ipc_init e.num_gpus a.writes).1

respawned-IsTidy : (s : Spawned) → IsTidy s.0 → IsTidy (respawned s)
respawned-IsTidy (e, none) h = h
respawned-IsTidy (e, some sent) h = h

step-IsTidy : (t : Tick) (e : Exporter) → IsTidy e → FreshTick e t → IsTidy (monitor_step t e)
unfolding monitor_step
step-IsTidy quiet e h f = h
step-IsTidy signal e h f = h
step-IsTidy (child_ended true a) e h f = h
step-IsTidy (child_ended false a) e h f =
    respawned-IsTidy (spawn_http_child e a) (unfold spawn_http_child in pair-IsTidy e a a.pair h f)

ticks-IsTidy : (ts : List Tick) (e : Exporter) → IsTidy e → FreshTicks e ts → IsTidy (monitor ts e)
unfolding monitor
ticks-IsTidy [] e h f = h
ticks-IsTidy (t ∷ ts) e h f =
    branches IsTidy e.running (ticks-IsTidy ts (monitor_step t e) (step-IsTidy t e h f.0) f.1) h

-- the exporter between socketpair and fork
abbrev pub with_ends : Exporter → ℕ → ℕ → Exporter
with_ends e parent child = record e { sockets = parent ∷ child ∷ e.sockets }

child_sockets_lem :
    (e : Exporter) (parent child : ℕ)
    → IsTidy e
    → AreFresh e (some (parent, child))
    → child_sockets (with_ends e parent child) parent ≡ child ∷ []
unfolding child_sockets
child_sockets_lem e parent child h f =
    ap (λ l. close_old e.parent_fd (close parent (parent ∷ child ∷ l))) h
    ∙ close-parent parent child e.parent_fd f.0 f.1 f.2

-- However often the HTTP child ends and is spawned again, and whichever call fails at it: between
-- the rounds of the monitor loop the parent has exactly one socket open, its end for the child that
-- was spawned last, and no descriptor is leaked; and a child that is forked there holds its own end
-- only.
pub monitor-IsTidy :
    (ts : List Tick) (e : Exporter)
    → IsTidy e
    → FreshTicks e ts
    → IsTidy (monitor ts e)
      × ((parent child : ℕ)
          → AreFresh (monitor ts e) (some (parent, child))
          → child_sockets (with_ends (monitor ts e) parent child) parent ≡ child ∷ [])
monitor-IsTidy ts e h f =
    let tidy = ticks-IsTidy ts e h f in
    (tidy, λ parent child g. child_sockets_lem (monitor ts e) parent child tidy g)

message_lem :
    (e : Exporter) (parent child : ℕ) (fork : Option ℕ) (sent : List ℕ) (outcome : Outcome)
    (out : List ℕ)
    → (with_message e parent child fork (sent, outcome)).1 ≡ some out
    → (outcome ≡ ok) × (out ≡ sent)
unfolding with_message forked
message_lem e parent child none sent ok out h = absurd (cc)
message_lem e parent child (some pid) sent ok out h = (refl, cc)
message_lem e parent child fork sent error out h = absurd (cc)
message_lem e parent child fork sent waiting out h = absurd (cc)

written :
    (n : ℕ) (cs : List Call) → (write_ipc_init n cs).1 ≡ ok → (write_ipc_init n cs).0 ≡ init_bytes n
unfolding write_ipc_init
written n cs done =
    let (rest, whole, all) = conn_write_all-IsDelivered (init_bytes n) cs in
    sym (append-nil (conn_write_all (init_bytes n) cs).0)
    ∙ ap (λ l. (conn_write_all (init_bytes n) cs).0 ++ l) (sym (all done))
    ∙ whole

pair_lem :
    (e : Exporter) (a : SpawnAnswers) (pair : Option (ℕ × ℕ)) (out : List ℕ)
    → (with_pair e a pair).1 ≡ some out
    → out ≡ init_bytes e.num_gpus
unfolding with_pair
pair_lem e a none out h = absurd (cc)
pair_lem e a (some (parent, child)) out h =
    let message = write_ipc_init e.num_gpus a.writes in
    let (done, same) =
      message_lem (record e { sockets = parent ∷ child ∷ e.sockets }) parent child a.fork message.0
        message.1 out h in
    same ∙ written e.num_gpus a.writes done

-- the setup of the child succeeds
abbrev pub is_set_up : ChildSetup → Bool
is_set_up c = is_some (http_child_tls_init c.cert_path c.key_path c.tls) && c.seccomp_ok

module _ {D : Type 0} (zeroed : Snapshot D) where
  run_child_lem :
      (c : ChildSetup) (b : ChildAnswers) (poll_interval_s : ℕ) (wire : List ℕ) (up : Bool)
      (served : ChildStart D)
      → http_child_run zeroed b poll_interval_s wire ≡ (if up then served else exits)
      → run_child zeroed c b poll_interval_s wire ≡ (if is_set_up c && up then served else exits)
  unfolding run_child procpriv_child_setup
  run_child_lem c b poll_interval_s wire up served h = ground arith

  -- The first message of a spawn that returns 0, through to the child, also after any earlier
  -- children, however the two sides cut it into calls: the child starts to serve as many slots as the
  -- parent has GPUs, none of which has reported, and the messages behind it stay on the socket, if
  -- there are 1 to 256 GPUs, the setup of TLS and of the seccomp filter succeeds, and the resources of
  -- the child are to be had; else the child exits.
  pub spawn-serves :
      (e : Exporter) (a : SpawnAnswers) (c : ChildSetup) (b : ChildAnswers) (poll_interval_s : ℕ)
      (wire more : List ℕ)
      → e.num_gpus < 2 ^ 31
      → (spawn_http_child e a).1 ≡ some wire
      → (read_init 4 (wire ++ more) [] b.reads).2 ≡ ok
      → run_child zeroed c b poll_interval_s (wire ++ more) ≡ (
          if is_set_up c
            && (ltb 0 e.num_gpus
                && not (ltb 256 e.num_gpus)
                && b.slots_allocated
                && b.thread_starts
                && is_some (bind_listen b.listen).0)
          then serves
              (record { receiver = fresh_receiver e.num_gpus zeroed; serving = true })
              (stale_threshold poll_interval_s)
              more
          else exits)
  spawn-serves e a c b poll_interval_s wire more h s r =
      let same : wire ≡ init_bytes e.num_gpus =
        unfold spawn_http_child in pair_lem e a a.pair wire s in
      run_child_lem c b poll_interval_s (wire ++ more) _ _ (
        ap (λ w. http_child_run zeroed b poll_interval_s (w ++ more)) same
        ∙ http_child_run-gpus zeroed b poll_interval_s e.num_gpus more h
            (subst (λ w. (read_init 4 (w ++ more) [] b.reads).2 ≡ ok) same r))
