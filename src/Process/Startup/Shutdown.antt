-- ===== src/Process/Startup/Shutdown.antt =====
-- shutdown_all: what it leaves of the threads, the HTTP child and the libraries.
use gpu_health_index.Prelude.{
  ℕ, ◌+◌, ◌≡◌, ap, ◌∙◌, Bool, true, false, not, some, List, [], ◌∷◌, ◌++◌, if◌then◌else◌, arith,
}
use gpu_health_index.Process.DcgmSetup.{dcgm_teardown, connections, sessions, one_if}
use gpu_health_index.Process.Startup.{
  Answers, Effect, nvml_shutdown, nvml_close, dcgm_calls, dcgm_close, end_watch, term_child,
  close_socket, shutdown_all, join_collectors, wait_exit,
}
use gpu_health_index.Process.Startup.Permit.{
  Libraries, permit_all, permit_all-append, created, not_created, join_collectors-created, ends_by,
  wait_exit-ends_by, wait_exit-lost,
}

abbrev pub nothing_up : Libraries
nothing_up = record {
  nvml_loaded = false;
  nvml_up = false;
  threads = [];
  bad_joins = 0;
  dcgm_loaded = false;
  dcgm_sessions = 0;
  dcgm_connections = 0;
  watching = false;
  has_child = false;
  child_signalled = false;
  socket_open = false;
  target_written = false;
}

-- NVML is up, with `s` calls of dcgmInit by main itself, and DCGM connected or not.
abbrev pub running : ℕ → Bool → Bool → Libraries
running s watching available = record nothing_up {
  nvml_loaded = true;
  nvml_up = true;
  dcgm_loaded = available;
  dcgm_sessions = s + one_if available;
  dcgm_connections = one_if available;
  watching = watching;
}

-- What is left: sessions of DCGM, joins of threads that were never created, and a child that has been
-- sent SIGTERM and still runs.
abbrev pub leftover : Bool → ℕ → ℕ → Bool → Libraries
leftover dcgm_loaded dcgm_sessions bad_joins has_child = record nothing_up {
  dcgm_loaded = dcgm_loaded;
  dcgm_sessions = dcgm_sessions;
  bad_joins = bad_joins;
  has_child = has_child;
  child_signalled = has_child;
}

-- the calls of shutdown_all after those on the threads and on the child
abbrev teardown : Bool → Bool → List Effect
teardown watching available =
    (if watching then end_watch ∷ [] else [])
    ++ (nvml_shutdown
        ∷ nvml_close
        ∷ (if available then dcgm_calls dcgm_teardown ∷ dcgm_close ∷ [] else []))

teardown-ends :
    (a : Answers) (s b : ℕ) (watching available child : Bool)
    → permit_all a (teardown watching available) (record (running s watching available) {
      bad_joins = b;
      has_child = child;
      child_signalled = child;
    })
      ≡ some (leftover false s b child)
unfolding permit_all sessions connections dcgm_teardown
teardown-ends a s b true true true = ground arith
teardown-ends a s b true true false = ground arith
teardown-ends a s b true false true = ground arith
teardown-ends a s b true false false = ground arith
teardown-ends a s b false true true = ground arith
teardown-ends a s b false true false = ground arith
teardown-ends a s b false false true = ground arith
teardown-ends a s b false false false = ground arith

-- the calls on the child
abbrev stop_child : (ℕ → Bool) → List Effect
stop_child ends = term_child ∷ (wait_exit ends 30 0 ++ close_socket ∷ [])

-- with the child, or none, as the state before it has it
stop_child-ends :
    (a : Answers) (ends : ℕ → Bool) (s b : ℕ) (watching available : Bool)
    → permit_all a (stop_child ends) (record (running s watching available) {
      bad_joins = b;
      has_child = true;
      socket_open = true;
    })
      ≡ some (record (running s watching available) {
        bad_joins = b;
        has_child = not (ends_by ends 30 0);
        child_signalled = not (ends_by ends 30 0);
      })
stop_child-ends a ends s b watching available =
    unfold permit_all in
    (permit_all-append a (wait_exit ends 30 0) (close_socket ∷ []) _ _ (
      wait_exit-ends_by a ends 30 0
        (record (running s watching available) { bad_joins = b; socket_open = true })))

stop_child-lost :
    (a : Answers) (s b : ℕ) (watching available : Bool)
    → permit_all a
        (stop_child (λ t. false))
        (record (running s watching available) { bad_joins = b; socket_open = true })
      ≡ some (record (running s watching available) { bad_joins = b })
stop_child-lost a s b watching available =
    unfold permit_all in
    (permit_all-append a (wait_exit (λ t. false) 30 0) (close_socket ∷ []) _ _ (
      wait_exit-lost a 30 0
        (record (running s watching available) { bad_joins = b; socket_open = true })))

-- the joins, and then the rest
after_joins :
    (a : Answers) (n : ℕ) (l : Libraries) (es : List Effect)
    → permit_all a
        (join_collectors n 0 ++ es)
        (record l { threads = created a.collector_starts n 0; bad_joins = 0 })
      ≡ permit_all a es (record l { threads = []; bad_joins = not_created a.collector_starts n 0 })
after_joins a n l es = permit_all-append a (join_collectors n 0) es _ _ (
    join_collectors-created a a.collector_starts n 0 0 l
    ∙ ap (λ b. some (record l { threads = []; bad_joins = b })) (omega arith))

pub shutdown_all-ends :
    (a : Answers) (ends : ℕ → Bool) (n s : ℕ) (watching available : Bool)
    → permit_all a
        (shutdown_all n true ends watching available)
        (record (running s watching available) {
          threads = created a.collector_starts n 0;
          has_child = true;
          socket_open = true;
        })
      ≡ some (leftover false s (not_created a.collector_starts n 0) (not (ends_by ends 30 0)))
unfolding shutdown_all
shutdown_all-ends a ends n s watching available =
    after_joins a n (record (running s watching available) { has_child = true; socket_open = true })
      _
    ∙ permit_all-append a (stop_child ends) (teardown watching available) _ _
        (stop_child-ends a ends s (not_created a.collector_starts n 0) watching available)
    ∙ teardown-ends a s (not_created a.collector_starts n 0) watching available
        (not (ends_by ends 30 0))

pub shutdown_all-lost :
    (a : Answers) (n s : ℕ) (watching available : Bool)
    → permit_all a
        (shutdown_all n true (λ t. false) watching available)
        (record (running s watching available) {
          threads = created a.collector_starts n 0;
          socket_open = true;
        })
      ≡ some (leftover false s (not_created a.collector_starts n 0) false)
unfolding shutdown_all
shutdown_all-lost a n s watching available =
    after_joins a n (record (running s watching available) { socket_open = true }) _
    ∙ permit_all-append a (stop_child (λ t. false)) (teardown watching available) _ _
        (stop_child-lost a s (not_created a.collector_starts n 0) watching available)
    ∙ teardown-ends a s (not_created a.collector_starts n 0) watching available false

pub shutdown_all-unspawned :
    (a : Answers) (ends : ℕ → Bool) (n s : ℕ) (watching available : Bool)
    → permit_all a
        (shutdown_all n false ends watching available)
        (record (running s watching available) { threads = created a.collector_starts n 0 })
      ≡ some (leftover false s (not_created a.collector_starts n 0) false)
unfolding shutdown_all
shutdown_all-unspawned a ends n s watching available =
    after_joins a n (running s watching available) _
    ∙ teardown-ends a s (not_created a.collector_starts n 0) watching available false
