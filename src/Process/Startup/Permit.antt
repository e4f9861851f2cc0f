-- ===== src/Process/Startup/Permit.antt =====
-- The calls of main on the libraries, the threads and the HTTP child: when each is allowed, and what
-- it leaves.
use gpu_health_index.Prelude.{
  ℕ, zero, suc, ◌+◌, ◌<◌, ◌≡◌, refl, ap, sym, ◌∙◌, Bool, true, false, not, ◌&&◌, ◌||◌, Option, none,
  some, List, [], ◌∷◌, ◌++◌, append-nil, append_assoc, ◌==◌, if◌then◌else◌, arith, Bool-cases, inl,
  inr,
}
use gpu_health_index.Process.DcgmSetup.{connections, sessions}
use gpu_health_index.Process.Startup.{
  Answers, Effect, nvml_open, nvml_init, nvml_shutdown, nvml_close, dcgm_open, dcgm_init,
  dcgm_calls, dcgm_close, start_collector, set_ready, join_collector, spawn_child, lose_child,
  term_child, wait_child, close_socket, drop_privileges, write_target, remove_target,
  watch_baselines, end_watch, start_collectors, join_collectors, wait_exit,
}

-- What is up at a time.
pub record Libraries : Type 0 where
  pub nvml_loaded : Bool
  pub nvml_up : Bool
  -- the GPUs whose thread was created and not joined yet
  pub threads : List ℕ
  -- the joins of a thread that was never created
  pub bad_joins : ℕ
  pub dcgm_loaded : Bool
  -- the calls of dcgmInit that no dcgmShutdown follows yet
  pub dcgm_sessions : ℕ
  pub dcgm_connections : ℕ
  pub watching : Bool
  pub has_child : Bool
  -- SIGTERM has been sent to the child
  pub child_signalled : Bool
  pub socket_open : Bool
  pub target_written : Bool

abbrev when : Bool → Libraries → Option Libraries
when b l = if b then some l else none

abbrev is_empty : List ℕ → Bool
is_empty [] = true
is_empty (x ∷ xs) = false

then_thread : ℕ → Option (List ℕ) → Option (List ℕ)
then_thread t none = none
then_thread t (some ts) = some (t ∷ ts)

-- the threads without that of GPU `i`; `none` where there is none
joined : ℕ → List ℕ → Option (List ℕ)
unfolding then_thread
joined i [] = none
joined i (t ∷ ts) = let rest = joined i ts in if t == i then some ts else then_thread t rest

after_join : Libraries → Option (List ℕ) → Libraries
after_join l none = record l { bad_joins = l.bad_joins + 1 }
after_join l (some ts) = record l { threads = ts }

-- A call, where it is allowed: NVML is initialised and closed only while it is loaded; it is shut down
-- only while it is up, no poll thread runs, and the HTTP child, if it runs, has been sent SIGTERM;
-- threads start only while it is up; DCGM is called only while it is loaded, and closed only while it
-- is not connected; the HTTP child starts only where there is none; the target file is written only
-- after it, and removed before it is sent SIGTERM.
unfoldable pub permit : Answers → Effect → Libraries → Option Libraries
unfolding joined after_join
permit a nvml_open l = when (not l.nvml_loaded) (record l { nvml_loaded = true })
permit a nvml_init l = when (l.nvml_loaded && not l.nvml_up) (record l { nvml_up = true })
permit a nvml_shutdown l =
    when (l.nvml_up && is_empty l.threads && (l.child_signalled || not l.has_child))
      (record l { nvml_up = false })
permit a nvml_close l = when (l.nvml_loaded && not l.nvml_up) (record l { nvml_loaded = false })
permit a dcgm_open l = when (not l.dcgm_loaded) (record l { dcgm_loaded = true })
permit a dcgm_init l = when l.dcgm_loaded (record l { dcgm_sessions = l.dcgm_sessions + 1 })
permit a (dcgm_calls cs) l = when l.dcgm_loaded (record l {
  dcgm_sessions = sessions a.dcgm cs l.dcgm_sessions;
  dcgm_connections = connections a.dcgm cs l.dcgm_connections;
})
permit a dcgm_close l =
    when (l.dcgm_loaded && l.dcgm_connections == 0 && is_empty l.threads)
      (record l { dcgm_loaded = false })
permit a (start_collector i starts) l =
    when l.nvml_up (if starts then record l { threads = l.threads ++ i ∷ [] } else l)
permit a (set_ready i) l = some l
permit a (join_collector i) l = some (after_join l (joined i l.threads))
permit a (watch_baselines opens) l = when (not l.watching) (record l { watching = opens })
permit a end_watch l = when l.watching (record l { watching = false })
permit a (spawn_child spawns) l =
    when (l.nvml_up && not l.has_child && not l.socket_open)
      (record l { has_child = spawns; child_signalled = false; socket_open = spawns })
permit a lose_child l = when l.has_child (record l { has_child = false; child_signalled = false })
permit a term_child l = when (not l.target_written) (record l { child_signalled = l.has_child })
permit a (wait_child reaps) l =
    if reaps
    then when (l.has_child && l.child_signalled)
        (record l { has_child = false; child_signalled = false })
    else some l
permit a close_socket l = when l.socket_open (record l { socket_open = false })
permit a drop_privileges l = when (l.nvml_up && l.has_child) l
permit a write_target l =
    when (l.has_child && not l.target_written) (record l { target_written = true })
permit a remove_target l = when l.target_written (record l { target_written = false })

-- what is up after the calls; `none` where one of them is not allowed
unfoldable pub permit_all : Answers → List Effect → Libraries → Option Libraries
unfolding permit
permit_all a [] l = some l
permit_all a (e ∷ es) l = elim (permit a e l) [ none ↦ none | some l' ↦ permit_all a es l' ]

pub permit_all-append :
    (a : Answers) (es fs : List Effect) (l m : Libraries)
    → permit_all a es l ≡ some m
    → permit_all a (es ++ fs) l ≡ permit_all a fs m
unfolding permit_all
permit_all-append a [] fs l m h = ground arith
permit_all-append a (e ∷ es) fs l m h = next (permit a e l) (λ l'. permit_all-append a es fs l' m) h
  where
    next :
        (o : Option Libraries)
        → ((l' : Libraries)
            → permit_all a es l' ≡ some m
            → permit_all a (es ++ fs) l' ≡ permit_all a fs m)
        → elim o [ none ↦ none | some l' ↦ permit_all a es l' ] ≡ some m
        → elim o [ none ↦ none | some l' ↦ permit_all a (es ++ fs) l' ] ≡ permit_all a fs m
    next none rec h = ground arith
    next (some l') rec h = rec l' h

-- the GPUs from `i` on whose thread is created, and how many have none
unfoldable pub created : (ℕ → Bool) → ℕ → ℕ → List ℕ
created starts zero i = []
created starts (suc k) i =
    let rest = created starts k (i + 1) in if starts i then i ∷ rest else rest

unfoldable pub not_created : (ℕ → Bool) → ℕ → ℕ → ℕ
not_created starts zero i = 0
not_created starts (suc k) i =
    let rest = not_created starts k (i + 1) in if starts i then rest else suc rest

pub start_collectors-created :
    (a : Answers) (starts : ℕ → Bool) (k i : ℕ) (ts : List ℕ) (l : Libraries)
    → permit_all a (start_collectors starts k i) (record l { nvml_up = true; threads = ts })
      ≡ some (record l { nvml_up = true; threads = ts ++ created starts k i })
unfolding permit_all start_collectors created
start_collectors-created a starts zero i ts l =
    ap (λ ts. some (record l { nvml_up = true; threads = ts })) (sym (append-nil ts))
start_collectors-created a starts (suc k) i ts l = elim (Bool-cases (starts i)) [
  | inl q ↦ rw q (
      start_collectors-created a starts k (i + 1) (ts ++ i ∷ []) l
      ∙ ap (λ ts. some (record l { nvml_up = true; threads = ts }))
          (append_assoc ts (i ∷ []) (created starts k (i + 1))))
  | inr q ↦ rw q (start_collectors-created a starts k (i + 1) ts l)
]

joined-first : (i : ℕ) (ts : List ℕ) → joined i (i ∷ ts) ≡ some ts
unfolding joined
joined-first i ts = ground arith

joined-later : (starts : ℕ → Bool) (k i j : ℕ) → i < j → joined i (created starts k j) ≡ none
unfolding created joined
joined-later starts zero i j h = refl
joined-later starts (suc k) i j h = ground (arith, joined-later starts k i (j + 1) (omega arith))

-- All threads that were created are joined, and a thread that was not created is joined as well.
pub join_collectors-created :
    (a : Answers) (starts : ℕ → Bool) (k i b : ℕ) (l : Libraries)
    → permit_all a (join_collectors k i) (record l { threads = created starts k i; bad_joins = b })
      ≡ some (record l { threads = []; bad_joins = b + not_created starts k i })
unfolding permit_all join_collectors created not_created
join_collectors-created a starts zero i b l = ground arith
join_collectors-created a starts (suc k) i b l = elim (Bool-cases (starts i)) [
  | inl q ↦ rw q (
      rw (joined-first i (created starts k (i + 1)))
        (join_collectors-created a starts k (i + 1) b l))
  | inr q ↦ rw q (
      rw (joined-later starts k i (i + 1) (omega arith)) (
        join_collectors-created a starts k (i + 1) (b + 1) l
        ∙ ap (λ n. some (record l { threads = []; bad_joins = n })) (omega arith)))
]

-- one of the looks from `t` on finds the child ended
unfoldable pub ends_by : (ℕ → Bool) → ℕ → ℕ → Bool
ends_by ends zero t = ends t
ends_by ends (suc k) t = let rest = ends_by ends k (t + 1) in ends t || rest

-- A child with SIGTERM sent is gone after the wait exactly if one of the looks finds it ended.
pub wait_exit-ends_by :
    (a : Answers) (ends : ℕ → Bool) (k t : ℕ) (l : Libraries)
    → permit_all a (wait_exit ends k t) (record l { has_child = true; child_signalled = true })
      ≡ some (record l {
        has_child = not (ends_by ends k t);
        child_signalled = not (ends_by ends k t);
      })
unfolding permit_all wait_exit ends_by
wait_exit-ends_by a ends zero t l = ground arith
wait_exit-ends_by a ends (suc k) t l = ground (arith, wait_exit-ends_by a ends k (t + 1) l)

pub wait_exit-lost :
    (a : Answers) (k t : ℕ) (l : Libraries) → permit_all a (wait_exit (λ t. false) k t) l ≡ some l
unfolding permit_all wait_exit
wait_exit-lost a zero t l = refl
wait_exit-lost a (suc k) t l = wait_exit-lost a k (t + 1) l
