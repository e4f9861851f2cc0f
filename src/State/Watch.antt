-- ===== src/State/Watch.antt =====
-- state.c: baseline_inotify_init and baseline_inotify_check. What inotify and read return is an
-- argument. The threads of collector.c share one descriptor, so its queue is shared as well.
use gpu_health_index.Prelude.{
  ℕ, zero, suc, ◌+◌, ◌-◌, Bool, true, false, Option, none, some, List, [], ◌∷◌, min, ◌==◌,
  if◌then◌else◌,
}

-- inotify_init1 and inotify_add_watch: the result, or `none` for -1, and the descriptors that are
-- left open
unfoldable pub baseline_inotify_init : Option ℕ → Bool → Option ℕ × List ℕ
baseline_inotify_init none added = (none, [])
baseline_inotify_init (some fd) added = if added then (some fd, fd ∷ []) else (none, [])

-- What read returns: the bytes of so many events; 0; -1 with EAGAIN; -1 with another errno.
pub data EventRead : Type 0 where
  events : ℕ → EventRead
  end_of_file : EventRead
  again : EventRead
  failed : EventRead

-- The loop, from `any` on: the result, with `none` for -1, and the reads that are not made. The
-- descriptor does not block, so a list of reads ends like one with EAGAIN.
unfoldable pub baseline_inotify_check : Bool → List EventRead → Option Bool × List EventRead
baseline_inotify_check any [] = (some any, [])
baseline_inotify_check any (events n ∷ rs) = baseline_inotify_check true rs
baseline_inotify_check any (end_of_file ∷ rs) = (some any, rs)
baseline_inotify_check any (again ∷ rs) = (some any, rs)
baseline_inotify_check any (failed ∷ rs) = (none, rs)

-- A file changes, which gives one event and so many more (a file written under another name and
-- renamed gives two); or the poll thread of a GPU checks the descriptor, where one of its reads may
-- fail.
pub data WatchStep : Type 0 where
  change : ℕ → WatchStep
  check : ℕ → Option ℕ → WatchStep

unfoldable pub fail_at : ℕ → List EventRead → List EventRead
fail_at zero rs = failed ∷ rs
fail_at (suc k) [] = failed ∷ []
fail_at (suc k) (r ∷ rs) = r ∷ fail_at k rs

-- the events that these reads give
unfoldable pub events_in : List EventRead → ℕ
events_in [] = 0
events_in (events n ∷ rs) = n + events_in rs
events_in (end_of_file ∷ rs) = events_in rs
events_in (again ∷ rs) = events_in rs
events_in (failed ∷ rs) = events_in rs

abbrev reload_if : Option Bool → ℕ → List ℕ → List ℕ
reload_if none gpu rest = rest
reload_if (some any) gpu rest = if any then gpu ∷ rest else rest

unfoldable pub changes : List WatchStep → ℕ
changes [] = 0
changes (change n ∷ steps) = suc (changes steps)
changes (check gpu fails ∷ steps) = changes steps

-- With `p` events in the queue, the buffer takes one and `fits p` more.
module _ (fits : ℕ → ℕ) where
  -- the reads of a queue; `fuel` is at least its length
  unfoldable pub reads_of : ℕ → ℕ → List EventRead
  reads_of zero pending = again ∷ []
  reads_of (suc fuel) pending =
      let rest = reads_of fuel (pending - suc (fits pending)) in
      if pending == 0 then again ∷ [] else events (min pending (suc (fits pending))) ∷ rest

  abbrev reads : Option ℕ → ℕ → List EventRead
  reads none pending = reads_of pending pending
  reads (some k) pending = fail_at k (reads_of pending pending)

  -- The GPUs that reload their baseline, in order. A check leaves in the queue what its reads have not
  -- taken.
  unfoldable pub reloads : List WatchStep → ℕ → List ℕ
  unfolding baseline_inotify_check reads_of fail_at events_in
  reloads [] pending = []
  reloads (change n ∷ steps) pending = reloads steps (pending + suc n)
  reloads (check gpu fails ∷ steps) pending =
      let checked = baseline_inotify_check false (reads fails pending) in
      reload_if checked.0 gpu (reloads steps (events_in checked.1))
