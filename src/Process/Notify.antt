-- ===== src/Process/Notify.antt =====
-- main.c: the wait for the first poll of each GPU, and sd_notify_ready. What the clock, the signals and
-- the poll threads show at each look is an argument.
use gpu_health_index.Prelude.{
  ℕ, ◌+◌, ◌-◌, ◌*◌, ◌%◌, ◌^◌, ◌≡◌, ◌≢◌, Bool, true, false, not, ◌||◌, Option, none, some, List, [],
  ◌∷◌, ◌++◌, take, length, replicate, ltb, leb, ◌==◌, if◌then◌else◌, arith, Bool-cases, inl, inr,
  length-append, length-take, length-replicate,
}

-- A round of the loop: time_now_ms, g_running, and the ready flags of the GPUs.
pub record Look : Type 0 where
  pub now_ms : ℕ
  pub running : Bool
  pub ready : List Bool

pub data Waited : Type 0 where
  all_ready : Waited
  timed_out : Waited
  stopped : Waited
  waiting : Waited

unfoldable pub are_ready : List Bool → Bool
are_ready [] = true
are_ready (r ∷ rs) = let rest = are_ready rs in if not r then false else rest

-- the deadline, a uint64_t
unfoldable pub deadline_ms : ℕ → ℕ → ℕ
deadline_ms now_ms nvml_timeout_ms = (now_ms + nvml_timeout_ms * 2) % 2 ^ 64

unfoldable pub wait_ready : ℕ → List Look → Waited
unfolding are_ready
wait_ready deadline [] = waiting
wait_ready deadline (l ∷ ls) =
    let rest = wait_ready deadline ls in
    if not (ltb l.now_ms deadline)
    then timed_out
    else if not l.running
    then stopped
    else if are_ready l.ready
    then all_ready
    else rest

-- a look at the deadline or behind it
unfoldable reaches : ℕ → List Look → Bool
reaches deadline [] = false
reaches deadline (l ∷ ls) = leb deadline l.now_ms || reaches deadline ls

-- The wait ends once the clock has reached the deadline, whatever the GPUs do.
wait_ready_ends :
    (deadline : ℕ) (ls : List Look) → reaches deadline ls ≡ true → wait_ready deadline ls ≢ waiting
unfolding wait_ready reaches
wait_ready_ends deadline [] h = λ w. absurd (cc)
wait_ready_ends deadline (l ∷ ls) h = λ w. ground (arith, wait_ready_ends deadline ls)

-- sun_path, of 108 bytes, after memset and strncpy; a name with '@' is in the abstract namespace
unfoldable pub sun_path : List ℕ → List ℕ
sun_path [] = replicate 108 0
sun_path (c ∷ cs) =
    if c == 64
    then 0 ∷ (take 106 cs ++ replicate (107 - length (take 106 cs)) 0)
    else take 107 (c ∷ cs) ++ replicate (108 - length (take 107 (c ∷ cs))) 0

-- The address to which READY=1 is sent, with all of its bytes; `none` without NOTIFY_SOCKET.
unfoldable pub sd_notify_ready : Option (List ℕ) → Option (List ℕ)
unfolding sun_path
sd_notify_ready none = none
sd_notify_ready (some []) = none
sd_notify_ready (some (c ∷ cs)) = some (sun_path (c ∷ cs))

-- The address always has its 108 bytes, also for a shorter name of the abstract namespace, in which
-- the NULs behind the name belong to it.
length-sun_path : (name : List ℕ) → length (sun_path name) ≡ 108
unfolding sun_path
length-sun_path [] = length-replicate {A = ℕ} 108 0
length-sun_path (c ∷ cs) = elim (Bool-cases (c == 64)) [
  | inl q ↦ rw q (
      omega (
        arith,
        length-append (take 106 cs) (replicate (107 - length (take 106 cs)) 0),
        length-replicate {A = ℕ} (107 - length (take 106 cs)) 0,
        length-take 106 cs,
      ))
  | inr q ↦ rw q (
      omega (
        arith,
        length-append (take 107 (c ∷ cs)) (replicate (108 - length (take 107 (c ∷ cs))) 0),
        length-replicate {A = ℕ} (108 - length (take 107 (c ∷ cs))) 0,
        length-take 107 (c ∷ cs),
      ))
]
