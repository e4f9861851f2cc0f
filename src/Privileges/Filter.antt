-- ===== src/Privileges/Filter.antt =====
-- What the filter of the HTTP child decides, against the list of the system calls.
use gpu_health_index.Prelude.{
  ℕ, All, ◌≤◌, ◌≡◌, refl, ◌∙◌, Bool, true, false, ◌&&◌, ◌||◌, some, List, [], ◌∷◌, ◌++◌, length,
  ◌==◌, if◌then◌else◌, arith,
}
use gpu_health_index.Privileges.{
  Instr, ld_abs, jeq, ret, SeccompData, audit_arch_x86_64, seccomp_ret_allow,
  seccomp_ret_kill_process, execute, allow, allow_all, allowlist, child_filter,
}

unfoldable pub member : ℕ → List ℕ → Bool
member nr [] = false
member nr (k ∷ ks) = nr == k || member nr ks

-- the tests of the numbers, whatever follows them
execute-allow_all :
    (i : SeccompData) (nrs : List ℕ) (rest : List Instr) (nr : ℕ)
    → execute i 0 (allow_all nrs ++ rest) nr
      ≡ (if member nr nrs then some seccomp_ret_allow else execute i 0 rest nr)
unfolding execute allow_all allow member
execute-allow_all i [] rest nr = refl
execute-allow_all i (k ∷ nrs) rest nr = ground (arith, execute-allow_all i nrs rest nr)

abbrev decided : SeccompData → Bool → ℕ
decided i listed =
    if i.arch == audit_arch_x86_64 && listed then seccomp_ret_allow else seccomp_ret_kill_process

-- the guard in front of them
guarded :
    (i : SeccompData) (tests : List Instr) (listed : Bool)
    → execute i 0 tests i.nr ≡ some (if listed then seccomp_ret_allow else seccomp_ret_kill_process)
    → execute i 0
        (ld_abs 4 ∷ jeq audit_arch_x86_64 1 0 ∷ ret seccomp_ret_kill_process ∷ ld_abs 0 ∷ tests)
        0
      ≡ some (decided i listed)
unfolding execute
guarded i tests listed h = ground arith

last :
    (i : SeccompData) (listed : Bool)
    → (if listed
        then some seccomp_ret_allow
        else execute i 0 (ret seccomp_ret_kill_process ∷ []) i.nr)
      ≡ some (if listed then seccomp_ret_allow else seccomp_ret_kill_process)
unfolding execute
last i true = refl
last i false = refl

list_decides :
    (i : SeccompData)
    → execute i 0 (allow_all allowlist ++ ret seccomp_ret_kill_process ∷ []) i.nr
      ≡ some (if member i.nr allowlist then seccomp_ret_allow else seccomp_ret_kill_process)
list_decides i =
    execute-allow_all i allowlist (ret seccomp_ret_kill_process ∷ []) i.nr
    ∙ last i (member i.nr allowlist)

filter_decided :
    (i : SeccompData) → execute i 0 child_filter 0 ≡ some (decided i (member i.nr allowlist))
unfolding child_filter
filter_decided i =
    guarded i (allow_all allowlist ++ ret seccomp_ret_kill_process ∷ []) (member i.nr allowlist)
      (list_decides i)

filter_length : length child_filter ≤ 4096
unfolding child_filter allow_all allow allowlist
filter_length = omega arith

-- execve, execveat, open, openat, fork, vfork, ptrace, kill, tgkill, tkill, unlink, chmod, chown
abbrev pub excluded : List ℕ
excluded = 59 ∷ 322 ∷ 2 ∷ 257 ∷ 57 ∷ 58 ∷ 101 ∷ 62 ∷ 234 ∷ 200 ∷ 87 ∷ 90 ∷ 92 ∷ []

excluded_absent : All (λ nr. member nr allowlist ≡ false) excluded
unfolding member allowlist
excluded_absent = ground arith

-- The filter of the child lets a system call through exactly if it is made in the x86_64
-- convention and its number is on the list, and kills the process at any other; no jump leads
-- past the end of the program, and its length is one that the kernel accepts. The calls that the
-- source names as excluded, such as execve, openat, fork and ptrace, are not on the list.
pub child_filter_decides :
    (i : SeccompData)
    → (execute i 0 child_filter 0
        ≡ some (
            if i.arch == audit_arch_x86_64 && member i.nr allowlist
            then seccomp_ret_allow
            else seccomp_ret_kill_process))
      × (length child_filter ≤ 4096)
      × All (λ nr. member nr allowlist ≡ false) excluded
child_filter_decides i = (filter_decided i, filter_length, excluded_absent)
