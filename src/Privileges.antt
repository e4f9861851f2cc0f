-- ===== src/Privileges.antt =====
-- procpriv.c: the seccomp filter of the HTTP child, as a program of classic BPF, and
-- procpriv_child_setup and procpriv_parent_setup. The numbers are those of the x86_64 headers.
pub mod Filter
use gpu_health_index.Prelude.{
  ℕ, zero, suc, Bool, true, false, not, Option, none, some, List, [], ◌∷◌, ◌++◌, ◌==◌,
  if◌then◌else◌,
}

-- the instructions of BPF that the filter uses
pub data Instr : Type 0 where
  ld_abs : ℕ → Instr
  jeq : ℕ → ℕ → ℕ → Instr
  ret : ℕ → Instr

-- struct seccomp_data, as far as the filter reads it
pub record SeccompData : Type 0 where
  pub nr : ℕ
  pub arch : ℕ

abbrev pub offset_nr : ℕ
offset_nr = 0

abbrev pub offset_arch : ℕ
offset_arch = 4

abbrev pub audit_arch_x86_64 : ℕ
audit_arch_x86_64 = 0xC000003E

abbrev pub seccomp_ret_allow : ℕ
seccomp_ret_allow = 0x7FFF0000

abbrev pub seccomp_ret_kill_process : ℕ
seccomp_ret_kill_process = 0x80000000

-- BPF_LD | BPF_W | BPF_ABS
abbrev word_at : SeccompData → ℕ → ℕ
word_at i offset = if offset == offset_arch then i.arch else i.nr

-- The semantics of such a program, from seccomp(2): `skip` instructions are jumped over, and `acc`
-- is the accumulator. `none` where the program runs past its end.
unfoldable pub execute : SeccompData → ℕ → List Instr → ℕ → Option ℕ
execute i skip [] acc = none
execute i (suc skip) (c ∷ cs) acc = execute i skip cs acc
execute i zero (ld_abs offset ∷ cs) acc = execute i 0 cs (word_at i offset)
execute i zero (jeq k jt jf ∷ cs) acc = execute i (if acc == k then jt else jf) cs acc
execute i zero (ret k ∷ cs) acc = some k

-- ALLOW(nr)
unfoldable pub allow : ℕ → List Instr
allow nr = jeq nr 0 1 ∷ ret seccomp_ret_allow ∷ []

unfoldable pub allow_all : List ℕ → List Instr
unfolding allow
allow_all [] = []
allow_all (nr ∷ nrs) = allow nr ++ allow_all nrs

-- The numbers after ALLOW, in their order, with clone3 and rseq, which current headers have.
unfoldable pub allowlist : List ℕ
allowlist =
    -- read, write, writev, close
    0 ∷ 1 ∷ 20 ∷ 3
    -- socket, bind, listen, accept, accept4, select, pselect6
    ∷ 41 ∷ 49 ∷ 50 ∷ 43 ∷ 288 ∷ 23 ∷ 270
    -- setsockopt, getsockopt, sendto, recvfrom
    ∷ 54 ∷ 55 ∷ 44 ∷ 45
    -- exit, exit_group
    ∷ 60 ∷ 231
    -- futex, clone, set_robust_list, gettid, getpid
    ∷ 202 ∷ 56 ∷ 273 ∷ 186 ∷ 39
    -- mmap, munmap, mprotect, madvise, brk
    ∷ 9 ∷ 11 ∷ 10 ∷ 28 ∷ 12
    -- rt_sigaction, rt_sigprocmask, rt_sigreturn
    ∷ 13 ∷ 14 ∷ 15
    -- clock_gettime, gettimeofday, getrandom, clone3, rseq
    ∷ 228 ∷ 96 ∷ 318 ∷ 435 ∷ 334 ∷ []

unfoldable pub child_filter : List Instr
unfolding allow_all allowlist
child_filter =
    ld_abs offset_arch
    ∷ jeq audit_arch_x86_64 1 0
    ∷ ret seccomp_ret_kill_process
    ∷ ld_abs offset_nr
    ∷ (allow_all allowlist ++ ret seccomp_ret_kill_process ∷ [])

-- What a process has given up.
pub record Privileges : Type 0 where
  pub no_new_privs : Bool
  pub no_capabilities : Bool
  pub filtered : Bool

-- The three calls, which succeed or not; PR_SET_NO_NEW_PRIVS and capset may fail. `none` where
-- the child exits, since the filter is not installed.
unfoldable pub procpriv_child_setup : Bool → Bool → Bool → Privileges → Option Privileges
procpriv_child_setup prctl_ok capset_ok seccomp_ok p =
    let p = if prctl_ok then record p { no_new_privs = true } else p in
    let p = if capset_ok then record p { no_capabilities = true } else p in
    if seccomp_ok then some (record p { filtered = true }) else none

unfoldable pub procpriv_parent_setup : Bool → Bool → Privileges → Privileges
procpriv_parent_setup prctl_ok capset_ok p =
    let p = if prctl_ok then record p { no_new_privs = true } else p in
    if capset_ok then record p { no_capabilities = true } else p
