-- ===== src/Library/Complete.antt =====
-- When a library is loaded, and that no handle is left open.
use gpu_health_index.Prelude.{
  ℕ, ◌+◌, ◌-◌, ◌≡◌, refl, Bool, true, false, ◌&&◌, ◌||◌, none, some, List, [], ◌∷◌, ◌++◌, length,
  replicate, if◌then◌else◌, arith, Bool-cases, inl, inr,
}
use gpu_health_index.Library.{
  Symbol, Linker, Action, dlopen, dlclose, sym, with_member, load_required, load_optional, finish,
  load, unload,
}

-- the handles that are open after the calls
unfoldable pub open_handles : List Action → ℕ → ℕ
open_handles [] n = n
open_handles (dlopen ∷ rest) n = open_handles rest (n + 1)
open_handles (dlclose ∷ rest) n = open_handles rest (n - 1)

-- the library has the symbol under one of its names
abbrev pub has_symbol : (List ℕ → Bool) → Symbol → Bool
has_symbol defines s =
    defines s.primary || elim s.fallback [ none ↦ false | some name ↦ defines name ]

abbrev pub has_all : (List ℕ → Bool) → List Symbol → Bool
has_all defines [] = true
has_all defines (s ∷ ss) = has_symbol defines s && has_all defines ss

sym_lem : (defines : List ℕ → Bool) (s : Symbol) → sym defines s ≡ has_symbol defines s
unfolding sym
sym_lem defines s = elim (Bool-cases (defines s.primary)) [ inl q ↦ rw q refl | inr q ↦ rw q refl ]

load_required_lem :
    (defines : List ℕ → Bool) (ss : List Symbol)
    → load_required defines ss
      ≡ (if has_all defines ss then some (replicate (length ss) true) else none)
unfolding load_required with_member
load_required_lem defines [] = refl
load_required_lem defines (s ∷ ss) = ground (arith, sym_lem defines s, load_required_lem defines ss)

-- A table of functions is filled exactly if one of the two files opens and holds every required
-- symbol under one of its names; then all its required members are set, and an optional one is set
-- if the library has its symbol. One handle is open then, and unload closes it; where the load
-- fails, no handle is open, also where the library itself did open.
pub load-Complete :
    (req opt : List Symbol) (l : Linker)
    → ((load req opt l).members ≡ (
        if (l.opens_versioned || l.opens_plain) && has_all l.defines req
        then some (replicate (length req) true ++ load_optional l.defines opt)
        else none))
      × (open_handles (load req opt l).actions 0
          ≡ (if (l.opens_versioned || l.opens_plain) && has_all l.defines req then 1 else 0))
      × (open_handles
            ((load req opt l).actions
              ++ unload ((l.opens_versioned || l.opens_plain) && has_all l.defines req))
            0
          ≡ 0)
unfolding load finish open_handles unload
load-Complete req opt l = ground (arith, load_required_lem l.defines req)
