-- ===== src/Process/DcgmSetup.antt =====
-- dcgm.c: dcgm_setup and dcgm_teardown, as the calls of DCGM that they make. What the calls return is
-- an argument.
use gpu_health_index.Prelude.{
  ℕ, ◌+◌, ◌-◌, ◌≡◌, Bool, true, false, not, List, [], ◌∷◌, ◌++◌, if◌then◌else◌, arith,
}

pub data DcgmCall : Type 0 where
  init : DcgmCall
  connect : DcgmCall
  group_create : DcgmCall
  group_add_device : ℕ → DcgmCall
  field_group_create : DcgmCall
  watch_fields : DcgmCall
  disconnect : DcgmCall
  shutdown : DcgmCall

-- Which calls return DCGM_ST_OK; `adds` tells it of each device.
pub record DcgmAnswers : Type 0 where
  pub init_ok : Bool
  pub connect_ok : Bool
  pub group_ok : Bool
  pub adds : ℕ → Bool
  pub field_group_ok : Bool
  pub watch_ok : Bool

-- the calls that are made, in their order, and whether 0 is returned
abbrev pub Trace : Type 0
Trace = List DcgmCall × Bool

-- fail_disconnect
abbrev undo : List DcgmCall
undo = disconnect ∷ shutdown ∷ []

abbrev then_calls : List DcgmCall → Trace → Trace
then_calls before (calls, result) = (before ++ calls, result)

-- FieldGroupCreate and WatchFields
unfoldable pub watch : DcgmAnswers → Trace
watch a =
    if not a.field_group_ok
    then (field_group_create ∷ undo, false)
    else if not a.watch_ok
    then (field_group_create ∷ watch_fields ∷ undo, false)
    else (field_group_create ∷ watch_fields ∷ [], true)

-- the loop over the devices, and what follows it
unfoldable pub add_devices : DcgmAnswers → List ℕ → Trace
unfolding watch
add_devices a [] = watch a
add_devices a (id ∷ ids) =
    let rest = add_devices a ids in
    if not (a.adds id)
    then (group_add_device id ∷ undo, false)
    else then_calls (group_add_device id ∷ []) rest

unfoldable pub dcgm_setup : DcgmAnswers → List ℕ → Trace
unfolding add_devices
dcgm_setup a gpu_ids =
    if not a.init_ok
    then (init ∷ [], false)
    else if not a.connect_ok
    then (init ∷ connect ∷ shutdown ∷ [], false)
    else if not a.group_ok
    then (init ∷ connect ∷ group_create ∷ undo, false)
    else then_calls (init ∷ connect ∷ group_create ∷ []) (add_devices a gpu_ids)

unfoldable pub dcgm_teardown : List DcgmCall
dcgm_teardown = disconnect ∷ shutdown ∷ []

-- the connections that are open after the calls
unfoldable pub connections : DcgmAnswers → List DcgmCall → ℕ → ℕ
connections a [] n = n
connections a (connect ∷ cs) n = connections a cs (if a.connect_ok then n + 1 else n)
connections a (disconnect ∷ cs) n = connections a cs (n - 1)
connections a (init ∷ cs) n = connections a cs n
connections a (group_create ∷ cs) n = connections a cs n
connections a (group_add_device id ∷ cs) n = connections a cs n
connections a (field_group_create ∷ cs) n = connections a cs n
connections a (watch_fields ∷ cs) n = connections a cs n
connections a (shutdown ∷ cs) n = connections a cs n

-- the successful calls of dcgmInit that no dcgmShutdown follows yet
unfoldable pub sessions : DcgmAnswers → List DcgmCall → ℕ → ℕ
sessions a [] n = n
sessions a (init ∷ cs) n = sessions a cs (if a.init_ok then n + 1 else n)
sessions a (shutdown ∷ cs) n = sessions a cs (n - 1)
sessions a (connect ∷ cs) n = sessions a cs n
sessions a (disconnect ∷ cs) n = sessions a cs n
sessions a (group_create ∷ cs) n = sessions a cs n
sessions a (group_add_device id ∷ cs) n = sessions a cs n
sessions a (field_group_create ∷ cs) n = sessions a cs n
sessions a (watch_fields ∷ cs) n = sessions a cs n

-- the devices that are put into the group
unfoldable pub devices : List DcgmCall → List ℕ
devices [] = []
devices (group_add_device id ∷ cs) = id ∷ devices cs
devices (init ∷ cs) = devices cs
devices (connect ∷ cs) = devices cs
devices (group_create ∷ cs) = devices cs
devices (field_group_create ∷ cs) = devices cs
devices (watch_fields ∷ cs) = devices cs
devices (disconnect ∷ cs) = devices cs
devices (shutdown ∷ cs) = devices cs

abbrev pub one_if : Bool → ℕ
one_if b = if b then 1 else 0

-- from an open connection and session on
add_devices-Balanced :
    (a : DcgmAnswers) (ids : List ℕ)
    → let r = add_devices a ids in
      (connections a r.0 1 ≡ one_if r.1)
      × (sessions a r.0 1 ≡ one_if r.1)
      × (r.1 ≡ true → devices r.0 ≡ ids)
unfolding add_devices watch connections sessions devices
add_devices-Balanced a [] = ground arith
add_devices-Balanced a (id ∷ ids) = ground (arith, add_devices-Balanced a ids)

-- Whichever call of DCGM fails, dcgm_setup leaves no connection and no session open when it returns
-- -1; when it returns 0, one of each is open, every device has been put into the group, in order, and
-- dcgm_teardown closes both.
pub dcgm_setup-Balanced :
    (a : DcgmAnswers) (gpu_ids : List ℕ)
    → let r = dcgm_setup a gpu_ids in
      (connections a r.0 0 ≡ one_if r.1)
      × (sessions a r.0 0 ≡ one_if r.1)
      × (r.1 ≡ true → devices r.0 ≡ gpu_ids)
      × (connections a (dcgm_teardown) (connections a r.0 0) ≡ 0)
      × (sessions a (dcgm_teardown) (sessions a r.0 0) ≡ 0)
unfolding dcgm_setup connections sessions devices dcgm_teardown
dcgm_setup-Balanced a gpu_ids = ground (arith, add_devices-Balanced a gpu_ids)

-- the same from any number of open sessions on
add_devices-sessions :
    (a : DcgmAnswers) (ids : List ℕ) (n : ℕ)
    → sessions a (add_devices a ids).0 (n + 1) ≡ n + one_if (add_devices a ids).1
unfolding add_devices watch sessions
add_devices-sessions a [] n = ground arith
add_devices-sessions a (id ∷ ids) n = ground (arith, add_devices-sessions a ids n)

-- dcgm_setup opens a session of its own where it returns 0, and none where it fails.
pub dcgm_setup-sessions :
    (a : DcgmAnswers) (ids : List ℕ) (n : ℕ)
    → sessions a (dcgm_setup a ids).0 n ≡ n + one_if (dcgm_setup a ids).1
unfolding dcgm_setup sessions
dcgm_setup-sessions a ids n = ground (arith, add_devices-sessions a ids n)
