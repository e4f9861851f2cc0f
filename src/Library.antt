-- ===== src/Library.antt =====
-- nvml.c and dcgm.c: nvml_load and dcgm_load, which fill a table of function pointers by dlsym, and
-- the two unload functions. What dlopen and dlsym find is an argument.
pub mod Complete
use Prim.Native.String.{String}
use gpu_health_index.Prelude.{
  ℕ, Bool, true, false, not, ◌&&◌, ◌||◌, Option, none, some, List, [], ◌∷◌, ◌++◌, if◌then◌else◌,
}
use gpu_health_index.Config.Table.{bytes}

-- A member of the table: the name that is tried first, and another one.
pub record Symbol : Type 0 where
  pub primary : List ℕ
  pub fallback : Option (List ℕ)

abbrev required : String → Symbol
required name = record { primary = bytes name; fallback = none }

abbrev with_fallback : String → String → Symbol
with_fallback name other = record { primary = bytes name; fallback = some (bytes other) }

-- What the linker finds: the first of the two files, the second, and the symbols of the library.
pub record Linker : Type 0 where
  pub opens_versioned : Bool
  pub opens_plain : Bool
  pub defines : List ℕ → Bool

-- the calls on the handle of the library
pub data Action : Type 0 where
  dlopen dlclose : Action

-- The result of a load: the calls, and which of the members are set, or `none` for -1.
pub record Loaded : Type 0 where
  pub actions : List Action
  pub members : Option (List Bool)

-- sym: whether a symbol is found
unfoldable pub sym : (List ℕ → Bool) → Symbol → Bool
sym defines s = if defines s.primary then true else by_fallback s.fallback
  where
    by_fallback : Option (List ℕ) → Bool
    by_fallback none = false
    by_fallback (some name) = defines name

with_member : Option (List Bool) → Option (List Bool)
with_member none = none
with_member (some ms) = some (true ∷ ms)

-- The LOAD_REQ lines: the members, or `none` at the first that is not found.
unfoldable pub load_required : (List ℕ → Bool) → List Symbol → Option (List Bool)
unfolding sym with_member
load_required defines [] = some []
load_required defines (s ∷ ss) =
    let rest = load_required defines ss in if sym defines s then with_member rest else none

-- The LOAD_OPT lines.
unfoldable pub load_optional : (List ℕ → Bool) → List Symbol → List Bool
unfolding sym
load_optional defines [] = []
load_optional defines (s ∷ ss) = sym defines s ∷ load_optional defines ss

-- a member that is not found closes the library
unfoldable pub finish : Option (List Bool) → List Bool → Loaded
finish none optional = record { actions = dlopen ∷ dlclose ∷ []; members = none }
finish (some ms) optional = record { actions = dlopen ∷ []; members = some (ms ++ optional) }

unfoldable pub load : List Symbol → List Symbol → Linker → Loaded
unfolding load_required load_optional finish
load req opt l =
    if l.opens_versioned || l.opens_plain
    then finish (load_required l.defines req) (load_optional l.defines opt)
    else record { actions = []; members = none }

unfoldable pub nvml_required : List Symbol
nvml_required =
    with_fallback "nvmlInit_v2" "nvmlInit"
    ∷ required "nvmlShutdown"
    ∷ required "nvmlErrorString"
    ∷ required "nvmlDeviceGetCount"
    ∷ with_fallback "nvmlDeviceGetHandleByIndex_v2" "nvmlDeviceGetHandleByIndex"
    ∷ required "nvmlDeviceGetSerial"
    ∷ required "nvmlDeviceGetUUID"
    ∷ required "nvmlDeviceGetName"
    ∷ required "nvmlSystemGetDriverVersion"
    ∷ required "nvmlDeviceGetMaxPcieLinkGeneration"
    ∷ required "nvmlDeviceGetMaxPcieLinkWidth"
    ∷ required "nvmlDeviceGetTemperature"
    ∷ required "nvmlDeviceGetPowerUsage"
    ∷ required "nvmlDeviceGetEnforcedPowerLimit"
    ∷ required "nvmlDeviceGetTotalEccErrors"
    ∷ with_fallback "nvmlDeviceGetMemoryInfo" "nvmlDeviceGetMemoryInfo_v2"
    ∷ required "nvmlDeviceGetClockInfo"
    ∷ required "nvmlDeviceGetUtilizationRates"
    ∷ required "nvmlDeviceGetCurrentClocksThrottleReasons"
    ∷ required "nvmlDeviceGetPerformanceState"
    ∷ required "nvmlDeviceGetCurrPcieLinkGeneration"
    ∷ required "nvmlDeviceGetCurrPcieLinkWidth"
    ∷ []

unfoldable pub nvml_optional : List Symbol
nvml_optional =
    required "nvmlDeviceGetFieldValues"
    ∷ required "nvmlDeviceGetRetiredPages"
    ∷ required "nvmlDeviceGetRemappedRows"
    ∷ required "nvmlDeviceGetFanSpeed"
    ∷ required "nvmlDeviceGetPcieReplayCounter"
    ∷ required "nvmlDeviceGetViolationStatus"
    ∷ []

unfoldable pub dcgm_required : List Symbol
dcgm_required =
    required "dcgmInit"
    ∷ required "dcgmShutdown"
    ∷ required "dcgmConnect"
    ∷ required "dcgmDisconnect"
    ∷ required "dcgmGroupCreate"
    ∷ required "dcgmGroupAddDevice"
    ∷ required "dcgmFieldGroupCreate"
    ∷ required "dcgmWatchFields"
    ∷ with_fallback "dcgmGetLatestValuesForFields" "dcgmGetLatestValues"
    ∷ []

unfoldable pub dcgm_optional : List Symbol
dcgm_optional = required "dcgmUpdateAllFields" ∷ required "dcgmErrorString" ∷ []

unfoldable pub nvml_load : Linker → Loaded
unfolding load nvml_required nvml_optional
nvml_load = load nvml_required nvml_optional

unfoldable pub dcgm_load : Linker → Loaded
unfolding load dcgm_required dcgm_optional
dcgm_load = load dcgm_required dcgm_optional

-- nvml_unload and dcgm_unload, of a handle that may be NULL
unfoldable pub unload : Bool → List Action
unload has_handle = if has_handle then dlclose ∷ [] else []
