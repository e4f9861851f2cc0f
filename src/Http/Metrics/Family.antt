-- ===== src/Http/Metrics/Family.antt =====
-- http.c: the macros M_HEADER, M_GAUGE_*, M_COUNTER_U64, as the texts that they pass to bprintf. How
-- printf writes a `double` is an argument.
use Prim.Native.String.{String}
use gpu_health_index.Prelude.{
  ℕ, ◌+◌, ◌≡◌, Bool, false, Option, some, List, [], ◌∷◌, ◌++◌, if◌then◌else◌,
}
use gpu_health_index.Prelude.Int.{ℤ, pos, negsuc, to_int}
use gpu_health_index.Double.{Double, is_nan}
use gpu_health_index.Types.{Snapshot}
use gpu_health_index.Config.Table.{bytes}
use gpu_health_index.Http.Reply.{decimal}
use gpu_health_index.Http.Request.{has_byte}

-- `%.nf` and `%.6g` of a double
pub record Printf (D : Type 0) : Type 0 where
  pub fixed : ℕ → D → List ℕ
  pub general : D → List ℕ

-- printf writes a number on one line.
pub record IsOneLine {D : Type 0} (p : Printf D) : Type 0 where
  pub fixed_line : (n : ℕ) (x : D) → has_byte 10 (p.fixed n x) ≡ false
  pub general_line : (x : D) → has_byte 10 (p.general x) ≡ false

-- What a sample line prints: a number by `%d`, `%PRIu64`, `%.nf` or `%.6g`, or the text NaN.
pub data Value (D : Type 0) : Type 0 where
  integer : ℤ → Value D
  unsigned : ℕ → Value D
  fixed : ℕ → D → Value D
  general : D → Value D
  not_a_number : Value D

-- %d
unfoldable pub signed_decimal : ℤ → List ℕ
unfolding decimal
signed_decimal (pos n) = decimal n
signed_decimal (negsuc n) = 45 ∷ decimal (n + 1)

module _ {D : Type 0} (p : Printf D) where
  unfoldable pub print : Value D → List ℕ
  unfolding signed_decimal decimal
  print (integer z) = signed_decimal z
  print (unsigned n) = decimal n
  print (fixed n x) = p.fixed n x
  print (general x) = p.general x
  print not_a_number = bytes "NaN"

-- A family of metrics: its name, type and help, and the value for a GPU; `none` where the loop
-- passes the GPU over.
pub record Family (D : Type 0) : Type 0 where
  pub name : List ℕ
  pub kind : List ℕ
  pub help : List ℕ
  pub value : Snapshot D → Option (Value D)

module _ {D : Type 0} where
  abbrev pub gauge : String → String → (Snapshot D → Value D) → Family D
  gauge name help value = record {
    name = bytes name;
    kind = bytes "gauge";
    help = bytes help;
    value = λ s. some (value s);
  }

  abbrev pub counter : String → String → (Snapshot D → Value D) → Family D
  counter name help value = record {
    name = bytes name;
    kind = bytes "counter";
    help = bytes help;
    value = λ s. some (value s);
  }

  -- an int that is 0 or 1
  abbrev pub flag : Bool → Value D
  flag b = integer (pos (if b then 1 else 0))

  -- (int)u of a uint32_t
  abbrev pub word : ℕ → Value D
  word u = integer (to_int u)

module _ {D : Type 0} ⦃d : Double D⦄ where
  -- M_GAUGE_NAN
  abbrev pub nan_aware : D → Value D
  nan_aware x = if is_nan x then not_a_number else general x

  -- `%.4f` of x / 100.0
  abbrev pub ratio : D → Value D
  ratio x = fixed 4 (d.div x (d.lit 100 0))

-- "# HELP name help" and "# TYPE name type"
unfoldable pub help_line : {D : Type 0} → Family D → List ℕ
help_line f = bytes "# HELP " ++ (f.name ++ (32 ∷ f.help))

unfoldable pub type_line : {D : Type 0} → Family D → List ℕ
type_line f = bytes "# TYPE " ++ (f.name ++ (32 ∷ f.kind))

-- M_HEADER
unfoldable pub header_text : {D : Type 0} → Family D → List ℕ
unfolding help_line type_line
header_text f = help_line f ++ 10 ∷ (type_line f ++ 10 ∷ [])

-- name{serial="..."} value
unfoldable pub sample_line : List ℕ → List ℕ → List ℕ → List ℕ
sample_line name serial value = name ++ (bytes "{serial=\"" ++ (serial ++ (bytes "\"} " ++ value)))
