-- ===== src/Http/Metrics/Lines.antt =====
-- The texts of /metrics are whole lines: where a newline can stand in them, and where it cannot.
use gpu_health_index.Prelude.{
  ℕ, zero, suc, ◌+◌, ◌/◌, ◌%◌, ◌≡◌, refl, Bool, true, false, not, ◌&&◌, ◌||◌, some, List, [], ◌∷◌,
  ◌++◌, All, ◌==◌, arith,
}
use gpu_health_index.Prelude.Int.{ℤ, pos, negsuc}
use gpu_health_index.Config.Table.{bytes}
use gpu_health_index.Types.{Snapshot}
use gpu_health_index.Http.Request.{has_byte}
use gpu_health_index.Http.Buffer.{concat}
use gpu_health_index.Http.Reply.{decimal, decimal_from}
use gpu_health_index.Http.Metrics.Family.{
  Printf, IsOneLine, Value, integer, unsigned, fixed, general, not_a_number, Family, print,
  signed_decimal, help_line, type_line, sample_line,
}
use gpu_health_index.Http.Metrics.Scrape.{read_text_line, reads_sample}
use gpu_health_index.Http.Metrics.Render.{info_line, info_rest, info_parts}

pub has_byte-append :
    (b : ℕ) (xs ys : List ℕ) → has_byte b (xs ++ ys) ≡ (has_byte b xs || has_byte b ys)
unfolding has_byte
has_byte-append b [] ys = refl
has_byte-append b (x ∷ xs) ys = ground (arith, has_byte-append b xs ys)

-- a name that no comment and no label can be taken for
unfoldable pub is_name : List ℕ → Bool
unfolding has_byte
is_name [] = false
is_name (c ∷ cs) = not (c == 35) && not (has_byte 10 (c ∷ cs)) && not (has_byte 123 (c ∷ cs))

-- a family whose lines can be read back
unfoldable pub is_readable : {D : Type 0} → Family D → Bool
unfolding has_byte is_name
is_readable f = is_name f.name && not (has_byte 10 f.kind) && not (has_byte 10 f.help)

name_line : (name : List ℕ) → is_name name ≡ true → has_byte 10 name ≡ false
unfolding is_name
name_line [] h = absurd (cc)
name_line (c ∷ cs) h = ground arith

pub readable_parts :
    {D : Type 0} (f : Family D)
    → is_readable f ≡ true
    → (is_name f.name ≡ true) × (has_byte 10 f.kind ≡ false) × (has_byte 10 f.help ≡ false)
unfolding is_readable
readable_parts f h = ground arith

decimal_from_line :
    (fuel n : ℕ) (tail : List ℕ)
    → has_byte 10 tail ≡ false
    → has_byte 10 (decimal_from fuel n tail) ≡ false
unfolding has_byte decimal_from
decimal_from_line zero n tail h = h
decimal_from_line (suc fuel) n tail h =
    ground (arith, decimal_from_line fuel (n / 10) ((48 + n % 10) ∷ tail))

decimal_line : (n : ℕ) → has_byte 10 (decimal n) ≡ false
unfolding decimal has_byte
decimal_line n = decimal_from_line (suc n) n [] refl

signed_line : (z : ℤ) → has_byte 10 (signed_decimal z) ≡ false
unfolding signed_decimal has_byte
signed_line (pos n) = decimal_line n
signed_line (negsuc n) = decimal_line (n + 1)

module _ {D : Type 0} {p : Printf D} (laws : IsOneLine p) where
  pub print_line : (v : Value D) → has_byte 10 (print p v) ≡ false
  unfolding print has_byte signed_decimal
  print_line (integer z) = signed_line z
  print_line (unsigned n) = decimal_line n
  print_line (fixed n x) = laws.fixed_line n x
  print_line (general x) = laws.general_line x
  print_line not_a_number = refl

append_line :
    (xs ys : List ℕ)
    → has_byte 10 xs ≡ false
    → has_byte 10 ys ≡ false
    → has_byte 10 (xs ++ ys) ≡ false
append_line xs ys p q = ground (arith, has_byte-append 10 xs ys)

concat_line :
    (ts : List (List ℕ)) → All (λ t. has_byte 10 t ≡ false) ts → has_byte 10 (concat ts) ≡ false
unfolding has_byte
concat_line [] h = refl
concat_line (t ∷ ts) h = append_line t (concat ts) h.0 (concat_line ts h.1)

-- The texts of a GPU hold no newline, and its serial no quotation mark.
pub record IsPlain {D : Type 0} (s : Snapshot D) : Type 0 where
  pub serial_line : has_byte 10 s.serial ≡ false
  pub serial_unquoted : has_byte 34 s.serial ≡ false
  pub uuid_line : has_byte 10 s.uuid ≡ false
  pub model_line : has_byte 10 s.gpu_model ≡ false
  pub driver_line : has_byte 10 s.driver_version ≡ false

pub reads_named :
    (name serial value : List ℕ)
    → is_name name ≡ true
    → has_byte 34 serial ≡ false
    → read_text_line (sample_line name serial value) ≡ some (name, serial, value)
unfolding is_name
reads_named [] serial value h k = absurd (cc)
reads_named (c ∷ cs) serial value h k =
    reads_sample c cs serial value (ground arith) (ground arith) k

module _ {D : Type 0} where
  pub info_rest_line : (s : Snapshot D) → IsPlain s → has_byte 10 (info_rest s) ≡ false
  unfolding info_rest has_byte
  info_rest_line s h = concat_line (info_parts s) (
    refl,
    (
      h.uuid_line,
      (
        refl,
        (
          h.model_line,
          (
            refl,
            (
              h.driver_line,
              (
                refl,
                (
                  decimal_line s.gpu_index,
                  (
                    refl,
                    (
                      signed_line s.pcie_link_gen_max,
                      (refl, (signed_line s.pcie_link_width_max, (refl, tt))),
                    ),
                  ),
                ),
              ),
            ),
          ),
        ),
      ),
    ),
  )

  pub info_line_line : (s : Snapshot D) → IsPlain s → has_byte 10 (info_line s) ≡ false
  unfolding info_line has_byte
  info_line_line s h =
      append_line (bytes "gpu_info{serial=\"") (s.serial ++ info_rest s) refl
        (append_line s.serial (info_rest s) h.serial_line (info_rest_line s h))

  pub help_line_line : (f : Family D) → is_readable f ≡ true → has_byte 10 (help_line f) ≡ false
  unfolding help_line has_byte
  help_line_line f h =
      let parts = readable_parts f h in
      ground (arith, name_line f.name parts.0, has_byte-append 10 f.name (32 ∷ f.help))

  pub type_line_line : (f : Family D) → is_readable f ≡ true → has_byte 10 (type_line f) ≡ false
  unfolding type_line has_byte
  type_line_line f h =
      let parts = readable_parts f h in
      ground (arith, name_line f.name parts.0, has_byte-append 10 f.name (32 ∷ f.kind))

pub sample_line_line :
    (name serial value : List ℕ)
    → is_name name ≡ true
    → has_byte 10 serial ≡ false
    → has_byte 10 value ≡ false
    → has_byte 10 (sample_line name serial value) ≡ false
unfolding sample_line has_byte
sample_line_line name serial value h p q = ground (
  arith,
  name_line name h,
  has_byte-append 10 name (bytes "{serial=\"" ++ (serial ++ (bytes "\"} " ++ value))),
  has_byte-append 10 serial (bytes "\"} " ++ value),
)
