-- ===== src/HealthProbe/Keys.antt =====
-- The lines of a key and a value that the probe writes, and the files that it leaves.
use gpu_health_index.Prelude.{
  ℕ, zero, suc, ◌+◌, ◌/◌, ◌%◌, ◌^◌, ◌≤◌, ◌<◌, ◌≡◌, Bool, true, false, not, ◌&&◌, some, List, [],
  ◌∷◌, ◌++◌, length, ltb, ◌==◌, arith,
}
use gpu_health_index.Http.Buffer.{concat, take_all}
use gpu_health_index.Http.Request.{has_byte}
use gpu_health_index.Http.Reply.{decimal, decimal_from}
use gpu_health_index.State.{split_kv, file_lines}
use gpu_health_index.Process.FileSd.{Disk, put, same_string_refl}
use gpu_health_index.HealthProbe.{key_value, WriteAnswers, write_file}
use gpu_health_index.HealthProbe.Lines.{
  is_visible, split_kv-line, file_lines-line, pair_line, decimal-visible,
}

-- a text that stays on its line, and within the buffer of the loaders with its key
abbrev pub IsShort : List ℕ → Type 0
IsShort l = (is_visible l ≡ true) × (length l ≤ 400)

-- a key of the files
unfoldable pub is_key : ℕ → List ℕ → Bool
is_key c key =
    not (c == 35) && not (has_byte 61 (c ∷ key)) && is_visible (c ∷ key) && ltb (length key) 99

key_parts :
    (c : ℕ) (key : List ℕ)
    → is_key c key ≡ true
    → ((c == 35) ≡ false)
      × (has_byte 61 (c ∷ key) ≡ false)
      × (is_visible (c ∷ key) ≡ true)
      × (length (c ∷ key) ≤ 100)
unfolding is_key
key_parts c key h = ground arith

pub key_file_lines :
    (c : ℕ) (key val : List ℕ) (ts : List (List ℕ))
    → is_key c key ≡ true
    → IsShort val
    → file_lines (concat (key_value (c ∷ key) val ∷ ts))
      ≡ key_value (c ∷ key) val ∷ file_lines (concat ts)
key_file_lines c key val ts k v =
    let (_, _, seen, short) = key_parts c key k in
    let (h, l) = pair_line (c ∷ key) val seen v.0 (omega (arith, short, v.1)) in
    file_lines-line (c ∷ key ++ 61 ∷ val) (concat ts) h l

pub key_split :
    (c : ℕ) (key val : List ℕ)
    → is_key c key ≡ true
    → IsShort val
    → split_kv (key_value (c ∷ key) val) ≡ some (c ∷ key, val)
key_split c key val k v =
    let (q, e, seen, _) = key_parts c key k in split_kv-line c key val q e seen v.0

-- a number below a power of ten has no more digits than its exponent
length-decimal_from :
    (fuel k n : ℕ) (tail : List ℕ)
    → n < 10 ^ suc k
    → length (decimal_from fuel n tail) ≤ suc k + length tail
unfolding decimal_from
length-decimal_from zero k n tail h = omega arith
length-decimal_from (suc fuel) zero n tail h = ground arith
length-decimal_from (suc fuel) (suc k) n tail h =
    ground (arith, length-decimal_from fuel k (n / 10) ((48 + n % 10) ∷ tail))

pub decimal-IsShort : (n : ℕ) → n ≤ 1_000_000 → IsShort (decimal n)
decimal-IsShort n h = (
  decimal-visible n,
  unfold decimal in omega (arith, length-decimal_from (suc n) 6 n [] (omega arith)),
)

-- a write that returns 0
pub write_file-done :
    (a : WriteAnswers) (path tmp text : List ℕ) (disk : Disk)
    → (write_file a path tmp text disk).1 ≡ true
    → length text ≤ a.reach
    → (write_file a path tmp text disk).0 path ≡ some text
unfolding write_file put
write_file-done a path tmp text disk h k =
    ground (arith, same_string_refl path, take_all a.reach text k)
