-- ===== src/Process/FileSd.antt =====
-- filesd.c: the target file for Prometheus. The files are a function of their path; what the calls
-- return is an argument.
use gpu_health_index.Prelude.{
  ℕ, ◌≡◌, ◌≢◌, refl, Bool, true, false, not, ◌&&◌, ◌||◌, Option, none, some, List, [], ◌∷◌, ◌++◌,
  take, if◌then◌else◌, arith,
}
use gpu_health_index.Util.{same_string, is_empty}
use gpu_health_index.Config.Table.{bytes}
use gpu_health_index.Http.Reply.{decimal}

abbrev pub Disk : Type 0
Disk = List ℕ → Option (List ℕ)

unfoldable pub put : List ℕ → Option (List ℕ) → Disk → Disk
unfolding same_string
put path content disk p = if same_string p path then content else disk p

-- gethostname; fopen; how many bytes of the text reach the file, which no call checks; rename;
-- unlink
pub record FileAnswers : Type 0 where
  pub hostname : Option (List ℕ)
  pub opens : Bool
  pub reach : ℕ
  pub renames : Bool
  pub unlinks : Bool

unfoldable pub target_text : List ℕ → ℕ → List ℕ
unfolding decimal
target_text hostname port =
    bytes "[{\"targets\":[\""
    ++ (hostname ++ (58 ∷ (decimal port ++ bytes "\"],\"labels\":{\"job\":\"gpu-health\"}}]\n")))

abbrev pub tmp_path : List ℕ → List ℕ
tmp_path path = path ++ bytes ".tmp"

abbrev finish : FileAnswers → List ℕ → List ℕ → Disk → Disk
finish a path text disk =
    let disk = put (tmp_path path) (some text) disk in
    if a.renames
    then put path (some text) (put (tmp_path path) none disk)
    else if a.unlinks
    then put (tmp_path path) none disk
    else disk

abbrev with_hostname : FileAnswers → List ℕ → ℕ → Option (List ℕ) → Disk → Disk
with_hostname a path port none disk = disk
with_hostname a path port (some hostname) disk =
    if not a.opens then disk else finish a path (take a.reach (target_text hostname port)) disk

unfoldable pub filesd_write : FileAnswers → List ℕ → ℕ → Disk → Disk
unfolding put target_text
filesd_write a path port disk =
    if is_empty path then disk else with_hostname a path port a.hostname disk

unfoldable pub filesd_remove : Bool → List ℕ → Disk → Disk
unfolding put
filesd_remove unlinks path disk =
    if is_empty path then disk else if unlinks then put path none disk else disk

pub same_string_refl : (xs : List ℕ) → same_string xs xs ≡ true
unfolding same_string
same_string_refl [] = refl
same_string_refl (x ∷ xs) = ground (arith, same_string_refl xs)

longer :
    (path : List ℕ)
    → (same_string path (tmp_path path) ≡ false) × (same_string (tmp_path path) path ≡ false)
unfolding same_string
longer [] = (refl, refl)
longer (x ∷ xs) = ground (arith, longer xs)

-- what a reader of the target file finds after filesd_write
abbrev pub result : FileAnswers → ℕ → Option (List ℕ) → Option (List ℕ) → Option (List ℕ)
result a port none old = old
result a port (some hostname) old =
    if a.opens && a.renames then some (take a.reach (target_text hostname port)) else old

-- A reader of the target file never finds a part of the old text with a part of the new one: after
-- filesd_write the file is as it was where a call fails, or else holds the new text as far as its
-- bytes reached the temporary file. No other file but the temporary one is touched, and that one is
-- gone afterwards where it was renamed or removed.
pub filesd_write-atomic :
    (a : FileAnswers) (path : List ℕ) (port : ℕ) (disk : Disk)
    → path ≢ []
    → let after = filesd_write a path port disk in
      (after path ≡ result a port a.hostname (disk path))
      × ((p : List ℕ)
          → same_string p path ≡ false
          → same_string p (tmp_path path) ≡ false
          → after p ≡ disk p)
      × (a.renames || a.unlinks ≡ true → disk (tmp_path path) ≡ none → after (tmp_path path) ≡ none)
unfolding filesd_write put
filesd_write-atomic a [] port disk h = absurd (h refl)
filesd_write-atomic a (x ∷ xs) port disk h = go a.hostname
  where
    go :
        (o : Option (List ℕ))
        → let after = with_hostname a (x ∷ xs) port o disk in
          (after (x ∷ xs) ≡ result a port o (disk (x ∷ xs)))
          × ((p : List ℕ)
              → same_string p (x ∷ xs) ≡ false
              → same_string p (tmp_path (x ∷ xs)) ≡ false
              → after p ≡ disk p)
          × (a.renames || a.unlinks ≡ true
              → disk (tmp_path (x ∷ xs)) ≡ none
              → after (tmp_path (x ∷ xs)) ≡ none)
    go none = (refl, λ p q r. refl, λ q r. r)
    go (some hostname) = (
      ground (arith, longer (x ∷ xs), same_string_refl (x ∷ xs)),
      λ p q r. ground arith,
      λ q r. ground (arith, longer (x ∷ xs), same_string_refl (tmp_path (x ∷ xs))),
    )
