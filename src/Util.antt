-- ===== src/Util.antt =====
-- util.c: the string helpers. A C string is the list of its bytes, without the NUL.
pub mod Numbers
use gpu_health_index.Prelude.{
  ℕ, ◌-◌, ◌+◌, Bool, true, false, not, ◌&&◌, ◌||◌, List, [], ◌∷◌, take, leb, ◌==◌, if◌then◌else◌,
}

-- isspace in the C locale
abbrev pub isspace : ℕ → Bool
isspace c = c == 32 || leb 9 c && leb c 13

abbrev pub isdigit : ℕ → Bool
isdigit c = leb 48 c && leb c 57

abbrev pub toupper : ℕ → ℕ
toupper c = if leb 97 c && leb c 122 then c - 32 else c

abbrev pub is_empty {ℓ} : {A : Type ℓ} → List A → Bool
is_empty [] = true
is_empty (x ∷ xs) = false

unfoldable pub trim_start : List ℕ → List ℕ
trim_start [] = []
trim_start (c ∷ cs) = if isspace c then trim_start cs else c ∷ cs

unfoldable pub trim_end : List ℕ → List ℕ
trim_end [] = []
trim_end (c ∷ cs) = let rest = trim_end cs in if isspace c && is_empty rest then [] else c ∷ rest

unfoldable pub str_trim : List ℕ → List ℕ
unfolding trim_start trim_end
str_trim s = trim_end (trim_start s)

-- `size` is the size of the destination, the NUL included.
unfoldable pub safe_strncpy : List ℕ → ℕ → List ℕ
safe_strncpy src size = take (size - 1) src

-- strcmp(a, b) == 0
unfoldable pub same_string : List ℕ → List ℕ → Bool
same_string [] [] = true
same_string [] (y ∷ ys) = false
same_string (x ∷ xs) [] = false
same_string (x ∷ xs) (y ∷ ys) = x == y && same_string xs ys
