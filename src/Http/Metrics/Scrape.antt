-- ===== src/Http/Metrics/Scrape.antt =====
-- What a scraper reads in the text of /metrics: the lines of it that have the form
-- name{serial="..."} value, against the values of the families.
use gpu_health_index.Prelude.{
  ℕ, ◌≡◌, refl, ap, sym, ◌∙◌, true, false, Option, none, some, List, [], ◌∷◌, ◌++◌, append_assoc,
  append-nil, ◌==◌, if◌then◌else◌, arith, Bool-cases, inl, inr,
}
use gpu_health_index.Config.Table.{bytes}
use gpu_health_index.Http.Request.{has_byte}
use gpu_health_index.Http.Metrics.Family.{sample_line}

-- The bytes before the first `b` and those after it; where there is none, all and nothing.
unfoldable pub cut_at : ℕ → List ℕ → List ℕ × List ℕ
cut_at b [] = ([], [])
cut_at b (c ∷ cs) =
    let (before, after) = cut_at b cs in if c == b then ([], cs) else (c ∷ before, after)

-- the rest of a text after a prefix that it has
unfoldable pub without : List ℕ → List ℕ → Option (List ℕ)
without [] cs = some cs
without (b ∷ bs) [] = none
without (b ∷ bs) (c ∷ cs) = let rest = without bs cs in if b == c then rest else none

abbrev pub Reading : Type 0
Reading = List ℕ × List ℕ × List ℕ

infixl 5 ◌>>=◌
abbrev pub ◌>>=◌ : {A B : Type 0} → Option A → (A → Option B) → Option B
none >>= k = none
some a >>= k = k a

-- A sample line: the name, the serial and the text of the value.
unfoldable pub read_sample : List ℕ → Option Reading
unfolding cut_at without
read_sample line = do
  let (name, labels) = cut_at 123 line
  quoted ← without (bytes "serial=\"") labels
  let (serial, rest) = cut_at 34 quoted
  value ← without (bytes "} ") rest
  some (name, serial, value)

-- a comment is passed over
unfoldable pub read_text_line : List ℕ → Option Reading
unfolding read_sample
read_text_line [] = none
read_text_line (c ∷ cs) = let reading = read_sample (c ∷ cs) in if c == 35 then none else reading

abbrev pub opt_cons {ℓ} : {A : Type ℓ} → Option A → List A → List A
opt_cons none xs = xs
opt_cons (some x) xs = x ∷ xs

-- The readings of a text, whose lines end in a newline; `line` is what is read of the first.
unfoldable pub read_from : List ℕ → List ℕ → List Reading
unfolding read_text_line
read_from line [] = []
read_from line (c ∷ cs) =
    let rest = read_from [] cs in
    let more = read_from (line ++ c ∷ []) cs in
    if c == 10 then opt_cons (read_text_line line) rest else more

unfoldable pub read_metrics : List ℕ → List Reading
unfolding read_from
read_metrics text = read_from [] text

newline_first : (c : ℕ) (line : List ℕ) → (c == 10) ≡ true → has_byte 10 (c ∷ line) ≡ false → ⊥
unfolding has_byte
newline_first c line q h = ground arith

pub read_from-line :
    (front line rest : List ℕ)
    → has_byte 10 line ≡ false
    → read_from front (line ++ 10 ∷ rest)
      ≡ opt_cons (read_text_line (front ++ line)) (read_from [] rest)
unfolding read_from has_byte
read_from-line front [] rest h =
    ap (λ l. opt_cons (read_text_line l) (read_from [] rest)) (sym (append-nil front))
read_from-line front (c ∷ line) rest h = elim (Bool-cases (c == 10)) [
  | inl q ↦ absurd (newline_first c line q h)
  | inr q ↦ rw q (
      read_from-line (front ++ c ∷ []) line rest (ground arith)
      ∙ ap (λ l. opt_cons (read_text_line l) (read_from [] rest))
          (append_assoc front (c ∷ []) line))
]

cut_at-mark : (b : ℕ) (xs ys : List ℕ) → has_byte b xs ≡ false → cut_at b (xs ++ b ∷ ys) ≡ (xs, ys)
unfolding cut_at has_byte
cut_at-mark b [] ys h = ground arith
cut_at-mark b (x ∷ xs) ys h = ground (arith, cut_at-mark b xs ys)

without-append : (xs ys : List ℕ) → without xs (xs ++ ys) ≡ some ys
unfolding without
without-append [] ys = refl
without-append (x ∷ xs) ys = ground (arith, without-append xs ys)

read_sample_parts :
    (line : List ℕ) (name labels quoted serial rest : List ℕ)
    → cut_at 123 line ≡ (name, labels)
    → without (bytes "serial=\"") labels ≡ some quoted
    → cut_at 34 quoted ≡ (serial, rest)
    → read_sample line ≡ (without (bytes "} ") rest >>= λ value. some (name, serial, value))
unfolding read_sample
read_sample_parts line name labels quoted serial rest p q r = rw p (rw q (rw r refl))

text_line_lem :
    (c : ℕ) (cs : List ℕ) → (c == 35) ≡ false → read_text_line (c ∷ cs) ≡ read_sample (c ∷ cs)
unfolding read_text_line
text_line_lem c cs q = rw q refl

-- what is read of a line with a name, a quoted serial and a rest
pub reads_labelled :
    (c : ℕ) (name serial rest : List ℕ)
    → (c == 35) ≡ false
    → has_byte 123 (c ∷ name) ≡ false
    → has_byte 34 serial ≡ false
    → read_text_line (c ∷ name ++ (bytes "{serial=\"" ++ (serial ++ 34 ∷ rest)))
      ≡ (without (bytes "} ") rest >>= λ value. some (c ∷ name, serial, value))
reads_labelled c name serial rest q h k =
    text_line_lem c (name ++ (bytes "{serial=\"" ++ (serial ++ 34 ∷ rest))) q
    ∙ read_sample_parts (c ∷ name ++ (bytes "{serial=\"" ++ (serial ++ 34 ∷ rest))) (c ∷ name)
        (bytes "serial=\"" ++ (serial ++ 34 ∷ rest)) (serial ++ 34 ∷ rest) serial rest
        (cut_at-mark 123 (c ∷ name) (bytes "serial=\"" ++ (serial ++ 34 ∷ rest)) h)
        (without-append (bytes "serial=\"") (serial ++ 34 ∷ rest)) (cut_at-mark 34 serial rest k)

-- what is read of a sample line
pub reads_sample :
    (c : ℕ) (name serial value : List ℕ)
    → (c == 35) ≡ false
    → has_byte 123 (c ∷ name) ≡ false
    → has_byte 34 serial ≡ false
    → read_text_line (sample_line (c ∷ name) serial value) ≡ some (c ∷ name, serial, value)
unfolding sample_line without
reads_sample c name serial value q h k = reads_labelled c name serial (bytes "} " ++ value) q h k
