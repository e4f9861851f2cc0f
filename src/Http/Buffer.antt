-- ===== src/Http/Buffer.antt =====
-- http.c: bprintf, which render_metrics calls for each line. The text is what the format gives.
use gpu_health_index.Prelude.{
  ℕ, zero, suc, ◌-◌, ◌≤◌, ◌≡◌, refl, ap, sym, ◌∙◌, inl, inr, List, [], ◌∷◌, ◌++◌, append-nil,
  append_assoc, take, length, leb, if◌then◌else◌, arith, Bool-cases, length-take,
}

-- The bytes in the buffer before `*pos`, after the call; `size` is the parameter `cap`. vsnprintf
-- writes the text as far as it fits before the NUL.
unfoldable pub bprintf : ℕ → List ℕ → List ℕ → List ℕ
bprintf size buf text =
    if leb (size - 1) (length buf) then buf else buf ++ take (size - length buf - 1) text

unfoldable pub bprintf_all : ℕ → List ℕ → List (List ℕ) → List ℕ
unfolding bprintf
bprintf_all size buf [] = buf
bprintf_all size buf (t ∷ ts) = bprintf_all size (bprintf size buf t) ts

abbrev pub concat : List (List ℕ) → List ℕ
concat [] = []
concat (t ∷ ts) = t ++ concat ts

-- a text that is taken as far as it fits, after one that fits
take-append_fit :
    (n : ℕ) (xs ys : List ℕ) → length xs ≤ n → take n (xs ++ ys) ≡ xs ++ take (n - length xs) ys
take-append_fit n [] ys h = ap (λ m. take m ys) (minus_zero n)
  where
    minus_zero : (n : ℕ) → n ≡ n - 0
    minus_zero n = omega arith
take-append_fit zero (x ∷ xs) ys h = absurd (omega arith)
take-append_fit (suc n) (x ∷ xs) ys h =
    ap (λ l. x ∷ l)
      (take-append_fit n xs ys (omega arith) ∙ ap (λ m. xs ++ take m ys) (minus_suc n (length xs)))
  where
    minus_suc : (n m : ℕ) → n - m ≡ suc n - suc m
    minus_suc n m = omega arith

pub take_all : (n : ℕ) (xs : List ℕ) → length xs ≤ n → xs ≡ take n xs
take_all zero [] h = refl
take_all zero (x ∷ xs) h = absurd (omega arith)
take_all (suc n) [] h = refl
take_all (suc n) (x ∷ xs) h = ap (λ l. x ∷ l) (take_all n xs (omega arith))

take-append_take : (n : ℕ) (xs ys : List ℕ) → take n (take n xs ++ ys) ≡ take n (xs ++ ys)
take-append_take zero xs ys = refl
take-append_take (suc n) [] ys = refl
take-append_take (suc n) (x ∷ xs) ys = ap (λ l. x ∷ l) (take-append_take n xs ys)

bprintf_lem :
    (size : ℕ) (buf text : List ℕ)
    → length buf ≤ size - 1
    → bprintf size buf text ≡ take (size - 1) (buf ++ text)
unfolding bprintf
bprintf_lem size buf text h = elim (Bool-cases (leb (size - 1) (length buf))) [
  | inl q ↦ rw q (full (ground arith))
  | inr q ↦ rw q (sym cut)
]
  where
    cut : take (size - 1) (buf ++ text) ≡ buf ++ take (size - length buf - 1) text
    cut = take-append_fit (size - 1) buf text h ∙ ap (λ m. buf ++ take m text) room
      where
        room : size - 1 - length buf ≡ size - length buf - 1
        room = omega arith

    full : size - length buf - 1 ≡ 0 → buf ≡ take (size - 1) (buf ++ text)
    full e = sym (append-nil buf) ∙ ap (λ m. buf ++ take m text) (sym e) ∙ sym cut

printed :
    (size : ℕ) (ts : List (List ℕ)) (buf : List ℕ)
    → length buf ≤ size - 1
    → bprintf_all size buf ts ≡ take (size - 1) (buf ++ concat ts)
unfolding bprintf_all
printed size [] buf h = take_all (size - 1) buf h ∙ ap (take (size - 1)) (sym (append-nil buf))
printed size (t ∷ ts) buf h =
    printed size ts (bprintf size buf t)
      (omega (arith, ap length (bprintf_lem size buf t h), length-take (size - 1) (buf ++ t)))
    ∙ ap (λ b. take (size - 1) (b ++ concat ts)) (bprintf_lem size buf t h)
    ∙ take-append_take (size - 1) (buf ++ t) (concat ts)
    ∙ ap (take (size - 1)) (append_assoc buf t (concat ts))

-- However many texts are printed, and however long they are: from a buffer that is not full yet, it
-- then holds what it held and the texts in a row, cut at `size` bytes less the NUL, and so it is
-- never overrun.
pub bprintf_all-take :
    (size : ℕ) (buf : List ℕ) (ts : List (List ℕ))
    → length buf ≤ size - 1
    → (bprintf_all size buf ts ≡ take (size - 1) (buf ++ concat ts))
      × (length (bprintf_all size buf ts) ≤ size - 1)
bprintf_all-take size buf ts h = (
  printed size ts buf h,
  omega (arith, ap length (printed size ts buf h), length-take (size - 1) (buf ++ concat ts)),
)
