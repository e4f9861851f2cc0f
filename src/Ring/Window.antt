-- ===== src/Ring/Window.antt =====
-- Lists given by an index function, and the last entries of a list.
use gpu_health_index.Prelude.{
  ℕ, zero, suc, ◌+◌, ◌-◌, ◌<◌, ◌≤◌, ◌≡◌, refl, ap, sym, ◌∙◌, List, [], ◌∷◌, ◌++◌, arith, length,
  drop, length-append,
}
use mathlib.Core.Path.{ap₂}
use native.Mathlib.Decide.{dec_lt}

module _ {ℓ} {A : Type ℓ} where
  -- f i, f (i + 1), … , n entries
  abbrev pub tabulate : (ℕ → A) → ℕ → ℕ → List A
  tabulate f i zero = []
  tabulate f i (suc n) = f i ∷ tabulate f (i + 1) n

  pub length-tabulate : (f : ℕ → A) (i n : ℕ) → length (tabulate f i n) ≡ n
  length-tabulate f i zero = refl
  length-tabulate f i (suc n) = ap suc (length-tabulate f (i + 1) n)

  pub tabulate-ext :
      (f g : ℕ → A) (i j n : ℕ)
      → ((k : ℕ) → k < n → f (i + k) ≡ g (j + k))
      → tabulate f i n ≡ tabulate g j n
  tabulate-ext f g i j zero h = refl
  tabulate-ext f g i j (suc n) h =
      ap₂ ◌∷◌ (ends 0 0 (omega arith) (omega arith) (h 0 (omega arith))) (
        tabulate-ext f g (i + 1) (j + 1) n
          λ k p. ends (suc k) (suc k) (omega arith) (omega arith) (h (suc k) (omega arith)))
    where
      ends : (a b : ℕ) {x y : ℕ} → i + a ≡ x → j + b ≡ y → f (i + a) ≡ g (j + b) → f x ≡ g y
      ends a b p q e = rw (← p, ← q) e

  pub tabulate-snoc :
      (f : ℕ → A) (i n : ℕ) → tabulate f i (suc n) ≡ tabulate f i n ++ f (i + n) ∷ []
  tabulate-snoc f i zero = ap (λ x. f x ∷ []) (omega arith)
  tabulate-snoc f i (suc n) =
      ap (◌∷◌ (f i))
        (tabulate-snoc f (i + 1) n ∙ ap (λ x. tabulate f (i + 1) n ++ f x ∷ []) (omega arith))

  -- the last `limit` entries
  abbrev pub keep_last : ℕ → List A → List A
  keep_last limit xs = drop (length xs - limit) xs

  pub keep_last_short : (limit : ℕ) (xs : List A) → length xs ≤ limit → keep_last limit xs ≡ xs
  keep_last_short limit xs h = rw none_over
    where
      none_over : length xs - limit ≡ 0
      none_over = omega arith

  pub keep_last_cons :
      (limit : ℕ) (x : A) (xs : List A) → length xs ≡ limit → keep_last limit (x ∷ xs) ≡ xs
  keep_last_cons limit x xs h = rw one
    where
      one : suc (length xs) - limit ≡ 1
      one = omega arith

  -- Dropping early makes no difference to the last entries.
  pub keep_last-append :
      (limit : ℕ) (xs ys : List A)
      → keep_last limit (keep_last limit xs ++ ys) ≡ keep_last limit (xs ++ ys)
  keep_last-append limit [] ys =
      ap (λ l. keep_last limit (l ++ ys)) (keep_last_short limit [] (omega arith))
  keep_last-append limit (x ∷ xs) ys = elim (dec_lt (length xs) limit) [
    | yes p ↦ ap (λ l. keep_last limit (l ++ ys)) (keep_last_short limit (x ∷ xs) p)
    | no p ↦
        ap (λ l. keep_last limit (l ++ ys)) (shrink x xs (omega arith))
        ∙ keep_last-append limit xs ys
        ∙ sym (shrink x (xs ++ ys) (omega (arith, length-append xs ys)))
  ]
    where
      shrink :
          (x : A) (xs : List A) → limit ≤ length xs → keep_last limit (x ∷ xs) ≡ keep_last limit xs
      shrink x xs h = rw more
        where
          more : suc (length xs) - limit ≡ suc (length xs - limit)
          more = omega arith
