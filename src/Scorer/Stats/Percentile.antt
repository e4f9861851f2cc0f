-- ===== src/Scorer/Stats/Percentile.antt =====
-- What the sorted buffer of ring_p95 holds, and which value its nearest rank picks.
use gpu_health_index.Prelude.{
  ℕ, zero, suc, ◌+◌, ◌≤◌, ◌<◌, ◌≡◌, refl, ap, ◌∙◌, ◌⊎◌, inl, inr, Bool, true, false, List, [], ◌∷◌,
  arith, length, All, All-get_or, get_or, if◌then◌else◌, Bool-cases, All-map,
}
use gpu_health_index.Double.{Double, IsLawful, ◌≼◌}
use gpu_health_index.Scorer.Stats.Sort.{greater, cmp_double, insert_value, qsort}

-- how many values pass a test
unfoldable pub count_if {ℓ} : {A : Type ℓ} → (A → Bool) → List A → ℕ
count_if p [] = 0
count_if p (x ∷ xs) = (if p x then 1 else 0) + count_if p xs

module _ {D : Type 0} ⦃d : Double D⦄ where
  abbrev pub IsNumber : D → Type 0
  IsNumber x = x ≼ x

  abbrev pub IsSorted : List D → Type 0
  IsSorted [] = Unit
  IsSorted (x ∷ xs) = All (λ y. x ≼ y) xs × IsSorted xs

  count_if-insert_value :
      (p : D → Bool) (x : D) (xs : List D) → count_if p (insert_value x xs) ≡ count_if p (x ∷ xs)
  unfolding count_if insert_value
  count_if-insert_value p x [] = refl
  count_if-insert_value p x (y ∷ ys) = ground (arith, count_if-insert_value p x ys)

  -- Sorting keeps every value, as often.
  pub count_if-qsort : (p : D → Bool) (xs : List D) → count_if p (qsort xs) ≡ count_if p xs
  unfolding count_if qsort
  count_if-qsort p [] = refl
  count_if-qsort p (x ∷ xs) =
      count_if-insert_value p x (qsort xs)
      ∙ ap (λ (n : ℕ). (if p x then 1 else 0) + n) (count_if-qsort p xs)

  All-insert_value :
      (P : D → Type 0) (x : D) (xs : List D) → P x → All P xs → All P (insert_value x xs)
  unfolding insert_value
  All-insert_value P x [] p a = (p, tt)
  All-insert_value P x (y ∷ ys) p a =
      elim (cmp_double x y)
        as (λ c. All P (elim c [ greater ↦ y ∷ insert_value x ys | _ ↦ x ∷ y ∷ ys ])) [
          | greater ↦ (a.0, All-insert_value P x ys p a.1)
          | _ ↦ (p, a)
        ]

  insert_front :
      (x y : D) (ys : List D)
      → (d.lt x y ≡ true) ⊎ (d.lt y x ≡ false)
      → insert_value x (y ∷ ys) ≡ x ∷ y ∷ ys
  unfolding insert_value cmp_double
  insert_front x y ys h = ground arith

  insert_later :
      (x y : D) (ys : List D)
      → d.lt x y ≡ false
      → d.lt y x ≡ true
      → insert_value x (y ∷ ys) ≡ y ∷ insert_value x ys
  unfolding insert_value cmp_double
  insert_later x y ys p q = ground arith

  module _ (laws : IsLawful D) where
    open laws use {le_trans, le_of_lt, lt-eq-not-le, refl_of_le}

    cons-IsSorted : (x y : D) (ys : List D) → x ≼ y → IsSorted (y ∷ ys) → IsSorted (x ∷ y ∷ ys)
    cons-IsSorted x y ys h s =
        ((h, All-map (λ z. y ≼ z) (λ z. x ≼ z) (λ z q. le_trans x y z h q) ys s.0), s)

    insert_value-IsSorted :
        (x : D) (xs : List D)
        → IsNumber x
        → All IsNumber xs
        → IsSorted xs
        → IsSorted (insert_value x xs)
    insert_value-IsSorted x [] n ns s = unfold insert_value in (tt, tt)
    insert_value-IsSorted x (y ∷ ys) n ns s = elim (Bool-cases (d.lt x y)) [
      | inl p ↦ rw (insert_front x y ys (inl p)) (cons-IsSorted x y ys (le_of_lt x y p) s)
      | inr p ↦ elim (Bool-cases (d.lt y x)) [
        | inl q ↦ rw (insert_later x y ys p q) (
          All-insert_value (λ z. y ≼ z) x ys (le_of_lt y x q) s.0,
          insert_value-IsSorted x ys n ns.1 s.1,
        )
        | inr q ↦
            rw (insert_front x y ys (inr q))
              (cons-IsSorted x y ys (ground (arith, lt-eq-not-le y x ns.0 n)) s)
      ]
    ]

    pub qsort-IsSorted :
        (xs : List D) → All IsNumber xs → IsSorted (qsort xs) × All IsNumber (qsort xs)
    unfolding qsort
    qsort-IsSorted [] ns = (tt, tt)
    qsort-IsSorted (x ∷ xs) ns =
        let (s, rest) = qsort-IsSorted xs ns.1 in
        (
          insert_value-IsSorted x (qsort xs) ns.0 rest s,
          All-insert_value IsNumber x (qsort xs) ns.0 rest,
        )

    none_below :
        (x : D) (xs : List D)
        → IsNumber x
        → All IsNumber xs
        → All (λ y. x ≼ y) xs
        → count_if (λ y. d.lt y x) xs ≡ 0
    unfolding count_if
    none_below x [] n ns a = refl
    none_below x (y ∷ ys) n ns a =
        ground (arith, lt-eq-not-le y x ns.0 n, none_below x ys n ns.1 a.1)

    -- In a sorted list at most `k` values lie below entry `k`, and more than `k` do not exceed it.
    pub sorted_rank :
        (xs : List D) (k : ℕ) (out : D)
        → All IsNumber xs
        → IsSorted xs
        → k < length xs
        → (count_if (λ y. d.lt y (get_or xs k out)) xs ≤ k)
          × (k < count_if (λ y. d.le y (get_or xs k out)) xs)
    unfolding count_if
    sorted_rank [] k out ns s h = absurd (omega arith)
    sorted_rank (x ∷ xs) zero out ns s h =
        ground (arith, none_below x xs ns.0 ns.1 s.0, lt-eq-not-le x x ns.0 ns.0)
    sorted_rank (x ∷ xs) (suc k) out ns s h = ground (
      arith,
      sorted_rank xs k out ns.1 s.1 (omega arith),
      All-get_or (λ y. x ≼ y) xs k out s.0 (omega arith),
    )
