-- ===== src/Ring/Refine.antt =====
-- A valid ring holds the last `capacity` samples that were pushed, oldest first.
use native.Mathlib.Nat.{mod-eq_of_lt, mod-eq-sub-mod}
use native.Mathlib.Decide.{dec_lt}
use gpu_health_index.Prelude.{
  ℕ, suc, ◌+◌, ◌-◌, ◌%◌, ◌≤◌, ◌<◌, ◌≡◌, refl, ap, sym, ◌∙◌, ◌≢◌, ◌⊎◌, inl, inr, List, [], ◌∷◌, ◌++◌,
  arith, length, get_or, set, length-set, get_or-set_self, get_or-set_ne, length-append,
  length-replicate, append-nil, append_assoc,
}
use gpu_health_index.Double.{Double}
use gpu_health_index.Types.{Sample, Ring}
use gpu_health_index.Ring.{zero_sample, fresh_ring, ring_push, sample_index, sample_at, latest}
use gpu_health_index.Ring.Window.{
  tabulate, tabulate-ext, tabulate-snoc, length-tabulate, keep_last, keep_last_cons,
  keep_last_short, keep_last-append,
}

pub record IsValid {D : Type 0} (r : Ring D) : Type 0 where
  pub storage : length r.samples ≡ r.capacity
  pub positive : 0 < r.capacity
  pub head_in : r.head < r.capacity
  pub count_in : r.count ≤ r.capacity

-- One turn round the buffer at most: `%` is a subtraction.
pub mod_cases : (x n : ℕ) → x < n + n → ((x < n) × (x % n ≡ x)) ⊎ ((n ≤ x) × (x % n ≡ x - n))
mod_cases x n h = elim (dec_lt x n) [
  | yes p ↦ inl (p, mod-eq_of_lt p)
  | no p ↦ inr (
    omega arith,
    omega (
      arith,
      mod-eq-sub-mod {n = x} {m = n} (omega arith),
      mod-eq_of_lt {n = x - n} {m = n} (omega arith),
    ),
  )
]

-- The slots before and after a push, as numbers: capacity, head, count and a logical index.
open_slots :
    (n h c i : ℕ)
    → h < n
    → c < n
    → i < c
    → (((h + 1) % n + i + n - (c + 1)) % n ≡ (h + i + n - c) % n) × (h ≢ (h + i + n - c) % n)
open_slots n h c i hh hc hi = (
  omega (
    arith,
    mod_cases (h + 1) n,
    mod_cases ((h + 1) % n + i + n - (c + 1)) n,
    mod_cases (h + i + n - c) n,
  ),
  omega (arith, mod_cases (h + i + n - c) n),
)

full_slots :
    (n h i : ℕ)
    → h < n
    → i + 1 < n
    → (((h + 1) % n + (0 + i) + n - n) % n ≡ (h + (1 + i) + n - n) % n)
      × (h ≢ (h + (1 + i) + n - n) % n)
full_slots n h i hh hi = (
  omega (
    arith,
    mod_cases (h + 1) n,
    mod_cases ((h + 1) % n + (0 + i) + n - n) n,
    mod_cases (h + (1 + i) + n - n) n,
  ),
  omega (arith, mod_cases (h + (1 + i) + n - n) n),
)

new_slot :
    (n h c : ℕ)
    → h < n
    → c ≤ n
    → (c < n → ((h + 1) % n + c + n - (c + 1)) % n ≡ h)
      × (c ≡ n → ((h + 1) % n + (c - 1) + n - c) % n ≡ h)
new_slot n h c hh hc = (
  λ p. omega (arith, mod_cases (h + 1) n, mod_cases ((h + 1) % n + c + n - (c + 1)) n),
  λ p. omega (arith, mod_cases (h + 1) n, mod_cases ((h + 1) % n + (c - 1) + n - c) n),
)

module _ {D : Type 0} ⦃d : Double D⦄ where
  -- the samples of a ring, oldest first
  abbrev pub contents : Ring D → List (Sample D)
  contents r = tabulate (sample_at r) 0 r.count

  pub fresh_ring-IsValid : (n : ℕ) → 0 < n → IsValid {D = D} (fresh_ring n)
  fresh_ring-IsValid n h = record {
    storage = length-replicate n zero_sample;
    positive = h;
    head_in = h;
    count_in = omega arith;
  }

  -- Every logical index in range has its slot inside the buffer.
  pub index_lem : {r : Ring D} (i : ℕ) → IsValid r → sample_index r i < length r.samples
  index_lem i v = omega arith

  pub ring_push-IsValid : {r : Ring D} (s : Sample D) → IsValid r → IsValid (ring_push r s)
  unfolding ring_push
  ring_push-IsValid {r} s v = ground (arith, length-set r.samples r.head s)

  module _ {r : Ring D} (s : Sample D) (v : IsValid r) where
    index_open :
        (i : ℕ)
        → r.count < r.capacity
        → i < r.count
        → (sample_index (ring_push r s) i ≡ sample_index r i) × (r.head ≢ sample_index r i)
    unfolding ring_push
    index_open i q p = ground (arith, open_slots r.capacity r.head r.count i)

    index_full :
        (i : ℕ)
        → r.count ≡ r.capacity
        → i + 1 < r.capacity
        → (sample_index (ring_push r s) (0 + i) ≡ sample_index r (1 + i))
          × (r.head ≢ sample_index r (1 + i))
    unfolding ring_push
    index_full i q p = ground (arith, full_slots r.capacity r.head i)

    index_new : sample_index (ring_push r s) ((ring_push r s).count - 1) ≡ r.head
    unfolding ring_push
    index_new = ground (arith, new_slot r.capacity r.head r.count)

    kept :
        (i j : ℕ)
        → (sample_index (ring_push r s) i ≡ j) × (r.head ≢ j)
        → sample_at (ring_push r s) i ≡ get_or r.samples j zero_sample
    unfolding ring_push
    kept i j (e, n) = rw e (get_or-set_ne r.samples s zero_sample n)

    newest : sample_at (ring_push r s) ((ring_push r s).count - 1) ≡ s
    unfolding ring_push
    newest =
        ap (λ j. get_or (set r.samples r.head s) j zero_sample) index_new
        ∙ get_or-set_self r.samples r.head s zero_sample (omega arith)

    contents-push_snoc :
        (n : ℕ)
        → (ring_push r s).count ≡ suc n
        → contents (ring_push r s) ≡ tabulate (sample_at (ring_push r s)) 0 n ++ s ∷ []
    contents-push_snoc n e =
        ap (tabulate (sample_at (ring_push r s)) 0) e
        ∙ tabulate-snoc (sample_at (ring_push r s)) 0 n
        ∙ ap (λ x. tabulate (sample_at (ring_push r s)) 0 n ++ x ∷ [])
            (ap (sample_at (ring_push r s)) (omega arith) ∙ newest)

    push_open : r.count < r.capacity → contents (ring_push r s) ≡ contents r ++ s ∷ []
    push_open h =
        contents-push_snoc r.count grown
        ∙ ap (λ l. l ++ s ∷ [])
            (tabulate-ext (sample_at (ring_push r s)) (sample_at r) 0 0 r.count
              λ k p. kept (0 + k) (sample_index r (0 + k)) (index_open (0 + k) h (omega arith)))
      where
        grown : (ring_push r s).count ≡ suc r.count
        grown = unfold ring_push in ground arith

    push_full :
        (n : ℕ)
        → r.count ≡ r.capacity
        → r.count ≡ suc n
        → contents (ring_push r s) ≡ tabulate (sample_at r) 1 n ++ s ∷ []
    push_full n h e =
        contents-push_snoc n grown
        ∙ ap (λ l. l ++ s ∷ [])
            (tabulate-ext (sample_at (ring_push r s)) (sample_at r) 0 1 n
              λ k p. kept (0 + k) (sample_index r (1 + k)) (index_full k h (omega arith)))
      where
        grown : (ring_push r s).count ≡ suc n
        grown = unfold ring_push in ground arith

    -- `ring_push` refines the list that keeps the last `capacity` samples: on a valid ring it adds
    -- the sample at the end, and drops the oldest one exactly when the ring is full.
    pub ring_push_refines : contents (ring_push r s) ≡ keep_last r.capacity (contents r ++ s ∷ [])
    ring_push_refines = elim (dec_lt r.count r.capacity) [
      | yes p ↦ push_open p ∙ sym (keep_last_short r.capacity (contents r ++ s ∷ []) (size p))
      | no p ↦ full (r.count - 1) (omega arith) (omega arith)
    ]
      where
        size : r.count < r.capacity → length (contents r ++ s ∷ []) ≤ r.capacity
        size p =
            omega
              (arith, length-append (contents r) (s ∷ []), length-tabulate (sample_at r) 0 r.count)

        full :
            (n : ℕ)
            → r.count ≡ r.capacity
            → r.count ≡ suc n
            → contents (ring_push r s) ≡ keep_last r.capacity (contents r ++ s ∷ [])
        full n h e =
            push_full n h e
            ∙ sym (
                ap (λ c. keep_last r.capacity (tabulate (sample_at r) 0 c ++ s ∷ [])) e
                ∙ keep_last_cons r.capacity (sample_at r 0) (tabulate (sample_at r) 1 n ++ s ∷ []) (
                    omega (
                      arith,
                      length-append (tabulate (sample_at r) 1 n) (s ∷ []),
                      length-tabulate (sample_at r) 1 n,
                    )))

  pub capacity-push : (r : Ring D) (s : Sample D) → (ring_push r s).capacity ≡ r.capacity
  unfolding ring_push
  capacity-push r s = refl

  -- What the snapshot reads as the latest sample is the one pushed last.
  pub latest-push : {r : Ring D} (s : Sample D) → IsValid r → latest (ring_push r s) ≡ s
  unfolding ring_push
  latest-push {r} s v =
      ap (λ j. get_or (set r.samples r.head s) j zero_sample) last_slot
      ∙ get_or-set_self r.samples r.head s zero_sample (omega arith)
    where
      last_slot : ((r.head + 1) % r.capacity + r.capacity - 1) % r.capacity ≡ r.head
      last_slot = omega (
        arith,
        mod_cases (r.head + 1) r.capacity,
        mod_cases ((r.head + 1) % r.capacity + r.capacity - 1) r.capacity,
      )

  -- ring_push once for each sample of a list, in order
  unfoldable pub push_all : Ring D → List (Sample D) → Ring D
  push_all r [] = r
  push_all r (s ∷ ss) = push_all (ring_push r s) ss

  -- After any number of pushes a valid ring holds the last `capacity` of the samples that it held
  -- and those pushed, oldest first, and is still valid.
  pub push_all_refines :
      (ss : List (Sample D)) {r : Ring D}
      → IsValid r
      → (contents (push_all r ss) ≡ keep_last r.capacity (contents r ++ ss))
        × IsValid (push_all r ss)
  unfolding push_all
  push_all_refines [] {r} v =
      (rw append-nil (sym (keep_last_short r.capacity (contents r) (size r v))), v)
    where
      size : (r : Ring D) → IsValid r → length (contents r) ≤ r.capacity
      size r v = omega (arith, length-tabulate (sample_at r) 0 r.count)
  push_all_refines (s ∷ ss) {r} v =
      let (same, ok) = push_all_refines ss (ring_push-IsValid s v) in
      (same ∙ ap (λ n. keep_last n (contents (ring_push r s) ++ ss)) (capacity-push r s) ∙ step, ok)
    where
      step :
          keep_last r.capacity (contents (ring_push r s) ++ ss)
          ≡ keep_last r.capacity (contents r ++ s ∷ ss)
      step =
          ap (λ l. keep_last r.capacity (l ++ ss)) (ring_push_refines s v)
          ∙ keep_last-append r.capacity (contents r ++ s ∷ []) ss
          ∙ ap (keep_last r.capacity) (append_assoc (contents r) (s ∷ []) ss)
