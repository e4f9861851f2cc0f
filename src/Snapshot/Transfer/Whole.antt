-- ===== src/Snapshot/Transfer/Whole.antt =====
-- snapshot.c: a message arrives whole, however the transfers are cut.
use gpu_health_index.Prelude.{
  ℕ, zero, suc, ◌+◌, ◌-◌, ◌≤◌, ◌≡◌, refl, ap, ◌∙◌, Bool, true, false, List, [], ◌∷◌, ◌++◌,
  append_assoc, take-append-drop, take, drop, length, ◌==◌, arith, inl, inr, Bool-cases,
  length-append, length-take, length-drop,
}
use gpu_health_index.Snapshot.Transfer.{
  Call, moved, interrupted, failed, ok, snapshot_send, snapshot_recv,
}

pub send-ok :
    (bs : List ℕ) (cs : List Call) → (snapshot_send bs cs).1 ≡ ok → (snapshot_send bs cs).0 ≡ bs
unfolding snapshot_send
send-ok [] cs h = refl
send-ok (b ∷ bs) [] h = ground arith
send-ok (b ∷ bs) (interrupted ∷ cs) h = send-ok (b ∷ bs) cs h
send-ok (b ∷ bs) (failed ∷ cs) h = ground arith
send-ok (b ∷ bs) (moved n ∷ cs) h =
    ap (λ l. take n (b ∷ bs) ++ l) (send-ok (drop n (b ∷ bs)) cs h) ∙ take-append-drop n (b ∷ bs)

pub take_upto :
    (n r : ℕ) (wire : List ℕ)
    → take n (take r wire) ++ drop (length (take n (take r wire))) wire ≡ wire
take_upto zero r wire = refl
take_upto (suc n) zero wire = refl
take_upto (suc n) (suc r) [] = refl
take_upto (suc n) (suc r) (x ∷ wire) = ap (λ l. x ∷ l) (take_upto n r wire)

-- every byte is in the buffer or on the wire, and a call that ends well has read `r` of them
recv-split :
    (r : ℕ) (wire buf : List ℕ) (cs : List Call)
    → let (got, left, outcome) = snapshot_recv r wire buf cs in
      (got ++ left ≡ buf ++ wire) × (outcome ≡ ok → length got ≡ length buf + r)
unfolding snapshot_recv
recv-split zero wire buf cs = (refl, λ _. omega arith)
recv-split (suc r) wire buf [] = (refl, λ h. ground arith)
recv-split (suc r) wire buf (interrupted ∷ cs) = recv-split (suc r) wire buf cs
recv-split (suc r) wire buf (failed ∷ cs) = (refl, λ h. ground arith)
recv-split (suc r) wire buf (moved n ∷ cs) = elim (Bool-cases (length got == 0)) [
  | inl q ↦ rw q (refl, λ h. ground arith)
  | inr q ↦
      let (same, full) = recv-split (suc r - length got) (drop (length got) wire) (buf ++ got) cs in
      rw q (same ∙ whole, λ h. omega (arith, full h, short, length-append buf got))
]
  where
    got : List ℕ
    got = take n (take (suc r) wire)

    short : length got ≤ suc r
    short = omega (arith, length-take n (take (suc r) wire), length-take (suc r) wire)

    whole : buf ++ got ++ drop (length got) wire ≡ buf ++ wire
    whole =
        append_assoc buf got (drop (length got) wire)
        ∙ ap (λ l. buf ++ l) (take_upto n (suc r) wire)

-- two lists cut at the same place
pub same_cut :
    (us vs xs ys : List ℕ) → us ++ xs ≡ vs ++ ys → length us ≡ length vs → (us ≡ vs) × (xs ≡ ys)
same_cut [] [] xs ys e h = (refl, e)
same_cut [] (v ∷ vs) xs ys e h = ground arith
same_cut (u ∷ us) [] xs ys e h = ground arith
same_cut (u ∷ us) (v ∷ vs) xs ys e h =
    let head : u ≡ v = cc in
    let tail : us ++ xs ≡ vs ++ ys = cc in
    let (same, rest) = same_cut us vs xs ys tail (omega arith) in
    (ap (λ u. u ∷ us) head ∙ ap (λ l. v ∷ l) same, rest)

-- What snapshot_send has put on the wire with a result of 0, snapshot_recv takes off it, with a
-- result of 0, unchanged and whole, and it leaves what follows; the two sides may cut the bytes into
-- calls, and be interrupted, in different ways.
pub send-recv :
    (msg more : List ℕ) (writes reads : List Call)
    → (snapshot_send msg writes).1 ≡ ok
    → (snapshot_recv (length msg) ((snapshot_send msg writes).0 ++ more) [] reads).2 ≡ ok
    → ((snapshot_recv (length msg) ((snapshot_send msg writes).0 ++ more) [] reads).0 ≡ msg)
      × ((snapshot_recv (length msg) ((snapshot_send msg writes).0 ++ more) [] reads).1 ≡ more)
send-recv msg more writes reads h k =
    let (same, full) = recv-split (length msg) ((snapshot_send msg writes).0 ++ more) [] reads in
    same_cut _ msg _ more (same ∙ ap (λ l. l ++ more) (send-ok msg writes h))
      (omega (arith, full k))

-- the calls that move at least one byte
unfoldable pub progress : List Call → ℕ
progress [] = 0
progress (moved zero ∷ cs) = progress cs
progress (moved (suc n) ∷ cs) = suc (progress cs)
progress (interrupted ∷ cs) = progress cs
progress (failed ∷ cs) = progress cs

unfoldable pub no_failure : List Call → Bool
no_failure [] = true
no_failure (moved n ∷ cs) = no_failure cs
no_failure (interrupted ∷ cs) = no_failure cs
no_failure (failed ∷ cs) = false

-- snapshot_send terminates with 0 once as many calls as the message has bytes have moved a byte or
-- more, where none of the calls fails for another reason than EINTR.
pub send-ends :
    (bs : List ℕ) (cs : List Call)
    → no_failure cs ≡ true
    → length bs ≤ progress cs
    → (snapshot_send bs cs).1 ≡ ok
unfolding snapshot_send progress no_failure
send-ends [] cs f h = refl
send-ends (b ∷ bs) [] f h = absurd (omega arith)
send-ends (b ∷ bs) (interrupted ∷ cs) f h = send-ends (b ∷ bs) cs f h
send-ends (b ∷ bs) (failed ∷ cs) f h = ground arith
send-ends (b ∷ bs) (moved zero ∷ cs) f h = send-ends (b ∷ bs) cs f h
send-ends (b ∷ bs) (moved (suc n) ∷ cs) f h =
    send-ends (drop n bs) cs f (omega (arith, length-drop n bs))
