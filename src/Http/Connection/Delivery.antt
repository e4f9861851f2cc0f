-- ===== src/Http/Connection/Delivery.antt =====
-- What a client has of a response, however its connection takes the bytes.
use gpu_health_index.Prelude.{
  ℕ, zero, suc, ◌≡◌, refl, ap, sym, ◌∙◌, subst, none, some, List, [], ◌∷◌, ◌++◌, append_assoc,
  append-nil, take-append-drop, take, drop, length, leb, arith, Bool-cases, inl, inr,
}
use gpu_health_index.Snapshot.Transfer.{
  Call, moved, interrupted, failed, Outcome, ok, error, waiting,
}
use gpu_health_index.Http.Request.{Response}
use gpu_health_index.Http.Reply.{header, write_response}
use gpu_health_index.Http.Connection.{conn_write_all, then_body, send_response}

-- `sent` is a part of `whole` from its start, and all of it where the call ends well.
abbrev pub IsDelivered : List ℕ → Outcome → List ℕ → Type 0
IsDelivered sent outcome whole =
    (rest : List ℕ) × (sent ++ rest ≡ whole) × (outcome ≡ ok → rest ≡ [])

pub conn_write_all-IsDelivered :
    (bs : List ℕ) (cs : List Call)
    → IsDelivered (conn_write_all bs cs).0 (conn_write_all bs cs).1 bs
unfolding conn_write_all
conn_write_all-IsDelivered [] cs = ([], refl, λ _. refl)
conn_write_all-IsDelivered (b ∷ bs) [] = (b ∷ bs, refl, λ h. ground arith)
conn_write_all-IsDelivered (b ∷ bs) (interrupted ∷ cs) = conn_write_all-IsDelivered (b ∷ bs) cs
conn_write_all-IsDelivered (b ∷ bs) (failed ∷ cs) = (b ∷ bs, refl, λ h. ground arith)
conn_write_all-IsDelivered (b ∷ bs) (moved zero ∷ cs) = (b ∷ bs, refl, λ h. ground arith)
conn_write_all-IsDelivered (b ∷ bs) (moved (suc n) ∷ cs) =
    let (rest, whole, all) = conn_write_all-IsDelivered (drop n bs) cs in
    (
      rest,
      ap (λ l. b ∷ l)
          (append_assoc (take n bs) (conn_write_all (drop n bs) cs).0 rest
            ∙ ap (λ l. take n bs ++ l) whole
            ∙ take-append-drop n bs),
      all,
    )

then_body-IsDelivered :
    (head body sent : List ℕ) (outcome : Outcome) (left : List Call)
    → IsDelivered sent outcome head
    → IsDelivered
        (then_body body (sent, outcome, left)).0
        (then_body body (sent, outcome, left)).1
        (head ++ body)
unfolding then_body
then_body-IsDelivered head body sent ok left (rest, whole, all) =
    let (more, whole', all') = conn_write_all-IsDelivered body left in
    (
      more,
      append_assoc sent (conn_write_all body left).0 more
          ∙ ap (λ l. sent ++ l) whole'
          ∙ ap (λ l. l ++ body)
              (sym (append-nil sent) ∙ ap (λ l. sent ++ l) (sym (all refl)) ∙ whole),
      all',
    )
then_body-IsDelivered head body sent error left (rest, whole, all) =
    (rest ++ body, sym (append_assoc sent rest body) ∙ ap (λ l. l ++ body) whole, λ h. ground arith)
then_body-IsDelivered head body sent waiting left (rest, whole, all) =
    (rest ++ body, sym (append_assoc sent rest body) ∙ ap (λ l. l ++ body) whole, λ h. ground arith)

-- However the connection takes the bytes of a response, and wherever a write fails: what has been
-- sent is a part, from its start, of the header and the body that write_response builds, and it is
-- all of them where the result is 0. Where the header does not fit, nothing is sent.
pub send_response-IsDelivered :
    (r : Response) (cs : List Call)
    → ((out : List ℕ)
        → write_response r ≡ some out
        → IsDelivered (send_response r cs).0 (send_response r cs).1 out)
      × (write_response r ≡ none → send_response r cs ≡ ([], error))
unfolding send_response write_response
send_response-IsDelivered r cs = elim (Bool-cases (leb 256 (length (header r)))) [
  | inl q ↦ rw q ((λ out h. absurd (cc)), λ _. refl)
  | inr q ↦ rw q (
    (λ out h.
        subst
          (IsDelivered (then_body r.body (conn_write_all (header r) cs)).0
            (then_body r.body (conn_write_all (header r) cs)).1)
          (same h) delivered),
    λ h. absurd (cc),
  )
]
  where
    same : {out : List ℕ} → some (header r ++ r.body) ≡ some out → header r ++ r.body ≡ out
    same h = cc

    delivered :
        IsDelivered
          (then_body r.body (conn_write_all (header r) cs)).0
          (then_body r.body (conn_write_all (header r) cs)).1
          (header r ++ r.body)
    delivered =
        then_body-IsDelivered (header r) r.body (conn_write_all (header r) cs).0
          (conn_write_all (header r) cs).1 (conn_write_all (header r) cs).2
          (conn_write_all-IsDelivered (header r) cs)
