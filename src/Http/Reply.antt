-- ===== src/Http/Reply.antt =====
-- http.c: write_response, as the bytes that it passes to conn_write_all.
use gpu_health_index.Prelude.{
  ℕ, zero, suc, ◌+◌, ◌-◌, ◌*◌, ◌/◌, ◌%◌, ◌<◌, ◌≡◌, refl, ap, ◌∙◌, Bool, true, false, Option, none,
  some, List, [], ◌∷◌, ◌++◌, append_assoc, length, ltb, leb, ◌==◌, if◌then◌else◌, arith, Bool-cases,
  inl, inr,
}
use gpu_health_index.Util.{isdigit}
use gpu_health_index.Util.Numbers.{digits}
use gpu_health_index.Config.Table.{bytes}
use gpu_health_index.Http.Request.{Response}

-- %d and %zu of a number: its decimal digits. The number of digits is at most the number itself
-- plus one, which is the fuel.
unfoldable pub decimal_from : ℕ → ℕ → List ℕ → List ℕ
decimal_from zero n tail = tail
decimal_from (suc fuel) n tail =
    let rest = decimal_from fuel (n / 10) ((48 + n % 10) ∷ tail) in
    if ltb n 10 then (48 + n) ∷ tail else rest

unfoldable pub decimal : ℕ → List ℕ
unfolding decimal_from
decimal n = decimal_from (suc n) n []

unfoldable pub status_text : ℕ → List ℕ
status_text status =
    if status == 200
    then bytes "OK"
    else if status == 404
    then bytes "Not Found"
    else if status == 405
    then bytes "Method Not Allowed"
    else if status == 500
    then bytes "Internal Server Error"
    else if status == 503
    then bytes "Service Unavailable"
    else bytes "Unknown"

-- the header up to the value of Content-Length
unfoldable pub header_start : Response → List ℕ
unfolding decimal status_text
header_start r =
    bytes "HTTP/1.1 "
    ++ decimal r.status
    ++ bytes " "
    ++ status_text r.status
    ++ bytes "\r\nContent-Type: "
    ++ r.content_type
    ++ bytes "\r\nContent-Length: "

abbrev pub header_end : List ℕ
header_end = bytes "\r\nConnection: close\r\n\r\n"

unfoldable pub header : Response → List ℕ
unfolding header_start
header r = header_start r ++ decimal (length r.body) ++ header_end

-- What is passed on to be written, or `none` where the header does not fit in its 256 bytes.
unfoldable pub write_response : Response → Option (List ℕ)
unfolding header
write_response r = if leb 256 (length (header r)) then none else some (header r ++ r.body)

decimal_from-append :
    (fuel n : ℕ) (tail rest : List ℕ)
    → decimal_from fuel n tail ++ rest ≡ decimal_from fuel n (tail ++ rest)
unfolding decimal_from
decimal_from-append zero n tail rest = refl
decimal_from-append (suc fuel) n tail rest = elim (Bool-cases (ltb n 10)) [
  | inl q ↦ rw q refl
  | inr q ↦ rw q (decimal_from-append fuel (n / 10) ((48 + n % 10) ∷ tail) rest)
]

-- one digit is read
digits-digit : (m k : ℕ) (cs : List ℕ) → k < 10 → digits m ((48 + k) ∷ cs) ≡ digits (m * 10 + k) cs
unfolding digits
digits-digit m k cs h = rw is_digit (ap (λ n. digits n cs) value)
  where
    is_digit : isdigit (48 + k) ≡ true
    is_digit = ground arith

    value : m * 10 + (48 + k - 48) ≡ m * 10 + k
    value = omega arith

pub digits-decimal_from :
    (fuel n : ℕ) (tail : List ℕ) → n < fuel → digits 0 (decimal_from fuel n tail) ≡ digits n tail
unfolding decimal_from
digits-decimal_from zero n tail h = absurd (omega arith)
digits-decimal_from (suc fuel) n tail h = elim (Bool-cases (ltb n 10)) [
  | inl q ↦ rw q (digits-digit 0 n tail (ground arith) ∙ ap (λ m. digits m tail) (omega arith))
  | inr q ↦ rw q (
      digits-decimal_from fuel (n / 10) ((48 + n % 10) ∷ tail) (ground arith)
      ∙ digits-digit (n / 10) (n % 10) tail (omega arith)
      ∙ ap (λ m. digits m tail) (omega arith))
]

fits : (b : Bool) (bs out : List ℕ) → (if b then none else some bs) ≡ some out → out ≡ bs
fits true bs out h = ground arith
fits false bs out h = cc

header_lem : (r : Response) → header r ≡ header_start r ++ decimal (length r.body) ++ header_end
unfolding header
header_lem r = refl

written : (r : Response) (out : List ℕ) → write_response r ≡ some out → out ≡ header r ++ r.body
unfolding write_response
written r out h = fits (leb 256 (length (header r))) (header r ++ r.body) out h

after_value : (n : ℕ) (body : List ℕ) → digits n (header_end ++ body) ≡ (n, header_end ++ body)
unfolding digits
after_value n body = refl

value_read :
    (n : ℕ) (body : List ℕ) → digits 0 (decimal n ++ (header_end ++ body)) ≡ (n, header_end ++ body)
unfolding decimal
value_read n body =
    ap (digits 0) (decimal_from-append (suc n) n [] (header_end ++ body))
    ∙ digits-decimal_from (suc n) n (header_end ++ body) (omega arith)
    ∙ after_value n body

-- The bytes of a response, where its header fits, are the header up to the value of Content-Length,
-- that value, the end of the header and the body; and whoever reads the decimal digits at the value
-- gets the length of the body, and then the end of the header and the body.
pub write_response-length :
    (r : Response) (out : List ℕ)
    → write_response r ≡ some out
    → (out ≡ header_start r ++ (decimal (length r.body) ++ (header_end ++ r.body)))
      × (digits 0 (decimal (length r.body) ++ (header_end ++ r.body))
          ≡ (length r.body, header_end ++ r.body))
write_response-length r out h = (
  written r out h
      ∙ ap (λ l. l ++ r.body) (header_lem r)
      ∙ append_assoc (header_start r ++ decimal (length r.body)) header_end r.body
      ∙ append_assoc (header_start r) (decimal (length r.body)) (header_end ++ r.body),
  value_read (length r.body) r.body,
)
