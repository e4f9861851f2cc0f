-- ===== src/Http/Request/Fragments.antt =====
-- http.c: the request line is the same however the bytes of a request are cut into reads.
use gpu_health_index.Prelude.{
  ℕ, zero, suc, ◌+◌, ◌-◌, ◌≤◌, ◌<◌, ◌≡◌, refl, ap, sym, ◌∙◌, subst, inl, inr, true, false, Option,
  some, List, [], ◌∷◌, ◌++◌, append-nil, append_assoc, take-append-drop, take, drop, length, ◌==◌,
  arith, Bool-cases, length-append,
}
use gpu_health_index.Http.Request.{
  Read, arrived, interrupted, closed, has_byte, read_until, split_at, parse_request, parse_line,
  with_buffer, read_request_line,
}

heads : {x y : ℕ} {xs ys : List ℕ} → x ∷ xs ≡ y ∷ ys → x ≡ y
heads e = cc

tails : {x y : ℕ} {xs ys : List ℕ} → x ∷ xs ≡ y ∷ ys → xs ≡ ys
tails e = cc

-- all the bytes that a list of calls could deliver
unfoldable pub stream : List Read → List ℕ
stream [] = []
stream (arrived [] ∷ rs) = []
stream (arrived (b ∷ bs) ∷ rs) = (b ∷ bs) ++ stream rs
stream (interrupted ∷ rs) = stream rs
stream (closed ∷ rs) = []

newline_in : (line rest : List ℕ) → has_byte 10 (line ++ 10 ∷ rest) ≡ true
unfolding has_byte
newline_in [] rest = refl
newline_in (x ∷ line) rest = ground (arith, newline_in line rest)

-- A buffer with a newline, of a text whose first line is `line`, holds the line and its newline.
first_line :
    (xs ys line rest : List ℕ)
    → xs ++ ys ≡ line ++ 10 ∷ rest
    → has_byte 10 line ≡ false
    → has_byte 10 xs ≡ true
    → (tail : List ℕ) × (xs ≡ line ++ 10 ∷ tail)
unfolding has_byte
first_line [] ys line rest e h b = ground arith
first_line (x ∷ xs) ys [] rest e h b = (xs, ap (λ x. x ∷ xs) (heads e))
first_line (x ∷ xs) ys (l ∷ line) rest e h b =
    let (tail, same) = first_line xs ys line rest (tails e) (ground arith) (inside (heads e)) in
    (tail, ap (λ x. x ∷ xs) (heads e) ∙ ap (λ xs. l ∷ xs) same)
  where
    inside : x ≡ l → has_byte 10 xs ≡ true
    inside p = ground arith

-- A buffer longer than the line has its newline.
long_enough :
    (xs ys line rest : List ℕ)
    → xs ++ ys ≡ line ++ 10 ∷ rest
    → length line < length xs
    → has_byte 10 xs ≡ true
unfolding has_byte
long_enough [] ys line rest e h = absurd (omega arith)
long_enough (x ∷ xs) ys [] rest e h = let p = heads e in ground arith
long_enough (x ∷ xs) ys (l ∷ line) rest e h =
    let b = long_enough xs ys line rest (tails e) (omega arith) in ground arith

split_at-line :
    (line tail : List ℕ)
    → has_byte 10 line ≡ false
    → parse_request (line ++ 10 ∷ tail) ≡ parse_line line
unfolding parse_request has_byte
split_at-line line tail h = rw (go line h) refl
  where
    go :
        (line : List ℕ)
        → has_byte 10 line ≡ false
        → split_at 10 (line ++ 10 ∷ tail) ≡ some (line, tail)
    go [] h = unfold split_at in refl
    go (x ∷ line) h = unfold split_at in ground (arith, go line)

-- bytes that did not fit
nothing_left : (n : ℕ) (xs : List ℕ) → length (take n xs) < n → drop n xs ≡ []
nothing_left zero xs h = absurd (omega arith)
nothing_left (suc n) [] h = refl
nothing_left (suc n) (x ∷ xs) h = nothing_left n xs (omega arith)

module _ (line rest : List ℕ) (one_line : has_byte 10 line ≡ false) where
  -- the buffer in which a read of the request ends
  abbrev Found : Option (List ℕ) → Type 0
  Found o = (tail : List ℕ) × (o ≡ some (line ++ 10 ∷ tail))

  no_end : (buf : List ℕ) → buf ++ [] ≡ line ++ 10 ∷ rest → has_byte 10 buf ≡ false → ⊥
  no_end buf e h =
      let p = newline_in line rest in
      let q = sym (append-nil buf) ∙ e in let r = ap (has_byte 10) q in ground arith

  not_full :
      (buf more : List ℕ) (room : ℕ)
      → buf ++ more ≡ line ++ 10 ∷ rest
      → has_byte 10 buf ≡ false
      → length line < length buf + room
      → (room == 0) ≡ false
  not_full buf more room e h p = ground (arith, long_enough buf more line rest e)

  cut_parts :
      (room : ℕ) (buf bs more : List ℕ)
      → buf ++ (bs ++ more) ≡ line ++ 10 ∷ rest
      → (buf ++ take room bs) ++ (drop room bs ++ more) ≡ line ++ 10 ∷ rest
  cut_parts room buf bs more e =
      append_assoc buf (take room bs) (drop room bs ++ more)
      ∙ ap (λ l. buf ++ l) (sym (append_assoc (take room bs) (drop room bs) more))
      ∙ ap (λ l. buf ++ (l ++ more)) (take-append-drop room bs)
      ∙ e

  not_longer :
      (room : ℕ) (buf bs more : List ℕ)
      → buf ++ (bs ++ more) ≡ line ++ 10 ∷ rest
      → has_byte 10 (buf ++ take room bs) ≡ false
      → length (buf ++ take room bs) ≤ length line
  not_longer room buf bs more e h = ground (
    arith,
    long_enough (buf ++ take room bs) (drop room bs ++ more) line rest
        (cut_parts room buf bs more e),
  )

  -- what fits leaves nothing of the read behind
  fitted :
      (room : ℕ) (buf bs more : List ℕ)
      → buf ++ (bs ++ more) ≡ line ++ 10 ∷ rest
      → length (take room bs) < room
      → (buf ++ take room bs) ++ more ≡ line ++ 10 ∷ rest
  fitted room buf bs more e h =
      subst (λ l. (buf ++ take room bs) ++ (l ++ more) ≡ line ++ 10 ∷ rest) (nothing_left room bs h)
        (cut_parts room buf bs more e)

  read_until-finds :
      (rs : List Read) (room : ℕ) (buf : List ℕ)
      → buf ++ stream rs ≡ line ++ 10 ∷ rest
      → has_byte 10 buf ≡ false
      → length line < length buf + room
      → Found (read_until room buf rs)
  unfolding read_until stream
  read_until-finds [] room buf e h p = absurd (no_end buf e h)
  read_until-finds (closed ∷ rs) room buf e h p = absurd (no_end buf e h)
  read_until-finds (interrupted ∷ rs) room buf e h p =
      rw (not_full buf (stream rs) room e h p) (read_until-finds rs room buf e h p)
  read_until-finds (arrived [] ∷ rs) room buf e h p = absurd (no_end buf e h)
  read_until-finds (arrived (b ∷ bs) ∷ rs) room buf e h p =
      rw (not_full buf ((b ∷ bs) ++ stream rs) room e h p)
        (elim (Bool-cases (has_byte 10 (buf ++ take room (b ∷ bs)))) [
          | inl q ↦
              let (tail, same) =
                first_line (buf ++ take room (b ∷ bs)) (drop room (b ∷ bs) ++ stream rs) line rest
                  (cut_parts room buf (b ∷ bs) (stream rs) e) one_line q in
              rw q (tail, ap some same)
          | inr q ↦
              let short = not_longer room buf (b ∷ bs) (stream rs) e q in
              let more =
                fitted room buf (b ∷ bs) (stream rs) e
                  (omega (arith, length-append buf (take room (b ∷ bs)))) in
              rw q (
                read_until-finds rs (room - length (take room (b ∷ bs))) (buf ++ take room (b ∷ bs))
                  more q (omega (arith, length-append buf (take room (b ∷ bs)))))
        ])

-- Take a request whose first line has no newline of its own and is shorter than the buffer less one
-- byte. However its bytes are cut into reads, and with any EINTR between them, read_request_line
-- gives the method and the path of that line; what follows the line makes no difference.
pub read_request_line-fragments :
    (size : ℕ) (line rest : List ℕ) (rs : List Read)
    → has_byte 10 line ≡ false
    → length line < size - 1
    → stream rs ≡ line ++ 10 ∷ rest
    → read_request_line size rs ≡ parse_line line
unfolding read_request_line with_buffer
read_request_line-fragments size line rest rs h p e =
    let (tail, same) = read_until-finds line rest h rs (size - 1) [] e no_newline (omega arith) in
    ap with_buffer same ∙ split_at-line line tail h
  where
    no_newline : has_byte 10 [] ≡ false
    no_newline = unfold has_byte in refl
