-- ===== src/Http/Frame.antt =====
-- A client that reads the length and then as many bytes gets the body that was sent.
use redis_rest.Base.{
  ℕ, zero, suc, ◌+◌, ◌*◌, ◌-◌, ◌/◌, ◌%◌, ◌<◌, Bool, true, false, [], ◌∷◌, ◌++◌, append_assoc, ◌≡◌,
  refl, ap, ◌∙◌, Text, codes, length, take, drop, ltb, leb, ◌&&◌, if◌then◌else◌, arith,
  take-length_append, drop-length_append, Bool-cases, inl, inr,
}
use redis_rest.Http.{digits_from, decimal, Status, status_line, respond}

abbrev is_digit : ℕ → Bool
is_digit d = leb b'0' d && leb d b'9'

-- A reader of decimal numbers: the number, and what follows it.
read_number : ℕ → Text → ℕ × Text
read_number n [] = (n, [])
read_number n (d ∷ t) =
    let more = read_number (n * 10 + (d - b'0')) t in if is_digit d then more else (n, d ∷ t)

-- A reader of responses: behind the status line the length, an empty line, and that many bytes; then
-- what follows.
take_body : ℕ × Text → Text × Text
take_body (n, t) = (take n (drop 4 t), drop n (drop 4 t))

pub read_response : Status → Text → Text × Text
unfolding read_number take_body
read_response status t = take_body (read_number 0 (drop (length (status_line status)) t))

-- The digits of `n` before `out`, read after a number `k`.
abbrev Stops : Text → Type 0
Stops [] = Unit {0}
Stops (d ∷ t) = is_digit d ≡ false

read_stop : (n : ℕ) (t : Text) → Stops t → read_number n t ≡ (n, t)
unfolding read_number
read_stop n [] h = refl
read_stop n (d ∷ t) h = rw h

digit_value : (d : ℕ) → (b'0' + d) - b'0' ≡ d
digit_value d = omega arith

digit_test : (d : ℕ) → d < 10 → (leb b'0' (b'0' + d) && leb (b'0' + d) b'9') ≡ true
digit_test d h = ground arith

read_digit :
    (n d : ℕ) (t : Text) → d < 10 → read_number n ((b'0' + d) ∷ t) ≡ read_number (n * 10 + d) t
unfolding read_number
read_digit n d t h = rw (digit_test d h, digit_value d) refl

digits-append :
    (fuel n : ℕ) (out t : Text) → digits_from fuel n out ++ t ≡ digits_from fuel n (out ++ t)
unfolding digits_from
digits-append zero n out t = refl
digits-append (suc fuel) n out t =
    ground (arith, digits-append fuel (n / 10) ((b'0' + n % 10) ∷ out) t)

read-digits :
    (fuel n : ℕ) (out : Text)
    → n < fuel
    → read_number 0 (digits_from fuel n out) ≡ read_number n out
unfolding digits_from
read-digits zero n out h = grind (arith, h)
read-digits (suc fuel) n out h = elim (Bool-cases (ltb n 10)) [
  | inl small ↦
      rw small
        (read_digit 0 n out (ground (arith, small)) ∙ ap (λ k. read_number k out) (omega arith))
  | inr large ↦ rw large (
      read-digits fuel (n / 10) ((b'0' + n % 10) ∷ out) (ground (arith, large, h))
      ∙ read_digit (n / 10) (n % 10) out (omega arith)
      ∙ ap (λ k. read_number k out) (omega arith))
]

read-decimal : (n : ℕ) (t : Text) → Stops t → read_number 0 (decimal n ++ t) ≡ (n, t)
unfolding decimal
read-decimal n t h =
    rw (digits-append (suc n) n [] t) (read-digits (suc n) n t (omega arith) ∙ read_stop n t h)

abbrev blank : Text
blank = codes "\r\n\r\n"

layout :
    (status : Status) (body more : Text)
    → respond status body ++ more
      ≡ status_line status ++ (decimal (length body) ++ (blank ++ (body ++ more)))
unfolding respond
layout status body more = simp append_assoc

take_body_lem : (body more : Text) → take_body (length body, blank ++ (body ++ more)) ≡ (body, more)
unfolding take_body
take_body_lem body more = rw (take-length_append body more, drop-length_append body more) refl

-- A client that knows the status reads back the body that a handler sent, and what follows it.
pub read-respond :
    (status : Status) (body more : Text)
    → read_response status (respond status body ++ more) ≡ (body, more)
unfolding read_response
read-respond status body more =
    rw
      (
        layout status body more,
        drop-length_append (status_line status)
            (decimal (length body) ++ (blank ++ (body ++ more))),
        read-decimal (length body) (blank ++ (body ++ more)) refl,
      )
      (take_body_lem body more)
