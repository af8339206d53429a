-- ===== src/Http.antt =====
-- The HTTP responses that the handlers write to their stream.
pub mod Frame
use redis_rest.Base.{
  ℕ, zero, suc, ◌+◌, ◌/◌, ◌%◌, List, [], ◌∷◌, ◌++◌, Text, codes, length, ltb, if◌then◌else◌,
}

-- An `ostream` prints a `size_t` in decimal: the digits of `n` before `out`, on fuel above `n`.
pub digits_from : ℕ → ℕ → Text → Text
digits_from zero n out = out
digits_from (suc fuel) n out =
    let more = digits_from fuel (n / 10) ((b'0' + n % 10) ∷ out) in
    if ltb n 10 then (b'0' + n) ∷ out else more

unfoldable pub decimal : ℕ → Text
unfolding digits_from
decimal n = digits_from (suc n) n []

pub data Status : Type 0 where
  ok_200 bad_request_400 unauthorized_401 : Status

-- The status line up to the length, as the handlers write it.
abbrev pub status_line : Status → Text
status_line ok_200 = codes "HTTP/1.1 200 OK\r\nContent-Length: "
status_line unauthorized_401 = codes "HTTP/1.1 401 Unauthorized\r\nContent-Length: "
status_line bad_request_400 = codes "HTTP/1.1 400 Bad Request\r\nContent-Length: "

-- response << "…Content-Length: " << body.length() << "\r\n\r\n" << body
unfoldable pub respond : Status → Text → Text
respond status body = status_line status ++ decimal (length body) ++ codes "\r\n\r\n" ++ body
