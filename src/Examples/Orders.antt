-- ===== src/Examples/Orders.antt =====
-- The theorems on the order service, with the digits of base64 written out.
use redis_rest.Base.{
  ℕ, ◌+◌, ◌-◌, ◌*◌, ◌/◌, ◌%◌, true, List, [], ◌∷◌, ◌++◌, some, ◌≡◌, refl, Text, codes, length, ltb,
  text_eq, starts_with, if◌then◌else◌, arith,
}
use redis_rest.Http.{ok_200, status_line, respond}
use redis_rest.Http.Frame.{read_response}
use redis_rest.Resource.{
  base64_encode, user_pass, show_order, update_order, body_of, order_handler, find_credentials,
  auth, guarded, equal_signs, written,
}
use redis_rest.Resource.Gate.{Authorized, orders_need_credentials, Authorized-order}
use redis_rest.Resource.Base64.{base64_encode-length}

abbrev digit : ℕ → ℕ
digit d =
    if ltb d 26
    then b'A' + d
    else (if ltb d 52
        then b'a' + (d - 26)
        else (if ltb d 62 then b'0' + (d - 52) else (if ltb d 63 then b'+' else b'/')))

-- Three bytes are four digits; bytes that are missing count as zero.
abbrev digits : Text → Text
digits [] = []
digits (a ∷ []) = digit (a / 4) ∷ digit (a % 4 * 16) ∷ []
digits (a ∷ b ∷ []) = digit (a / 4) ∷ digit (a % 4 * 16 + b / 16) ∷ digit (b % 16 * 4) ∷ []
digits (a ∷ b ∷ c ∷ rest) =
    digit (a / 4)
    ∷ digit (a % 4 * 16 + b / 16)
    ∷ digit (b % 16 * 4 + c / 64)
    ∷ digit (c % 64)
    ∷ digits rest

abbrev encoded_pass : Text
encoded_pass = codes "dGVzdGFwaUBvcmRlcmJvdC5jb206U2hpbnlFbGVwaGFudDIzMiM="

abbrev signed : List (Text × Text)
signed =
    (codes "Host", codes "localhost") ∷ (codes "Authorization", codes "Basic " ++ encoded_pass) ∷ []

pass_encoded : base64_encode digits user_pass ≡ some encoded_pass
unfolding base64_encode equal_signs
pass_encoded = refl

signed-Authorized : Authorized digits signed
signed-Authorized = (encoded_pass, pass_encoded, ((codes "Host", codes "localhost") ∷ [], [], refl))

base64_encode-length_example :
    (output : Text) × (base64_encode digits (codes "any carnal") ≡ some output)
    × (length output ≡ (length (codes "any carnal") + 2) / 3 * 4)
base64_encode-length_example = base64_encode-length digits (codes "any carnal") (omega arith) refl

Authorized-order_example :
    read_response ok_200
      (order_handler digits written signed (show_order (codes "42")) ++ codes "next")
    ≡ (body_of (show_order (codes "42")), codes "next")
Authorized-order_example =
    Authorized-order digits signed (show_order (codes "42")) (codes "next") signed-Authorized

update_answered :
    starts_with (status_line ok_200) (order_handler digits written signed update_order) ≡ true
unfolding order_handler guarded auth find_credentials text_eq base64_encode equal_signs starts_with
    respond
update_answered = refl

orders_need_credentials_example : Authorized digits signed
orders_need_credentials_example =
    orders_need_credentials digits written signed update_order update_answered
