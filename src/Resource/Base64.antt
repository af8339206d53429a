-- ===== src/Resource/Base64.antt =====
-- The size of what Base64Encode of src/shared.hpp gives.
use redis_rest.Base.{
  ℕ, zero, suc, ◌+◌, ◌-◌, ◌*◌, ◌/◌, ◌%◌, ◌<◌, false, [], ◌∷◌, ◌++◌, some, ◌≡◌, refl, Text, length,
  length-append, is_empty, arith,
}
use redis_rest.Resource.{equal_signs, base64_encode}

length-equal_signs : (n : ℕ) → length (equal_signs n) ≡ n
unfolding equal_signs
length-equal_signs zero = refl
length-equal_signs (suc n) = omega (arith, length-equal_signs n)

not_empty : (t : Text) → 0 < length t → is_empty t ≡ false
not_empty [] h = absurd (omega (arith, h))
not_empty (x ∷ t) h = refl

-- If the iterators write one digit for each six bits that the input begins, an input that is not
-- empty is encoded, in four digits for each three bytes that it begins.
pub base64_encode-length :
    (sextets : Text → Text) (input : Text)
    → 0 < length input
    → length (sextets input) ≡ (length input * 8 + 5) / 6
    → (output : Text) × (base64_encode sextets input ≡ some output)
      × (length output ≡ (length input + 2) / 3 * 4)
unfolding base64_encode
base64_encode-length sextets input some_bytes digits =
    let signs = equal_signs ((3 - length input % 3) % 3) in
    let size : length (sextets input ++ signs) ≡ (length input + 2) / 3 * 4 = omega (
      arith,
      digits,
      length-append (sextets input) signs,
      length-equal_signs ((3 - length input % 3) % 3),
    ) in
    (
      sextets input ++ signs,
      rw (not_empty (sextets input ++ signs) (omega (arith, size, some_bytes)), base64_encode) refl,
      size,
    )
