-- ===== src/WebClient/Forms.antt =====
-- A form is read back from what makePost sends.
use redis_rest.Base.{
  ℕ, Bool, true, false, List, [], ◌∷◌, ◌++◌, append_assoc, append-nil, Option, none, some, ◌≡◌, ◌≢◌,
  refl, ap, ◌∙◌, Text, codes, c_str-of_NoNul, NoNul, Lacks, All, All-append, ltb, ◌+◌, ◌-◌, ◌*◌,
  is_empty, ◌==◌, if◌then◌else◌, arith,
}
use redis_rest.WebClient.{
  Fields, encode_rest, encode_post_fields, Options, Client, make_request, make_post,
}

-- A reader of forms: fields end at '&', and a field's value begins behind its first '='.
abbrev Field : Type 0
Field = Text × Option Text

grown : Field → ℕ → Field
grown (key, none) c = if c == b'=' then (key, some []) else (key ++ c ∷ [], none)
grown (key, some value) c = (key, some (value ++ c ∷ []))

whole : Field → Text × Text
whole (key, none) = (key, [])
whole (key, some value) = (key, value)

read_from : Field → Text → Fields
unfolding grown whole
read_from field [] = whole field ∷ []
read_from field (c ∷ t) =
    let next = whole field ∷ read_from ([], none) t in
    let later = read_from (grown field c) t in if c == b'&' then next else later

-- A hexadecimal digit.
hex_value : ℕ → Option ℕ
hex_value c =
    if ltb c b'0'
    then none
    else if ltb c 58
    then some (c - b'0')
    else if ltb c b'A'
    then none
    else if ltb c b'G'
    then some (c - 55)
    else if ltb c b'a'
    then none
    else if ltb c b'g'
    then some (c - 87)
    else none

-- '%' and two digits are the byte of that number, and anything else stands for itself.
escaped : Option ℕ → Option ℕ → Text → Text → Text
escaped (some high) (some low) behind plain = (high * 16 + low) ∷ behind
escaped none low behind plain = plain
escaped high none behind plain = plain

-- '+' is a space.
plus : ℕ → ℕ
plus c = if c == b'+' then b' ' else c

-- application/x-www-form-urlencoded, undone.
decode : Text → Text
unfolding hex_value escaped plus
decode [] = []
decode (c ∷ []) = plus c ∷ []
decode (c ∷ h ∷ []) = plus c ∷ plus h ∷ []
decode (c ∷ h ∷ l ∷ t) =
    let behind = decode t in
    let plain = plus c ∷ decode (h ∷ l ∷ t) in
    if c == b'%' then escaped (hex_value h) (hex_value l) behind plain else plain

decoded : Fields → Fields
decoded [] = []
decoded ((key, value) ∷ rest) = (decode key, decode value) ∷ decoded rest

pub read_form : Text → Fields
unfolding read_from decoded decode
read_form t = decoded (if is_empty t then [] else read_from ([], none) t)

-- No '+' and no '%'.
abbrev pub Unescaped : Text → Type 0
Unescaped t = Lacks b'+' t × Lacks b'%' t

-- A field that its encoding keeps apart from the others.
abbrev pub Plain : Text × Text → Type 0
Plain (key, value) =
    (Lacks b'=' key × Lacks b'&' key × Lacks b'&' value × NoNul key × NoNul value)
    × (Unescaped key × Unescaped value)

other_byte : (c d : ℕ) → c ≢ d → (c == d) ≡ false
other_byte c d h = ground arith

decode-Unescaped : (t : Text) → Unescaped t → decode t ≡ t
unfolding decode plus
decode-Unescaped [] h = refl
decode-Unescaped (c ∷ []) ((p, _), (e, _)) = ground arith
decode-Unescaped (c ∷ x ∷ []) ((p, (q, _)), (e, _)) = ground arith
decode-Unescaped (c ∷ x ∷ y ∷ t) ((p, ps), (e, es)) =
    let later = decode-Unescaped (x ∷ y ∷ t) (ps, es) in
    let space : plus c ≡ c = ground arith in rw (other_byte c b'%' e, space) (ap (◌∷◌ c) later)

decoded-Plain : (fields : Fields) → All Plain fields → decoded fields ≡ fields
unfolding decoded
decoded-Plain [] h = refl
decoded-Plain ((key, value) ∷ rest) ((_, (k, v)), h) =
    rw (decode-Unescaped key k, decode-Unescaped value v, decoded-Plain rest h) refl

read-key :
    (k key t : Text)
    → Lacks b'=' key
    → Lacks b'&' key
    → read_from (k, none) (key ++ t) ≡ read_from (k ++ key, none) t
unfolding read_from grown
read-key k [] t h g = rw (append-nil k) refl
read-key k (c ∷ key) t (h, hs) (g, gs) =
    rw (other_byte c b'&' g, other_byte c b'=' h)
      (read-key (k ++ c ∷ []) key t hs gs
        ∙ ap (λ s. read_from (s, none) t) (append_assoc k (c ∷ []) key))

read-value :
    (k v value t : Text)
    → Lacks b'&' value
    → read_from (k, some v) (value ++ t) ≡ read_from (k, some (v ++ value)) t
unfolding read_from grown
read-value k v [] t g = rw (append-nil v) refl
read-value k v (c ∷ value) t (g, gs) = rw (other_byte c b'&' g) (
    read-value k (v ++ c ∷ []) value t gs
    ∙ ap (λ s. read_from (k, some s) t) (append_assoc v (c ∷ []) value))

-- The reader at the start of a field.
read-field :
    (key value t : Text)
    → Plain (key, value)
    → read_from ([], none) (key ++ (codes "=" ++ (value ++ t))) ≡ read_from (key, some value) t
unfolding read_from grown
read-field key value t ((no_eq, no_amp, plain, key_nul, value_nul), _) =
    read-key [] key (codes "=" ++ (value ++ t)) no_eq no_amp ∙ read-value key [] value t plain

read-rest :
    (key value : Text) (rest : Fields)
    → All Plain rest
    → read_from (key, some value) (encode_rest rest) ≡ (key, value) ∷ rest
unfolding read_from encode_rest whole
read-rest key value [] h = refl
read-rest key value ((k, v) ∷ rest) (plain, h) =
    ap (◌∷◌ (key, value)) (read-field k v (encode_rest rest) plain ∙ read-rest k v rest h)

field_text : (key t : Text) → is_empty (key ++ (codes "=" ++ t)) ≡ false
field_text [] t = refl
field_text (c ∷ key) t = refl

read-encode : (fields : Fields) → All Plain fields → read_form (encode_post_fields fields) ≡ fields
unfolding read_form encode_post_fields
read-encode [] h = unfold decoded in refl
read-encode ((key, value) ∷ rest) (plain, h) = rw (field_text key (value ++ encode_rest rest)) (
    ap decoded (read-field key value (encode_rest rest) plain ∙ read-rest key value rest h)
    ∙ decoded-Plain ((key, value) ∷ rest) (plain, h))

rest-NoNul : (fields : Fields) → All Plain fields → NoNul (encode_rest fields)
unfolding encode_rest
rest-NoNul [] h = tt
rest-NoNul ((key, value) ∷ rest) (((e, a, v, key_nul, value_nul), _), h) = (
  λ z. absurd (omega (arith, z)),
  All-append _ key _ key_nul
      (λ z. absurd (omega (arith, z)), All-append _ value _ value_nul (rest-NoNul rest h)),
)

encode-NoNul : (fields : Fields) → All Plain fields → NoNul (encode_post_fields fields)
unfolding encode_post_fields
encode-NoNul [] h = tt
encode-NoNul ((key, value) ∷ rest) (((e, a, v, key_nul, value_nul), _), h) =
    All-append _ key _ key_nul
      (λ z. absurd (omega (arith, z)), All-append _ value _ value_nul (rest-NoNul rest h))

-- Whatever libcurl does: if no key holds '=', and no key and no value holds '&', '+', '%' or a NUL byte,
-- then what makePost hands to libcurl as the body of a POST is read back, field for field, as
-- m_postfields, by a reader that takes '+' for a space and decodes what '%' escapes.
pub make_post-reads :
    (perform : Options → Bool × List Text) (c : Client)
    → All Plain c.postfields
    → let after = make_post perform c in
      (form : Text) × (after.1.options.post_fields ≡ some form)
      × (after.1.options.post ≡ true)
      × (read_form form ≡ c.postfields)
unfolding make_post make_request
make_post-reads perform c plain =
    let form = encode_post_fields c.postfields in
    (
      form,
      ap some (c_str-of_NoNul form (encode-NoNul c.postfields plain)),
      refl,
      read-encode c.postfields plain,
    )

-- A value is not escaped: one that holds '&' and '=' is sent as a field of its own.
encode_ambiguous :
    (key value key' value' : Text)
    → encode_post_fields ((key, value ++ (codes "&" ++ (key' ++ (codes "=" ++ value')))) ∷ [])
      ≡ encode_post_fields ((key, value) ∷ (key', value') ∷ [])
unfolding encode_post_fields encode_rest
encode_ambiguous key value key' value' = simp (append_assoc, append-nil)
