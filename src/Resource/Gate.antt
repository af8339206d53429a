-- ===== src/Resource/Gate.antt =====
-- Which requests get an order, and what the others get.
use redis_rest.Base.{
  true, false, List, [], ◌∷◌, ◌++◌, some, ◌≡◌, refl, sym, ◌∙◌, ap, Text, codes, text_eq,
  text_eq_refl, text_eq_iff, starts_with, Bool-cases, Option-cases, inl, inr, arith,
}
use redis_rest.Http.{ok_200, unauthorized_401, status_line, respond}
use redis_rest.Http.Frame.{read_response, read-respond}
use redis_rest.Resource.{
  base64_encode, find_credentials, user_pass, denied, auth, guarded, Order, body_of, order_handler,
  Logged, written,
}

-- A header line with the encoded pair, as HTTP's basic scheme asks for it.
abbrev pub Carries : Text → List (Text × Text) → Type 0
Carries encoded header =
    (before : List (Text × Text)) × (after : List (Text × Text)) × (header
      ≡ before ++ (codes "Authorization", codes "Basic " ++ encoded) ∷ after)

Carries-later :
    {encoded : Text} {header : List (Text × Text)} (line : Text × Text)
    → Carries encoded header
    → Carries encoded (line ∷ header)
Carries-later line (before, after, e) = (line ∷ before, after, ap (◌∷◌ line) e)

find-Carries :
    (encoded : Text) (header : List (Text × Text))
    → find_credentials encoded header ≡ true
    → Carries encoded header
unfolding find_credentials
find-Carries encoded [] h = cc
find-Carries encoded ((name, value) ∷ header) h =
    elim (Bool-cases (text_eq name (codes "Authorization"))) [
      | inr other ↦ Carries-later (name, value) (find-Carries encoded header (rw other at h))
      | inl named ↦ elim (Bool-cases (text_eq value (codes "Basic " ++ encoded))) [
        | inr other ↦
            Carries-later (name, value) (find-Carries encoded header (rw (named, other) at h))
        | inl same ↦ (
          [],
          header,
          rw
              (
                (text_eq_iff name (codes "Authorization")).0 named,
                (text_eq_iff value (codes "Basic " ++ encoded)).0 same,
              )
              refl,
        )
      ]
    ]

Carries-find :
    (encoded : Text) (before after : List (Text × Text))
    → find_credentials encoded
        (before ++ (codes "Authorization", codes "Basic " ++ encoded) ∷ after)
      ≡ true
unfolding find_credentials
Carries-find encoded [] after =
    rw (text_eq_refl (codes "Authorization"), text_eq_refl (codes "Basic " ++ encoded)) refl
Carries-find encoded ((name, value) ∷ before) after =
    ground (arith, Carries-find encoded before after)

-- The service's credentials, as a client encodes them.
abbrev pub Authorized : (Text → Text) → List (Text × Text) → Type 0
Authorized sextets header =
    (encoded : Text) × (base64_encode sextets user_pass ≡ some encoded) × Carries encoded header

module _ (sextets : Text → Text) where
  auth-Authorized :
      (header : List (Text × Text))
      → auth sextets header user_pass ≡ true
      → Authorized sextets header
  unfolding auth
  auth-Authorized header h = elim (Option-cases (base64_encode sextets user_pass)) [
    | inl nothing ↦ absurd (refused (rw (nothing, auth) at h))
    | inr (encoded, e) ↦ (encoded, e, find-Carries encoded header (rw (e, auth) at h))
  ]
    where
      refused : false ≡ true → ⊥
      refused h = cc

  Authorized-auth :
      (header : List (Text × Text))
      → Authorized sextets header
      → auth sextets header user_pass ≡ true
  unfolding auth
  Authorized-auth header (encoded, e, (before, after, there)) =
      rw (e, auth) (rw there (Carries-find encoded before after))

  guarded-denied :
      (logged : Logged) (header : List (Text × Text)) (body : Text)
      → auth sextets header user_pass ≡ false
      → guarded sextets logged header body ≡ respond unauthorized_401 denied
  unfolding guarded
  guarded-denied logged header body h = rw (h, guarded) refl

  denied_status : starts_with (status_line ok_200) (respond unauthorized_401 denied) ≡ false
  unfolding respond starts_with
  denied_status = refl

  -- Whatever logging does and whichever resource is asked for: a response with the status line of 200
  -- is written only to a request with a header line that carries the encoded credentials.
  pub orders_need_credentials :
      (logged : Logged) (header : List (Text × Text)) (order : Order)
      → starts_with (status_line ok_200) (order_handler sextets logged header order) ≡ true
      → Authorized sextets header
  unfolding order_handler
  orders_need_credentials logged header order success =
      elim (Bool-cases (auth sextets header user_pass)) [
        | inl allowed ↦ auth-Authorized header allowed
        | inr refused ↦ absurd (
            differ (
              sym (rw (guarded-denied logged header (body_of order) refused) at success)
              ∙ denied_status))
      ]
    where
      differ : true ≡ false → ⊥
      differ h = cc

  -- If logging does not raise, a request with the credentials is answered with status 200 and the
  -- resource's body, which a client reads back, and then what was sent next.
  pub Authorized-order :
      (header : List (Text × Text)) (order : Order) (next : Text)
      → Authorized sextets header
      → read_response ok_200 (order_handler sextets written header order ++ next)
        ≡ (body_of order, next)
  unfolding order_handler guarded
  Authorized-order header order next credentials =
      rw (Authorized-auth header credentials) (read-respond ok_200 (body_of order) next)
