-- ===== src/Resource/Token.antt =====
-- The mock of the token service: the handler of `servers_resource` in src/serverResource.hpp, and
-- Base64Decode of src/shared.hpp.
use redis_rest.Base.{List, ◌++◌, Option, none, some, Text, codes, is_empty, if◌then◌else◌}
use redis_rest.Http.{ok_200, respond}

abbrev pub token_body : Text
token_body =
    codes "{\"scope\":\"https://uri.paypal.com/services/subscriptions https://api.pa"
    ++ codes "ypal.com/v1/payments/.* https://api.paypal.com/v1/vault/credit-card ht"
    ++ codes "tps://uri.paypal.com/services/applications/webhooks openid https://uri"
    ++ codes ".paypal.com/payments/payouts https://api.paypal.com/v1/vault/credit-ca"
    ++ codes "rd/.*\",\"nonce\":\"2016-03-02T01:35:46ZVE_OhmUsT5Vet3P2_cfdNCJgtyAklDR25q"
    ++ codes "-gpGOGz0Q\",\"access_token\":\"A101.ommTBLGTeWL-kV_w1GM21nkCPhryvD-GnRKq0e"
    ++ codes "lXjtWeRAkSGYiIFfAQt-Y406QZ.gAqorjqLhDOmv4PEw7trNR3L5Ua\",\"token_type\":\""
    ++ codes "Bearer\",\"app_id\":\"APP-80W284485P519543T\",\"expires_in\":32400}"

-- The headers and the content are printed; the test of the credentials is commented out.
abbrev pub issue_token : List (Text × Text) → Text → Text
issue_token header content = respond ok_200 token_body

-- Boost's iterators write `octets`, or raise. `none` is an exception or an empty output, for which the
-- function returns false.
unfoldable pub base64_decode : (Text → Option Text) → Text → Option Text
base64_decode octets input = elim (octets input) [
  | none ↦ none
  | some output ↦ if is_empty output then none else some output
]
