-- ===== src/Resource.antt =====
-- The mock of the order service: `server_resource` of src/serverResource.hpp, with Base64Encode of
-- src/shared.hpp. A handler is what it writes to its response; the number that some branches return
-- is discarded.
pub mod Gate
pub mod Base64
pub mod Token
use redis_rest.Base.{
  ℕ, zero, suc, ◌-◌, ◌%◌, Bool, true, false, List, [], ◌∷◌, ◌++◌, Option, none, some, Text, codes,
  length, text_eq, is_empty, ◌&&◌, if◌then◌else◌,
}
use redis_rest.Http.{ok_200, bad_request_400, unauthorized_401, respond}

-- for (i = 0; i < equal_count; i++) result.put('=')
unfoldable pub equal_signs : ℕ → Text
equal_signs zero = []
equal_signs (suc n) = b'=' ∷ equal_signs n

-- Boost's iterators write `sextets`, one digit for six bits; then the padding. `none` is an empty
-- output, for which the function returns false.
unfoldable pub base64_encode : (Text → Text) → Text → Option Text
base64_encode sextets input =
    let output = sextets input ++ equal_signs ((3 - length input % 3) % 3) in
    if is_empty output then none else some output

-- The loop over the headers.
unfoldable pub find_credentials : Text → List (Text × Text) → Bool
find_credentials encoded [] = false
find_credentials encoded ((name, value) ∷ header) =
    let later = find_credentials encoded header in
    if text_eq name (codes "Authorization")
    then (if text_eq value (codes "Basic " ++ encoded) then true else later)
    else later

abbrev pub user_pass : Text
user_pass = codes "testapi@orderbot.com:ShinyElephant232#"

abbrev pub denied : Text
denied = codes "{\"Message\":\"Authorization has been denied for this request.\"}"

abbrev pub last_part : Text
last_part =
    codes ", \"customer_po\" : null, \"order_date\" : \"2015-04-16\", \"last_modified\" :"
    ++ codes " \"2015-08-13\", \"ship_date\" : \"2015-04-16\", \"shipping_method\" : \"UPS Gr"
    ++ codes "ound\", \"order_status\" : \"unshipped\", \"customer_id\" : 1, \"order_tax_tot"
    ++ codes "al\" : 0, \"shipping_total\" : 0, \"discount_total\" : 0, \"order_total\" : 0"
    ++ codes ", \"notes\" : \"\", \"internal_notes\" : \"\", \"shipping_address\" : {\t\t\t\"store"
    ++ codes "_name\": null, \"full_name\" : \"John Smith\", \"street1\" : \"123 1st St.\", \""
    ++ codes "street2\" : \"\", \"city\" : \"San Francisco\", \"state\" : \"CA\", \"postal_code\""
    ++ codes " : \"11223\", \"country\" : \"US\", \"phone\" : \"5555555555\", \"fax\" : null, \"e"
    ++ codes "mail\" : \"support@orderbot.com\", Orderbot API\t\t\t\tNovember 23rd, 2015 12"
    ++ codes
        "\t\t\t\t\"website\" : null\t\t}, \"billing_address\" : {\t\t\t\t\"sales_channel\": \"DT"
    ++ codes "C\", \"full_name\" : \"John Smith\", \"street1\" : \"123 1st St.\", \"street2\" :"
    ++ codes " \"\", \"city\" : \"San Francisco\", \"state\" : \"CA\", \"postal_code\" : \"11223\""
    ++ codes ", \"country\" : \"US\", \"phone\" : \"5555555555\", \"fax\" : null, \"email\" : \"s"
    ++ codes "upport@orderbot.com\", \"website\" : null\t\t\t}, \"payment\" : [{\t\t\t\t\t\"paymen"
    ++ codes "t_method\": \"Paid From Web\", \"amount_paid\" : 0.1\t\t\t\t}, { \"payment_metho"
    ++ codes "d\": \"VOID\", \"amount_paid\" : -24.96 }, { \"payment_method\": \"Credit\", \"a"
    ++ codes "mount_paid\" : 24.96 }, { \"payment_method\": \"Customer Service\", \"amount"
    ++ codes "_paid\" : -0.1 }], \"items\" : [{\t\t\t\t\"item_id\": 0, \"product_id\" : 96211, "
    ++ codes "\"sku\" : \"ASDF123\", \"name\" : \"Test Product\", \"quantity\" : 1, \"unit_pric"
    ++ codes "e\" : 0, \"discount\" : 0, \"product_tax\" : 0, \"product_tax_total\" : 0, \"p"
    ++ codes "roduct_total\" : 0, \"weight\" : 0.5\t\t\t}], \"tracking_numbers\" : null, \"ot"
    ++ codes "her_charges\" : null }"

-- string body = first + number + last
abbrev pub order_body : Text → Text
order_body number = codes "{ \"order_id\":" ++ number ++ last_part

abbrev pub updated_body : Text
updated_body =
    codes "{ \"response_code\": 1, \"orderbot_order_id\" : 2, \"reference_order_id\" : "
    ++ codes "null, \"success\" : true, \"message\" : \"Order has been updated successful"
    ++ codes "ly!\" }"

-- The three resources; `number` is what the path has for ([0-9]+).
pub data Order : Type 0 where
  list_orders update_order : Order
  show_order : Text → Order

abbrev pub body_of : Order → Text
body_of list_orders = codes "test"
body_of update_order = updated_body
body_of (show_order number) = order_body number

-- How the log line in a handler ends: written, with an exception that has a `what()`, or another one.
pub data Logged : Type 0 where
  written raised_other : Logged
  raised : Text → Logged

module _ (sextets : Text → Text) where
  -- auth(request, user_pass)
  unfoldable pub auth : List (Text × Text) → Text → Bool
  auth header user_pass = elim (base64_encode sextets user_pass) [
    | none ↦ false
    | some encoded ↦ find_credentials encoded header
  ]

  -- The guard, the log line, the answer, and the three catch blocks.
  unfoldable pub guarded : Logged → List (Text × Text) → Text → Text
  guarded logged header body =
      if auth header user_pass
      then elim logged [
        | written ↦ respond ok_200 body
        | raised what ↦ respond bad_request_400 what
        | raised_other ↦ respond bad_request_400 (codes "unknown error")
      ]
      else respond unauthorized_401 denied

  unfoldable pub order_handler : Logged → List (Text × Text) → Order → Text
  unfolding guarded
  order_handler logged header order = guarded logged header (body_of order)
