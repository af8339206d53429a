-- ===== src/WebClient.antt =====
-- The form client: `WebClient` of src/curl_client.hpp. libcurl is a parameter: `perform` acts on the
-- options that were set on the handle, which stay until they are set again.
pub mod Forms
pub mod Calls
use redis_rest.Base.{
  ℕ, Bool, true, false, List, [], ◌∷◌, ◌++◌, Option, none, some, Text, codes, c_str, text_eq, ltb,
  ◌==◌, if◌then◌else◌,
}
use redis_rest.Orderbot.{write_data}

-- operator< of std::string
unfoldable pub text_lt : Text → Text → Bool
text_lt [] [] = false
text_lt [] (y ∷ t) = true
text_lt (x ∷ s) [] = false
text_lt (x ∷ s) (y ∷ t) = let later = text_lt s t in if x == y then later else ltb x y

-- m_postfields, in the order of its keys.
abbrev pub Fields : Type 0
Fields = List (Text × Text)

-- m_postfields[key] = value
unfoldable pub put_field : Text → Text → Fields → Fields
unfolding text_lt
put_field key value [] = (key, value) ∷ []
put_field key value ((k, v) ∷ rest) =
    let later = put_field key value rest in
    if text_eq key k
    then (k, value) ∷ rest
    else (if text_lt key k then (key, value) ∷ (k, v) ∷ rest else (k, v) ∷ later)

-- The loop of encodePostFields, from the second field on.
unfoldable pub encode_rest : Fields → Text
encode_rest [] = []
encode_rest ((key, value) ∷ rest) = codes "&" ++ (key ++ (codes "=" ++ (value ++ encode_rest rest)))

unfoldable pub encode_post_fields : Fields → Text
encode_post_fields [] = []
encode_post_fields ((key, value) ∷ rest) = key ++ (codes "=" ++ (value ++ encode_rest rest))

-- CURLOPT_URL, CURLOPT_POST, CURLOPT_POSTFIELDS and CURLOPT_CUSTOMREQUEST.
pub record Options : Type 0 where
  pub url : Text
  pub post : Bool
  pub post_fields : Option Text
  pub custom_request : Option Text

-- m_data as the body, m_postfields and the handle.
pub record Client : Type 0 where
  pub body : Text
  pub postfields : Fields
  pub options : Options

unfoldable pub post_field : Text → Text → Client → Client
post_field key value c = record c { postfields = put_field key value c.postfields }

unfoldable pub reset : Client → Client
reset c = record c { postfields = [] }

unfoldable pub set_url : Text → Client → Client
set_url url c = record c { options = record c.options { url = c_str url } }

-- `perform` gives whether the transfer succeeded, and the buffers for the write callback.
module _ (perform : Options → Bool × List Text) where
  unfoldable pub make_request : Client → Bool × Client
  make_request c =
      let result = perform c.options in (result.0, record c { body = write_data result.1 [] })

  unfoldable pub make_post : Client → Bool × Client
  unfolding make_request
  make_post c = make_request record c {
    options = record c.options {
      post = true;
      post_fields = some (c_str (encode_post_fields c.postfields));
    };
  }

  unfoldable pub make_get : Client → Bool × Client
  unfolding make_request
  make_get c = make_request record c { options = record c.options { post = false } }

  unfoldable pub make_delete : Client → Bool × Client
  unfolding make_post
  make_delete c =
      make_post record c { options = record c.options { custom_request = some (codes "DELETE") } }
