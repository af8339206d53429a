-- ===== src/Examples/Bots.antt =====
-- The theorems on the order client, with patterns that match themselves and callbacks that are numbers.
use redis_rest.Base.{ℕ, List, [], ◌∷◌, none, some, ◌≡◌, refl, Text, codes, c_str, text_eq}
use redis_rest.Static.Chunks.{joined}
use redis_rest.Orderbot.{Resource, copy_opt, match_paths, match_methods, Bot, request}
use redis_rest.Orderbot.Resources.{listed, match_methods-copy}
use redis_rest.Orderbot.Requests.{Copied, request-joined}

abbrev resource : Resource ℕ
resource =
    (codes "/a?x", (codes "GET", 1) ∷ (codes "PUT", 2) ∷ [])
    ∷ (codes "/b?x", (codes "PUT", 3) ∷ (codes "GET", 4) ∷ [])
    ∷ []

abbrev bot : Bot ℕ
bot = record {
  url = codes "http://localhost";
  body = codes "old";
  opt_resource = copy_opt resource;
  data_parse_callback = some 1;
}

-- Every transfer gives its method and two bytes more.
abbrev transfer : Text → Text → List Text
transfer url method = method ∷ codes "ok" ∷ []

request-joined_example :
    let after = request text_eq transfer (codes "PUT") (codes "/b") (codes "x") bot in
    (after.body ≡ joined (transfer (codes "http://localhost/b?x") (codes "PUT")))
    × (after.data_parse_callback
        ≡ match_paths text_eq (codes "/b?x") (listed (codes "PUT") resource) (some 1))
    × Copied text_eq transfer resource after
unfolding c_str
request-joined_example =
    request-joined text_eq transfer resource bot (codes "PUT") (codes "/b") (codes "x") refl

match_methods-copy_example :
    match_methods text_eq (codes "GET") (codes "/b?x") (copy_opt resource) none
    ≡ match_paths text_eq (codes "/b?x") (listed (codes "GET") resource) none
match_methods-copy_example = match_methods-copy text_eq (codes "GET") (codes "/b?x") resource none
