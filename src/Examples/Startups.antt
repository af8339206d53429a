-- ===== src/Examples/Startups.antt =====
-- The start of a server whose cluster connects, with the url setting "apollo".
use redis_rest.Base.{
  ℕ, [], All, Option, none, some, ◌≡◌, ◌≢◌, refl, Text, codes, c_str, text_eq, if◌then◌else◌,
}
use redis_rest.Startup.{
  Server, url_pattern, server_redis_resource, connected, apollo_handler, defaultindex_handler,
}
use redis_rest.Startup.Served.{entry, method_of, fixed, server_redis_resource-Serves}

abbrev lexical_cast : Text → Option ℕ
lexical_cast port = if text_eq port (codes "6379") then some 6379 else none

abbrev create_cluster : Text → ℕ → Option Text
create_cluster host port = some host

abbrev bare : Server Text
bare = record { resource = []; default_resource = []; cluster_p = none }

abbrev started : Server Text
started =
    server_redis_resource lexical_cast create_cluster (codes "localhost") (codes "6379")
      (codes "apollo") bare

connects :
    connected lexical_cast create_cluster (codes "localhost") (codes "6379")
    ≡ some (codes "localhost")
unfolding connected text_eq c_str
connects = refl

server_redis_resource-Serves_example :
    (started.cluster_p ≡ some (codes "localhost"))
    × (entry (url_pattern (codes "apollo")) (codes "POST") started.resource ≡ some apollo_handler)
    × All
        (λ (path, h).
          path ≢ url_pattern (codes "apollo") → entry path (codes "POST") started.resource ≡ some h)
        fixed
    × (method_of (codes "GET") started.default_resource ≡ some defaultindex_handler)
    × ((path method : Text)
        → path ≢ url_pattern (codes "apollo")
        → All (λ (taken, h). path ≢ taken) fixed
        → entry path method started.resource ≡ entry path method bare.resource)
server_redis_resource-Serves_example =
    server_redis_resource-Serves lexical_cast create_cluster (codes "localhost") (codes "6379")
      (codes "apollo") (codes "localhost") bare connects
