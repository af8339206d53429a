-- ===== src/Startup.antt =====
-- serverRedisResource of src/redis/redis_source.hpp: the handlers that the HTTP server is given. The
-- server's tables are maps from a pattern, or none, and a method to a handler; how the server picks an
-- entry for a request is the vendored server's. lexical_cast and createCluster are parameters that may
-- raise.
pub mod Served
use redis_rest.Base.{
  List, [], ◌∷◌, ◌++◌, Option, none, some, Text, codes, c_str, text_eq, if◌then◌else◌,
}

-- The functions that serve requests, by the function that installs each.
pub data Endpoint : Type 0 where
  t_area_handler t_area_get_handler t_function_handler t_function_get_handler : Endpoint
  apollo_handler defaultindex_handler : Endpoint

abbrev pub Methods : Type 0
Methods = List (Text × Endpoint)

abbrev pub Resources : Type 0
Resources = List (Text × Methods)

-- methods[method] = handler
unfoldable pub set_method : Text → Endpoint → Methods → Methods
set_method method handler [] = (method, handler) ∷ []
set_method method handler ((m, h) ∷ rest) =
    let later = set_method method handler rest in
    if text_eq method m then (m, handler) ∷ rest else (m, h) ∷ later

-- resource[path][method] = handler
unfoldable pub set_resource : Text → Text → Endpoint → Resources → Resources
set_resource path method handler [] = (path, set_method method handler []) ∷ []
set_resource path method handler ((p, methods) ∷ rest) =
    let later = set_resource path method handler rest in
    if text_eq path p then (p, set_method method handler methods) ∷ rest else (p, methods) ∷ later

pub record Server (Cluster : Type 0) : Type 0 where
  pub resource : Resources
  pub default_resource : Methods
  pub cluster_p : Option Cluster

-- "^/"+url+"$"
abbrev pub url_pattern : Text → Text
url_pattern url = codes "^/" ++ url ++ codes "$"

module _ {Cluster : Type 0} where
  -- server.resource[path]["POST"] = handler
  abbrev pub post_resource : Text → Endpoint → Server Cluster → Server Cluster
  post_resource path handler server = record server {
    resource = set_resource path (codes "POST") handler server.resource;
  }

  abbrev pub t_area : Server Cluster → Server Cluster
  t_area = post_resource (codes "^/t_area$") t_area_handler

  abbrev pub t_area_get : Server Cluster → Server Cluster
  t_area_get = post_resource (codes "^/t_area_get$") t_area_get_handler

  abbrev pub t_function : Server Cluster → Server Cluster
  t_function = post_resource (codes "^/t_function$") t_function_handler

  abbrev pub t_function_get : Server Cluster → Server Cluster
  t_function_get = post_resource (codes "^/t_function_get$") t_function_get_handler

  abbrev pub install_apollo : Text → Server Cluster → Server Cluster
  install_apollo url = post_resource (url_pattern url) apollo_handler

  abbrev pub defaultindex : Server Cluster → Server Cluster
  defaultindex server = record server {
    default_resource = set_method (codes "GET") defaultindex_handler server.default_resource;
  }

  -- What follows createCluster. What is raised is caught, and the server starts as it is.
  unfoldable pub install : Text → Option Cluster → Server Cluster → Server Cluster
  install url none server = server
  install url (some cluster) server = defaultindex (
      install_apollo url (
        t_function_get
          (t_function (t_area_get (t_area record server { cluster_p = some cluster })))))

  module _ {Port : Type 0} (lexical_cast : Text → Option Port)
      (create_cluster : Text → Port → Option Cluster) where
    -- createCluster( redisHost.c_str(),boost::lexical_cast<int>(redisPort)), none where one raises.
    unfoldable pub connected : Text → Text → Option Cluster
    connected host port = elim (lexical_cast port) [
      | none ↦ none
      | some number ↦ create_cluster (c_str host) number
    ]

    -- The password is not used.
    unfoldable pub server_redis_resource : Text → Text → Text → Server Cluster → Server Cluster
    server_redis_resource host port url = install url (connected host port)
