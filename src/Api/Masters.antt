-- ===== src/Api/Masters.antt =====
-- Sequences of posts to the POST handler that create masters and list them by their keys. The abstract
-- state is the map from keys to what the cache holds.
pub mod Routed
pub mod Stored
use redis_rest.Base.{
  List, [], ◌∷◌, ◌++◌, some, map, subst, ap, ◌≡◌, ◌≢◌, refl, sym, ◌∙◌, Text, codes, All, ◌⊎◌, inl,
  inr, erase_all, text_eq, text_eq_iff, false, length, arith,
}
use redis_rest.Base.Outcome.{Outcome, ok, Action}
use redis_rest.Ptree.{PtreeLibrary}
use redis_rest.Ptree.Laws.{WritesJson}
use redis_rest.Cluster.{ClusterClient}
use redis_rest.Cluster.Laws.{Entry, Semantics, IsReliable}
use redis_rest.Cluster.Frame.{Leaves}
use redis_rest.ReplyJson.{text_reply}
use redis_rest.ErrorCode
use redis_rest.Master.Common.{area_prefix, language_prefix, ship_prefix, title_prefix}
use redis_rest.Master.Create.{
  batch_create_areas, batch_create_language, batch_create_shipvia, general_batch_create,
  set_user_role,
}
use redis_rest.Master.Fetch.{
  Rewrites, short_rewrites, long_rewrites, list_areas_by_keys, list_language_by_keys,
  list_shipvia_by_keys, general_list_by_keys, get_user_role,
}
use redis_rest.Master.Rewritten.{scans}
use redis_rest.Master.ReadOnly as ReadRules
use redis_rest.Master.Batch.{Record, joined, stored, HeldIn}
use redis_rest.Api.{titles, find_route, routes}
use redis_rest.Api.Answers.{Asks, apollo_answer}
use redis_rest.Master.Remove.{delete_areas_by_keys}
use redis_rest.Master.Batch.Removal.{removed}
use redis_rest.Api.Stream.{serve, serve_end, serve_step, read_responses, read_end}

-- The areas, the languages, the ships, the users' roles, or a master that the general handlers serve, with its key title and
-- the end of its operations' names.
pub data Master : Type 0 where
  areas languages ships roles : Master
  general : Text → Text → Master

-- The operations that name the records: to create them, to list them by their keys, and to delete
-- areas by their keys.
pub data Operation : Type 0 where
  create by_keys : Master → Operation
  delete_areas : Operation

abbrev pub master_of : Operation → Master
master_of (create master) = master
master_of (by_keys master) = master
master_of delete_areas = areas

abbrev pub operation_name : Operation → Text
operation_name delete_areas = codes "DELETE_AREAS_BY_KEYS"
operation_name (create areas) = codes "BATCH_CREATE_AREAS"
operation_name (by_keys areas) = codes "LIST_AREAS_BY_KEYS"
operation_name (create languages) = codes "BATCH_CREATE_LANGUAGE"
operation_name (by_keys languages) = codes "LIST_LANGUAGE_BY_KEYS"
operation_name (create ships) = codes "BATCH_CREATE_SHIPVIA"
operation_name (by_keys ships) = codes "LIST_SHIPVIA_BY_KEYS"
operation_name (create roles) = codes "SET_USER_ROLE"
operation_name (by_keys roles) = codes "GET_USER_ROLE"
operation_name (create (general title name)) = codes "BATCH_CREATE_" ++ name
operation_name (by_keys (general title name)) = codes "LIST_" ++ name ++ codes "_BY_KEYS"

abbrev pub prefix : Master → Text
prefix areas = area_prefix
prefix languages = language_prefix
prefix ships = ship_prefix
prefix roles = title_prefix (codes "{KV_MF}:role")
prefix (general title name) = title_prefix title

-- What holds a record's key.
abbrev pub field : Master → Text
field roles = codes "systemAccountId"
field master = codes "id"

-- What a listing rewrites in its reply.
abbrev pub rewrites : Master → Rewrites
rewrites languages = short_rewrites
rewrites ships = short_rewrites
rewrites master = long_rewrites

-- The message with which a batch ends, and the one with which a listing does.
abbrev pub created_message : Master → Text
created_message master = operation_name (create master) ++ codes " to cache[KV_MF] successfully"

abbrev pub listed_message : Master → Text
listed_message areas = codes "LIST_AREAS from cache[KV_MF] successfully"
listed_message languages = codes "LIST_LANGUAGE from cache[KV_MF] successfully"
listed_message ships = codes "LIST_SHIPVIA from cache[KV_MF] successfully"
listed_message master = operation_name (by_keys master) ++ codes " from cache[KV_MF] successfully"

-- A post: the operation on records, the time at which it is served, and its content.
pub record Order (json : PtreeLibrary) : Type 0 where
  pub operation : Operation
  pub records : List (Record json)
  pub time : Text
  pub pt : json.Ptree
  pub content : Text

module _ (json : PtreeLibrary) (c : ClusterClient) (now : Text) where
  abbrev pub handler_of : Operation → json.Ptree → Action c.State Text
  handler_of delete_areas = delete_areas_by_keys json c now
  handler_of (create areas) = batch_create_areas json c now
  handler_of (by_keys areas) = list_areas_by_keys json c now
  handler_of (create languages) = batch_create_language json c now
  handler_of (by_keys languages) = list_language_by_keys json c now
  handler_of (create ships) = batch_create_shipvia json c now
  handler_of (by_keys ships) = list_shipvia_by_keys json c now
  handler_of (create roles) =
      λ pt. set_user_role json c now pt (codes "{KV_MF}:role") (operation_name (create roles))
  handler_of (by_keys roles) =
      λ pt. get_user_role json c now pt (codes "{KV_MF}:role") (operation_name (by_keys roles))
  handler_of (create (general title name)) =
      λ pt. general_batch_create json c now pt title (operation_name (create (general title name)))
  handler_of (by_keys (general title name)) =
      λ pt. general_list_by_keys json c now pt title (operation_name (by_keys (general title name)))

-- What is written to the connection for the posts, one after the other.
abbrev pub serve_orders :
    (json : PtreeLibrary) (c : ClusterClient)
    → Outcome Unit
    → List (Order json)
    → Action c.State Text
serve_orders json c connection =
    serve json c connection (λ (o : Order json). o.time) (λ (o : Order json). o.content)

-- What a map of entries is after a post.
abbrev pub after :
    {json : PtreeLibrary} → Operation → List (Record json) → (Text → Entry) → Text → Entry
after delete_areas rs at = removed area_prefix rs at
after (create master) rs at = stored (prefix master) rs at
after (by_keys master) rs at = at

abbrev pub after_all : {json : PtreeLibrary} → List (Order json) → (Text → Entry) → Text → Entry
after_all [] at = at
after_all (order ∷ rest) at = after_all rest (after order.operation order.records at)
