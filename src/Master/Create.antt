-- ===== src/Master/Create.antt =====
-- BATCH_CREATE_AREAS, BATCH_CREATE_LANGUAGE, BATCH_CREATE_SHIPVIA, GENERAL_BATCH_CREATE and
-- SET_USER_ROLE.
use redis_rest.Base.{false, List, [], ◌∷◌, ◌++◌, Text, codes}
use redis_rest.Base.Outcome.{Action, pure, lift, ◌>>=◌, ◌>>◌}
use redis_rest.Ptree.{PtreeLibrary}
use redis_rest.Cluster.{ClusterClient, exists_key}
use redis_rest.Master.Common.{
  area_prefix, language_prefix, ship_prefix, title_prefix, reply, or_error_reply, json_message,
  put_record, remove_if,
}
use redis_rest.ErrorCode

module _ (json : PtreeLibrary) (cluster : ClusterClient) (now : Text) where
  open json use {Ptree, children, get_child, get_string, write_json}
  open cluster use {State}

  -- The loop over `requestData`, with the name of the item's id and what stands before it in the key.
  -- Each record replaces what its key held; the result is `keyall`.
  unfoldable pub create_items : Text → Text → List (Text × Ptree) → Text → Action State Text
  create_items field prefix [] keyall = pure keyall
  create_items field prefix ((_, item) ∷ rest) keyall = do
    line ← lift (write_json false item)
    key ← lift (get_string field item)
    found ← exists_key cluster (prefix ++ key)
    remove_if cluster found (prefix ++ key)
    put_record cluster (prefix ++ key) line
    create_items field prefix rest (keyall ++ (prefix ++ key) ++ codes ",")

  unfoldable pub create_batch : Text → Text → Text → Ptree → Action State Text
  unfolding create_items
  create_batch field prefix message pt = do
    requests ← lift (get_child (codes "requestData") pt)
    keyall ← create_items field prefix (children requests) []
    reply json cluster now ErrorCode.success message keyall

  unfoldable pub batch_create_areas : Ptree → Action State Text
  unfolding create_batch
  batch_create_areas pt =
      or_error_reply json cluster now json_message ErrorCode.batch_create_areas_unknown_error
        (codes "BATCH_CREATE_AREAS to cache[KV_MF] unknown error")
        (create_batch (codes "id") area_prefix
          (codes "BATCH_CREATE_AREAS to cache[KV_MF] successfully") pt)

  unfoldable pub batch_create_language : Ptree → Action State Text
  unfolding create_batch
  batch_create_language pt =
      or_error_reply json cluster now json_message ErrorCode.unknown_error
        (codes "BATCH_CREATE_LANGUAGE to cache[KV_MF] unknown error")
        (create_batch (codes "id") language_prefix
          (codes "BATCH_CREATE_LANGUAGE to cache[KV_MF] successfully") pt)

  unfoldable pub batch_create_shipvia : Ptree → Action State Text
  unfolding create_batch
  batch_create_shipvia pt =
      or_error_reply json cluster now json_message ErrorCode.unknown_error
        (codes "BATCH_CREATE_SHIPVIA to cache[KV_MF] unknown error")
        (create_batch (codes "id") ship_prefix
          (codes "BATCH_CREATE_SHIPVIA to cache[KV_MF] successfully") pt)

  unfoldable pub general_batch_create : Ptree → Text → Text → Action State Text
  unfolding create_batch
  general_batch_create pt key_title operation =
      or_error_reply json cluster now
        (operation ++ codes " to cache[KV_MF]:json read or write error") ErrorCode.unknown_error
        (operation ++ codes " to cache[KV_MF] unknown error")
        (create_batch (codes "id") (title_prefix key_title)
          (operation ++ codes " to cache[KV_MF] successfully") pt)

  unfoldable pub set_user_role : Ptree → Text → Text → Action State Text
  unfolding create_batch
  set_user_role pt key_title operation =
      or_error_reply json cluster now
        (operation ++ codes " to cache[KV_MF]:json read or write error") ErrorCode.unknown_error
        (operation ++ codes " to cache[KV_MF] unknown error")
        (create_batch (codes "systemAccountId") (title_prefix key_title)
          (operation ++ codes " to cache[KV_MF] successfully") pt)
