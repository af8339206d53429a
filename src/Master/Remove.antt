-- ===== src/Master/Remove.antt =====
-- DELETE_AREAS_BY_KEYS and DELETE_AREAS_BY_KEYWORDS.
use redis_rest.Base.{
  false, List, [], ◌∷◌, ◌++◌, Option, Text, codes, c_str, is_empty, if◌then◌else◌,
}
use redis_rest.Base.Outcome.{Action, pure, throw, lift, deref, ◌>>=◌, ◌>>◌}
use redis_rest.Ptree.{PtreeLibrary}
use redis_rest.Cluster.{ClusterClient, exists, keys, del, exists_key}
use redis_rest.Master.Common.{area_prefix, reply, or_error_reply, json_message}
use redis_rest.Master.Fetch.{is_array}
use redis_rest.ErrorCode

module _ (json : PtreeLibrary) (cluster : ClusterClient) (now : Text) where
  open json use {Ptree, children, get_child, get_string, write_json}
  open cluster use {State, exec}

  unfoldable pub delete_items : List (Text × Ptree) → Text → Action State Text
  delete_items [] keyall = pure keyall
  delete_items ((_, item) ∷ rest) keyall = do
    lift (write_json false item)
    key ← lift (get_string (codes "id") item)
    there ← exists_key cluster (area_prefix ++ key)
    if there
        then (do
          exec (del (c_str (area_prefix ++ key)))
          delete_items rest (keyall ++ (area_prefix ++ key) ++ codes ","))
        else delete_items rest keyall

  -- The list of removed keys, unless it is empty.
  abbrev pub report : Text → Text → Text → Action State Text
  report message none_removed keyall =
      if is_empty keyall
      then throw none_removed
      else reply json cluster now ErrorCode.success message keyall

  unfoldable pub delete_areas_by_keys : Ptree → Action State Text
  unfolding delete_items
  delete_areas_by_keys pt =
      or_error_reply json cluster now json_message ErrorCode.unknown_error
        (codes "DELETE_AREAS from cache[KV_MF] unknown error")
        do
          requests ← lift (get_child (codes "requestData") pt)
          keyall ← delete_items (children requests) []
          report (codes "DELETE_AREAS from cache[KV_MF] successfully") (codes "key does not exist")
              keyall

  -- Keys are taken from the reply as C strings.
  unfoldable pub delete_elements : List (Option Text) → Text → Action State Text
  delete_elements [] keyall = pure keyall
  delete_elements (element ∷ rest) keyall = do
    key ← deref element
    exec (del (c_str key))
    delete_elements rest (keyall ++ c_str key ++ codes ",")

  unfoldable pub delete_areas_by_keywords : Ptree → Action State Text
  unfolding delete_elements
  delete_areas_by_keywords pt =
      or_error_reply json cluster now json_message ErrorCode.unknown_error
        (codes "DELETE_AREAS all from cache[KV_MF] unknown error")
        do
          lift (get_child (codes "requestData") pt)
          exec (exists (c_str (area_prefix ++ codes "*")))
          reply ← exec (keys (c_str (area_prefix ++ codes "*")))
          listed ← deref reply
          keyall ← (if is_array listed.type then delete_elements listed.element [] else pure [])
          report (codes "DELETE_AREAS all from cache[KV_MF] successfully") (codes "no keys deleted")
              keyall
