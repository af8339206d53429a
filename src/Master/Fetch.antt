-- ===== src/Master/Fetch.antt =====
-- The handlers that list records: by the keys of a request, and all below a prefix.
use redis_rest.Base.{
  true, false, Bool, List, [], ◌∷◌, ◌++◌, Option, none, some, Text, codes, c_str, drop_last,
  if◌then◌else◌,
}
use redis_rest.Base.Outcome.{Outcome, ok, undefined, Action, pure, lift, deref, ◌>>=◌, ◌>>◌}
use redis_rest.Ptree.{PtreeLibrary}
use redis_rest.Cluster.{
  ClusterClient, exists, keys, hget, ReplyType, string, array, integer, nil, status, error,
  exists_key,
}
use redis_rest.ReplyJson.{head, send}
use redis_rest.Replace.{replace_all_distinct}
use redis_rest.Master.Common.{
  area_prefix, language_prefix, ship_prefix, title_prefix, or_error_reply, json_message,
}
use redis_rest.ErrorCode

-- The texts that the replies replace: an empty array, which the JSON writer prints as "".
abbrev pub Rewrites : Type 0
Rewrites = List (Text × Text)

abbrev pub spaced : Text → Text × Text
spaced name = (codes "\"" ++ name ++ codes "\": \"\"", codes "\"" ++ name ++ codes "\":[]")

abbrev pub tight : Text → Text × Text
tight name = (codes "\"" ++ name ++ codes "\":\"\"", codes "\"" ++ name ++ codes "\":[]")

abbrev pub short_rewrites : Rewrites
short_rewrites =
    spaced (codes "children")
    ∷ spaced (codes "childrens")
    ∷ tight (codes "children")
    ∷ tight (codes "childrens")
    ∷ tight (codes "replyData")
    ∷ spaced (codes "replyData")
    ∷ []

abbrev pub long_rewrites : Rewrites
long_rewrites =
    spaced (codes "children")
    ∷ spaced (codes "childrens")
    ∷ tight (codes "children")
    ∷ tight (codes "childrens")
    ∷ tight (codes "dailyExchangeRateChildren")
    ∷ spaced (codes "dailyExchangeRateChildren")
    ∷ tight (codes "periodAdjustmentExchangeRateChildren")
    ∷ spaced (codes "periodAdjustmentExchangeRateChildren")
    ∷ tight (codes "taxFileChildren")
    ∷ spaced (codes "taxFileChildren")
    ∷ tight (codes "replyData")
    ∷ spaced (codes "replyData")
    ∷ []

-- temp=replace_all_distinct(temp, …), once for each pair; `none` is a call that does not end.
unfoldable pub rewrite : Rewrites → Text → Option Text
rewrite [] text = some text
rewrite ((from, to) ∷ rest) text = elim (replace_all_distinct text from to) [
  | none ↦ none
  | some text' ↦ rewrite rest text'
]

abbrev pub ended : Option Text → Outcome Text
ended none = undefined
ended (some text) = ok text

-- reply->type==REDIS_REPLY_ARRAY
abbrev pub is_array : ReplyType → Bool
is_array array = true
is_array string = false
is_array integer = false
is_array nil = false
is_array status = false
is_array error = false

module _ (json : PtreeLibrary) (cluster : ClusterClient) (now : Text) where
  open json use {
    Ptree, empty, children, get_child, get_string, add_child, push_back, write_json, read_json,
  }
  open cluster use {State, exec}

  -- The tree of a record's text, less its last byte, behind those read before.
  abbrev pub push_record : Ptree → Text → Action State Ptree
  push_record found text = do
    tree ← lift (read_json (drop_last (c_str text)))
    pure (push_back (codes "") tree found)

  -- A record's `value` field: a null pointer is read all the same, or passed over.
  unfoldable pub read_strict : Ptree → Option Text → Action State Ptree
  read_strict found str = do text ← deref str; push_record found text

  unfoldable pub read_lenient : Ptree → Option Text → Action State Ptree
  read_lenient found none = pure found
  read_lenient found (some text) = push_record found text

  -- The loop over `requestData`; keys that do not exist are passed over.
  unfoldable pub list_items :
      (Ptree → Option Text → Action State Ptree)
      → Text
      → Text
      → List (Text × Ptree)
      → Ptree
      → Action State Ptree
  list_items read field prefix [] found = pure found
  list_items read field prefix ((_, item) ∷ rest) found = do
    lift (write_json false item)
    key ← lift (get_string field item)
    there ← exists_key cluster (prefix ++ key)
    if there
        then (do
          reply ← exec (hget (c_str (prefix ++ key)) (codes "value"))
          held ← deref reply
          found' ← read found held.str
          list_items read field prefix rest found')
        else list_items read field prefix rest found

  -- The reply with the trees as `replyData`, and its empty arrays rewritten.
  abbrev pub send_found : Rewrites → Text → Ptree → Action State Text
  send_found rewrites message found = do
    text ← lift (
        send json now
          (add_child (codes "replyData") found (head json now ErrorCode.success message)))
    lift (ended (rewrite rewrites text))

  unfoldable pub list_by_keys :
      (Ptree → Option Text → Action State Ptree)
      → Rewrites
      → Text
      → Text
      → Text
      → Ptree
      → Action State Text
  unfolding list_items
  list_by_keys read rewrites field prefix message pt = do
    requests ← lift (get_child (codes "requestData") pt)
    found ← list_items read field prefix (children requests) empty
    send_found rewrites message found

  -- The loop over the elements of the reply to KEYS.
  unfoldable pub list_elements : List (Option Text) → Ptree → Action State Ptree
  unfolding read_strict
  list_elements [] found = pure found
  list_elements (element ∷ rest) found = do
    key ← deref element
    reply ← exec (hget (c_str key) (codes "value"))
    held ← deref reply
    found' ← read_strict found held.str
    list_elements rest found'

  -- EXISTS on the pattern turns the client to the node with the keys; its reply is not read.
  list_by_keywords : Rewrites → Text → Text → Ptree → Action State Text
  unfolding list_elements
  list_by_keywords rewrites prefix message pt = do
    lift (get_child (codes "requestData") pt)
    exec (exists (c_str (prefix ++ codes "*")))
    reply ← exec (keys (c_str (prefix ++ codes "*")))
    listed ← deref reply
    found ← (if is_array listed.type then list_elements listed.element empty else pure empty)
    send_found rewrites message found

  unfoldable pub list_areas_by_keys : Ptree → Action State Text
  unfolding list_by_keys read_strict
  list_areas_by_keys pt =
      or_error_reply json cluster now json_message ErrorCode.unknown_error
        (codes "LIST_AREAS from cache[KV_MF] unknown error")
        (list_by_keys read_strict long_rewrites (codes "id") area_prefix
          (codes "LIST_AREAS from cache[KV_MF] successfully") pt)

  unfoldable pub list_areas_by_keywords : Ptree → Action State Text
  unfolding list_by_keywords
  list_areas_by_keywords pt =
      or_error_reply json cluster now json_message ErrorCode.unknown_error
        (codes "LIST_AREAS all from cache[KV_MF] unknown error")
        (list_by_keywords long_rewrites area_prefix
          (codes "LIST_AREAS all from cache[KV_MF] successfully") pt)

  unfoldable pub list_language_by_keys : Ptree → Action State Text
  unfolding list_by_keys read_lenient
  list_language_by_keys pt =
      or_error_reply json cluster now json_message ErrorCode.unknown_error
        (codes "LIST_LANGUAGE from cache[KV_MF] unknown error")
        (list_by_keys read_lenient short_rewrites (codes "id") language_prefix
          (codes "LIST_LANGUAGE from cache[KV_MF] successfully") pt)

  unfoldable pub list_language_by_keywords : Ptree → Action State Text
  unfolding list_by_keywords
  list_language_by_keywords pt =
      or_error_reply json cluster now json_message ErrorCode.unknown_error
        (codes "LIST_LANGUAGE all from cache[KV_MF] unknown error")
        (list_by_keywords short_rewrites language_prefix
          (codes "LIST_LANGUAGE all from cache[KV_MF] successfully") pt)

  unfoldable pub list_shipvia_by_keys : Ptree → Action State Text
  unfolding list_by_keys read_lenient
  list_shipvia_by_keys pt =
      or_error_reply json cluster now json_message ErrorCode.unknown_error
        (codes "LIST_SHIPVIA from cache[KV_MF] unknown error")
        (list_by_keys read_lenient short_rewrites (codes "id") ship_prefix
          (codes "LIST_SHIPVIA from cache[KV_MF] successfully") pt)

  unfoldable pub list_shipvia_by_keywords : Ptree → Action State Text
  unfolding list_by_keywords
  list_shipvia_by_keywords pt =
      or_error_reply json cluster now json_message ErrorCode.unknown_error
        (codes "LIST_SHIPVIA all from cache[KV_MF] unknown error")
        (list_by_keywords short_rewrites ship_prefix
          (codes "LIST_SHIPVIA all from cache[KV_MF] successfully") pt)

  unfoldable pub general_list_by_keys : Ptree → Text → Text → Action State Text
  unfolding list_by_keys read_lenient
  general_list_by_keys pt key_title operation =
      or_error_reply json cluster now
        (operation ++ codes " from cache[KV_MF]:json read or write error") ErrorCode.unknown_error
        (operation ++ codes " from cache[KV_MF] unknown error")
        (list_by_keys read_lenient long_rewrites (codes "id") (title_prefix key_title)
          (operation ++ codes " from cache[KV_MF] successfully") pt)

  unfoldable pub general_list_by_keywords : Ptree → Text → Text → Action State Text
  unfolding list_by_keywords
  general_list_by_keywords pt key_title operation =
      or_error_reply json cluster now
        (operation ++ codes " all from cache[KV_MF]:json read or write error")
        ErrorCode.unknown_error (operation ++ codes " all from cache[KV_MF] unknown error")
        (list_by_keywords long_rewrites (title_prefix key_title)
          (operation ++ codes " all from cache[KV_MF] successfully") pt)

  unfoldable pub get_user_role : Ptree → Text → Text → Action State Text
  unfolding list_by_keys read_lenient
  get_user_role pt key_title operation =
      or_error_reply json cluster now
        (operation ++ codes " from cache[KV_MF]:json read or write error") ErrorCode.unknown_error
        (operation ++ codes " from cache[KV_MF] unknown error")
        (list_by_keys read_lenient long_rewrites (codes "systemAccountId") (title_prefix key_title)
          (operation ++ codes " from cache[KV_MF] successfully") pt)
