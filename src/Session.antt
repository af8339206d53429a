-- ===== src/Session.antt =====
-- The five session handlers of src/redis/redis_source.hpp. A handler holds `lockRedis` from its first
-- statement on, so it is one action against the cluster.
pub mod Isolation
pub mod Safety
pub mod Named
pub mod Lifecycle
pub mod Store
pub mod Refined
use redis_rest.Base.{
  Bool, List, [], ◌∷◌, ◌++◌, false, Text, codes, c_str, drop_last, is_empty, if◌then◌else◌,
}
use redis_rest.Base.Int.{ℤ}
use redis_rest.Base.Outcome.{
  Outcome, ok, Action, pure, throw, lift, deref, undefined_behaviour, map_ok, try_catch, ◌>>=◌,
  ◌>>◌,
}
use redis_rest.Ptree.{PtreeLibrary}
use redis_rest.Cluster.{ClusterClient, del, get, set, is_null, exists_key}
use redis_rest.ReplyJson.{text_reply, single_reply}
use redis_rest.ErrorCode

-- string tempkey="{KV_SESSION}:"+key
abbrev pub session_key : Text → Text
session_key key = codes "{KV_SESSION}:" ++ key

-- How a loop over `requestData` ends: by a `return` in its body, or after the last item with the
-- last value of `key`.
pub data Flow : Type 0 where
  returned : Text → Flow
  finished : Text → Flow

module _ (json : PtreeLibrary) where
  open json use {Ptree, empty, children, put_string, add_child, write_json, read_json}

  -- The tree that the reply shows for a session, from what the cache holds less its last byte.
  pub session_tree : Text → Text → Outcome Ptree
  session_tree key [] =
      ok (put_string (codes "value") [] (put_string (codes "sessionId") key empty))
  session_tree key (c ∷ value) =
      map_ok (λ t. add_child (codes "value") t (put_string (codes "sessionId") key empty))
        (read_json (c ∷ value))

  -- string value=""; if (!pChildValue.empty()) { write_json(…, pChildValue, false); … }
  abbrev pub value_text : Ptree → Outcome Text
  value_text t = if is_empty (children t) then ok [] else write_json false t

module _ (cluster : ClusterClient) where
  open cluster use {State, exec}

  -- if (!(bool) Command("set …")) throw …
  abbrev pub set_key : Text → Text → Action State Unit
  set_key key value = do
    written ← exec (set (c_str key) (c_str value))
    if is_null written then throw (codes "error set to redis") else pure tt

module _ (json : PtreeLibrary) (cluster : ClusterClient) (now : Text) where
  open json use {
    Ptree, empty, children, get_child, get_string, put_string, add_child, write_json, read_json,
  }
  open cluster use {State, exec}

  abbrev pub reply : ℤ → Text → Text → Action State Text
  reply code message body = lift (text_reply json now code message body)

  -- The two catch blocks that create, add, delete and update end with.
  abbrev pub or_error_reply : ℤ → Text → Action State Text → Action State Text
  or_error_reply code message m =
      try_catch m
        (λ what. reply ErrorCode.json_read_or_write_error (codes "json read or write error") what)
        (reply code message)

  abbrev pub finish : (Text → Action State Text) → Flow → Action State Text
  finish last (returned text) = pure text
  finish last (finished key) = last key

  pub create_loop : List (Text × Ptree) → Text → Action State Flow
  create_loop [] key = pure (finished key)
  create_loop ((_, item) ∷ rest) _ = do
    child ← lift (get_child (codes "value") item)
    lift (write_json false item)
    key ← lift (get_string (codes "sessionId") item)
    value ← lift (value_text json child)
    found ← exists_key cluster (session_key key)
    if found
        then (do
          text ← reply ErrorCode.create_session_key_exist (codes "session key already exist") []
          pure (returned text))
        else (do set_key cluster (session_key key) value; create_loop rest key)

  pub create_session_http_session : Ptree → Action State Text
  unfolding create_loop
  create_session_http_session pt =
      or_error_reply ErrorCode.create_session_unknown_error (codes "create session unknown error")
        do
          requests ← lift (get_child (codes "requestData") pt)
          end ← create_loop (children requests) []
          finish (reply ErrorCode.success (codes "session write to cache[KV_SESSION] successfully"))
              end

  pub add_loop : List (Text × Ptree) → Text → Action State Flow
  add_loop [] key = pure (finished key)
  add_loop ((_, item) ∷ rest) _ = do
    child ← lift (get_child (codes "value") item)
    lift (write_json false item)
    key ← lift (get_string (codes "sessionId") item)
    value ← lift (value_text json child)
    found ← exists_key cluster (session_key key)
    if found
        then (do
          exec (del (c_str (session_key key)))
          set_key cluster (session_key key) value
          add_loop rest key)
        else (do
          text ← reply ErrorCode.add_userid_key_not_exist (codes "key not exist") []
          pure (returned text))

  pub add_userid_under_session : Ptree → Action State Text
  unfolding add_loop
  add_userid_under_session pt =
      or_error_reply ErrorCode.add_userid_under_session_unknown_error
        (codes "ADD_USERID to cache[KV_SESSION] unknown error")
        do
          requests ← lift (get_child (codes "requestData") pt)
          end ← add_loop (children requests) []
          finish (reply ErrorCode.success (codes "ADD_USERID to cache[KV_SESSION] successfully"))
              end

  -- Both branches of the loop's body return, so only the first item is read; with none the function
  -- ends without a value.
  pub delete_first : List (Text × Ptree) → Action State Text
  delete_first [] = undefined_behaviour
  delete_first ((_, item) ∷ rest) = do
    key ← lift (get_string (codes "sessionId") item)
    found ← exists_key cluster (session_key key)
    if found
        then (do
          exec (del (c_str (session_key key)))
          reply ErrorCode.success (codes "session remove from cache[KV_SESSION] successfully") key)
        else reply ErrorCode.delete_session_key_not_exist (codes "key not exist") key

  pub delete_session : Ptree → Action State Text
  unfolding delete_first
  delete_session pt =
      or_error_reply ErrorCode.delete_session_unknown_error
        (codes "session remove from cache[KV_SESSION] unknown error")
        do requests ← lift (get_child (codes "requestData") pt); delete_first (children requests)

  pub query_first : List (Text × Ptree) → Action State Text
  query_first [] = undefined_behaviour
  query_first ((_, item) ∷ rest) = do
    key ← lift (get_string (codes "sessionId") item)
    found ← exists_key cluster (session_key key)
    if found
        then (do
          reply ← exec (get (c_str (session_key key)))
          held ← deref reply
          value ← deref held.str
          tree ← lift (session_tree json key (drop_last (c_str value)))
          lift (
              single_reply json now ErrorCode.success
                (codes "session query from cache[KV_SESSION] successfully") tree))
        else lift (
            single_reply json now ErrorCode.query_session_key_not_exist
              (codes "session do not exsist in cache[KV_SESSION]")
              (put_string (codes "sessionId") key empty))

  pub query_session : Ptree → Action State Text
  unfolding query_first session_tree
  query_session pt =
      try_catch
        (do requests ← lift (get_child (codes "requestData") pt); query_first (children requests))
        (λ what. reply ErrorCode.json_read_or_write_error (codes "json read or write error") what)
        (λ what. lift (
          single_reply json now ErrorCode.query_session_unknown_error
            (codes "session query from cache[KV_SESSION] unknown error")
            (put_string (codes "sessionId") [] empty)))

  -- The old session goes before the new value is read from the request.
  pub update_first : List (Text × Ptree) → Action State Text
  update_first [] = undefined_behaviour
  update_first ((_, item) ∷ rest) = do
    key ← lift (get_string (codes "sessionId") item)
    found ← exists_key cluster (session_key key)
    if found
        then (do
          exec (del (c_str (session_key key)))
          child ← lift (get_child (codes "value") item)
          value ← lift (value_text json child)
          set_key cluster (session_key key) value
          reply ErrorCode.success (codes "deadline update to cache[KV_SESSION] successfully") key)
        else reply ErrorCode.query_session_key_not_exist
            (codes "session do not exsist in cache[KV_SESSION]") []

  pub update_session_deadline : Ptree → Action State Text
  unfolding update_first
  update_session_deadline pt =
      or_error_reply ErrorCode.update_session_deadline_unknown_error
        (codes "deadline update to cache[KV_SESSION] unknown error")
        do requests ← lift (get_child (codes "requestData") pt); update_first (children requests)
