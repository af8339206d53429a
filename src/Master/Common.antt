-- ===== src/Master/Common.antt =====
-- What the master data handlers share: their keys, their error replies and the write of a record.
use redis_rest.Base.{Text, codes, c_str, ◌++◌, if◌then◌else◌, Bool}
use redis_rest.Base.Int.{ℤ}
use redis_rest.Base.Outcome.{Action, try_catch, lift, throw, pure, ◌>>=◌, ◌>>◌}
use redis_rest.Ptree.{PtreeLibrary}
use redis_rest.Cluster.{ClusterClient, hset, del, is_null}
use redis_rest.ReplyJson.{text_reply}
use redis_rest.ErrorCode

abbrev pub area_prefix : Text
area_prefix = codes "{KV_MF}:area:"

abbrev pub language_prefix : Text
language_prefix = codes "{KV_MF}:language:"

abbrev pub ship_prefix : Text
ship_prefix = codes "{KV_MF}:ship:"

-- keyTitle+":", which the id follows.
abbrev pub title_prefix : Text → Text
title_prefix title = title ++ codes ":"

module _ (json : PtreeLibrary) (cluster : ClusterClient) (now : Text) where
  open cluster use {State, exec}

  abbrev pub reply : ℤ → Text → Text → Action State Text
  reply code message body = lift (text_reply json now code message body)

  -- The two catch blocks: the message of a JSON error, the code and the message of any other.
  abbrev pub or_error_reply : Text → ℤ → Text → Action State Text → Action State Text
  or_error_reply json_message code message m =
      try_catch m (λ what. reply ErrorCode.json_read_or_write_error json_message what)
        (reply code message)

abbrev pub json_message : Text
json_message = codes "json read or write error"

module _ (cluster : ClusterClient) where
  open cluster use {State, exec}

  -- if (!(bool) Command("hset %s value %s")) throw …
  abbrev pub put_record : Text → Text → Action State Unit
  put_record key record_text = do
    written ← exec (hset (c_str key) (codes "value") (c_str record_text))
    if is_null written then throw (codes "error set to redis") else pure tt

  -- if (retint) Command("del %s")
  abbrev pub remove_if : Bool → Text → Action State Unit
  remove_if found key = if found then (exec (del (c_str key)) >> pure tt) else pure tt
