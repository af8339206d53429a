-- ===== src/Session/Store.antt =====
-- What the session handlers promise: a map from sessions to values, and the reply of each operation.
use redis_rest.Base.{[], Option, none, some, Text, codes, c_str, text_eq, if◌then◌else◌}
use redis_rest.Base.Outcome.{Outcome}
use redis_rest.Ptree.{PtreeLibrary}
use redis_rest.ReplyJson.{text_reply, single_reply}
use redis_rest.ErrorCode
use redis_rest.Session.{session_key}
use redis_rest.Session.Lifecycle.Queries.{shown}

pub data Operation (Value : Type 0) : Type 0 where
  create add update : Value → Operation Value
  delete query : Operation Value

-- Two names that are the same up to their first NUL byte are one session.
abbrev pub slot : Text → Text
slot key = c_str (session_key key)

abbrev pub Sessions : Type 0 → Type 0
Sessions Value = Text → Option Value

module _ {Value : Type 0} where
  abbrev pub put : Text → Option Value → Sessions Value → Sessions Value
  put key held sessions k = if text_eq (slot key) k then held else sessions k

  -- The map after an operation, by what it held.
  abbrev pub outcome_of : Operation Value → Option Value → Option Value
  outcome_of (create value) none = some value
  outcome_of (create value) (some old) = some old
  outcome_of (add value) none = none
  outcome_of (add value) (some old) = some value
  outcome_of (update value) none = none
  outcome_of (update value) (some old) = some value
  outcome_of delete held = none
  outcome_of query held = held

  abbrev pub after : Operation Value → Text → Sessions Value → Sessions Value
  after op key sessions = put key (outcome_of op (sessions (slot key))) sessions

module _ (json : PtreeLibrary) (now : Text) where
  open json use {Ptree, empty, put_string}

  -- The reply of an operation, by what the map held.
  abbrev pub answer_of : Operation Ptree → Text → Option Ptree → Outcome Text
  answer_of (create value) key none =
      text_reply json now ErrorCode.success
        (codes "session write to cache[KV_SESSION] successfully") key
  answer_of (create value) key (some old) =
      text_reply json now ErrorCode.create_session_key_exist (codes "session key already exist") []
  answer_of (add value) key none =
      text_reply json now ErrorCode.add_userid_key_not_exist (codes "key not exist") []
  answer_of (add value) key (some old) =
      text_reply json now ErrorCode.success (codes "ADD_USERID to cache[KV_SESSION] successfully")
        key
  answer_of (update value) key none =
      text_reply json now ErrorCode.query_session_key_not_exist
        (codes "session do not exsist in cache[KV_SESSION]") []
  answer_of (update value) key (some old) =
      text_reply json now ErrorCode.success
        (codes "deadline update to cache[KV_SESSION] successfully") key
  answer_of delete key none =
      text_reply json now ErrorCode.delete_session_key_not_exist (codes "key not exist") key
  answer_of delete key (some old) =
      text_reply json now ErrorCode.success
        (codes "session remove from cache[KV_SESSION] successfully") key
  answer_of query key none =
      single_reply json now ErrorCode.query_session_key_not_exist
        (codes "session do not exsist in cache[KV_SESSION]")
        (put_string (codes "sessionId") key empty)
  answer_of query key (some value) =
      single_reply json now ErrorCode.success
        (codes "session query from cache[KV_SESSION] successfully") (shown json key value)
