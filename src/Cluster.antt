-- ===== src/Cluster.antt =====
-- The vendored Redis cluster client as the program calls it (`HiredisCommand<…>::Command`), with the
-- server behind it: a parameter. The texts of a command are what its `%s` arguments hold.
pub mod Laws
pub mod Reliable
pub mod Frame
pub mod Namespace
use redis_rest.Base.{ℕ, ◌%◌, ◌^◌, Bool, not, Option, List, Text, codes, c_str, is_empty, ◌==◌}
use redis_rest.Base.Outcome.{Action, deref, pure, throw, ◌>>=◌}

pub data Command : Type 0 where
  exists del get keys : Text → Command
  set : Text → Text → Command
  -- Key, field and value; key and field.
  hset : Text → Text → Text → Command
  hget : Text → Text → Command

-- REDIS_REPLY_…
pub data ReplyType : Type 0 where
  string array integer nil status error : ReplyType

-- `redisReply`: `integer` is the bit pattern of a `long long`, and a `str` may be null.
pub record Reply : Type 0 where
  pub type : ReplyType
  pub integer : ℕ
  pub str : Option Text
  pub element : List (Option Text)

-- A command may raise, and the pointer that it returns may be null.
pub record ClusterClient : Type 1 where
  pub State : Type 0
  pub exec : Command → Action State (Option Reply)

-- `int retint = reply->integer; if (retint)`
unfoldable pub nonzero : Reply → Bool
nonzero r = not (r.integer % 2 ^ 32 == 0)

-- A null pointer, as `(bool)` reads it.
abbrev pub is_null {ℓ} : {A : Type ℓ} → Option A → Bool
is_null Option.none = Bool.true
is_null (Option.some a) = Bool.false

module _ (c : ClusterClient) where
  open c use {State, exec}

  -- exists %s, the reply's number as a test, the reply freed
  abbrev pub exists_key : Text → Action State Bool
  exists_key key = do reply ← exec (exists (c_str key)); found ← deref reply; pure (nonzero found)
