-- ===== src/ReplyJson.antt =====
-- The JSON replies of src/redis/redis_source.hpp: every handler builds one the same way. `now` is what
-- `second_clock::local_time()` reads when the reply is built.
use redis_rest.Base.{Text, codes, true}
use redis_rest.Base.Int.{ℤ}
use redis_rest.Base.Outcome.{Outcome}
use redis_rest.Ptree.{PtreeLibrary}

module _ (json : PtreeLibrary) (now : Text) where
  open json use {Ptree, empty, put_int, put_string, add_child, push_back, write_json}

  -- The reply's code and message.
  abbrev pub head : ℤ → Text → Ptree
  head code message = put_string (codes "message") message (put_int (codes "errorCode") code empty)

  -- The replier and the time, which come last, and the text: `write_json(ss, retJson)`.
  abbrev pub send : Ptree → Outcome Text
  send t =
      write_json true
        (put_string (codes "replyTime") now (put_string (codes "replier") (codes "apollo-cache") t))

  -- A reply whose data is a text.
  unfoldable pub text_reply : ℤ → Text → Text → Outcome Text
  text_reply code message body = send (put_string (codes "replyData") body (head code message))

  -- A reply whose data is a tree.
  unfoldable pub tree_reply : ℤ → Text → Ptree → Outcome Text
  tree_reply code message body = send (add_child (codes "replyData") body (head code message))

  -- `replyData` is an array with one tree.
  unfoldable pub single_reply : ℤ → Text → Ptree → Outcome Text
  unfolding tree_reply
  single_reply code message t = tree_reply code message (push_back (codes "") t empty)
