-- ===== src/Examples/Sessions.antt =====
-- The session theorems at a concrete request.
use redis_rest.Base.{
  Option, some, false, [], ◌≡◌, refl, Text, codes, c_str, text_eq, ◌∷◌, subst, All,
}
use redis_rest.Cluster.{
  Command, exists, del, get, keys, set, hset, hget, Reply, error, ClusterClient,
}
use redis_rest.Base.Outcome.{Action, Outcome, ok, std_exception}
use redis_rest.Cluster.Laws.{absent, text, number_reply, documented_reply}
use redis_rest.ReplyJson.{text_reply, single_reply}
use redis_rest.ErrorCode
use redis_rest.Http.{decimal}
use redis_rest.Session.{session_key, create_session_http_session, update_session_deadline}
use redis_rest.Session.Safety.{create_keeps_present}
use redis_rest.Session.Lifecycle.{Names}
use redis_rest.Session.Named.{session_handlers, unnamed_kept}
use redis_rest.Session.Lifecycle.Queries.{shown}
use redis_rest.Session.Lifecycle.Losses.{update_lost}
use redis_rest.Examples.Memory.{
  memory_client, memory_semantics, memory_up, Memory, entry_of, memory_sound,
}
use redis_rest.Examples.Trees.{Tree, leaf, child, trees, write_text, find_child, put}
use redis_rest.Examples.Data.{
  noon, session_value, session_item, session_request, told, with_session, request_of,
}

abbrev value_line : Text
value_line = told (trees.write_json false session_value)

abbrev query_reply : Outcome Text
query_reply =
    single_reply trees noon ErrorCode.success
      (codes "session query from cache[KV_SESSION] successfully")
      (shown trees (codes "a1") session_value)

abbrev reply_to : Text → Outcome Text
reply_to message = text_reply trees noon ErrorCode.success message (codes "a1")

abbrev created_text : Text
created_text = told (reply_to (codes "session write to cache[KV_SESSION] successfully"))

create_printed :
    reply_to (codes "session write to cache[KV_SESSION] successfully") ≡ ok created_text
unfolding text_reply put write_text text_eq decimal
create_printed = refl

add_printed :
    reply_to (codes "ADD_USERID to cache[KV_SESSION] successfully")
    ≡ ok (told (reply_to (codes "ADD_USERID to cache[KV_SESSION] successfully")))
unfolding text_reply put write_text text_eq decimal
add_printed = refl

stands : entry_of with_session (c_str (session_key (codes "a1"))) ≡ text (codes "\"old\"\n")
unfolding entry_of text_eq c_str
stands = refl

-- CREATE_SESSION of the session that is there.
create_keeps_present_example :
    entry_of
      (create_session_http_session trees memory_client noon session_request with_session).1
      (codes "{KV_SESSION}:a1")
    ≡ entry_of with_session (codes "{KV_SESSION}:a1")
unfolding entry_of text_eq
create_keeps_present_example =
    create_keeps_present trees memory_semantics memory_sound noon session_request with_session
      (codes "{KV_SESSION}:a1") (λ e. cc)

abbrev bare_item : Tree
bare_item = child (leaf []) (codes "sessionId") (leaf (codes "a1"))

abbrev bare_request : Tree
bare_request = request_of (codes "UPDATE_SESSION_DEADLINE") bare_item

bare_a1 : Names trees bare_request bare_item (codes "a1")
unfolding find_child text_eq
bare_a1 = record {
  requests = child (leaf []) [] bare_item;
  name = [];
  has_requests = refl;
  only = refl;
  has_key = refl;
}

abbrev lost_reply : Outcome Text
lost_reply =
    text_reply trees noon ErrorCode.update_session_deadline_unknown_error
      (codes "deadline update to cache[KV_SESSION] unknown error") (codes "No such node")

no_value : trees.get_child (codes "value") bare_item ≡ std_exception (codes "No such node")
unfolding find_child text_eq
no_value = refl

lost_printed : lost_reply ≡ ok (told lost_reply)
unfolding text_reply put write_text text_eq decimal
lost_printed = refl

update_lost_example :
    ((update_session_deadline trees memory_client noon bare_request with_session).0
      ≡ ok (told lost_reply))
    × (entry_of
          (update_session_deadline trees memory_client noon bare_request with_session).1
          (c_str (session_key (codes "a1")))
        ≡ absent)
update_lost_example =
    update_lost trees memory_up noon bare_request bare_item (codes "a1") bare_a1 with_session stands
      no_value lost_printed

abbrev removed_message : Text
removed_message = codes "session remove from cache[KV_SESSION] successfully"

removed_printed : reply_to removed_message ≡ ok (told (reply_to removed_message))
unfolding text_reply put write_text text_eq decimal
removed_printed = refl

abbrev missing_reply : Outcome Text
missing_reply =
    text_reply trees noon ErrorCode.delete_session_key_not_exist (codes "key not exist")
      (codes "a1")

missing_printed : missing_reply ≡ ok (told missing_reply)
unfolding text_reply put write_text text_eq decimal
missing_printed = refl

abbrev empty_request : Tree
empty_request = child (leaf []) (codes "requestData") (leaf [])

empty_requests : trees.get_child (codes "requestData") empty_request ≡ ok (leaf [])
unfolding find_child text_eq
empty_requests = refl

-- A server that is out of memory: SET is refused, and nothing is stored.
abbrev refusal : Reply
refusal = record {
  type = error;
  integer = 0;
  str = some (codes "OOM command not allowed");
  element = [];
}

abbrev refuse : Command → Action Memory (Option Reply)
refuse (set k v) s = (ok (some refusal), s)
refuse (exists k) s = memory_client.exec (exists k) s
refuse (del k) s = memory_client.exec (del k) s
refuse (get k) s = memory_client.exec (get k) s
refuse (keys k) s = memory_client.exec (keys k) s
refuse (hset k f v) s = memory_client.exec (hset k f v) s
refuse (hget k f) s = memory_client.exec (hget k f) s

abbrev full_client : ClusterClient
full_client = record { State = Memory; exec = refuse }

not_there :
    full_client.exec (exists (c_str (session_key (codes "a1")))) []
    ≡ (ok (some (number_reply 0)), [])
unfolding documented_reply entry_of
not_there = refl

-- A request for a1, and the session b2 beside it.
abbrev b2_key : Text
b2_key = codes "{KV_SESSION}:b2"

abbrev two_sessions : Memory
two_sessions = (b2_key, text (codes "two")) ∷ with_session

spared_b2 :
    (key : Text)
    → ◌≡◌ {A = Outcome Text} (ok (codes "a1")) (ok key)
    → text_eq (c_str (session_key key)) b2_key ≡ false
unfolding text_eq c_str
spared_b2 key e =
    let same : codes "a1" ≡ key = cc in
    subst (λ k. text_eq (c_str (session_key k)) b2_key ≡ false) same refl

unnamed_kept_example :
    All
      (λ handler.
        entry_of (handler session_request two_sessions).1 b2_key ≡ entry_of two_sessions b2_key)
      (session_handlers trees memory_client noon)
unfolding find_child text_eq
unnamed_kept_example =
    unnamed_kept trees memory_semantics noon session_request (child (leaf []) [] session_item)
      two_sessions b2_key refl (spared_b2, tt)
