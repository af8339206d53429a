-- ===== src/Session/Lifecycle/Refused.antt =====
-- Requests for a session that is there already, or not there, on a cluster that answers.
use redis_rest.Base.{[], ◌≡◌, ◌∙◌, Text, codes, c_str}
use redis_rest.Base.Outcome.{ok, pure_lem, lift_lem, bind_step, lift_step, try_catch_lem}
use redis_rest.Ptree.{PtreeLibrary}
use redis_rest.Cluster.{ClusterClient}
use redis_rest.Cluster.Laws.{absent, text, Semantics, IsReliable}
use redis_rest.Cluster.Reliable.{exists_key-absent, exists_key-text, asked}
use redis_rest.ReplyJson.{text_reply, single_reply}
use redis_rest.ErrorCode
use redis_rest.Session.{
  returned, session_key, create_loop, create_session_http_session, add_loop,
  add_userid_under_session, delete_session, delete_first, update_first, update_session_deadline,
  query_first, query_session,
}
use redis_rest.Session.Lifecycle.{Names, Holds}

module _ (json : PtreeLibrary) {c : ClusterClient} {m : Semantics c} (up : IsReliable c m)
    (now : Text) (pt item : json.Ptree) (key r : Text) (q : Names json pt item key)
    (s : c.State) where
  open m use {view}

  module _ (value : json.Ptree) (v : Text) (h : Holds json item value v) where
    -- CREATE_SESSION of a session that is there.
    pub create_refused :
        {t : Text}
        → view s (c_str (session_key key)) ≡ text t
        → text_reply json now ErrorCode.create_session_key_exist
            (codes "session key already exist")
            []
          ≡ ok r
        → create_session_http_session json c now pt s ≡ (ok r, asked c (session_key key) s)
    unfolding create_session_http_session
    create_refused there hr =
        try_catch_lem _ _ _ s (lift_step _ _ _ q.has_requests ∙ bind_step _ _ _ loop ∙ pure_lem r _)
      where
        loop :
            create_loop json c now (json.children q.requests) [] s
            ≡ (ok (returned r), asked c (session_key key) s)
        loop = rw q.only (
            unfold create_loop in
            lift_step _ _ _ h.has_value
            ∙ lift_step _ _ _ h.prints
            ∙ lift_step _ _ _ q.has_key
            ∙ lift_step _ _ _ h.stores
            ∙ bind_step _ _ _ (exists_key-text up (session_key key) s there)
            ∙ lift_step _ _ _ hr
            ∙ pure_lem (returned r) _)

    -- ADD_USERID_UNDER_SESSION of a session that is not there.
    pub add_refused :
        view s (c_str (session_key key)) ≡ absent
        → text_reply json now ErrorCode.add_userid_key_not_exist (codes "key not exist") [] ≡ ok r
        → add_userid_under_session json c now pt s ≡ (ok r, asked c (session_key key) s)
    unfolding add_userid_under_session
    add_refused missing hr =
        try_catch_lem _ _ _ s (lift_step _ _ _ q.has_requests ∙ bind_step _ _ _ loop ∙ pure_lem r _)
      where
        loop :
            add_loop json c now (json.children q.requests) [] s
            ≡ (ok (returned r), asked c (session_key key) s)
        loop = rw q.only (
            unfold add_loop in
            lift_step _ _ _ h.has_value
            ∙ lift_step _ _ _ h.prints
            ∙ lift_step _ _ _ q.has_key
            ∙ lift_step _ _ _ h.stores
            ∙ bind_step _ _ _ (exists_key-absent up (session_key key) s missing)
            ∙ lift_step _ _ _ hr
            ∙ pure_lem (returned r) _)

  module _ (missing : view s (c_str (session_key key)) ≡ absent) where
    -- UPDATE_SESSION_DEADLINE of a session that is not there.
    pub update_refused :
        text_reply json now ErrorCode.query_session_key_not_exist
            (codes "session do not exsist in cache[KV_SESSION]")
            []
          ≡ ok r
        → update_session_deadline json c now pt s ≡ (ok r, asked c (session_key key) s)
    unfolding update_session_deadline
    update_refused hr = try_catch_lem _ _ _ s (lift_step _ _ _ q.has_requests ∙ first)
      where
        first :
            update_first json c now (json.children q.requests) s
            ≡ (ok r, asked c (session_key key) s)
        first = rw q.only (
            unfold update_first in
            lift_step _ _ _ q.has_key
            ∙ bind_step _ _ _ (exists_key-absent up (session_key key) s missing)
            ∙ lift_lem _ _ hr)

    -- DELETE_SESSION of a session that is not there.
    pub delete_refused :
        text_reply json now ErrorCode.delete_session_key_not_exist (codes "key not exist") key
          ≡ ok r
        → delete_session json c now pt s ≡ (ok r, asked c (session_key key) s)
    unfolding delete_session
    delete_refused hr = try_catch_lem _ _ _ s (lift_step _ _ _ q.has_requests ∙ first)
      where
        first :
            delete_first json c now (json.children q.requests) s
            ≡ (ok r, asked c (session_key key) s)
        first = rw q.only (
            unfold delete_first in
            lift_step _ _ _ q.has_key
            ∙ bind_step _ _ _ (exists_key-absent up (session_key key) s missing)
            ∙ lift_lem _ _ hr)

    -- QUERY_SESSION of a session that is not there.
    pub query_refused :
        single_reply json now ErrorCode.query_session_key_not_exist
            (codes "session do not exsist in cache[KV_SESSION]")
            (json.put_string (codes "sessionId") key json.empty)
          ≡ ok r
        → query_session json c now pt s ≡ (ok r, asked c (session_key key) s)
    unfolding query_session
    query_refused hr = try_catch_lem _ _ _ s (lift_step _ _ _ q.has_requests ∙ first)
      where
        first :
            query_first json c now (json.children q.requests) s
            ≡ (ok r, asked c (session_key key) s)
        first = rw q.only (
            unfold query_first in
            lift_step _ _ _ q.has_key
            ∙ bind_step _ _ _ (exists_key-absent up (session_key key) s missing)
            ∙ lift_lem _ _ hr)
