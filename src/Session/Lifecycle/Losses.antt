-- ===== src/Session/Lifecycle/Losses.antt =====
-- Requests after which a session is gone, or was never written.
use redis_rest.Base.{false, [], ◌∷◌, ◌≡◌, refl, ◌∙◌, ap, some, Text, codes, c_str}
use redis_rest.Base.Outcome.{
  Outcome, ok, deref_lem, ◌>>=◌, try_catch, std_exception, undefined, bind_step, lift_step,
  lift_lem, raise_step, try_catch_lem, pure_lem,
}
use redis_rest.Ptree.{PtreeLibrary}
use redis_rest.Cluster.{ClusterClient, Reply, del, exists, set, exists_key, nonzero}
use redis_rest.Cluster.Laws.{absent, text, Semantics, IsReliable}
use redis_rest.Cluster.Reliable.{exec_lem, exists_key-text, exists_key-absent, asked}
use redis_rest.ReplyJson.{text_reply}
use redis_rest.ErrorCode
use redis_rest.Session.{
  session_key, create_loop, create_session_http_session, update_first, update_session_deadline,
  delete_session, delete_first, query_session, finished,
}
use redis_rest.Session.Lifecycle.{Names, Holds, deleted, view-deleted, delete_lem}

module _ (json : PtreeLibrary) {c : ClusterClient} {m : Semantics c} (up : IsReliable c m)
    (now : Text) (pt item : json.Ptree) (key : Text) (q : Names json pt item key) where
  open m use {view}

  update_first_lost :
      (s : c.State) {t why : Text}
      → view s (c_str (session_key key)) ≡ text t
      → json.get_child (codes "value") item ≡ std_exception why
      → update_first json c now ((q.name, item) ∷ []) s ≡ (std_exception why, deleted c key s)
  unfolding update_first
  update_first_lost s there bad =
      lift_step _ _ _ q.has_key
      ∙ bind_step _ _ _ (exists_key-text up (session_key key) s there)
      ∙ bind_step _ _ _ (exec_lem up (del (c_str (session_key key))) _)
      ∙ raise_step _ _ _ (lift_lem _ _ bad)

  -- On a cluster that answers every command, an UPDATE_SESSION_DEADLINE whose item has no value removes
  -- the session that it should renew, and answers with the error code.
  pub update_lost :
      (s : c.State) {t why r : Text}
      → view s (c_str (session_key key)) ≡ text t
      → json.get_child (codes "value") item ≡ std_exception why
      → text_reply json now ErrorCode.update_session_deadline_unknown_error
          (codes "deadline update to cache[KV_SESSION] unknown error")
          why
        ≡ ok r
      → ((update_session_deadline json c now pt s).0 ≡ ok r)
        × (view (update_session_deadline json c now pt s).1 (c_str (session_key key)) ≡ absent)
  unfolding update_session_deadline
  update_lost s {why = why} {r = r} there bad hr =
      let first : update_first json c now (json.children q.requests) s
          ≡ (std_exception why, deleted c key s) =
        rw q.only (update_first_lost s there bad) in
      let whole : update_session_deadline json c now pt s ≡ (ok r, deleted c key s) =
        try_catch_lem _ _ _ s (lift_step _ _ _ q.has_requests ∙ first) ∙ lift_lem _ _ hr in
      rw whole (refl, view-deleted up key s)

  delete_first_missing :
      (s : c.State)
      → view s (c_str (session_key key)) ≡ absent
      → delete_first json c now ((q.name, item) ∷ []) s ≡ (
        text_reply json now ErrorCode.delete_session_key_not_exist (codes "key not exist") key,
        asked c (session_key key) s,
      )
  unfolding delete_first
  delete_first_missing s missing =
      lift_step _ _ _ q.has_key
      ∙ bind_step _ _ _ (exists_key-absent up (session_key key) s missing)
      ∙ lift_lem _ _ refl

  -- On a cluster that answers every command, DELETE_SESSION of a session that is there removes it, and
  -- the same request sent again is answered with the error code of a key that does not exist.
  pub delete_twice :
      (s : c.State) {t r r' : Text}
      → view s (c_str (session_key key)) ≡ text t
      → text_reply json now ErrorCode.success
          (codes "session remove from cache[KV_SESSION] successfully")
          key
        ≡ ok r
      → text_reply json now ErrorCode.delete_session_key_not_exist (codes "key not exist") key
        ≡ ok r'
      → let first = delete_session json c now pt s in
        (first.0 ≡ ok r)
        × (view first.1 (c_str (session_key key)) ≡ absent)
        × ((delete_session json c now pt first.1).0 ≡ ok r')
  delete_twice s {r = r} {r' = r'} there hr hr' =
      rw (delete_lem json up now pt item key q r s there hr)
        (refl, view-deleted up key s, ap (λ (x : Outcome Text × c.State). x.0) again)
    where
      gone : c.State
      gone = deleted c key s

      missing :
          delete_first json c now (json.children q.requests) gone
          ≡ (ok r', asked c (session_key key) gone)
      missing = rw q.only (rw (← hr') (delete_first_missing gone (view-deleted up key s)))

      again : delete_session json c now pt gone ≡ (ok r', asked c (session_key key) gone)
      again =
          unfold delete_session in
          try_catch_lem _ _ _ gone (lift_step _ _ _ q.has_requests ∙ missing)

module _ (json : PtreeLibrary) (c : ClusterClient) (now : Text) (pt : json.Ptree) where
  -- A `requestData` with no item makes DELETE_SESSION, QUERY_SESSION and UPDATE_SESSION_DEADLINE end
  -- with no value, which is undefined behaviour that their handlers do not catch.
  pub empty_request_undefined :
      (s : c.State) {requests : json.Ptree}
      → json.get_child (codes "requestData") pt ≡ ok requests
      → json.children requests ≡ []
      → ((delete_session json c now pt s).0 ≡ undefined)
        × ((query_session json c now pt s).0 ≡ undefined)
        × ((update_session_deadline json c now pt s).0 ≡ undefined)
  unfolding delete_session query_session update_session_deadline ◌>>=◌ try_catch
  empty_request_undefined s there none_there =
      (rw (there, none_there), rw (there, none_there), rw (there, none_there))

  module _ (item : json.Ptree) (key : Text) (q : Names json pt item key) where
    -- CREATE_SESSION reports success whatever SET replies, an error reply too: the handler tests the
    -- pointer to the reply and not the reply.
    pub create_ignores_reply :
        (value : json.Ptree) (v r : Text) (s asked_state set_state : c.State) (found said : Reply)
        → Holds json item value v
        → c.exec (exists (c_str (session_key key))) s ≡ (ok (some found), asked_state)
        → found.integer ≡ 0
        → c.exec (set (c_str (session_key key)) (c_str v)) asked_state ≡ (ok (some said), set_state)
        → text_reply json now ErrorCode.success
            (codes "session write to cache[KV_SESSION] successfully")
            key
          ≡ ok r
        → create_session_http_session json c now pt s ≡ (ok r, set_state)
    unfolding create_session_http_session
    create_ignores_reply value v r s asked_state set_state found said h e zero_found e' hr =
        try_catch_lem _ _ _ s
          (lift_step _ _ _ q.has_requests ∙ bind_step _ _ _ loop ∙ lift_lem _ _ hr)
      where
        test : exists_key c (session_key key) s ≡ (ok false, asked_state)
        test =
            bind_step _ _ _ e
            ∙ bind_step _ _ _ (deref_lem _ _)
            ∙ pure_lem _ _
            ∙ (unfold nonzero in rw zero_found)

        loop :
            create_loop json c now (json.children q.requests) [] s ≡ (ok (finished key), set_state)
        loop = rw q.only (
            unfold create_loop in
            lift_step _ _ _ h.has_value
            ∙ lift_step _ _ _ h.prints
            ∙ lift_step _ _ _ q.has_key
            ∙ lift_step _ _ _ h.stores
            ∙ bind_step _ _ _ test
            ∙ bind_step _ _ _ (bind_step _ _ _ e' ∙ pure_lem tt _)
            ∙ pure_lem (finished key) _)
