-- ===== src/Session/Lifecycle.antt =====
-- What a session is worth between requests, on a cluster that answers: the requests, and the writes.
pub mod Queries
pub mod Losses
pub mod Refused
use redis_rest.Base.{true, false, List, [], ◌∷◌, ◌≡◌, refl, ◌∙◌, Text, codes, c_str, text_eq_refl}
use redis_rest.Base.Int.{ℤ}
use redis_rest.Base.Outcome.{
  Outcome, ok, Action, pure_lem, lift_lem, bind_step, lift_step, try_catch_lem, ◌>>=◌, ◌>>◌, pure,
}
use redis_rest.Ptree.{PtreeLibrary}
use redis_rest.Cluster.{ClusterClient, set, del, exists}
use redis_rest.Cluster.Laws.{
  Entry, absent, text, Semantics, IsReliable, effect_on, documented_reply,
}
use redis_rest.Cluster.Reliable.{exec_lem, exists_key-absent, exists_key-text, asked, view-asked}
use redis_rest.ReplyJson.{text_reply}
use redis_rest.ErrorCode
use redis_rest.Session.{
  Flow, finished, session_key, value_text, set_key, create_loop, create_session_http_session,
  add_loop, add_userid_under_session, delete_session, update_session_deadline, update_first,
  delete_first,
}

-- A request whose `requestData` is one item, for the session `key`.
pub record Names (json : PtreeLibrary) (pt item : json.Ptree) (key : Text) : Type 0 where
  pub requests : json.Ptree
  pub name : Text
  pub has_requests : json.get_child (codes "requestData") pt ≡ ok requests
  pub only : json.children requests ≡ (name, item) ∷ []
  pub has_key : json.get_string (codes "sessionId") item ≡ ok key

-- Its item holds a value, which the handlers store as the text `v`.
pub record Holds (json : PtreeLibrary) (item value : json.Ptree) (v : Text) : Type 0 where
  pub line : Text
  pub has_value : json.get_child (codes "value") item ≡ ok value
  pub prints : json.write_json false item ≡ ok line
  pub stores : value_text json value ≡ ok v

module _ (c : ClusterClient) where
  -- The server once a session is written, on a test of EXISTS and on a DEL after it.
  abbrev pub created : Text → Text → c.State → c.State
  created key v s =
      (c.exec (set (c_str (session_key key)) (c_str v)) (asked c (session_key key) s)).1

  abbrev pub deleted : Text → c.State → c.State
  deleted key s = (c.exec (del (c_str (session_key key))) (asked c (session_key key) s)).1

  abbrev pub replaced : Text → Text → c.State → c.State
  replaced key v s = (c.exec (set (c_str (session_key key)) (c_str v)) (deleted key s)).1

module _ {c : ClusterClient} {m : Semantics c} (up : IsReliable c m) where
  open m use {view}
  open up use {after}

  pub view-set : (k v : Text) (s : c.State) → view (c.exec (set k v) s).1 k ≡ text v
  unfolding effect_on
  view-set k v s = rw (after (set k v) s k) (rw (text_eq_refl k))

  pub view-deleted :
      (key : Text) (s : c.State) → view (deleted c key s) (c_str (session_key key)) ≡ absent
  unfolding effect_on
  view-deleted key s =
      rw
        (after (del (c_str (session_key key))) (asked c (session_key key) s)
          (c_str (session_key key)))
        (rw (text_eq_refl (c_str (session_key key))))

  pub set_key_lem :
      (k v : Text) (s : c.State) → set_key c k v s ≡ (ok tt, (c.exec (set (c_str k) (c_str v)) s).1)
  set_key_lem k v s = bind_step _ _ _ (exec_lem up (set (c_str k) (c_str v)) s) ∙ pure_lem tt _

module _ (json : PtreeLibrary) {c : ClusterClient} {m : Semantics c} (up : IsReliable c m)
    (now : Text) (pt item : json.Ptree) (key : Text) (q : Names json pt item key) where
  open m use {view}

  create_loop_one :
      (value : json.Ptree) (v : Text) (s : c.State) (k : Text)
      → Holds json item value v
      → view s (c_str (session_key key)) ≡ absent
      → create_loop json c now ((q.name, item) ∷ []) k s ≡ (ok (finished key), created c key v s)
  unfolding create_loop
  create_loop_one value v s k h missing =
      lift_step _ _ _ h.has_value
      ∙ lift_step _ _ _ h.prints
      ∙ lift_step _ _ _ q.has_key
      ∙ lift_step _ _ _ h.stores
      ∙ bind_step _ _ _ (exists_key-absent up (session_key key) s missing)
      ∙ bind_step _ _ _ (set_key_lem up (session_key key) v _)
      ∙ pure_lem (finished key) _

  -- CREATE_SESSION of a new session.
  pub create_lem :
      (value : json.Ptree) (v r : Text) (s : c.State)
      → Holds json item value v
      → view s (c_str (session_key key)) ≡ absent
      → text_reply json now ErrorCode.success
          (codes "session write to cache[KV_SESSION] successfully")
          key
        ≡ ok r
      → create_session_http_session json c now pt s ≡ (ok r, created c key v s)
  unfolding create_session_http_session
  create_lem value v r s h missing hr =
      let loop : create_loop json c now (json.children q.requests) [] s
          ≡ (ok (finished key), created c key v s) =
        rw q.only (create_loop_one value v s [] h missing) in
      try_catch_lem _ _ _ s
        (lift_step _ _ _ q.has_requests ∙ bind_step _ _ _ loop ∙ lift_lem _ _ hr)

  add_loop_one :
      (value : json.Ptree) (v : Text) (s : c.State) (k : Text) {t : Text}
      → Holds json item value v
      → view s (c_str (session_key key)) ≡ text t
      → add_loop json c now ((q.name, item) ∷ []) k s ≡ (ok (finished key), replaced c key v s)
  unfolding add_loop
  add_loop_one value v s k h there =
      lift_step _ _ _ h.has_value
      ∙ lift_step _ _ _ h.prints
      ∙ lift_step _ _ _ q.has_key
      ∙ lift_step _ _ _ h.stores
      ∙ bind_step _ _ _ (exists_key-text up (session_key key) s there)
      ∙ bind_step _ _ _ (exec_lem up (del (c_str (session_key key))) _)
      ∙ bind_step _ _ _ (set_key_lem up (session_key key) v _)
      ∙ pure_lem (finished key) _

  -- ADD_USERID_UNDER_SESSION of a session that is there.
  pub add_lem :
      (value : json.Ptree) (v r : Text) (s : c.State) {t : Text}
      → Holds json item value v
      → view s (c_str (session_key key)) ≡ text t
      → text_reply json now ErrorCode.success
          (codes "ADD_USERID to cache[KV_SESSION] successfully")
          key
        ≡ ok r
      → add_userid_under_session json c now pt s ≡ (ok r, replaced c key v s)
  unfolding add_userid_under_session
  add_lem value v r s h there hr =
      let loop : add_loop json c now (json.children q.requests) [] s
          ≡ (ok (finished key), replaced c key v s) =
        rw q.only (add_loop_one value v s [] h there) in
      try_catch_lem _ _ _ s
        (lift_step _ _ _ q.has_requests ∙ bind_step _ _ _ loop ∙ lift_lem _ _ hr)

  update_first_one :
      (value : json.Ptree) (v r : Text) (s : c.State) {t : Text}
      → Holds json item value v
      → view s (c_str (session_key key)) ≡ text t
      → text_reply json now ErrorCode.success
          (codes "deadline update to cache[KV_SESSION] successfully")
          key
        ≡ ok r
      → update_first json c now ((q.name, item) ∷ []) s ≡ (ok r, replaced c key v s)
  unfolding update_first
  update_first_one value v r s h there hr =
      lift_step _ _ _ q.has_key
      ∙ bind_step _ _ _ (exists_key-text up (session_key key) s there)
      ∙ bind_step _ _ _ (exec_lem up (del (c_str (session_key key))) _)
      ∙ lift_step _ _ _ h.has_value
      ∙ lift_step _ _ _ h.stores
      ∙ bind_step _ _ _ (set_key_lem up (session_key key) v _)
      ∙ lift_lem _ _ hr

  -- UPDATE_SESSION_DEADLINE of a session that is there.
  pub update_lem :
      (value : json.Ptree) (v r : Text) (s : c.State) {t : Text}
      → Holds json item value v
      → view s (c_str (session_key key)) ≡ text t
      → text_reply json now ErrorCode.success
          (codes "deadline update to cache[KV_SESSION] successfully")
          key
        ≡ ok r
      → update_session_deadline json c now pt s ≡ (ok r, replaced c key v s)
  unfolding update_session_deadline
  update_lem value v r s h there hr =
      let first : update_first json c now (json.children q.requests) s
          ≡ (ok r, replaced c key v s) =
        rw q.only (update_first_one value v r s h there hr) in
      try_catch_lem _ _ _ s (lift_step _ _ _ q.has_requests ∙ first)

  delete_first_one :
      (r : Text) (s : c.State) {t : Text}
      → view s (c_str (session_key key)) ≡ text t
      → text_reply json now ErrorCode.success
          (codes "session remove from cache[KV_SESSION] successfully")
          key
        ≡ ok r
      → delete_first json c now ((q.name, item) ∷ []) s ≡ (ok r, deleted c key s)
  unfolding delete_first
  delete_first_one r s there hr =
      lift_step _ _ _ q.has_key
      ∙ bind_step _ _ _ (exists_key-text up (session_key key) s there)
      ∙ bind_step _ _ _ (exec_lem up (del (c_str (session_key key))) _)
      ∙ lift_lem _ _ hr

  -- DELETE_SESSION of a session that is there.
  pub delete_lem :
      (r : Text) (s : c.State) {t : Text}
      → view s (c_str (session_key key)) ≡ text t
      → text_reply json now ErrorCode.success
          (codes "session remove from cache[KV_SESSION] successfully")
          key
        ≡ ok r
      → delete_session json c now pt s ≡ (ok r, deleted c key s)
  unfolding delete_session
  delete_lem r s there hr =
      let first : delete_first json c now (json.children q.requests) s ≡ (ok r, deleted c key s) =
        rw q.only (delete_first_one r s there hr) in
      try_catch_lem _ _ _ s (lift_step _ _ _ q.has_requests ∙ first)
