-- ===== src/Session/Lifecycle/Queries.antt =====
-- A query shows what the last write stored.
use redis_rest.Base.{
  true, false, [], ◌∷◌, ◌≡◌, ◌≢◌, ◌⊎◌, refl, ◌∙◌, ap, Text, codes, c_str, c_str-of_NoNul, drop_last,
  drop_last-append, is_empty, if◌then◌else◌, Bool-cases, inl, inr,
}
use redis_rest.Base.Outcome.{Outcome, ok, lift_lem, bind_step, lift_step, try_catch_lem, deref_lem}
use redis_rest.Ptree.{PtreeLibrary}
use redis_rest.Ptree.Laws.{WritesJson}
use redis_rest.Cluster.{ClusterClient, get}
use redis_rest.Cluster.Laws.{text, absent, Semantics, IsReliable}
use redis_rest.Cluster.Reliable.{exists_key-text, asked, view-asked, get-text}
use redis_rest.ReplyJson.{single_reply, text_reply}
use redis_rest.ErrorCode
use redis_rest.Session.{
  session_key, value_text, session_tree, query_first, query_session, create_session_http_session,
  add_userid_under_session,
}
use redis_rest.Session.Lifecycle.{Names, Holds, view-set, create_lem, add_lem}

module _ (json : PtreeLibrary) where
  open json use {Ptree, empty, children, put_string, add_child}

  -- What a query shows of a session that holds `value`: the tree, or "" if it has no children.
  unfoldable pub shown : Text → Ptree → Ptree
  shown key value =
      let session = put_string (codes "sessionId") key empty in
      if is_empty (children value)
      then put_string (codes "value") [] session
      else add_child (codes "value") value session

  stored_empty : (v : Text) → ◌≡◌ {A = Outcome Text} (ok []) (ok v) → v ≡ []
  stored_empty v h = cc

  stored_cases :
      (value : Ptree) {v : Text}
      → value_text json value ≡ ok v
      → ((is_empty (children value) ≡ true) × (v ≡ []))
        ⊎ ((is_empty (children value) ≡ false) × (json.write_json false value ≡ ok v))
  stored_cases value h = elim (Bool-cases (is_empty (children value))) [
    | inl e ↦ inl (e, stored_empty _ (rw e at h))
    | inr e ↦ inr (e, rw e at h)
  ]

  -- The text that a value is stored as has no NUL byte, and less its last byte it is what the query
  -- shows.
  stored_NoNul :
      (laws : WritesJson json) (value : Ptree) {v : Text}
      → value_text json value ≡ ok v
      → c_str v ≡ v
  stored_NoNul laws value {v} h = elim (stored_cases value h) [
    | inl (_, e) ↦ rw e (unfold c_str in refl)
    | inr (_, w) ↦ c_str-of_NoNul v (laws.line value w).3
  ]

  read_line :
      (key : Text) (value : Ptree) (b : Text)
      → b ≢ []
      → json.read_json b ≡ ok value
      → session_tree json key b
        ≡ ok (add_child (codes "value") value (put_string (codes "sessionId") key empty))
  unfolding session_tree
  read_line key value [] h e = absurd (h refl)
  read_line key value (x ∷ b) h e = rw e

  session_tree-stored :
      (laws : WritesJson json) (key : Text) (value : Ptree) {v : Text}
      → value_text json value ≡ ok v
      → session_tree json key (drop_last v) ≡ ok (shown key value)
  unfolding shown
  session_tree-stored laws key value {v} h = elim (stored_cases value h) [
    | inl (none_there, e) ↦ rw (none_there, e) (unfold drop_last session_tree in refl)
    | inr (some_there, w) ↦
        let (b, full, line, _, back) = laws.line value w in
        rw (some_there, line, drop_last-append) (read_line key value b full back)
  ]

module _ (json : PtreeLibrary) (laws : WritesJson json) {c : ClusterClient} {m : Semantics c}
    (up : IsReliable c m) (now : Text) (pt item : json.Ptree) (key : Text)
    (q : Names json pt item key) where
  open m use {view}

  abbrev queried : c.State → c.State
  queried s = (c.exec (get (c_str (session_key key))) (asked c (session_key key) s)).1

  query_first_one :
      (value : json.Ptree) (v r : Text) (s : c.State)
      → value_text json value ≡ ok v
      → view s (c_str (session_key key)) ≡ text (c_str v)
      → single_reply json now ErrorCode.success
          (codes "session query from cache[KV_SESSION] successfully")
          (shown json key value)
        ≡ ok r
      → query_first json c now ((q.name, item) ∷ []) s ≡ (ok r, queried s)
  unfolding query_first
  query_first_one value v r s stored held hr =
      let tree : session_tree json key (drop_last (c_str (c_str v))) ≡ ok (shown json key value) =
        rw (stored_NoNul json laws value stored, stored_NoNul json laws value stored)
          (session_tree-stored json laws key value stored) in
      lift_step _ _ _ q.has_key
      ∙ bind_step _ _ _ (exists_key-text up (session_key key) s held)
      ∙ bind_step _ _ _
          (get-text up (c_str (session_key key)) _ (view-asked up (session_key key) _ s ∙ held))
      ∙ bind_step _ _ _ (deref_lem _ _)
      ∙ bind_step _ _ _ (deref_lem _ _)
      ∙ lift_step _ _ _ tree
      ∙ lift_lem _ _ hr

  -- QUERY_SESSION of a session that holds `value`.
  pub query_lem :
      (value : json.Ptree) (v r : Text) (s : c.State)
      → value_text json value ≡ ok v
      → view s (c_str (session_key key)) ≡ text (c_str v)
      → single_reply json now ErrorCode.success
          (codes "session query from cache[KV_SESSION] successfully")
          (shown json key value)
        ≡ ok r
      → query_session json c now pt s ≡ (ok r, queried s)
  unfolding query_session
  query_lem value v r s stored held hr =
      let first : query_first json c now (json.children q.requests) s ≡ (ok r, queried s) =
        rw q.only (query_first_one value v r s stored held hr) in
      try_catch_lem _ _ _ s (lift_step _ _ _ q.has_requests ∙ first)

  module _ (value : json.Ptree) (v shows : Text) (h : Holds json item value v)
      (printed : single_reply json now ErrorCode.success
          (codes "session query from cache[KV_SESSION] successfully")
          (shown json key value)
        ≡ ok shows) where
    -- QUERY_SESSION after CREATE_SESSION of a session that was not there shows the session with the
    -- value of the request, on a cluster that answers every command and if the replies can be printed.
    pub query-create :
        (r : Text) (s : c.State)
        → view s (c_str (session_key key)) ≡ absent
        → text_reply json now ErrorCode.success
            (codes "session write to cache[KV_SESSION] successfully")
            key
          ≡ ok r
        → (query_session json c now pt (create_session_http_session json c now pt s).1).0 ≡ ok shows
    query-create r s missing hr =
        rw (create_lem json up now pt item key q value v r s h missing hr) (
          ap (λ (x : Outcome Text × c.State). x.0)
            (query_lem value v shows _ h.stores (view-set up _ _ _) printed))

    -- QUERY_SESSION after ADD_USERID_UNDER_SESSION of a session that held any text shows the session
    -- with the value of the request, on a cluster that answers and if the replies can be printed.
    pub query-add :
        (r : Text) (s : c.State) {t : Text}
        → view s (c_str (session_key key)) ≡ text t
        → text_reply json now ErrorCode.success
            (codes "ADD_USERID to cache[KV_SESSION] successfully")
            key
          ≡ ok r
        → (query_session json c now pt (add_userid_under_session json c now pt s).1).0 ≡ ok shows
    query-add r s there hr = rw (add_lem json up now pt item key q value v r s h there hr) (
        ap (λ (x : Outcome Text × c.State). x.0)
          (query_lem value v shows _ h.stores (view-set up _ _ _) printed))
