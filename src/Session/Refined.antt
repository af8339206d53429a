-- ===== src/Session/Refined.antt =====
-- The session handlers do to the cluster what the operations do to the map of sessions.
pub mod Calls
use redis_rest.Base.{
  List, [], ◌∷◌, Option, none, some, ◌≡◌, refl, sym, ◌∙◌, Text, codes, c_str, text_eq,
  if◌then◌else◌, Bool-cases, inl, inr, true, false, ap, text_eq_iff, All, map,
}
use redis_rest.Base.Outcome.{Outcome, ok, Action, pure, ◌>>=◌, bind_step, pure_lem}
use redis_rest.Ptree.{PtreeLibrary}
use redis_rest.Ptree.Laws.{WritesJson}
use redis_rest.Cluster.{ClusterClient, set, del, get, exists}
use redis_rest.Cluster.Laws.{Entry, absent, text, Semantics, IsReliable, effect_on}
use redis_rest.Cluster.Reliable.{asked, view-asked}
use redis_rest.Session.{
  session_key, value_text, create_session_http_session, add_userid_under_session, delete_session,
  query_session, update_session_deadline,
}
use redis_rest.Session.Lifecycle.{
  Names, Holds, created, deleted, replaced, create_lem, add_lem, update_lem, delete_lem,
}
use redis_rest.Session.Lifecycle.Queries.{query_lem}
use redis_rest.Session.Lifecycle.Refused.{
  create_refused, add_refused, update_refused, delete_refused, query_refused,
}
use redis_rest.Session.Store.{
  Operation, create, add, update, delete, query, slot, Sessions, put, outcome_of, after, answer_of,
}

module _ (json : PtreeLibrary) where
  -- What the server holds for a session that the map does not have, or has with a value.
  abbrev pub Stands : Option json.Ptree → Entry → Type 0
  Stands none entry = entry ≡ absent
  Stands (some value) entry = (v : Text) × (value_text json value ≡ ok v) × (entry ≡ text (c_str v))

  abbrev pub Simulates : {c : ClusterClient} → Semantics c → Sessions json.Ptree → c.State → Type 0
  Simulates m sessions s = (key : Text) → Stands (sessions (slot key)) (m.view s (slot key))

  -- A request for the operation.
  abbrev pub Requests : Operation json.Ptree → json.Ptree → json.Ptree → Type 0
  Requests (create value) pt item = (v : Text) × Holds json item value v
  Requests (add value) pt item = (v : Text) × Holds json item value v
  Requests (update value) pt item = (v : Text) × Holds json item value v
  Requests delete pt item = Unit
  Requests query pt item = Unit

  module _ (c : ClusterClient) (now : Text) where
    abbrev pub handler_of : Operation json.Ptree → json.Ptree → Action c.State Text
    handler_of (create value) = create_session_http_session json c now
    handler_of (add value) = add_userid_under_session json c now
    handler_of (update value) = update_session_deadline json c now
    handler_of delete = delete_session json c now
    handler_of query = query_session json c now

module _ (json : PtreeLibrary) {c : ClusterClient} {m : Semantics c} (up : IsReliable c m) where
  open m use {view}

  -- One key has a new entry, and the others are as they were.
  pub moved :
      (sessions : Sessions json.Ptree) (key : Text) (held : Option json.Ptree) (entry : Entry)
      (s s' : c.State)
      → Simulates json m sessions s
      → Stands json held entry
      → ((j : Text) → view s' j ≡ (if text_eq (slot key) j then entry else view s j))
      → Simulates json m (put key held sessions) s'
  moved sessions key held entry s s' sim new views k =
      elim (Bool-cases (text_eq (slot key) (slot k))) [
        | inl same ↦ rw (views (slot k), same) new
        | inr other ↦ rw (views (slot k), other) (sim k)
      ]

  -- The key's entry is this, and the others are as they were.
  abbrev pub Changed : Text → Entry → c.State → c.State → Type 0
  Changed key entry s s' =
      (j : Text) → view s' j ≡ (if text_eq (slot key) j then entry else view s j)

  asked-Changed :
      (key : Text) (s : c.State) → Changed key (view s (slot key)) s (asked c (session_key key) s)
  asked-Changed key s j = elim (Bool-cases (text_eq (slot key) j)) [
    | inl same ↦ rw same (
        view-asked up (session_key key) j s ∙ sym (ap (view s) ((text_eq_iff (slot key) j).0 same)))
    | inr other ↦ rw other (view-asked up (session_key key) j s)
  ]

  created-Changed :
      (key v : Text) (s : c.State) → Changed key (text (c_str v)) s (created c key v s)
  unfolding effect_on
  created-Changed key v s j = elim (Bool-cases (text_eq (slot key) j)) [
    | inl same ↦ rw (up.after (set (slot key) (c_str v)) (asked c (session_key key) s) j, same) refl
    | inr other ↦
        rw (up.after (set (slot key) (c_str v)) (asked c (session_key key) s) j, other)
          (view-asked up (session_key key) j s)
  ]

  deleted-Changed : (key : Text) (s : c.State) → Changed key absent s (deleted c key s)
  unfolding effect_on
  deleted-Changed key s j = elim (Bool-cases (text_eq (slot key) j)) [
    | inl same ↦ rw (up.after (del (slot key)) (asked c (session_key key) s) j, same) refl
    | inr other ↦
        rw (up.after (del (slot key)) (asked c (session_key key) s) j, other)
          (view-asked up (session_key key) j s)
  ]

  replaced-Changed :
      (key v : Text) (s : c.State) → Changed key (text (c_str v)) s (replaced c key v s)
  unfolding effect_on
  replaced-Changed key v s j = elim (Bool-cases (text_eq (slot key) j)) [
    | inl same ↦ rw (up.after (set (slot key) (c_str v)) (deleted c key s) j, same) refl
    | inr other ↦
        rw (up.after (set (slot key) (c_str v)) (deleted c key s) j, other)
          (deleted-Changed key s j ∙ (rw other))
  ]

  queried-Changed :
      (key : Text) (s : c.State)
      → Changed key (view s (slot key)) s (c.exec (get (slot key)) (asked c (session_key key) s)).1
  unfolding effect_on
  queried-Changed key s j =
      up.after (get (slot key)) (asked c (session_key key) s) j ∙ asked-Changed key s j

  module _ (laws : WritesJson json) (now : Text) (pt item : json.Ptree) (key r : Text)
      (q : Names json pt item key) (s : c.State) where
    -- The handler answers, and the key's entry stands for what the map has afterwards.
    abbrev pub Follows : Operation json.Ptree → Option json.Ptree → Type 0
    Follows op held =
        (s' : c.State) × (entry : Entry) × (handler_of json c now op pt s ≡ (ok r, s'))
        × Stands json (outcome_of op held) entry
        × Changed key entry s s'

    pub step_lem :
        (op : Operation json.Ptree) (held : Option json.Ptree)
        → Requests json op pt item
        → Stands json held (view s (slot key))
        → answer_of json now op key held ≡ ok r
        → Follows op held
    step_lem (create value) none (v, h) stands hr = (
      created c key v s,
      text (c_str v),
      create_lem json up now pt item key q value v r s h stands hr,
      (v, h.stores, refl),
      created-Changed key v s,
    )
    step_lem (create value) (some old) (v, h) (w, stored, there) hr = (
      asked c (session_key key) s,
      view s (slot key),
      create_refused json up now pt item key r q s value v h there hr,
      (w, stored, there),
      asked-Changed key s,
    )
    step_lem (add value) none (v, h) stands hr = (
      asked c (session_key key) s,
      view s (slot key),
      add_refused json up now pt item key r q s value v h stands hr,
      stands,
      asked-Changed key s,
    )
    step_lem (add value) (some old) (v, h) (w, stored, there) hr = (
      replaced c key v s,
      text (c_str v),
      add_lem json up now pt item key q value v r s h there hr,
      (v, h.stores, refl),
      replaced-Changed key v s,
    )
    step_lem (update value) none (v, h) stands hr = (
      asked c (session_key key) s,
      view s (slot key),
      update_refused json up now pt item key r q s stands hr,
      stands,
      asked-Changed key s,
    )
    step_lem (update value) (some old) (v, h) (w, stored, there) hr = (
      replaced c key v s,
      text (c_str v),
      update_lem json up now pt item key q value v r s h there hr,
      (v, h.stores, refl),
      replaced-Changed key v s,
    )
    step_lem delete none h stands hr = (
      asked c (session_key key) s,
      view s (slot key),
      delete_refused json up now pt item key r q s stands hr,
      stands,
      asked-Changed key s,
    )
    step_lem delete (some old) h (w, stored, there) hr = (
      deleted c key s,
      absent,
      delete_lem json up now pt item key q r s there hr,
      refl,
      deleted-Changed key s,
    )
    step_lem query none h stands hr = (
      asked c (session_key key) s,
      view s (slot key),
      query_refused json up now pt item key r q s stands hr,
      stands,
      asked-Changed key s,
    )
    step_lem query (some value) h (w, stored, there) hr = (
      (c.exec (get (slot key)) (asked c (session_key key) s)).1,
      view s (slot key),
      query_lem json laws up now pt item key q value w r s stored there hr,
      (w, stored, there),
      queried-Changed key s,
    )
