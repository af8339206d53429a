-- ===== src/Session/Isolation.antt =====
-- The session handlers write below `{KV_SESSION}:` alone, and a query writes nothing.
use redis_rest.Base.{List, [], ◌∷◌, ◌≡◌, Text, refl, codes, c_str, arith}
use redis_rest.Base.Outcome.{Action}
use redis_rest.Ptree.{PtreeLibrary}
use redis_rest.Cluster.{ClusterClient, del, set, get}
use redis_rest.Cluster.Laws.{Entry, Semantics, effect_on}
use redis_rest.Cluster.Frame.{Leaves, Leaves-exec, Leaves-pure, leaves_rules}
use redis_rest.Cluster.Namespace.{Outside, Leaves-set, Leaves-del}
use redis_rest.Session.{
  Flow, returned, finished, finish, session_key, create_loop, create_session_http_session, add_loop,
  add_userid_under_session, delete_first, delete_session, query_first, query_session, update_first,
  update_session_deadline,
}

abbrev pub session_prefix : Text
session_prefix = codes "{KV_SESSION}:"

-- Every key and every entry.
abbrev pub Always : Text → Entry → Type 0
Always j e = Unit

module _ {c : ClusterClient} (m : Semantics c) where
  session_set :
      (key v : Text) → Leaves m (Outside session_prefix) (c.exec (set (c_str (session_key key)) v))
  session_set key v = Leaves-set m session_prefix key (omega arith) v

  session_del :
      (key : Text) → Leaves m (Outside session_prefix) (c.exec (del (c_str (session_key key))))
  session_del key = Leaves-del m session_prefix key (omega arith)

  session_get : (K : Text → Entry → Type 0) (k : Text) → Leaves m K (c.exec (get k))
  session_get K k = Leaves-exec (get k) λ j e h. unfold effect_on in refl

ruleset session_rules = (leaves_rules, session_set, session_del)

module _ (json : PtreeLibrary) {c : ClusterClient} (m : Semantics c) (now : Text) where
  create_loop-Leaves :
      (items : List (Text × json.Ptree)) (key : Text)
      → Leaves m (Outside session_prefix) (create_loop json c now items key)
  unfolding create_loop
  create_loop-Leaves [] key = search session_rules depth 20
  create_loop-Leaves ((_, item) ∷ items) key =
      search (session_rules, create_loop-Leaves items) depth 20

  pub Leaves-finish :
      {K : Text → Entry → Type 0} (last : Text → Action c.State Text) (end : Flow)
      → ((key : Text) → Leaves m K (last key))
      → Leaves m K (finish json c now last end)
  Leaves-finish last (returned text) h = Leaves-pure text
  Leaves-finish last (finished key) h = h key

  pub create-Leaves :
      (pt : json.Ptree)
      → Leaves m (Outside session_prefix) (create_session_http_session json c now pt)
  unfolding create_session_http_session
  create-Leaves pt = search (session_rules, create_loop-Leaves, Leaves-finish) depth 20

  add_loop-Leaves :
      (items : List (Text × json.Ptree)) (key : Text)
      → Leaves m (Outside session_prefix) (add_loop json c now items key)
  unfolding add_loop
  add_loop-Leaves [] key = search session_rules depth 20
  add_loop-Leaves ((_, item) ∷ items) key = search (session_rules, add_loop-Leaves items) depth 20

  pub add-Leaves :
      (pt : json.Ptree) → Leaves m (Outside session_prefix) (add_userid_under_session json c now pt)
  unfolding add_userid_under_session
  add-Leaves pt = search (session_rules, add_loop-Leaves, Leaves-finish) depth 20

  delete_first-Leaves :
      (items : List (Text × json.Ptree))
      → Leaves m (Outside session_prefix) (delete_first json c now items)
  unfolding delete_first
  delete_first-Leaves [] = search session_rules
  delete_first-Leaves ((_, item) ∷ items) = search session_rules depth 20

  pub delete-Leaves :
      (pt : json.Ptree) → Leaves m (Outside session_prefix) (delete_session json c now pt)
  unfolding delete_session
  delete-Leaves pt = search (session_rules, delete_first-Leaves) depth 20

  update_first-Leaves :
      (items : List (Text × json.Ptree))
      → Leaves m (Outside session_prefix) (update_first json c now items)
  unfolding update_first
  update_first-Leaves [] = search session_rules
  update_first-Leaves ((_, item) ∷ items) = search session_rules depth 20

  pub update-Leaves :
      (pt : json.Ptree) → Leaves m (Outside session_prefix) (update_session_deadline json c now pt)
  unfolding update_session_deadline
  update-Leaves pt = search (session_rules, update_first-Leaves) depth 20

  query_first-Leaves :
      (K : Text → Entry → Type 0) (items : List (Text × json.Ptree))
      → Leaves m K (query_first json c now items)
  unfolding query_first
  query_first-Leaves K [] = search leaves_rules
  query_first-Leaves K ((_, item) ∷ items) = search (leaves_rules, session_get) depth 20

  pub query-Leaves :
      (K : Text → Entry → Type 0) (pt : json.Ptree) → Leaves m K (query_session json c now pt)
  unfolding query_session
  query-Leaves K pt = search (leaves_rules, query_first-Leaves) depth 20

  -- QUERY_SESSION leaves every key as it was, whatever the request holds and whichever commands fail.
  pub query_keeps :
      (pt : json.Ptree) (s : c.State) (j : Text)
      → m.view (query_session json c now pt s).1 j ≡ m.view s j
  query_keeps pt s j = (query-Leaves Always pt).at s j tt
