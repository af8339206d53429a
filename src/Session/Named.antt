-- ===== src/Session/Named.antt =====
-- The session handlers touch only the sessions that a request names.
use redis_rest.Base.{
  false, List, [], ◌∷◌, ◌≡◌, refl, sym, subst, ◌∙◌, Text, codes, c_str, text_eq, All,
}
use redis_rest.Base.Outcome.{Outcome, ok, Action, lift, ◌>>=◌}
use redis_rest.Ptree.{PtreeLibrary}
use redis_rest.Cluster.{ClusterClient, del, set}
use redis_rest.Cluster.Laws.{Entry, Semantics, effect_on}
use redis_rest.Cluster.Frame.{Leaves, Leaves-exec, bind_keeps, leaves_rules}
use redis_rest.Session.{
  session_key, create_loop, create_session_http_session, add_loop, add_userid_under_session,
  delete_first, delete_session, query_session, update_first, update_session_deadline,
}
use redis_rest.Session.Isolation.{Leaves-finish, query-Leaves}

module _ {c : ClusterClient} {m : Semantics c} {A B : Type 0} {K : Text → Entry → Type 0} where
  -- A value that is computed, whose equation what follows may use.
  pub Leaves-bind_lift :
      (r : Outcome A) (f : A → Action c.State B)
      → ((x : A) → r ≡ ok x → Leaves m K (f x))
      → Leaves m K (lift r >>= f)
  unfolding ◌>>=◌
  Leaves-bind_lift r f h = record {
    at = λ s j k. bind_keeps m (lift r) f s j refl (λ x e. (h x e).at s j k);
  }

module _ {A : Type 0} where
  same_value : (x y : A) → ◌≡◌ {A = Outcome A} (ok x) (ok y) → x ≡ y
  same_value x y e = cc

module _ {c : ClusterClient} {m : Semantics c} {A B : Type 0} {K : Text → Entry → Type 0} where
  pub Leaves-bind_known :
      (r : Outcome A) (f : A → Action c.State B) (x : A)
      → r ≡ ok x
      → Leaves m K (f x)
      → Leaves m K (lift r >>= f)
  Leaves-bind_known r f x e h =
      Leaves-bind_lift r f (λ y e'. subst (λ z. Leaves m K (f z)) (same_value x y (sym e ∙ e')) h)

module _ {c : ClusterClient} {m : Semantics c} {A : Type 0} {K K' : Text → Entry → Type 0} where
  pub Leaves-less :
      (a : Action c.State A)
      → ((j : Text) (e : Entry) → K j e → K' j e)
      → Leaves m K' a
      → Leaves m K a
  Leaves-less a less h = record { at = λ s j k. h.at s j (less j (m.view s j) k) }

module _ (json : PtreeLibrary) where
  -- The item does not name the session of the key `j`.
  abbrev pub Spares : Text → Text × json.Ptree → Type 0
  Spares j item =
      (key : Text)
      → json.get_string (codes "sessionId") item.1 ≡ ok key
      → text_eq (c_str (session_key key)) j ≡ false

  unfoldable pub Unnamed : List (Text × json.Ptree) → Text → Entry → Type 0
  Unnamed items j e = All (Spares j) items

  module _ {c : ClusterClient} (m : Semantics c) (name : Text) (item : json.Ptree)
      (items : List (Text × json.Ptree)) (key : Text)
      (named : json.get_string (codes "sessionId") item ≡ ok key) where
    named_set :
        (v : Text)
        → Leaves m (Unnamed ((name, item) ∷ items)) (c.exec (set (c_str (session_key key)) v))
    unfolding Unnamed
    named_set v =
        Leaves-exec {m = m} {K = Unnamed ((name, item) ∷ items)} (set (c_str (session_key key)) v)
          λ j e h. unfold effect_on in rw (h.0 key named)

    pub named_del :
        Leaves m (Unnamed ((name, item) ∷ items)) (c.exec (del (c_str (session_key key))))
    unfolding Unnamed
    named_del =
        Leaves-exec {m = m} {K = Unnamed ((name, item) ∷ items)} (del (c_str (session_key key)))
          λ j e h. unfold effect_on in rw (h.0 key named)

  module _ {c : ClusterClient} {m : Semantics c} {A : Type 0} where
    later_items :
        (item : Text × json.Ptree) (items : List (Text × json.Ptree)) (a : Action c.State A)
        → Leaves m (Unnamed items) a
        → Leaves m (Unnamed (item ∷ items)) a
    unfolding Unnamed
    later_items item items a h = Leaves-less a (λ j e k. k.1) h

  module _ {c : ClusterClient} (m : Semantics c) (now : Text) where
    create_loop-Unnamed :
        (items : List (Text × json.Ptree)) (key : Text)
        → Leaves m (Unnamed items) (create_loop json c now items key)
    unfolding create_loop
    create_loop-Unnamed [] key = search leaves_rules
    create_loop-Unnamed ((name, item) ∷ items) key =
        Leaves-bind_lift {m = m} {K = Unnamed ((name, item) ∷ items)} _ _ (λ child _.
          Leaves-bind_lift {m = m} {K = Unnamed ((name, item) ∷ items)} _ _ (λ line _.
            Leaves-bind_lift {m = m} {K = Unnamed ((name, item) ∷ items)} _ _ (λ id named.
              search (leaves_rules, named_set, later_items, create_loop-Unnamed items) depth 20)))

    add_loop-Unnamed :
        (items : List (Text × json.Ptree)) (key : Text)
        → Leaves m (Unnamed items) (add_loop json c now items key)
    unfolding add_loop
    add_loop-Unnamed [] key = search leaves_rules
    add_loop-Unnamed ((name, item) ∷ items) key =
        Leaves-bind_lift {m = m} {K = Unnamed ((name, item) ∷ items)} _ _ (λ child _.
          Leaves-bind_lift {m = m} {K = Unnamed ((name, item) ∷ items)} _ _ (λ line _.
            Leaves-bind_lift {m = m} {K = Unnamed ((name, item) ∷ items)} _ _ (λ id named.
              search (leaves_rules, named_set, named_del, later_items, add_loop-Unnamed items) depth
                20)))

    delete_first-Unnamed :
        (items : List (Text × json.Ptree))
        → Leaves m (Unnamed items) (delete_first json c now items)
    unfolding delete_first
    delete_first-Unnamed [] = search leaves_rules
    delete_first-Unnamed ((name, item) ∷ items) =
        Leaves-bind_lift {m = m} {K = Unnamed ((name, item) ∷ items)} _ _
          (λ id named. search (leaves_rules, named_del) depth 20)

    update_first-Unnamed :
        (items : List (Text × json.Ptree))
        → Leaves m (Unnamed items) (update_first json c now items)
    unfolding update_first
    update_first-Unnamed [] = search leaves_rules
    update_first-Unnamed ((name, item) ∷ items) =
        Leaves-bind_lift {m = m} {K = Unnamed ((name, item) ∷ items)} _ _
          (λ id named. search (leaves_rules, named_set, named_del) depth 20)

  module _ {c : ClusterClient} (m : Semantics c) (now : Text) (pt requests : json.Ptree)
      (has : json.get_child (codes "requestData") pt ≡ ok requests) where
    abbrev Spared : Text → Entry → Type 0
    Spared = Unnamed (json.children requests)

    create-Unnamed : Leaves m Spared (create_session_http_session json c now pt)
    unfolding create_session_http_session
    create-Unnamed =
        search (leaves_rules, Leaves-bind_known, create_loop-Unnamed, Leaves-finish) depth 20

    add-Unnamed : Leaves m Spared (add_userid_under_session json c now pt)
    unfolding add_userid_under_session
    add-Unnamed = search (leaves_rules, Leaves-bind_known, add_loop-Unnamed, Leaves-finish) depth 20

    delete-Unnamed : Leaves m Spared (delete_session json c now pt)
    unfolding delete_session
    delete-Unnamed = search (leaves_rules, Leaves-bind_known, delete_first-Unnamed) depth 20

    update-Unnamed : Leaves m Spared (update_session_deadline json c now pt)
    unfolding update_session_deadline
    update-Unnamed = search (leaves_rules, Leaves-bind_known, update_first-Unnamed) depth 20

  -- The handlers of the five session operations.
  abbrev pub session_handlers : (c : ClusterClient) → Text → List (json.Ptree → Action c.State Text)
  session_handlers c now =
      create_session_http_session json c now
      ∷ add_userid_under_session json c now
      ∷ delete_session json c now
      ∷ update_session_deadline json c now
      ∷ query_session json c now
      ∷ []

  -- Whichever commands fail and whatever else the request holds: if no item of its requestData names,
  -- by its sessionId, the session of a key, each of the five session handlers leaves what is under that
  -- key.
  pub unnamed_kept :
      {c : ClusterClient} (m : Semantics c) (now : Text) (pt requests : json.Ptree) (s : c.State)
      (j : Text)
      → json.get_child (codes "requestData") pt ≡ ok requests
      → All
          (λ item.
            (key : Text)
            → json.get_string (codes "sessionId") item.1 ≡ ok key
            → text_eq (c_str (session_key key)) j ≡ false)
          (json.children requests)
      → All (λ handler. m.view (handler pt s).1 j ≡ m.view s j) (session_handlers c now)
  unfolding Unnamed
  unnamed_kept m now pt requests s j has spared = (
    (create-Unnamed m now pt requests has).at s j spared,
    (
      (add-Unnamed m now pt requests has).at s j spared,
      (
        (delete-Unnamed m now pt requests has).at s j spared,
        (
          (update-Unnamed m now pt requests has).at s j spared,
          ((query-Leaves json m now (Unnamed (json.children requests)) pt).at s j spared, tt),
        ),
      ),
    ),
  )
