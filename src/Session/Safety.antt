-- ===== src/Session/Safety.antt =====
-- Creating sessions never overwrites one.
use redis_rest.Base.{List, [], ◌∷◌, ◌≡◌, ◌≢◌, Text, c_str, text_eq_iff, arith, inl, inr}
use redis_rest.Base.Outcome.{Action, ◌>>=◌}
use redis_rest.Ptree.{PtreeLibrary}
use redis_rest.Cluster.{ClusterClient, set, is_null}
use redis_rest.Cluster.Laws.{Entry, absent, Semantics, NoExistsError, effect_on}
use redis_rest.Cluster.Frame.{
  Leaves, Leaves-if, Leaves-throw, Leaves-pure, leaves_rules, bind_keeps, Leaves-unless,
}
use redis_rest.Session.{Flow, set_key, create_loop, create_session_http_session}
use redis_rest.Session.Isolation.{Leaves-finish}

-- Something is stored under the key.
abbrev pub Present : Text → Entry → Type 0
Present j e = e ≢ absent

module _ {c : ClusterClient} (m : Semantics c) where
  open m use {view, acts}

  -- SET of a key that is not there leaves every key that is.
  fresh_set :
      (k v : Text) (s : c.State) (j : Text)
      → view s k ≡ absent
      → Present j (view s j)
      → view (c.exec (set k v) s).1 j ≡ view s j
  unfolding effect_on
  fresh_set k v s j missing there = elim (acts (set k v) s) [
    | inl same ↦ same j
    | inr run ↦ ground (arith, run j, text_eq_iff k j)
  ]

module _ (json : PtreeLibrary) {c : ClusterClient} (m : Semantics c) (sound : NoExistsError c)
    (now : Text) where
  open m use {view}

  set_key_keeps :
      (k v : Text) (s : c.State) (j : Text)
      → view s (c_str k) ≡ absent
      → Present j (view s j)
      → view (set_key c k v s).1 j ≡ view s j
  set_key_keeps k v s j missing there =
      bind_keeps m (c.exec (set (c_str k) (c_str v))) _ s j
        (fresh_set m (c_str k) (c_str v) s j missing there)
        λ w _.
          (Leaves-if {m = m} {K = Present} (is_null w) _ _ (Leaves-throw _) (Leaves-pure tt)).at _ j
            (rw (fresh_set m (c_str k) (c_str v) s j missing there) there)

  set_then :
      (k v : Text) (rest : Unit → Action c.State Flow)
      → ((x : Unit) → Leaves m Present (rest x))
      → (s : c.State) (j : Text) → view s (c_str k) ≡ absent
      → Present j (view s j)
      → view ((set_key c k v >>= rest) s).1 j ≡ view s j
  set_then k v rest h s j missing there =
      let e = set_key_keeps k v s j missing there in
      bind_keeps m (set_key c k v) rest s j e (λ x _. (h x).at _ j (rw e there))

  create_loop-Present :
      (items : List (Text × json.Ptree)) (key : Text)
      → Leaves m Present (create_loop json c now items key)
  unfolding create_loop
  create_loop-Present [] key = search leaves_rules
  create_loop-Present ((_, item) ∷ items) key =
      search
        (
          leaves_rules,
          Leaves-unless {c = c} {m = m} {A = Flow} {K = Present} sound,
          set_then,
          create_loop-Present items,
        )
        depth 20

  create-Present : (pt : json.Ptree) → Leaves m Present (create_session_http_session json c now pt)
  unfolding create_session_http_session
  create-Present pt = search (leaves_rules, create_loop-Present, Leaves-finish) depth 20

  -- CREATE_SESSION leaves every key that held something as it was, whatever the request holds and
  -- whichever commands raise, return null or are left undone, as long as no EXISTS is answered by an
  -- error reply, whose integer the handler reads as that the key is not there.
  pub create_keeps_present :
      (pt : json.Ptree) (s : c.State) (j : Text)
      → view s j ≢ absent
      → view (create_session_http_session json c now pt s).1 j ≡ view s j
  create_keeps_present pt s j there = (create-Present pt).at s j there
