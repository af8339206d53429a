-- ===== src/Master/Isolation.antt =====
-- The master data handlers write below their own prefix alone, and the listing ones write nothing.
use redis_rest.Base.{List, [], ◌∷◌, ◌++◌, Bool, true, false, Text, codes, c_str, NoNul, arith}
use redis_rest.Ptree.{PtreeLibrary}
use redis_rest.Cluster.{ClusterClient, del}
use redis_rest.Cluster.Laws.{Semantics}
use redis_rest.Cluster.Frame.{Leaves, Leaves-bind, Leaves-pure, leaves_rules}
use redis_rest.Cluster.Namespace.{Outside, Leaves-hset, Leaves-del}
use redis_rest.Master.Common.{remove_if, title_prefix, area_prefix, ship_prefix, language_prefix}
use redis_rest.Master.Create.{
  create_items, batch_create_areas, batch_create_language, batch_create_shipvia,
  general_batch_create, set_user_role,
}
use redis_rest.Master.Remove.{delete_items, delete_areas_by_keys}

module _ {c : ClusterClient} {m : Semantics c} (p : Text) (plain : NoNul p) where
  remove_if-Leaves :
      (found : Bool) (key : Text) → Leaves m (Outside p) (remove_if c found (p ++ key))
  remove_if-Leaves true key = Leaves-bind _ _ (Leaves-del m p key plain) (λ _. Leaves-pure tt)
  remove_if-Leaves false key = Leaves-pure tt

module _ (json : PtreeLibrary) {c : ClusterClient} (m : Semantics c) (now : Text) where
  create_items-Leaves :
      (field p : Text) (plain : NoNul p) (items : List (Text × json.Ptree)) (keyall : Text)
      → Leaves m (Outside p) (create_items json c now field p items keyall)
  unfolding create_items
  create_items-Leaves field p plain [] keyall = search leaves_rules
  create_items-Leaves field p plain ((_, item) ∷ items) keyall =
      search
        (
          leaves_rules,
          remove_if-Leaves p plain,
          Leaves-hset m p,
          create_items-Leaves field p plain items,
        )
        depth 20

  pub batch_create_areas-Leaves :
      (pt : json.Ptree) → Leaves m (Outside area_prefix) (batch_create_areas json c now pt)
  unfolding batch_create_areas
  batch_create_areas-Leaves pt =
      search (leaves_rules, create_items-Leaves (codes "id") area_prefix (omega arith)) depth 20

  pub batch_create_language-Leaves :
      (pt : json.Ptree) → Leaves m (Outside language_prefix) (batch_create_language json c now pt)
  unfolding batch_create_language
  batch_create_language-Leaves pt =
      search (leaves_rules, create_items-Leaves (codes "id") language_prefix (omega arith)) depth 20

  pub batch_create_shipvia-Leaves :
      (pt : json.Ptree) → Leaves m (Outside ship_prefix) (batch_create_shipvia json c now pt)
  unfolding batch_create_shipvia
  batch_create_shipvia-Leaves pt =
      search (leaves_rules, create_items-Leaves (codes "id") ship_prefix (omega arith)) depth 20

  pub general_batch_create-Leaves :
      (pt : json.Ptree) (title operation : Text)
      → NoNul (title_prefix title)
      → Leaves m (Outside (title_prefix title)) (general_batch_create json c now pt title operation)
  unfolding general_batch_create
  general_batch_create-Leaves pt title operation plain =
      search (leaves_rules, create_items-Leaves (codes "id") (title_prefix title) plain) depth 20

  pub set_user_role-Leaves :
      (pt : json.Ptree) (title operation : Text)
      → NoNul (title_prefix title)
      → Leaves m (Outside (title_prefix title)) (set_user_role json c now pt title operation)
  unfolding set_user_role
  set_user_role-Leaves pt title operation plain =
      search
        (leaves_rules, create_items-Leaves (codes "systemAccountId") (title_prefix title) plain)
        depth 20

  delete_items-Leaves :
      (items : List (Text × json.Ptree)) (keyall : Text)
      → Leaves m (Outside area_prefix) (delete_items json c now items keyall)
  unfolding delete_items
  delete_items-Leaves [] keyall = search leaves_rules
  delete_items-Leaves ((_, item) ∷ items) keyall =
      search (leaves_rules, area_del, delete_items-Leaves items) depth 20
    where
      area_del :
          (key : Text) → Leaves m (Outside area_prefix) (c.exec (del (c_str (area_prefix ++ key))))
      area_del key = Leaves-del m area_prefix key (omega arith)

  pub delete_areas_by_keys-Leaves :
      (pt : json.Ptree) → Leaves m (Outside area_prefix) (delete_areas_by_keys json c now pt)
  unfolding delete_areas_by_keys
  delete_areas_by_keys-Leaves pt = search (leaves_rules, delete_items-Leaves) depth 20
