-- ===== src/Master/ReadOnly.antt =====
-- The listing handlers write nothing, whatever the cluster does.
use redis_rest.Base.{List, [], ◌∷◌, Option, none, some, refl, Text}
use redis_rest.Base.Outcome.{Action}
use redis_rest.Ptree.{PtreeLibrary}
use redis_rest.Cluster.{ClusterClient, exists, keys, hget}
use redis_rest.Cluster.Laws.{Entry, Semantics, effect_on}
use redis_rest.Cluster.Frame.{Leaves, Leaves-exec, leaves_rules}
use redis_rest.Master.Fetch.{
  read_strict, read_lenient, list_items, list_elements, list_areas_by_keys, list_areas_by_keywords,
  list_language_by_keys, list_language_by_keywords, list_shipvia_by_keys, list_shipvia_by_keywords,
  general_list_by_keys, general_list_by_keywords, get_user_role,
}

module _ {c : ClusterClient} (m : Semantics c) (K : Text → Entry → Type 0) where
  hget_keeps : (k f : Text) → Leaves m K (c.exec (hget k f))
  hget_keeps k f = Leaves-exec (hget k f) λ j e h. unfold effect_on in refl

  exists_keeps : (k : Text) → Leaves m K (c.exec (exists k))
  exists_keeps k = Leaves-exec (exists k) λ j e h. unfold effect_on in refl

  keys_keeps : (k : Text) → Leaves m K (c.exec (keys k))
  keys_keeps k = Leaves-exec (keys k) λ j e h. unfold effect_on in refl

ruleset reading_rules = (leaves_rules, hget_keeps, exists_keeps, keys_keeps)

module _ (json : PtreeLibrary) {c : ClusterClient} (m : Semantics c) (now : Text)
    (K : Text → Entry → Type 0) where
  read_strict-Leaves :
      (found : json.Ptree) (str : Option Text) → Leaves m K (read_strict json c now found str)
  unfolding read_strict
  read_strict-Leaves found str = search reading_rules depth 20

  read_lenient-Leaves :
      (found : json.Ptree) (str : Option Text) → Leaves m K (read_lenient json c now found str)
  unfolding read_lenient
  read_lenient-Leaves found none = search reading_rules
  read_lenient-Leaves found (some text) = search reading_rules depth 20

  list_items-Leaves :
      (read : json.Ptree → Option Text → Action c.State json.Ptree)
      → ((found : json.Ptree) (str : Option Text) → Leaves m K (read found str))
      → (field p : Text) (items : List (Text × json.Ptree)) (found : json.Ptree)
      → Leaves m K (list_items json c now read field p items found)
  unfolding list_items
  list_items-Leaves read reads field p [] found = search reading_rules
  list_items-Leaves read reads field p ((_, item) ∷ items) found =
      search (reading_rules, reads, list_items-Leaves read reads field p items) depth 20

  list_elements-Leaves :
      (elements : List (Option Text)) (found : json.Ptree)
      → Leaves m K (list_elements json c now elements found)
  unfolding list_elements
  list_elements-Leaves [] found = search reading_rules
  list_elements-Leaves (element ∷ rest) found =
      search (reading_rules, read_strict-Leaves, list_elements-Leaves rest) depth 20

  pub list_areas_by_keys-Leaves : (pt : json.Ptree) → Leaves m K (list_areas_by_keys json c now pt)
  unfolding list_areas_by_keys
  list_areas_by_keys-Leaves pt =
      search (reading_rules, list_items-Leaves, read_strict-Leaves) depth 20

  pub list_language_by_keys-Leaves :
      (pt : json.Ptree) → Leaves m K (list_language_by_keys json c now pt)
  unfolding list_language_by_keys
  list_language_by_keys-Leaves pt =
      search (reading_rules, list_items-Leaves, read_lenient-Leaves) depth 20

  pub list_shipvia_by_keys-Leaves :
      (pt : json.Ptree) → Leaves m K (list_shipvia_by_keys json c now pt)
  unfolding list_shipvia_by_keys
  list_shipvia_by_keys-Leaves pt =
      search (reading_rules, list_items-Leaves, read_lenient-Leaves) depth 20

  pub list_areas_by_keywords-Leaves :
      (pt : json.Ptree) → Leaves m K (list_areas_by_keywords json c now pt)
  unfolding list_areas_by_keywords
  list_areas_by_keywords-Leaves pt = search (reading_rules, list_elements-Leaves) depth 20

  pub list_language_by_keywords-Leaves :
      (pt : json.Ptree) → Leaves m K (list_language_by_keywords json c now pt)
  unfolding list_language_by_keywords
  list_language_by_keywords-Leaves pt = search (reading_rules, list_elements-Leaves) depth 20

  pub list_shipvia_by_keywords-Leaves :
      (pt : json.Ptree) → Leaves m K (list_shipvia_by_keywords json c now pt)
  unfolding list_shipvia_by_keywords
  list_shipvia_by_keywords-Leaves pt = search (reading_rules, list_elements-Leaves) depth 20

  pub general_list_by_keys-Leaves :
      (pt : json.Ptree) (title operation : Text)
      → Leaves m K (general_list_by_keys json c now pt title operation)
  unfolding general_list_by_keys
  general_list_by_keys-Leaves pt title operation =
      search (reading_rules, list_items-Leaves, read_lenient-Leaves) depth 20

  pub general_list_by_keywords-Leaves :
      (pt : json.Ptree) (title operation : Text)
      → Leaves m K (general_list_by_keywords json c now pt title operation)
  unfolding general_list_by_keywords
  general_list_by_keywords-Leaves pt title operation =
      search (reading_rules, list_elements-Leaves) depth 20

  pub get_user_role-Leaves :
      (pt : json.Ptree) (title operation : Text)
      → Leaves m K (get_user_role json c now pt title operation)
  unfolding get_user_role
  get_user_role-Leaves pt title operation =
      search (reading_rules, list_items-Leaves, read_lenient-Leaves) depth 20
