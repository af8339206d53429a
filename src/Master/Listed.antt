-- ===== src/Master/Listed.antt =====
-- DELETE_AREAS_BY_KEYWORDS removes what KEYS lists, which is below the area prefix.
use redis_rest.Base.{
  List, [], ◌∷◌, ◌++◌, Option, none, some, ◌≡◌, refl, Text, codes, c_str, NoNul, starts_with,
  starts_with-split, drop, length, arith, true, if◌then◌else◌,
}
use redis_rest.Base.Outcome.{Action, deref, pure, ok, ◌>>=◌}
use redis_rest.Ptree.{PtreeLibrary}
use redis_rest.Cluster.{ClusterClient, Reply, keys, del, exists}
use redis_rest.Cluster.Laws.{Entry, Semantics, effect_on, IsPlain, Below}
use redis_rest.Cluster.Frame.{
  Leaves, Leaves-exec, Leaves-if, Leaves-bind, Leaves-pure, bind_keeps, leaves_rules,
}
use redis_rest.Cluster.Namespace.{Outside, Leaves-del}
use redis_rest.Master.Common.{area_prefix}
use redis_rest.Master.Fetch.{is_array}
use redis_rest.Master.Remove.{delete_elements, delete_areas_by_keywords}

-- A reply that may be missing, whose elements are below `p`.
abbrev ListsBelow : Text → Option Reply → Type 0
ListsBelow p none = Unit
ListsBelow p (some r) = Below p r.element

module _ {c : ClusterClient} (m : Semantics c) where
  listed_below :
      (p : Text) (s : c.State) (o : Option Reply)
      → IsPlain p
      → (c.exec (keys (p ++ b'*' ∷ [])) s).0 ≡ ok o
      → ListsBelow p o
  listed_below p s none plain e = tt
  listed_below p s (some r) plain e = m.keys_truthful p s plain e

module _ {c : ClusterClient} {m : Semantics c} {A : Type 0} {K : Text → Entry → Type 0} where
  -- What follows KEYS may use that.
  Leaves-keys :
      (p : Text) (f : Option Reply → Action c.State A)
      → IsPlain p
      → ((o : Option Reply) → ListsBelow p o → Leaves m K (f o))
      → Leaves m K (c.exec (keys (p ++ b'*' ∷ [])) >>= f)
  Leaves-keys p f plain h = record {
    at = λ s j k.
        let asks =
          Leaves-exec {m = m} {K = K} (keys (p ++ b'*' ∷ [])) (λ j e h. unfold effect_on in refl) in
        let e = asks.at s j k in
        bind_keeps m (c.exec (keys (p ++ b'*' ∷ []))) f s j e
          λ o got. (h o (listed_below m p s o plain got)).at _ j (rw e k);
  }

  Leaves-deref-some :
      {B : Type 0} (b : B) (f : B → Action c.State A)
      → Leaves m K (f b)
      → Leaves m K (deref (some b) >>= f)
  unfolding ◌>>=◌
  Leaves-deref-some b f h = record { at = h.at }

  Leaves-deref_reply :
      (p : Text) (o : Option Reply) (f : Reply → Action c.State A)
      → ListsBelow p o
      → ((r : Reply) → Below p r.element → Leaves m K (f r))
      → Leaves m K (deref o >>= f)
  Leaves-deref_reply p none f h hf = record { at = λ s j k. unfold ◌>>=◌ in refl }
  Leaves-deref_reply p (some r) f h hf = Leaves-deref-some r f (hf r h)

module _ {c : ClusterClient} (m : Semantics c) (p : Text) (plain : NoNul p) where
  del_below : (k : Text) → starts_with p k ≡ true → Leaves m (Outside p) (c.exec (del (c_str k)))
  del_below k h = rw (starts_with-split p k h) (Leaves-del m p (drop (length p) k) plain)

module _ (json : PtreeLibrary) {c : ClusterClient} (m : Semantics c) (now : Text) where
  delete_elements-Leaves :
      (p : Text) (plain : NoNul p) (elements : List (Option Text)) (keyall : Text)
      → Below p elements
      → Leaves m (Outside p) (delete_elements json c now elements keyall)
  unfolding delete_elements
  delete_elements-Leaves p plain [] keyall h = search leaves_rules
  delete_elements-Leaves p plain (none ∷ rest) keyall ((k', e, below), h) = cc
  delete_elements-Leaves p plain (some k ∷ rest) keyall ((k', e, below), h) =
      let at_k : starts_with p k ≡ true = ground (arith, e, below) in
      Leaves-deref-some k _ (
        Leaves-bind _ _ (del_below m p plain k at_k)
          λ x. delete_elements-Leaves p plain rest (keyall ++ c_str k ++ codes ",") h)

  area_pattern : c_str (area_prefix ++ codes "*") ≡ area_prefix ++ b'*' ∷ []
  unfolding c_str
  area_pattern = refl

  -- What follows EXISTS on the pattern.
  remove_listed :
      (found : Text → Action c.State Text)
      → ((t : Text) → Leaves m (Outside area_prefix) (found t))
      → Leaves m (Outside area_prefix) (do
        reply ← c.exec (keys (c_str (area_prefix ++ codes "*")))
        listed ← deref reply
        keyall ←
            (if is_array listed.type then delete_elements json c now listed.element [] else pure [])
        found keyall)
  remove_listed found h = rw area_pattern (
      Leaves-keys area_prefix _ (omega arith) λ o below.
        Leaves-deref_reply area_prefix o _ below λ r listed.
          Leaves-bind _ found
            (Leaves-if (is_array r.type) _ _
              (delete_elements-Leaves area_prefix (omega arith) r.element [] listed)
              (Leaves-pure []))
            h)

  pub delete_areas_by_keywords-Leaves :
      (pt : json.Ptree) → Leaves m (Outside area_prefix) (delete_areas_by_keywords json c now pt)
  unfolding delete_areas_by_keywords
  delete_areas_by_keywords-Leaves pt = search (leaves_rules, remove_listed, ask) depth 20
    where
      ask : (k : Text) → Leaves m (Outside area_prefix) (c.exec (exists k))
      ask k = Leaves-exec (exists k) λ j e h. unfold effect_on in refl
