-- ===== src/Master/Batch/Clearing.antt =====
-- DELETE_AREAS_BY_KEYWORDS empties the area prefix, on a cluster that answers.
use redis_rest.Base.{
  true, false, List, [], ◌∷◌, ◌++◌, map, some, ◌≡◌, ◌≢◌, ◌⊎◌, refl, ◌∙◌, ap, Text, codes, c_str,
  c_str-of_NoNul, NoNul, text_eq_iff, text_mem, starts_with, if◌then◌else◌, arith, inl, inr,
  Bool-cases,
}
use redis_rest.Base.Outcome.{
  Outcome, ok, Action, try_catch, bind_step, lift_step, pure_lem, deref_lem, handle,
}
use redis_rest.Ptree.{PtreeLibrary}
use redis_rest.Cluster.{ClusterClient, del, keys, exists}
use redis_rest.Cluster.Laws.{
  Entry, absent, text, hash, Semantics, IsReliable, effect_on, documented_reply, array_reply,
}
use redis_rest.Cluster.Frame.{Leaves, leaves_rules}
use redis_rest.Cluster.Reliable.{exec_lem}
use redis_rest.Master.Common.{area_prefix}
use redis_rest.Master.Remove.{delete_elements, delete_areas_by_keywords, report}

abbrev AnyKey : Text → Entry → Type 0
AnyKey j e = Unit

-- The keys as DEL is given them.
cut : List Text → List Text
cut [] = []
cut (k ∷ ks) = c_str k ∷ cut ks

cut_mem : (j : Text) (ks : List Text) → NoNul j → text_mem j ks ≡ true → text_mem j (cut ks) ≡ true
unfolding cut text_mem
cut_mem j [] plain h = cc
cut_mem j (k ∷ ks) plain h =
    ground
      (arith, cut_mem j ks plain, text_eq_iff j k, text_eq_iff j (c_str k), c_str-of_NoNul j plain)

module _ (json : PtreeLibrary) {c : ClusterClient} {m : Semantics c} (up : IsReliable c m)
    (now : Text) where
  open m use {view, matching}

  delete_elements_lem :
      (ks : List Text) (keyall : Text) (s : c.State)
      → (t : Text) × (s' : c.State) × (delete_elements json c now (map some ks) keyall s
          ≡ (ok t, s'))
        × ((j : Text) → view s' j ≡ (if text_mem j (cut ks) then absent else view s j))
  unfolding delete_elements cut text_mem effect_on
  delete_elements_lem [] keyall s = (keyall, s, pure_lem keyall s, λ j. refl)
  delete_elements_lem (k ∷ ks) keyall s =
      let s1 = (c.exec (del (c_str k)) s).1 in
      let (t, s2, e, v) = delete_elements_lem ks (keyall ++ c_str k ++ codes ",") s1 in
      (
        t,
        s2,
        bind_step _ _ _ (deref_lem k s) ∙ bind_step _ _ _ (exec_lem up (del (c_str k)) s) ∙ e,
        λ j. ground (
          arith,
          v j,
          up.after (del (c_str k)) s j,
          text_eq_iff j (c_str k),
          text_eq_iff (c_str k) j,
        ),
      )

same_try :
    {S A : Type 0} (a b : Action S A) (f g : Text → Action S A) (s s' : S)
    → a s ≡ b s'
    → try_catch a f g s ≡ try_catch b f g s'
unfolding try_catch
same_try a b f g s s' e = ap (λ (r : Outcome _ × _). handle r.0 f g r.1) e

absent_or : (e : Entry) → (e ≡ absent) ⊎ (e ≢ absent)
absent_or absent = inl refl
absent_or (text t) = inr (λ h. cc)
absent_or (hash fs) = inr (λ h. cc)

module _ (json : PtreeLibrary) {c : ClusterClient} {m : Semantics c} (up : IsReliable c m)
    (now : Text) where
  open m use {view, matching}

  abbrev pattern_text : Text
  pattern_text = c_str (area_prefix ++ codes "*")

  pattern_lem : pattern_text ≡ area_prefix ++ b'*' ∷ []
  unfolding c_str
  pattern_lem = refl

  -- What the listing leaves out below the prefix is not there.
  unlisted :
      (s : c.State) (j : Text)
      → starts_with area_prefix j ≡ true
      → text_mem j (matching s pattern_text) ≡ false
      → view s j ≡ absent
  unlisted s j below out = elim (absent_or (view s j)) [
    | inl gone ↦ gone
    | inr there ↦ cc (out, listed_here there)
  ]
    where
      listed_here : view s j ≢ absent → text_mem j (matching s pattern_text) ≡ true
      listed_here there =
          rw pattern_lem ((up.listed area_prefix s j (omega arith)).1 (below, there))

  keys_lem :
      (s : c.State)
      → c.exec (keys pattern_text) s
        ≡ (ok (some (array_reply (matching s pattern_text))), (c.exec (keys pattern_text) s).1)
  unfolding documented_reply
  keys_lem s = exec_lem up (keys pattern_text) s

  report_keeps :
      (message none_removed t : Text) (f g : Text → Action c.State Text)
      → ((w : Text) → Leaves m AnyKey (f w))
      → ((w : Text) → Leaves m AnyKey (g w))
      → Leaves m AnyKey (try_catch (report json c now message none_removed t) f g)
  report_keeps message none_removed t f g hf hg = search (leaves_rules, hf, hg) depth 20

  -- What the last two states before the removal hold of a key.
  abbrev looked : c.State → c.State
  looked s = (c.exec (exists pattern_text) s).1

  abbrev listed_state : c.State → c.State
  listed_state s = (c.exec (keys pattern_text) (looked s)).1

  removed_lem :
      (s s' : c.State) (j : Text)
      → NoNul j
      → starts_with area_prefix j ≡ true
      → view s' j ≡ (if text_mem j (cut (matching s pattern_text)) then absent else view s j)
      → view s' j ≡ absent
  removed_lem s s' j plain below e = elim (Bool-cases (text_mem j (matching s pattern_text))) [
    | inl found ↦ e ∙ rw (cut_mem j (matching s pattern_text) plain found) refl
    | inr out ↦ elim (Bool-cases (text_mem j (cut (matching s pattern_text)))) [
      | inl found ↦ e ∙ rw found refl
      | inr kept ↦ e ∙ rw kept (unlisted s j below out)
    ]
  ]

  -- After DELETE_AREAS_BY_KEYWORDS, with any `requestData`, no key below the area prefix is left, if
  -- the cluster answers every command and the key has no NUL byte.
  pub areas_cleared :
      (pt : json.Ptree) (s : c.State) (j : Text) {requests : json.Ptree}
      → json.get_child (codes "requestData") pt ≡ ok requests
      → NoNul j
      → starts_with area_prefix j ≡ true
      → view (delete_areas_by_keywords json c now pt s).1 j ≡ absent
  unfolding delete_areas_by_keywords
  areas_cleared pt s j asked plain below =
      let s1 = looked s in
      let s2 = listed_state s in
      let (t, s3, e, v) = delete_elements_lem json up now (matching s1 pattern_text) [] s2 in
      let same_view : view s2 j ≡ view s1 j =
        unfold effect_on in up.after (keys pattern_text) s1 j in
      let gone : view s3 j ≡ absent = removed_lem s1 s3 j plain below (v j ∙ rw same_view refl) in
      ap (λ (r : Outcome Text × c.State). view r.1 j)
        (same_try _
          (report json c now (codes "DELETE_AREAS all from cache[KV_MF] successfully")
            (codes "no keys deleted") t)
          _ _ s s3
          (lift_step _ _ _ asked
            ∙ bind_step _ _ _ (exec_lem up (exists pattern_text) s)
            ∙ bind_step _ _ _ (keys_lem s1)
            ∙ bind_step _ _ _ (deref_lem _ _)
            ∙ bind_step _ _ _ e))
      ∙ (report_keeps _ _ t _ _ (λ w. search leaves_rules) (λ w. search leaves_rules)).at s3 j tt
      ∙ gone
