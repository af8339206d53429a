-- ===== src/Master/Batch/Removal.antt =====
-- DELETE_AREAS_BY_KEYS on a cluster that answers.
use redis_rest.Base.{
  true, false, List, [], ◌∷◌, ◌++◌, ◌≡◌, refl, ◌∙◌, Text, codes, c_str, text_eq, text_eq_iff,
  if◌then◌else◌, arith, inl, inr, Bool-cases, ◌==◌, is_empty,
}
use redis_rest.Base.Outcome.{
  Outcome, ok, Action, bind_step, lift_step, pure_lem, lift_lem, try_catch_lem, throw_lem,
  std_exception, ◌>>=◌, ◌>>◌,
}
use redis_rest.Ptree.{PtreeLibrary}
use redis_rest.Cluster.{ClusterClient, exists_key, del}
use redis_rest.Cluster.Laws.{Entry, absent, text, hash, presence, Semantics, IsReliable, effect_on}
use redis_rest.Cluster.Reliable.{exec_lem, exists_key_lem, asked, view-asked}
use redis_rest.Master.Common.{area_prefix}
use redis_rest.ReplyJson.{text_reply}
use redis_rest.ErrorCode
use redis_rest.Master.Remove.{report, delete_items, delete_areas_by_keys}
use redis_rest.Master.Batch.{Record, Names}
use redis_rest.Master.Batch.Listed.{Wants}

-- A map of entries without one of them.
abbrev without : Text → (Text → Entry) → Text → Entry
without k at j = if text_eq (c_str k) j then absent else at j

-- The keys as the reply lists them: those before, and this one if it is there.
abbrev noted : Text → (Text → Entry) → Text → Text
noted k at keyall = if presence (at (c_str k)) == 1 then keyall ++ k ++ codes "," else keyall

module _ {json : PtreeLibrary} (prefix : Text) where
  abbrev pub removed : List (Record json) → (Text → Entry) → Text → Entry
  removed [] at = at
  removed (r ∷ rs) at = removed rs (without (prefix ++ r.key) at)

  abbrev pub found : List (Record json) → (Text → Entry) → Text → Text
  found [] at keyall = keyall
  found (r ∷ rs) at keyall =
      found rs (without (prefix ++ r.key) at) (noted (prefix ++ r.key) at keyall)

not_there : (e : Entry) → (presence e == 1) ≡ false → e ≡ absent
not_there absent h = refl
not_there (text t) h = cc
not_there (hash fs) h = cc

module _ {c : ClusterClient} {m : Semantics c} (up : IsReliable c m) where
  open m use {view}

  -- EXISTS, and DEL if it is there: afterwards the key is absent, and the others stand.
  remove_lem :
      {A : Type 0} (k keyall : Text) (rest : Text → Action c.State A) (at : Text → Entry)
      (s : c.State)
      → view s ≡ at
      → (s' : c.State) × ((do
        there ← exists_key c k
        if there then (do c.exec (del (c_str k)); rest (keyall ++ k ++ codes ",")) else rest keyall)
            s
          ≡ rest (noted k at keyall) s')
        × (view s' ≡ without k at)
  unfolding effect_on
  remove_lem k keyall rest at s same =
      let held : (j : Text) → view s j ≡ at j = λ j i. same i j in
      elim (Bool-cases (presence (at (c_str k)) == 1)) [
        | inl there ↦
            let there' : (presence (view s (c_str k)) == 1) ≡ true = rw same there in
            let s1 = asked c k s in
            let gone : (j : Text) → view (c.exec (del (c_str k)) s1).1 j ≡ without k at j =
              λ j. ground (arith, up.after (del (c_str k)) s1 j, view-asked up k j s, held j) in
            (
              (c.exec (del (c_str k)) s1).1,
              bind_step _ _ _ (exists_key_lem up k s)
                  ∙ rw (there', there) (bind_step _ _ _ (exec_lem up (del (c_str k)) s1)),
              λ i j. gone j i,
            )
        | inr missing ↦
            let missing' : (presence (view s (c_str k)) == 1) ≡ false = rw same missing in
            let as_it_was : (j : Text) → view (asked c k s) j ≡ without k at j = λ j. ground (
              arith,
              text_eq_iff (c_str k) j,
              not_there (at (c_str k)) missing,
              view-asked up k j s,
              held j,
            ) in
            (
              asked c k s,
              bind_step _ _ _ (exists_key_lem up k s) ∙ rw (missing', missing) refl,
              λ i j. as_it_was j i,
            )
      ]

module _ (json : PtreeLibrary) {c : ClusterClient} {m : Semantics c} (up : IsReliable c m)
    (now : Text) where
  open m use {view}

  pub delete_items_lem :
      (items : List (Text × json.Ptree)) (rs : List (Record json)) (keyall : Text)
      (at : Text → Entry) (s : c.State)
      → Names json (codes "id") items rs
      → view s ≡ at
      → (s' : c.State) × (delete_items json c now items keyall s
          ≡ (ok (found area_prefix rs at keyall), s'))
        × (view s' ≡ removed area_prefix rs at)
  unfolding delete_items
  delete_items_lem [] [] keyall at s h same = (s, pure_lem keyall s, same)
  delete_items_lem [] (r ∷ rs) keyall at s h same = absurd h
  delete_items_lem (item ∷ items) [] keyall at s h same = absurd h
  delete_items_lem ((_, item) ∷ items) (r ∷ rs) keyall at s ((line, prints), names, h) same =
      let k = area_prefix ++ r.key in
      let (s1, e1, v1) = remove_lem up k keyall (delete_items json c now items) at s same in
      let (s2, e2, v2) = delete_items_lem items rs (noted k at keyall) (without k at) s1 h v1 in
      (s2, lift_step _ _ _ prints ∙ lift_step _ _ _ names ∙ e1 ∙ e2, v2)

module _ (json : PtreeLibrary) (now : Text) where
  -- The reply of DELETE_AREAS_BY_KEYS, by the keys that it removed.
  abbrev pub removal_reply : Text → Outcome Text
  removal_reply keyall =
      if is_empty keyall
      then text_reply json now ErrorCode.unknown_error
          (codes "DELETE_AREAS from cache[KV_MF] unknown error") (codes "key does not exist")
      else text_reply json now ErrorCode.success
          (codes "DELETE_AREAS from cache[KV_MF] successfully") keyall

module _ (json : PtreeLibrary) {c : ClusterClient} {m : Semantics c} (up : IsReliable c m)
    (now : Text) (pt : json.Ptree) (rs : List (Record json)) where
  open m use {view}

  report_nothing :
      (message none_removed keyall : Text) (s : c.State)
      → is_empty keyall ≡ true
      → report json c now message none_removed keyall s ≡ (std_exception none_removed, s)
  report_nothing message none_removed keyall s nothing = rw nothing (throw_lem none_removed s)

  report_listed :
      (message none_removed keyall t : Text) (s : c.State)
      → is_empty keyall ≡ false
      → text_reply json now ErrorCode.success message keyall ≡ ok t
      → report json c now message none_removed keyall s ≡ (ok t, s)
  report_listed message none_removed keyall t s listed prints = rw listed (lift_lem _ s prints)

  -- DELETE_AREAS_BY_KEYS of areas leaves the others as they were, and lists those that were there.
  pub areas_removed :
      (at : Text → Entry) (t : Text) (s : c.State)
      → Wants json (codes "id") pt rs
      → view s ≡ at
      → removal_reply json now (found area_prefix rs at []) ≡ ok t
      → (s' : c.State) × (delete_areas_by_keys json c now pt s ≡ (ok t, s'))
        × (view s' ≡ removed area_prefix rs at)
  unfolding delete_areas_by_keys
  areas_removed at t s q same prints =
      let (s', e, v) =
        delete_items_lem json up now (json.children q.requests) rs [] at s q.names same in
      let ran = lift_step _ _ _ q.has_requests ∙ bind_step _ _ _ e in
      elim (Bool-cases (is_empty (found area_prefix rs at []))) [
        | inl nothing ↦ (
          s',
          try_catch_lem _ _ _ s (ran ∙ report_nothing _ _ (found area_prefix rs at []) s' nothing)
              ∙ lift_lem _ _ (rw nothing at prints),
          v,
        )
        | inr listed ↦ (
          s',
          try_catch_lem _ _ _ s (
              ran
              ∙ report_listed _ _ (found area_prefix rs at []) t s' listed (rw listed at prints)),
          v,
        )
      ]
