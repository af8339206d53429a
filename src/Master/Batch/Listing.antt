-- ===== src/Master/Batch/Listing.antt =====
-- What a listing by keys reads of the records that the cache holds.
use redis_rest.Base.{
  true, false, List, [], ◌∷◌, ◌++◌, Option, some, ◌≡◌, refl, ◌∙◌, Text, codes, c_str,
  c_str-of_NoNul, All, text_eq_refl, drop_last, drop_last-append,
}
use redis_rest.Base.Outcome.{ok, Action, bind_step, lift_step, pure_lem, deref_lem}
use redis_rest.Ptree.{PtreeLibrary}
use redis_rest.Ptree.Laws.{WritesJson}
use redis_rest.Cluster.{ClusterClient, exists_key, hget}
use redis_rest.Cluster.Laws.{
  Semantics, IsReliable, effect_on, get_field, documented_reply, bulk_reply,
}
use redis_rest.Cluster.Reliable.{exec_lem, exists_key_lem, asked, view-asked}
use redis_rest.Master.Fetch.{list_items, read_strict, read_lenient}
use redis_rest.Master.Batch.{Record, Names, HeldIn, record_entry}

module _ (json : PtreeLibrary) where
  -- The tree of the record prints as its line.
  abbrev pub Printed : Record json → Type 0
  Printed r = json.write_json false r.tree ≡ ok r.line

  -- The records' trees behind those found before.
  abbrev pub pushed : List (Record json) → json.Ptree → json.Ptree
  pushed [] found = found
  pushed (r ∷ rs) found = pushed rs (json.push_back [] r.tree found)

module _ (json : PtreeLibrary) (laws : WritesJson json) (cluster : ClusterClient) (now : Text) where
  -- A reader of records, the strict or the lenient one.
  abbrev pub ReadsBack : (json.Ptree → Option Text → Action cluster.State json.Ptree) → Type 0
  ReadsBack read =
      (found t : json.Ptree) (line : Text) (s : cluster.State)
      → json.write_json false t ≡ ok line
      → read found (some (c_str line)) s ≡ (ok (json.push_back [] t found), s)

  line_back :
      (t : json.Ptree) {line : Text}
      → json.write_json false t ≡ ok line
      → json.read_json (drop_last (c_str (c_str line))) ≡ ok t
  line_back t prints =
      let (b, full, e, plain, back) = laws.line t prints in
      rw (c_str-of_NoNul _ plain, c_str-of_NoNul _ plain, e, drop_last-append) back

  pub read_lenient-ReadsBack : ReadsBack (read_lenient json cluster now)
  unfolding read_lenient
  read_lenient-ReadsBack found t line s prints = lift_step _ _ _ (line_back t prints) ∙ pure_lem _ _

  pub read_strict-ReadsBack : ReadsBack (read_strict json cluster now)
  unfolding read_strict
  read_strict-ReadsBack found t line s prints =
      bind_step _ _ _ (deref_lem _ _) ∙ lift_step _ _ _ (line_back t prints) ∙ pure_lem _ _

module _ (json : PtreeLibrary) (laws : WritesJson json) {c : ClusterClient} {m : Semantics c}
    (up : IsReliable c m) (now : Text) (read : json.Ptree → Option Text → Action c.State json.Ptree)
    (reads_back : ReadsBack json laws c now read) (field prefix : Text) where
  open m use {view}

  -- HGET of a record.
  abbrev fetched : Text → c.State → c.State
  fetched k s = (c.exec (hget (c_str k) (codes "value")) (asked c k s)).1

  fetch_lem :
      (k line : Text) (s : c.State)
      → view s (c_str k) ≡ record_entry line
      → c.exec (hget (c_str k) (codes "value")) (asked c k s)
        ≡ (ok (some (bulk_reply (c_str line))), fetched k s)
  unfolding documented_reply get_field
  fetch_lem k line s held =
      exec_lem up (hget (c_str k) (codes "value")) (asked c k s)
      ∙ rw (view-asked up k (c_str k) s, held, text_eq_refl (codes "value")) refl

  -- A listing by keys of records that are held finds them all, in the order of the request.
  pub list_items_lem :
      (items : List (Text × json.Ptree)) (rs : List (Record json)) (found : json.Ptree)
      (s : c.State)
      → Names json field items rs
      → All (Printed json) rs
      → All (HeldIn prefix (view s)) rs
      → (s' : c.State) × (list_items json c now read field prefix items found s
          ≡ (ok (pushed json rs found), s'))
  unfolding list_items
  list_items_lem [] [] found s h printed held = (s, pure_lem found s)
  list_items_lem [] (r ∷ rs) found s h printed held = absurd h
  list_items_lem (item ∷ items) [] found s h printed held = absurd h
  list_items_lem ((_, item) ∷ items) (r ∷ rs) found s ((line, writes), names, h) (prints, printed)
        (here, held) =
      let k = prefix ++ r.key in
      let there : exists_key c k s ≡ (ok true, asked c k s) =
        exists_key_lem up k s ∙ rw here refl in
      let s1 = fetched k s in
      let same_view : (j : Text) → view s1 j ≡ view s j = λ j.
        unfold effect_on in
        up.after (hget (c_str k) (codes "value")) (asked c k s) j ∙ view-asked up k j s in
      let views : view s1 ≡ view s = λ i j. same_view j i in
      let (s2, e) =
        list_items_lem items rs (json.push_back [] r.tree found) s1 h printed (rw views held) in
      (
        s2,
        lift_step _ _ _ writes
            ∙ lift_step _ _ _ names
            ∙ bind_step _ _ _ there
            ∙ bind_step _ _ _ (fetch_lem k r.line s here)
            ∙ bind_step _ _ _ (deref_lem _ _)
            ∙ bind_step _ _ _ (reads_back found r.tree r.line s1 prints)
            ∙ e,
      )
