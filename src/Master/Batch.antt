-- ===== src/Master/Batch.antt =====
-- What a batch leaves in the cache and what a listing of it reads, on a cluster that answers.
pub mod Listing
pub mod Listed
pub mod Roundtrip
pub mod Plain
pub mod Removal
pub mod Clearing
use redis_rest.Base.{
  true, false, List, [], ◌∷◌, ◌++◌, Option, none, some, ◌≡◌, ◌≢◌, refl, ◌∙◌, ap, sym, Text, codes,
  c_str, c_str-of_NoNul, NoNul, text_eq, text_eq_refl, text_eq-false, All, text_eq_iff,
  if◌then◌else◌, append_assoc, append-nil, arith, inl, inr, drop_last, drop_last-append, ◌==◌,
}
use redis_rest.Base.Outcome.{
  Outcome, ok, Action, pure, deref, bind_step, lift_step, pure_lem, lift_lem, deref_lem,
  try_catch_lem, ◌>>=◌, ◌>>◌,
}
use redis_rest.Ptree.{PtreeLibrary}
use redis_rest.Ptree.Laws.{WritesJson}
use redis_rest.Cluster.{ClusterClient, exists_key, del, hset, hget, exists}
use redis_rest.Cluster.Laws.{
  Entry, absent, text, hash, presence, Semantics, IsReliable, effect_on, hset_entry, get_field,
  documented_reply, bulk_reply,
}
use redis_rest.Cluster.Reliable.{exec_lem, exists_key_lem, asked, view-asked}
use redis_rest.Master.Common.{put_record, remove_if}
use redis_rest.Master.Create.{create_items}
use redis_rest.Master.Fetch.{list_items, read_strict, read_lenient}

-- A record: its id, its tree and the line that the cache holds for it.
pub record Record (json : PtreeLibrary) : Type 0 where
  pub key : Text
  pub tree : json.Ptree
  pub line : Text

module _ (json : PtreeLibrary) (field : Text) where
  -- The items of a request and the records that they are.
  abbrev pub Reads : List (Text × json.Ptree) → List (Record json) → Type 0
  Reads [] [] = Unit
  Reads [] (r ∷ rs) = ⊥
  Reads (item ∷ items) [] = ⊥
  Reads ((_, item) ∷ items) (r ∷ rs) =
      (item ≡ r.tree)
      × (json.write_json false r.tree ≡ ok r.line)
      × (json.get_string field r.tree ≡ ok r.key)
      × Reads items rs

  -- The items of a request that ask for the records by their keys, whatever else they hold.
  abbrev pub Names : List (Text × json.Ptree) → List (Record json) → Type 0
  Names [] [] = Unit
  Names [] (r ∷ rs) = ⊥
  Names (item ∷ items) [] = ⊥
  Names ((_, item) ∷ items) (r ∷ rs) =
      ((line : Text) × (json.write_json false item ≡ ok line))
      × (json.get_string field item ≡ ok r.key)
      × Names items rs

  -- The keys of the records, as the reply lists them.
  abbrev pub joined : Text → List (Record json) → Text → Text
  joined prefix [] keyall = keyall
  joined prefix (r ∷ rs) keyall = joined prefix rs (keyall ++ (prefix ++ r.key) ++ codes ",")

-- The entry of a record.
abbrev pub record_entry : Text → Entry
record_entry line = hash ((codes "value", c_str line) ∷ [])

-- A map of entries after records are stored in it, in their order.
unfoldable pub stored :
    {json : PtreeLibrary} → Text → List (Record json) → (Text → Entry) → Text → Entry
stored prefix [] at j = at j
stored prefix (r ∷ rs) at j =
    stored prefix rs
      (λ k. if text_eq (c_str (prefix ++ r.key)) k then record_entry r.line else at k) j

module _ {c : ClusterClient} {m : Semantics c} (up : IsReliable c m) where
  open m use {view}
  open up use {after}

  -- DEL of a key that is there: afterwards the key is absent, and the others stand.
  cleared : Text → Text → Entry → Entry
  cleared k j e = if text_eq (c_str k) j then absent else e

  remove_at :
      (k : Text) (s : c.State) (e : Entry)
      → view s (c_str k) ≡ e
      → (s' : c.State) × (remove_if c (presence e == 1) k s ≡ (ok tt, s'))
        × ((j : Text) → view s' j ≡ cleared k j (view s j))
  unfolding cleared effect_on
  remove_at k s absent h = (s, pure_lem tt s, λ j. ground (arith, text_eq_iff (c_str k) j))
  remove_at k s (text t) h = (
    (c.exec (del (c_str k)) s).1,
    bind_step _ _ _ (exec_lem up (del (c_str k)) s) ∙ pure_lem tt _,
    after (del (c_str k)) s,
  )
  remove_at k s (hash fs) h = (
    (c.exec (del (c_str k)) s).1,
    bind_step _ _ _ (exec_lem up (del (c_str k)) s) ∙ pure_lem tt _,
    after (del (c_str k)) s,
  )

  put_lem :
      (k line : Text) (s : c.State)
      → (s' : c.State) × (put_record c k line s ≡ (ok tt, s'))
        × ((j : Text)
            → view s' j ≡ (
                if text_eq (c_str k) j
                then hset_entry (codes "value") (c_str line) (view s j)
                else view s j))
  unfolding effect_on
  put_lem k line s = (
    (c.exec (hset (c_str k) (codes "value") (c_str line)) s).1,
    bind_step _ _ _ (exec_lem up (hset (c_str k) (codes "value") (c_str line)) s) ∙ pure_lem tt _,
    λ j. after (hset (c_str k) (codes "value") (c_str line)) s j,
  )

  -- EXISTS, DEL if it is there, HSET: the key holds the record alone, and the others stand.
  replace_lem :
      {A : Type 0} (k line : Text) (rest : Action c.State A) (s : c.State)
      → (s' : c.State) × ((do
        found ← exists_key c k
        remove_if c found k
        put_record c k line
        rest)
            s
          ≡ rest s')
        × ((j : Text) → view s' j ≡ (if text_eq (c_str k) j then record_entry line else view s j))
  unfolding cleared hset_entry
  replace_lem k line rest s =
      let (s1, e1, v1) =
        remove_at k (asked c k s) (view s (c_str k)) (view-asked up k (c_str k) s) in
      let (s2, e2, v2) = put_lem k line s1 in
      (
        s2,
        bind_step _ _ _ (exists_key_lem up k s) ∙ bind_step _ _ _ e1 ∙ bind_step _ _ _ e2,
        λ j. ground (arith, v1 j, v2 j, view-asked up k j s),
      )

module _ (json : PtreeLibrary) {c : ClusterClient} {m : Semantics c} (up : IsReliable c m)
    (now : Text) (field prefix : Text) where
  open m use {view}

  -- The loop of a batch stores its records in their order and lists their keys.
  pub create_items_lem :
      (items : List (Text × json.Ptree)) (rs : List (Record json)) (keyall : Text) (s : c.State)
      → Reads json field items rs
      → (s' : c.State) × (create_items json c now field prefix items keyall s
          ≡ (ok (joined json field prefix rs keyall), s'))
        × ((j : Text) → view s' j ≡ stored prefix rs (view s) j)
  unfolding create_items stored
  create_items_lem [] [] keyall s h = (s, pure_lem keyall s, λ j. refl)
  create_items_lem [] (r ∷ rs) keyall s h = absurd h
  create_items_lem (item ∷ items) [] keyall s h = absurd h
  create_items_lem ((_, item) ∷ items) (r ∷ rs) keyall s (same, prints, names, h) =
      let k = prefix ++ r.key in
      let (s1, e1, v1) =
        replace_lem up k r.line
          (create_items json c now field prefix items (keyall ++ k ++ codes ",")) s in
      let (s2, e2, v2) = create_items_lem items rs (keyall ++ k ++ codes ",") s1 h in
      (
        s2,
        rw same (lift_step _ _ _ prints ∙ lift_step _ _ _ names ∙ e1 ∙ e2),
        λ j. v2 j ∙ ap (λ (at : Text → Entry). stored prefix rs at j) (λ i j'. v1 j' i),
      )

module _ {json : PtreeLibrary} (prefix : Text) where
  -- No two records share a key.
  abbrev pub Distinct : List (Record json) → Type 0
  Distinct [] = Unit
  Distinct (r ∷ rs) = All (λ q. c_str (prefix ++ q.key) ≢ c_str (prefix ++ r.key)) rs × Distinct rs

  -- The cache holds the record.
  abbrev pub HeldIn : (Text → Entry) → Record json → Type 0
  HeldIn at r = at (c_str (prefix ++ r.key)) ≡ record_entry r.line

  stored-other :
      (rs : List (Record json)) (at : Text → Entry) (j : Text)
      → All (λ q. c_str (prefix ++ q.key) ≢ j) rs
      → stored prefix rs at j ≡ at j
  unfolding stored
  stored-other [] at j h = refl
  stored-other (r ∷ rs) at j (other, h) =
      stored-other rs _ j h ∙ rw (text_eq-false (c_str (prefix ++ r.key)) j other) refl

  -- Distinct records are all held once they are stored.
  pub stored-HeldIn :
      (rs : List (Record json)) (at : Text → Entry)
      → Distinct rs
      → All (HeldIn (stored prefix rs at)) rs
  unfolding stored
  stored-HeldIn [] at h = tt
  stored-HeldIn (r ∷ rs) at (first, h) = (
    stored-other rs _ (c_str (prefix ++ r.key)) first
        ∙ rw (text_eq_refl (c_str (prefix ++ r.key))) refl,
    stored-HeldIn rs _ h,
  )
