-- ===== src/Master/Batch/Roundtrip.antt =====
-- Batches and the listings that follow them.
use redis_rest.Base.{List, [], ◌++◌, ◌≡◌, ◌∙◌, ap, Text, codes, All}
use redis_rest.Base.Outcome.{Outcome, ok, Action, bind_step, lift_step, lift_lem, try_catch_lem}
use redis_rest.Ptree.{PtreeLibrary}
use redis_rest.Ptree.Laws.{WritesJson}
use redis_rest.Cluster.{ClusterClient}
use redis_rest.Cluster.Laws.{Semantics, IsReliable}
use redis_rest.ReplyJson.{text_reply}
use redis_rest.ErrorCode
use redis_rest.Master.Common.{area_prefix, title_prefix}
use redis_rest.Master.Create.{create_batch, batch_create_areas, general_batch_create, set_user_role}
use redis_rest.Master.Fetch.{long_rewrites, list_areas_by_keys, general_list_by_keys, get_user_role}
use redis_rest.Master.Rewritten.{scans}
use redis_rest.Master.Batch.{
  Record, Reads, joined, stored, create_items_lem, Distinct, HeldIn, stored-HeldIn,
}
use redis_rest.Master.Batch.Listed.{Wants, Lists, areas_listed, general_listed, role_listed}

-- A request whose `requestData` holds the records.
pub record Carries (json : PtreeLibrary) (field : Text) (pt : json.Ptree) (rs : List (Record json))
    : Type 0 where
  pub requests : json.Ptree
  pub has_requests : json.get_child (codes "requestData") pt ≡ ok requests
  pub reads : Reads json field (json.children requests) rs

module _ (json : PtreeLibrary) {c : ClusterClient} {m : Semantics c} (up : IsReliable c m)
    (now : Text) (pt : json.Ptree) (rs : List (Record json)) where
  open m use {view}

  -- A batch ends with the reply, and the cache is what it was with the records stored in it.
  abbrev pub Stores : Text → Text → Action c.State Text → c.State → Type 0
  Stores prefix reply handler s =
      (s' : c.State) × (handler s ≡ (ok reply, s'))
      × ((j : Text) → view s' j ≡ stored prefix rs (view s) j)

  pub create_batch_lem :
      (field prefix message reply : Text) (s : c.State)
      → Carries json field pt rs
      → text_reply json now ErrorCode.success message (joined json field prefix rs []) ≡ ok reply
      → Stores prefix reply (create_batch json c now field prefix message pt) s
  unfolding create_batch
  create_batch_lem field prefix message reply s q prints =
      let (s', e, v) =
        create_items_lem json up now field prefix (json.children q.requests) rs [] s q.reads in
      (s', lift_step _ _ _ q.has_requests ∙ bind_step _ _ _ e ∙ lift_lem _ _ prints, v)

  -- BATCH_CREATE_AREAS answers with the keys, and the cache is what it was with every record stored
  -- under its key, in the order of the request, on a cluster that answers every command and if the
  -- reply can be printed.
  pub areas_stored :
      (reply : Text) (s : c.State)
      → Carries json (codes "id") pt rs
      → text_reply json now ErrorCode.success
          (codes "BATCH_CREATE_AREAS to cache[KV_MF] successfully")
          (joined json (codes "id") area_prefix rs [])
        ≡ ok reply
      → Stores area_prefix reply (batch_create_areas json c now pt) s
  unfolding batch_create_areas
  areas_stored reply s q prints =
      let (s', e, v) = create_batch_lem (codes "id") area_prefix _ reply s q prints in
      (s', try_catch_lem _ _ _ s e, v)

  -- Each general batch, for each key title and operation, answers with the keys, and the cache is what
  -- it was with every record stored under its key, in the order of the request, on a cluster that
  -- answers every command and if the reply can be printed.
  pub general_stored :
      (title operation reply : Text) (s : c.State)
      → Carries json (codes "id") pt rs
      → text_reply json now ErrorCode.success
          (operation ++ codes " to cache[KV_MF] successfully")
          (joined json (codes "id") (title_prefix title) rs [])
        ≡ ok reply
      → Stores (title_prefix title) reply (general_batch_create json c now pt title operation) s
  unfolding general_batch_create
  general_stored title operation reply s q prints =
      let (s', e, v) = create_batch_lem (codes "id") (title_prefix title) _ reply s q prints in
      (s', try_catch_lem _ _ _ s e, v)

  pub role_stored :
      (title operation reply : Text) (s : c.State)
      → Carries json (codes "systemAccountId") pt rs
      → text_reply json now ErrorCode.success
          (operation ++ codes " to cache[KV_MF] successfully")
          (joined json (codes "systemAccountId") (title_prefix title) rs [])
        ≡ ok reply
      → Stores (title_prefix title) reply (set_user_role json c now pt title operation) s
  unfolding set_user_role
  role_stored title operation reply s q prints =
      let (s', e, v) =
        create_batch_lem (codes "systemAccountId") (title_prefix title) _ reply s q prints in
      (s', try_catch_lem _ _ _ s e, v)

module _ (json : PtreeLibrary) (laws : WritesJson json) {c : ClusterClient} {m : Semantics c}
    (up : IsReliable c m) (now later : Text) (pt wanted : json.Ptree)
    (rs : List (Record json)) where
  open m use {view}

  after_lem :
      (prefix reply r : Text) (first second : Action c.State Text) (s : c.State)
      → Distinct prefix rs
      → Stores json up now pt rs prefix reply first s
      → ((s1 : c.State)
          → All (HeldIn prefix (view s1)) rs
          → (s2 : c.State) × (second s1 ≡ (ok r, s2)))
      → (second (first s).1).0 ≡ ok r
  after_lem prefix reply r first second s distinct (s1, e1, v1) h =
      let views : view s1 ≡ stored prefix rs (view s) = λ i j. v1 j i in
      let (s2, e2) = h s1 (rw views (stored-HeldIn prefix rs (view s) distinct)) in
      ap (λ (x : Outcome Text × c.State). (second x.1).0) e1
      ∙ ap (λ (x : Outcome Text × c.State). x.0) e2

  -- LIST_AREAS_BY_KEYS after BATCH_CREATE_AREAS of records with distinct keys, by a request that holds
  -- their keys and whatever else: the reply is the one that lists the trees of the batch's records, in
  -- order, after the rewrites that turn the empty text of the named fields into []. The cluster answers
  -- every command and the replies can be printed.
  pub list-create_areas :
      (reply out : Text) (s : c.State)
      → Carries json (codes "id") pt rs
      → Wants json (codes "id") wanted rs
      → Distinct area_prefix rs
      → text_reply json now ErrorCode.success
          (codes "BATCH_CREATE_AREAS to cache[KV_MF] successfully")
          (joined json (codes "id") area_prefix rs [])
        ≡ ok reply
      → Lists json laws up later wanted rs (codes "LIST_AREAS from cache[KV_MF] successfully") out
      → (list_areas_by_keys json c later wanted (batch_create_areas json c now pt s).1).0
        ≡ ok (scans long_rewrites out)
  list-create_areas reply out s q w distinct prints lists =
      after_lem area_prefix reply (scans long_rewrites out) (batch_create_areas json c now pt)
        (list_areas_by_keys json c later wanted) s distinct
        (areas_stored json up now pt rs reply s q prints)
        λ s1 held. areas_listed json laws up later wanted rs out s1 w held lists

  -- A general listing by keys, for any key title, after a general batch of records with distinct keys,
  -- by a request that holds their keys and whatever else: the reply is the one that lists the trees of
  -- the batch's records, in order, after the rewrites that turn the empty text of the named fields into
  -- []. The cluster answers every command and the replies can be printed.
  pub list-create_general :
      (title create list reply out : Text) (s : c.State)
      → Carries json (codes "id") pt rs
      → Wants json (codes "id") wanted rs
      → Distinct (title_prefix title) rs
      → text_reply json now ErrorCode.success
          (create ++ codes " to cache[KV_MF] successfully")
          (joined json (codes "id") (title_prefix title) rs [])
        ≡ ok reply
      → Lists json laws up later wanted rs (list ++ codes " from cache[KV_MF] successfully") out
      → (general_list_by_keys json c later wanted title list
          (general_batch_create json c now pt title create s).1).0
        ≡ ok (scans long_rewrites out)
  list-create_general title create list reply out s q w distinct prints lists =
      after_lem (title_prefix title) reply (scans long_rewrites out)
        (general_batch_create json c now pt title create)
        (general_list_by_keys json c later wanted title list) s distinct
        (general_stored json up now pt rs title create reply s q prints)
        λ s1 held. general_listed json laws up later wanted rs title list out s1 w held lists

  -- GET_USER_ROLE after SET_USER_ROLE of roles with distinct account ids, by a request that holds the
  -- ids and whatever else: the reply is the one that lists the trees of the roles, in order, after the
  -- rewrites that turn the empty text of the named fields into []. The cluster answers every command and
  -- the replies can be printed.
  get-set_user_role :
      (title set_name get_name reply out : Text) (s : c.State)
      → Carries json (codes "systemAccountId") pt rs
      → Wants json (codes "systemAccountId") wanted rs
      → Distinct (title_prefix title) rs
      → text_reply json now ErrorCode.success
          (set_name ++ codes " to cache[KV_MF] successfully")
          (joined json (codes "systemAccountId") (title_prefix title) rs [])
        ≡ ok reply
      → Lists json laws up later wanted rs (get_name ++ codes " from cache[KV_MF] successfully") out
      → (get_user_role json c later wanted title get_name
          (set_user_role json c now pt title set_name s).1).0
        ≡ ok (scans long_rewrites out)
  get-set_user_role title set_name get_name reply out s q w distinct prints lists =
      after_lem (title_prefix title) reply (scans long_rewrites out)
        (set_user_role json c now pt title set_name)
        (get_user_role json c later wanted title get_name) s distinct
        (role_stored json up now pt rs title set_name reply s q prints)
        λ s1 held. role_listed json laws up later wanted rs title get_name out s1 w held lists
