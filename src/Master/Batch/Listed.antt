-- ===== src/Master/Batch/Listed.antt =====
-- The listings by keys of records that the cache holds.
use redis_rest.Base.{List, ◌++◌, Option, ◌≡◌, ◌∙◌, ap, Text, codes, All}
use redis_rest.Base.Outcome.{ok, Action, bind_step, lift_step, lift_lem, try_catch_lem}
use redis_rest.Ptree.{PtreeLibrary}
use redis_rest.Ptree.Laws.{WritesJson}
use redis_rest.Cluster.{ClusterClient}
use redis_rest.Cluster.Laws.{Semantics, IsReliable}
use redis_rest.ReplyJson.{head, send}
use redis_rest.ErrorCode
use redis_rest.Master.Common.{area_prefix, title_prefix}
use redis_rest.Master.Fetch.{
  Rewrites, ended, long_rewrites, list_by_keys, read_strict, read_lenient, list_areas_by_keys,
  general_list_by_keys, get_user_role,
}
use redis_rest.Master.Rewritten.{scans, NotEmpty, rewrite-scans, long-NotEmpty}
use redis_rest.Master.Batch.{Names, Record, HeldIn}
use redis_rest.Master.Batch.Listing.{
  Printed, ReadsBack, read_strict-ReadsBack, read_lenient-ReadsBack, pushed, list_items_lem,
}

-- A request whose `requestData` asks for the records by their keys.
pub record Wants (json : PtreeLibrary) (field : Text) (pt : json.Ptree) (rs : List (Record json))
    : Type 0 where
  pub requests : json.Ptree
  pub has_requests : json.get_child (codes "requestData") pt ≡ ok requests
  pub names : Names json field (json.children requests) rs

module _ (json : PtreeLibrary) (laws : WritesJson json) {c : ClusterClient} {m : Semantics c}
    (up : IsReliable c m) (now : Text) (pt : json.Ptree) (rs : List (Record json)) where
  open m use {view}

  -- The records print as their lines, and `out` is the reply that lists them, before its empty arrays
  -- are rewritten.
  abbrev pub Lists : Text → Text → Type 0
  Lists message out =
      All (Printed json) rs
      × (send json now (
            json.add_child (codes "replyData") (pushed json rs json.empty)
              (head json now ErrorCode.success message))
          ≡ ok out)

  pub list_by_keys_lem :
      (read : json.Ptree → Option Text → Action c.State json.Ptree)
      → ReadsBack json laws c now read
      → (rewrites : Rewrites) (field prefix message out : Text) (s : c.State)
      → All NotEmpty rewrites
      → Wants json field pt rs
      → All (HeldIn prefix (view s)) rs
      → Lists message out
      → (s' : c.State) × (list_by_keys json c now read rewrites field prefix message pt s
          ≡ (ok (scans rewrites out), s'))
  unfolding list_by_keys
  list_by_keys_lem read back rewrites field prefix message out s full q held (printed, lists) =
      let (s', e) =
        list_items_lem json laws up now read back field prefix (json.children q.requests) rs
          json.empty s q.names printed held in
      (
        s',
        lift_step _ _ _ q.has_requests
            ∙ bind_step _ _ _ e
            ∙ lift_step _ _ _ lists
            ∙ lift_lem _ _ (ap ended (rewrite-scans rewrites out full)),
      )

  -- LIST_AREAS_BY_KEYS of records that are held.
  pub areas_listed :
      (out : Text) (s : c.State)
      → Wants json (codes "id") pt rs
      → All (HeldIn area_prefix (view s)) rs
      → Lists (codes "LIST_AREAS from cache[KV_MF] successfully") out
      → (s' : c.State) × (list_areas_by_keys json c now pt s ≡ (ok (scans long_rewrites out), s'))
  unfolding list_areas_by_keys
  areas_listed out s q held lists =
      let (s', e) =
        list_by_keys_lem (read_strict json c now) (read_strict-ReadsBack json laws c now)
          long_rewrites (codes "id") area_prefix _ out s long-NotEmpty q held lists in
      (s', try_catch_lem _ _ _ s e)

  -- A general listing by keys of records that are held.
  pub general_listed :
      (title operation out : Text) (s : c.State)
      → Wants json (codes "id") pt rs
      → All (HeldIn (title_prefix title) (view s)) rs
      → Lists (operation ++ codes " from cache[KV_MF] successfully") out
      → (s' : c.State) × (general_list_by_keys json c now pt title operation s
          ≡ (ok (scans long_rewrites out), s'))
  unfolding general_list_by_keys
  general_listed title operation out s q held lists =
      let (s', e) =
        list_by_keys_lem (read_lenient json c now) (read_lenient-ReadsBack json laws c now)
          long_rewrites (codes "id") (title_prefix title) _ out s long-NotEmpty q held lists in
      (s', try_catch_lem _ _ _ s e)

  -- GET_USER_ROLE of roles that are held.
  pub role_listed :
      (title operation out : Text) (s : c.State)
      → Wants json (codes "systemAccountId") pt rs
      → All (HeldIn (title_prefix title) (view s)) rs
      → Lists (operation ++ codes " from cache[KV_MF] successfully") out
      → (s' : c.State) × (get_user_role json c now pt title operation s
          ≡ (ok (scans long_rewrites out), s'))
  unfolding get_user_role
  role_listed title operation out s q held lists =
      let (s', e) =
        list_by_keys_lem (read_lenient json c now) (read_lenient-ReadsBack json laws c now)
          long_rewrites (codes "systemAccountId") (title_prefix title) _ out s long-NotEmpty q held
          lists in
      (s', try_catch_lem _ _ _ s e)
