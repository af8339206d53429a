-- ===== src/Master/Batch/Plain.antt =====
-- What BATCH_CREATE and LIST_…_BY_KEYS do for the languages and the ships, on a cluster that answers.
use redis_rest.Base.{List, [], ◌≡◌, Text, codes, All}
use redis_rest.Base.Outcome.{ok, try_catch_lem}
use redis_rest.Ptree.{PtreeLibrary}
use redis_rest.Ptree.Laws.{WritesJson}
use redis_rest.Cluster.{ClusterClient}
use redis_rest.Cluster.Laws.{Semantics, IsReliable}
use redis_rest.ReplyJson.{text_reply}
use redis_rest.ErrorCode
use redis_rest.Master.Common.{language_prefix, ship_prefix}
use redis_rest.Master.Create.{batch_create_language, batch_create_shipvia}
use redis_rest.Master.Fetch.{
  short_rewrites, read_lenient, list_language_by_keys, list_shipvia_by_keys,
}
use redis_rest.Master.Rewritten.{scans, short-NotEmpty}
use redis_rest.Master.Batch.{Record, joined, HeldIn}
use redis_rest.Master.Batch.Listed.{Wants, Lists, list_by_keys_lem}
use redis_rest.Master.Batch.Listing.{read_lenient-ReadsBack}
use redis_rest.Master.Batch.Roundtrip.{Carries, Stores, create_batch_lem}

module _ (json : PtreeLibrary) (laws : WritesJson json) {c : ClusterClient} {m : Semantics c}
    (up : IsReliable c m) (now : Text) (pt : json.Ptree) (rs : List (Record json))
    (carries : Carries json (codes "id") pt rs) where
  open m use {view}

  pub languages_stored :
      (reply : Text) (s : c.State)
      → text_reply json now ErrorCode.success
          (codes "BATCH_CREATE_LANGUAGE to cache[KV_MF] successfully")
          (joined json (codes "id") language_prefix rs [])
        ≡ ok reply
      → Stores json up now pt rs language_prefix reply (batch_create_language json c now pt) s
  unfolding batch_create_language
  languages_stored reply s prints =
      let (s', e, v) =
        create_batch_lem json up now pt rs (codes "id") language_prefix _ reply s carries prints in
      (s', try_catch_lem _ _ _ s e, v)

  pub ships_stored :
      (reply : Text) (s : c.State)
      → text_reply json now ErrorCode.success
          (codes "BATCH_CREATE_SHIPVIA to cache[KV_MF] successfully")
          (joined json (codes "id") ship_prefix rs [])
        ≡ ok reply
      → Stores json up now pt rs ship_prefix reply (batch_create_shipvia json c now pt) s
  unfolding batch_create_shipvia
  ships_stored reply s prints =
      let (s', e, v) =
        create_batch_lem json up now pt rs (codes "id") ship_prefix _ reply s carries prints in
      (s', try_catch_lem _ _ _ s e, v)

module _ (json : PtreeLibrary) (laws : WritesJson json) {c : ClusterClient} {m : Semantics c}
    (up : IsReliable c m) (now : Text) (pt : json.Ptree) (rs : List (Record json))
    (wants : Wants json (codes "id") pt rs) where
  open m use {view}

  pub languages_listed :
      (out : Text) (s : c.State)
      → All (HeldIn language_prefix (view s)) rs
      → Lists json laws up now pt rs (codes "LIST_LANGUAGE from cache[KV_MF] successfully") out
      → (s' : c.State) × (list_language_by_keys json c now pt s
          ≡ (ok (scans short_rewrites out), s'))
  unfolding list_language_by_keys
  languages_listed out s held lists =
      let (s', e) =
        list_by_keys_lem json laws up now pt rs (read_lenient json c now)
          (read_lenient-ReadsBack json laws c now) short_rewrites (codes "id") language_prefix _ out
          s short-NotEmpty wants held lists in
      (s', try_catch_lem _ _ _ s e)

  pub ships_listed :
      (out : Text) (s : c.State)
      → All (HeldIn ship_prefix (view s)) rs
      → Lists json laws up now pt rs (codes "LIST_SHIPVIA from cache[KV_MF] successfully") out
      → (s' : c.State) × (list_shipvia_by_keys json c now pt s
          ≡ (ok (scans short_rewrites out), s'))
  unfolding list_shipvia_by_keys
  ships_listed out s held lists =
      let (s', e) =
        list_by_keys_lem json laws up now pt rs (read_lenient json c now)
          (read_lenient-ReadsBack json laws c now) short_rewrites (codes "id") ship_prefix _ out s
          short-NotEmpty wants held lists in
      (s', try_catch_lem _ _ _ s e)
