-- ===== src/Api/Visits.antt =====
-- Two requests to the POST handler, one after the other: what a client writes and then reads.
use redis_rest.Base.{
  false, ◌++◌, some, ◌≡◌, ◌≢◌, refl, Text, codes, c_str, erase_all, text_eq, text_eq_iff, arith,
  List, All, [],
}
use redis_rest.Base.Outcome.{Outcome, ok}
use redis_rest.Ptree.{PtreeLibrary}
use redis_rest.Ptree.Laws.{WritesJson}
use redis_rest.Cluster.{ClusterClient}
use redis_rest.Cluster.Laws.{absent, Semantics, IsReliable}
use redis_rest.Http.{ok_200}
use redis_rest.Http.Frame.{read_response}
use redis_rest.ReplyJson.{single_reply, text_reply}
use redis_rest.ErrorCode
use redis_rest.Session.{session_key, create_session_http_session, query_session}
use redis_rest.Session.Lifecycle.{Names, Holds, created, create_lem, view-set}
use redis_rest.Session.Lifecycle.Queries.{shown, query_lem}
use redis_rest.Master.Common.{area_prefix}
use redis_rest.Master.Create.{batch_create_areas}
use redis_rest.Master.Fetch.{long_rewrites, list_areas_by_keys}
use redis_rest.Master.Rewritten.{scans}
use redis_rest.Master.Batch.{Record, joined, stored, Distinct, HeldIn, stored-HeldIn}
use redis_rest.Master.Batch.Roundtrip.{Carries, areas_stored}
use redis_rest.Master.Batch.Listed.{Wants, Lists, areas_listed}
use redis_rest.Api.{find_route, routes, apollo}
use redis_rest.Api.Answers.{Asks, apollo_answer}

differ : (a b : Text) → text_eq a b ≡ false → a ≢ b
differ a b h = ground (arith, text_eq_iff a b)

module _ (json : PtreeLibrary) (c : ClusterClient) (now : Text) where
  route_create :
      find_route (codes "CREATE_SESSION") (routes json c now)
      ≡ some (create_session_http_session json c now)
  unfolding find_route routes text_eq
  route_create = refl

  route_query :
      find_route (codes "QUERY_SESSION") (routes json c now) ≡ some (query_session json c now)
  unfolding find_route routes text_eq
  route_query = refl

  not_over_write :
      (codes "CREATE_SESSION" ≢ codes "OVER_WRITE") × (codes "QUERY_SESSION" ≢ codes "OVER_WRITE")
  unfolding text_eq
  not_over_write = (differ _ _ refl, differ _ _ refl)

-- On a cluster that answers and with a JSON library that reads what it writes: a client posts a
-- CREATE_SESSION of one session that is not there, and later, at whatever times, a QUERY_SESSION of it.
-- If the replies can be printed, it reads first the reply that the session is written, and then the
-- reply that shows the session with the value it sent, each less its newlines, and nothing of what is
-- sent next.
create-query_visits :
    (json : PtreeLibrary) (laws : WritesJson json) {c : ClusterClient} {m : Semantics c}
    (up : IsReliable c m) (now later : Text) (connection : Outcome Unit)
    (content content' key v written shows next : Text) (pt item pt' item' value : json.Ptree)
    (s : c.State)
    → Asks json c now connection content (codes "CREATE_SESSION") pt
    → Names json pt item key
    → Holds json item value v
    → m.view s (c_str (session_key key)) ≡ absent
    → text_reply json now ErrorCode.success
        (codes "session write to cache[KV_SESSION] successfully")
        key
      ≡ ok written
    → Asks json c later connection content' (codes "QUERY_SESSION") pt'
    → Names json pt' item' key
    → single_reply json later ErrorCode.success
        (codes "session query from cache[KV_SESSION] successfully")
        (shown json key value)
      ≡ ok shows
    → (w : Text) × (w' : Text) × (s' : c.State) × (s'' : c.State) × (apollo json c now connection
          content s
        ≡ (ok w, s'))
      × (apollo json c later connection content' s' ≡ (ok w', s''))
      × (read_response ok_200 (w ++ next) ≡ (erase_all b'\n' written, next))
      × (read_response ok_200 (w' ++ next) ≡ (erase_all b'\n' shows, next))
create-query_visits json laws {c} up now later connection content content' key v written shows next
      pt item pt' item' value s asks names holds missing printed asks' names' printed' =
    let created_run =
      create_lem json up now pt item key names value v written s holds missing printed in
    let s' = created c key v s in
    let queried_run =
      query_lem json laws up later pt' item' key names' value v shows s' holds.stores
        (view-set up _ _ _) printed' in
    let (w, first, reads) =
      apollo_answer json c now connection content (codes "CREATE_SESSION") pt
        (create_session_http_session json c now) s s' written next asks
        (not_over_write json c now).0 (route_create json c now) created_run in
    let (w', second, reads') =
      apollo_answer json c later connection content' (codes "QUERY_SESSION") pt'
        (query_session json c later) s' _ shows next asks' (not_over_write json c now).1
        (route_query json c later) queried_run in
    (w, w', s', _, first, second, reads, reads')

module _ (json : PtreeLibrary) (c : ClusterClient) (now : Text) where
  route_batch :
      find_route (codes "BATCH_CREATE_AREAS") (routes json c now)
      ≡ some (batch_create_areas json c now)
  unfolding find_route routes text_eq
  route_batch = refl

  route_list :
      find_route (codes "LIST_AREAS_BY_KEYS") (routes json c now)
      ≡ some (list_areas_by_keys json c now)
  unfolding find_route routes text_eq
  route_list = refl

  not_over_write_areas :
      (codes "BATCH_CREATE_AREAS" ≢ codes "OVER_WRITE")
      × (codes "LIST_AREAS_BY_KEYS" ≢ codes "OVER_WRITE")
  unfolding text_eq
  not_over_write_areas = (differ _ _ refl, differ _ _ refl)

-- On a cluster that answers and with a JSON library that reads what it writes: a client posts a
-- BATCH_CREATE_AREAS of areas with distinct keys, whatever the keys held before, and later, at whatever
-- times, a LIST_AREAS_BY_KEYS whose items hold those keys and whatever else. If the replies can be
-- printed, it reads first the reply with the keys, and then the reply that lists the trees of the
-- batch's areas, in order, after the rewrites that turn the empty text of the named fields into [];
-- each less its newlines, and nothing of what is sent next.
pub batch-list_visits :
    (json : PtreeLibrary) (laws : WritesJson json) {c : ClusterClient} {m : Semantics c}
    (up : IsReliable c m) (now later : Text) (connection : Outcome Unit)
    (content content' written listed next : Text) (pt pt' : json.Ptree) (rs : List (Record json))
    (s : c.State)
    → Asks json c now connection content (codes "BATCH_CREATE_AREAS") pt
    → Carries json (codes "id") pt rs
    → Distinct area_prefix rs
    → text_reply json now ErrorCode.success
        (codes "BATCH_CREATE_AREAS to cache[KV_MF] successfully")
        (joined json (codes "id") area_prefix rs [])
      ≡ ok written
    → Asks json c later connection content' (codes "LIST_AREAS_BY_KEYS") pt'
    → Wants json (codes "id") pt' rs
    → Lists json laws up later pt' rs (codes "LIST_AREAS from cache[KV_MF] successfully") listed
    → (w : Text) × (w' : Text) × (s' : c.State) × (s'' : c.State) × (apollo json c now connection
          content s
        ≡ (ok w, s'))
      × (apollo json c later connection content' s' ≡ (ok w', s''))
      × (read_response ok_200 (w ++ next) ≡ (erase_all b'\n' written, next))
      × (read_response ok_200 (w' ++ next) ≡ (erase_all b'\n' (scans long_rewrites listed), next))
batch-list_visits json laws {c} {m} up now later connection content content' written listed next pt
      pt' rs s asks carries distinct printed asks' carries' lists =
    let (s', batch_run, views) = areas_stored json up now pt rs written s carries printed in
    let view_eq : m.view s' ≡ stored area_prefix rs (m.view s) = λ i j. views j i in
    let held : All (HeldIn area_prefix (m.view s')) rs =
      rw view_eq (stored-HeldIn area_prefix rs (m.view s) distinct) in
    let (s'', list_run) = areas_listed json laws up later pt' rs listed s' carries' held lists in
    let (w, first, reads) =
      apollo_answer json c now connection content (codes "BATCH_CREATE_AREAS") pt
        (batch_create_areas json c now) s s' written next asks (not_over_write_areas json c now).0
        (route_batch json c now) batch_run in
    let (w', second, reads') =
      apollo_answer json c later connection content' (codes "LIST_AREAS_BY_KEYS") pt'
        (list_areas_by_keys json c later) s' s'' (scans long_rewrites listed) next asks'
        (not_over_write_areas json c now).1 (route_list json c later) list_run in
    (w, w', s', s'', first, second, reads, reads')
