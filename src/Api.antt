-- ===== src/Api.antt =====
-- The POST handler that `apollo` of src/redis/redis_source.hpp installs, and its chain of operations.
pub mod Isolation
pub mod Answers
pub mod Visits
pub mod Stream
pub mod Conversation
pub mod Masters
pub mod Framed
use redis_rest.Base.{
  List, [], ◌∷◌, ◌++◌, Option, none, some, Text, codes, erase_all, text_eq, if◌then◌else◌,
}
use redis_rest.Base.Outcome.{
  Outcome, ok, json_parser_error, std_exception, undefined, Action, pure, lift, try_catch, ◌>>=◌,
  ◌>>◌,
}
use redis_rest.Ptree.{PtreeLibrary}
use redis_rest.Cluster.{ClusterClient}
use redis_rest.ReplyJson.{text_reply}
use redis_rest.ErrorCode
use redis_rest.Http.{Status, ok_200, bad_request_400, respond}
use redis_rest.Session.{
  create_session_http_session, add_userid_under_session, delete_session, query_session,
  update_session_deadline,
}
use redis_rest.Master.Create.{
  batch_create_areas, batch_create_language, batch_create_shipvia, general_batch_create,
  set_user_role,
}
use redis_rest.Master.Fetch.{
  list_areas_by_keys, list_areas_by_keywords, list_language_by_keys, list_language_by_keywords,
  list_shipvia_by_keys, list_shipvia_by_keywords, general_list_by_keys, general_list_by_keywords,
  get_user_role,
}
use redis_rest.Master.Remove.{delete_areas_by_keys, delete_areas_by_keywords}

-- The masters that the general handlers serve, in the order of the chain: the key title and the end of
-- the operations' names.
abbrev pub trade_titles : List (Text × Text)
trade_titles =
    (codes "{KV_MF}:trade", codes "TRADETERM")
    ∷ (codes "{KV_MF}:website", codes "WEBSITE")
    ∷ (codes "{KV_MF}:seaport", codes "SEAPORT")
    ∷ (codes "{KV_MF}:warehouse", codes "WAREHOUSE")
    ∷ (codes "{KV_MF}:airport", codes "AIRPORT")
    ∷ (codes "{KV_MF}:currency", codes "CURRENCY")
    ∷ []

abbrev pub place_titles : List (Text × Text)
place_titles =
    (codes "{KV_MF}:country", codes "COUNTRY")
    ∷ (codes "{KV_MF}:region", codes "REGION")
    ∷ (codes "{KV_MF}:state", codes "STATE")
    ∷ (codes "{KV_MF}:city", codes "CITY")
    ∷ []

abbrev pub rate_titles : List (Text × Text)
rate_titles =
    (codes "{KV_MF}:uom", codes "UOM")
    ∷ (codes "{KV_MF}:exchange", codes "EXCHANGE_RATES")
    ∷ (codes "{KV_MF}:tax", codes "TAX_SCHEDULES")
    ∷ (codes "{KV_MF}:taxfile", codes "TAX_FILES")
    ∷ []

abbrev pub titles : List (Text × Text)
titles = trade_titles ++ place_titles ++ rate_titles

-- The handler of the first operation with the name.
unfoldable pub find_route : {A : Type 0} → Text → List (Text × A) → Option A
find_route operation [] = none
find_route operation ((name, handler) ∷ rest) =
    let later = find_route operation rest in if text_eq operation name then some handler else later

-- retString.erase(remove(…, '\n'), …); response << …
abbrev pub answer : Status → Text → Text
answer status text = respond status (erase_all b'\n' text)

module _ (json : PtreeLibrary) where
  open json use {Ptree, get_child, get_string, read_json}

  -- `connection` is how `Connection conn(…)` of the vendored redispp ends. After a caught exception
  -- the function ends without a value.
  unfoldable pub over_write : Outcome Unit → Ptree → Outcome Text
  over_write connection pt = elim (get_child (codes "requestData") pt) [
    | ok requests ↦ elim connection [ ok x ↦ ok [] | _ ↦ undefined ]
    | _ ↦ undefined
  ]

  module _ (cluster : ClusterClient) (now : Text) where
    open cluster use {State}

    abbrev pub Handler : Type 0
    Handler = Ptree → Action State Text

    -- The three operations of a master.
    abbrev pub general_routes : List (Text × Text) → List (Text × Handler)
    general_routes [] = []
    general_routes ((title, name) ∷ rest) =
        let create = codes "BATCH_CREATE_" ++ name in
        let by_keys = codes "LIST_" ++ name ++ codes "_BY_KEYS" in
        let by_keywords = codes "LIST_" ++ name ++ codes "_BY_KEYWORDS" in
        (create, λ pt. general_batch_create json cluster now pt title create)
        ∷ (by_keys, λ pt. general_list_by_keys json cluster now pt title by_keys)
        ∷ (by_keywords, λ pt. general_list_by_keywords json cluster now pt title by_keywords)
        ∷ general_routes rest

    abbrev pub first_routes : List (Text × Handler)
    first_routes =
        (codes "CREATE_SESSION", create_session_http_session json cluster now)
        ∷ (codes "ADD_USERID_UNDER_SESSION", add_userid_under_session json cluster now)
        ∷ (codes "DELETE_SESSION", delete_session json cluster now)
        ∷ (codes "QUERY_SESSION", query_session json cluster now)
        ∷ (codes "UPDATE_SESSION_DEADLINE", update_session_deadline json cluster now)
        ∷ (codes "BATCH_CREATE_AREAS", batch_create_areas json cluster now)
        ∷ (codes "LIST_AREAS_BY_KEYS", list_areas_by_keys json cluster now)
        ∷ (codes "LIST_AREAS_BY_KEYWORDS", list_areas_by_keywords json cluster now)
        ∷ (codes "DELETE_AREAS_BY_KEYS", delete_areas_by_keys json cluster now)
        ∷ (codes "DELETE_AREAS_BY_KEYWORDS", delete_areas_by_keywords json cluster now)
        ∷ (codes "BATCH_CREATE_LANGUAGE", batch_create_language json cluster now)
        ∷ (codes "LIST_LANGUAGE_BY_KEYS", list_language_by_keys json cluster now)
        ∷ (codes "LIST_LANGUAGE_BY_KEYWORDS", list_language_by_keywords json cluster now)
        ∷ (codes "BATCH_CREATE_SHIPVIA", batch_create_shipvia json cluster now)
        ∷ (codes "LIST_SHIPVIA_BY_KEYS", list_shipvia_by_keys json cluster now)
        ∷ (codes "LIST_SHIPVIA_BY_KEYWORDS", list_shipvia_by_keywords json cluster now)
        ∷ []

    abbrev pub last_routes : List (Text × Handler)
    last_routes =
        (
          codes "SET_USER_ROLE",
          λ pt. set_user_role json cluster now pt (codes "{KV_MF}:role") (codes "SET_USER_ROLE"),
        )
        ∷ (
          codes "GET_USER_ROLE",
          λ pt. get_user_role json cluster now pt (codes "{KV_MF}:role") (codes "GET_USER_ROLE"),
        )
        ∷ []

    unfoldable pub routes : List (Text × Handler)
    routes = first_routes ++ general_routes titles ++ last_routes

    -- The chain of operations; the result is what is written to the response.
    unfoldable pub run_route : Option Handler → Handler
    run_route none pt = pure []
    run_route (some handler) pt = do text ← handler pt; pure (answer ok_200 text)

    unfoldable pub dispatch : Outcome Unit → Text → Handler
    unfolding run_route
    dispatch connection operation pt =
        if text_eq operation (codes "OVER_WRITE")
        then (do lift (over_write connection pt); pure [])
        else run_route (find_route operation routes) pt

    -- catch (json_parser_error& e)
    abbrev pub json_failure : Text → Action State Text
    json_failure what = do
      text ←
          lift (
            text_reply json now ErrorCode.json_read_or_write_error (codes "json parser error") what)
      pure (answer bad_request_400 text)

    -- catch (exception& e)
    abbrev pub other_failure : Text → Action State Text
    other_failure what = pure (respond bad_request_400 what)

    -- The handler on the content of a request.
    unfoldable pub apollo : Outcome Unit → Text → Action State Text
    unfolding dispatch
    apollo connection content =
        try_catch
          (do
            pt ← lift (read_json content)
            operation ← lift (get_string (codes "operation") pt)
            dispatch connection operation pt)
          json_failure other_failure
