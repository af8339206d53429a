-- ===== src/Examples/Services.antt =====
-- The theorems on the service, its responses and its texts at concrete inputs.
use redis_rest.Base.{
  true, false, [], ◌∷◌, ◌++◌, List, All, if◌then◌else◌, none, some, ◌≡◌, ◌≢◌, ◌⊎◌, refl, Text,
  codes, text_eq, text_eq_iff, starts_with, erase_all, arith,
}
use redis_rest.Base.Outcome.{Outcome, ok}
use redis_rest.Cluster.Laws.{text}
use redis_rest.Http.{Status, ok_200, respond, decimal}
use redis_rest.Http.Frame.{read_response}
use redis_rest.Strings.{occurs}
use redis_rest.Replace.{replace_all_distinct, replace_all}
use redis_rest.Replace.Scan.{scan, replace_all_distinct-scan}
use redis_rest.Replace.Endless.{replace_all_endless}
use redis_rest.Static.{sanitize, file_name, dot_dot}
use redis_rest.Static.Serve.{
  Opened, closed, regular, directory, Gets, default_index, default_index-reads,
}
use redis_rest.Session.{create_session_http_session}
use redis_rest.Session.Lifecycle.{created, create_lem}
use redis_rest.Api.Framed.{apollo-respond}
use redis_rest.Api.{find_route, routes, apollo}
use redis_rest.Api.Isolation.{apollo_confined}
use redis_rest.Api.Answers.{Asks, apollo_answer}
use redis_rest.Examples.Memory.{Memory, memory_client, memory_semantics, memory_up, entry_of}
use redis_rest.Examples.Trees.{Tree, trees, write_text, find_child, put}
use redis_rest.ReplyJson.{text_reply}
use redis_rest.ErrorCode
use redis_rest.Base.{c_str, Bool-cases, inl, inr}
use redis_rest.Examples.Data.{
  session_value, a1_request, a1_value, noon, session_request, session_item, told, request_of,
}

replace_all_distinct-scan_example :
    replace_all_distinct (codes "a \"\" b \"\"") (codes "\"\"") (codes "[]")
    ≡ some (scan 0 (codes "\"\"") (codes "[]") (codes "a \"\" b \"\""))
replace_all_distinct-scan_example =
    replace_all_distinct-scan (codes "a \"\" b \"\"") (codes "\"\"") (codes "[]") (λ e. cc)

replace_all_endless_example : replace_all 100 (codes "xay") (codes "a") (codes "aa") ≡ none
unfolding occurs starts_with
replace_all_endless_example =
    replace_all_endless 100 (codes "xay") (codes "a") (codes "aa") refl refl

-- A file and a directory.
abbrev disk : Text → Opened
disk name =
    if text_eq name (codes "web/index.html")
    then regular (codes "<p>hello</p>")
    else (if text_eq name (codes "web/.") then directory 4096 else closed)

default_index-reads_example :
    (clean : Text) × (sent : Text) × (sanitize (codes "/../") ≡ some clean)
    × (starts_with (codes "web") (file_name clean) ≡ true)
    × (occurs dot_dot (file_name clean) ≡ false)
    × (default_index disk (codes "/../") ≡ some sent)
    × Gets (file_name clean) (disk (file_name clean)) sent (codes "next")
default_index-reads_example = default_index-reads disk (codes "/../") (codes "next")

-- A key of another service, which a request leaves.
abbrev foreign : Memory
foreign = (codes "{KV_OTHER}:a1", text (codes "kept")) ∷ []

-- The request with the newline that the writer ends it with, taken off.
abbrev line_of : Tree → Text
line_of t = erase_all b'\n' (told (trees.write_json true t))

abbrev content : Text
content = line_of session_request

apollo_confined_example :
    entry_of (apollo trees memory_client noon (ok tt) content foreign).1 (codes "{KV_OTHER}:a1")
    ≡ entry_of foreign (codes "{KV_OTHER}:a1")
unfolding starts_with
apollo_confined_example =
    apollo_confined trees memory_semantics noon (ok tt) content foreign (codes "{KV_OTHER}:a1") refl
      refl

asks :
    Asks trees memory_client noon
      (ok tt)
      (line_of session_request)
      (codes "CREATE_SESSION")
      session_request
unfolding write_text find_child text_eq erase_all
asks = (refl, refl)

abbrev create_reply : Outcome Text
create_reply =
    text_reply trees noon ErrorCode.success
      (codes "session write to cache[KV_SESSION] successfully") (codes "a1")

create_reply_printed : create_reply ≡ ok (told create_reply)
unfolding text_reply put write_text text_eq decimal
create_reply_printed = refl

runs : create_session_http_session trees memory_client noon session_request foreign ≡ (
  ok (told create_reply),
  created memory_client (codes "a1") (told (trees.write_json false session_value)) foreign,
)
unfolding entry_of text_eq c_str
runs =
    create_lem trees memory_up noon session_request session_item (codes "a1") a1_request
      session_value (told (trees.write_json false session_value)) (told create_reply) foreign
      a1_value refl create_reply_printed

routed :
    find_route (codes "CREATE_SESSION") (routes trees memory_client noon)
    ≡ some (create_session_http_session trees memory_client noon)
unfolding find_route routes text_eq
routed = refl

differ : (a b : Text) → text_eq a b ≡ false → a ≢ b
differ a b h = ground (arith, text_eq_iff a b)

apollo_answer_example :
    (w : Text) × (apollo trees memory_client noon (ok tt) content foreign ≡ (
      ok w,
      created memory_client (codes "a1") (told (trees.write_json false session_value)) foreign,
    ))
    × (read_response ok_200 (w ++ codes "next")
        ≡ (erase_all b'\n' (told create_reply), codes "next"))
unfolding text_eq
apollo_answer_example =
    apollo_answer trees memory_client noon (ok tt) content (codes "CREATE_SESSION") session_request
      (create_session_http_session trees memory_client noon) foreign
      (created memory_client (codes "a1") (told (trees.write_json false session_value)) foreign)
      (told create_reply) (codes "next") asks (differ _ _ refl) routed runs

found : {A : Type 0} (a : A) → some a ≡ none → ⊥
found a h = cc

-- A chain without the operation, name by name.
unrouted :
    {A : Type 0} (operation : Text) (rs : List (Text × A))
    → find_route operation rs ≡ none
    → All (λ route. operation ≢ route.0) rs
unfolding find_route
unrouted operation [] h = tt
unrouted operation ((name, handler) ∷ rs) h = elim (Bool-cases (text_eq operation name)) [
  | inl same ↦ absurd (found handler (rw same at h))
  | inr other ↦ (differ operation name other, unrouted operation rs (rw other at h))
]

abbrev ping : Tree
ping = request_of (codes "PING") session_item

asks_ping : Asks trees memory_client noon (ok tt) (line_of ping) (codes "PING") ping
unfolding write_text find_child text_eq erase_all
asks_ping = (refl, refl)

no_ping : find_route (codes "PING") (routes trees memory_client noon) ≡ none
unfolding find_route routes text_eq
no_ping = refl

-- What happens to that request, for the theorem on every response.
answered :
    (w : Text) × (apollo trees memory_client noon (ok tt) content foreign ≡ (
      ok w,
      created memory_client (codes "a1") (told (trees.write_json false session_value)) foreign,
    ))
    × (read_response ok_200 (w ++ codes "next")
        ≡ (erase_all b'\n' (told create_reply), codes "next"))
unfolding text_eq
answered =
    apollo_answer trees memory_client noon (ok tt) content (codes "CREATE_SESSION") session_request
      (create_session_http_session trees memory_client noon) foreign
      (created memory_client (codes "a1") (told (trees.write_json false session_value)) foreign)
      (told create_reply) (codes "next") asks (differ _ _ refl) routed runs

apollo-respond_example :
    (answered.0 ≡ [])
    ⊎ ((status : Status) × (body : Text) × (answered.0 ≡ respond status body)
        × (read_response status (answered.0 ++ codes "next") ≡ (body, codes "next")))
apollo-respond_example =
    apollo-respond trees memory_client noon (ok tt) content (codes "next") foreign
      (created memory_client (codes "a1") (told (trees.write_json false session_value)) foreign)
      answered.0 answered.1
