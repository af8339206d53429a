-- ===== src/Api/Conversation.antt =====
-- Sequences of posts to the POST handler that ask for session operations, and what the client reads.
use redis_rest.Base.{
  List, [], ◌∷◌, ◌++◌, some, map, false, ◌≡◌, ◌≢◌, refl, Text, codes, All, erase_all, text_eq,
  text_eq_iff, length, arith,
}
use redis_rest.Base.Outcome.{Outcome, ok, Action}
use redis_rest.Ptree.{PtreeLibrary}
use redis_rest.Ptree.Laws.{WritesJson}
use redis_rest.Cluster.{ClusterClient}
use redis_rest.Cluster.Laws.{Semantics, IsReliable}
use redis_rest.Api.Stream.{serve, serve_end, serve_step, read_responses, read_end}
use redis_rest.Session.Store.{
  Operation, create, add, update, delete, query, slot, Sessions, outcome_of, after,
}
use redis_rest.Session.Refined.{Simulates, handler_of, moved, step_lem}
use redis_rest.Session.Refined.Calls.{Call, AsksFor, answers_of, sessions_after}
use redis_rest.Api.{find_route, routes}
use redis_rest.Api.Answers.{Asks, apollo_answer}

abbrev pub operation_name : {Value : Type 0} → Operation Value → Text
operation_name (create value) = codes "CREATE_SESSION"
operation_name (add value) = codes "ADD_USERID_UNDER_SESSION"
operation_name (update value) = codes "UPDATE_SESSION_DEADLINE"
operation_name delete = codes "DELETE_SESSION"
operation_name query = codes "QUERY_SESSION"

differ : (a b : Text) → text_eq a b ≡ false → a ≢ b
differ a b h = ground (arith, text_eq_iff a b)

not_over_write : {Value : Type 0} (op : Operation Value) → operation_name op ≢ codes "OVER_WRITE"
unfolding text_eq
not_over_write (create value) = differ _ _ refl
not_over_write (add value) = differ _ _ refl
not_over_write (update value) = differ _ _ refl
not_over_write delete = differ _ _ refl
not_over_write query = differ _ _ refl

-- A call with the content that is posted for it.
pub record Post (json : PtreeLibrary) : Type 0 where
  pub call : Call json
  pub content : Text

module _ (json : PtreeLibrary) (c : ClusterClient) (connection : Outcome Unit) where
  route_of :
      (now : Text) (op : Operation json.Ptree)
      → find_route (operation_name op) (routes json c now) ≡ some (handler_of json c now op)
  unfolding find_route routes text_eq
  route_of now (create value) = refl
  route_of now (add value) = refl
  route_of now (update value) = refl
  route_of now delete = refl
  route_of now query = refl

  -- What is written to the connection for the posts, one after the other.
  abbrev pub serve_posts : List (Post json) → Action c.State Text
  serve_posts =
      serve json c connection (λ (post : Post json). post.call.time)
        (λ (post : Post json). post.content)

  -- The content is JSON that names the operation of the call and asks for it.
  abbrev pub IsPost : Post json → Type 0
  IsPost post =
      Asks json c post.call.time connection post.content (operation_name post.call.operation)
        post.call.pt
      × AsksFor json post.call

-- On a cluster that answers and with a JSON library that reads what it writes: over any sequence of
-- posts that ask for session operations, each of one session, if the server holds what the map of
-- sessions says and the map's replies can be printed, a client that reads as many responses as it
-- posted reads exactly the map's replies, in order and each less its newlines, and then what is sent
-- next; and the server holds what the map says in the end.
pub serve_posts-Simulates :
    (json : PtreeLibrary) (laws : WritesJson json) {c : ClusterClient} {m : Semantics c}
    (up : IsReliable c m) (connection : Outcome Unit) (posts : List (Post json)) (texts : List Text)
    (sessions : Sessions json.Ptree) (s : c.State) (next : Text)
    → All (IsPost json c connection) posts
    → Simulates json m sessions s
    → answers_of json (map (λ post. post.call) posts) sessions ≡ map ok texts
    → (stream : Text) × (s' : c.State) × (serve_posts json c connection posts s ≡ (ok stream, s'))
      × (read_responses (length posts) (stream ++ next) ≡ (map (erase_all b'\n') texts, next))
      × Simulates json m (sessions_after json (map (λ post. post.call) posts) sessions) s'
serve_posts-Simulates json laws {c} up connection [] [] sessions s next asks sim printed =
    ([], s, serve_end json c connection _ _ s, read_end next, sim)
serve_posts-Simulates json laws up connection [] (t ∷ texts) sessions s next asks sim printed = cc
serve_posts-Simulates json laws up connection (post ∷ rest) [] sessions s next asks sim printed = cc
serve_posts-Simulates json laws {c} {m} up connection (post ∷ rest) (t ∷ texts) sessions s next
      ((parsed, (item, q, h)), asks) sim printed =
    let call = post.call in
    let held = sessions (slot call.key) in
    let (s', entry, runs, stands, changed) =
      step_lem json up laws call.time call.pt item call.key t q s call.operation held h
        (sim call.key) (cc) in
    let sim' =
      moved json up sessions call.key (outcome_of call.operation held) entry s s' sim stands
        changed in
    let (stream, s'', run, reads, end) =
      serve_posts-Simulates json laws up connection rest texts
        (after call.operation call.key sessions) s' next asks sim' (cc) in
    let (w, first, read) =
      apollo_answer json c call.time connection post.content (operation_name call.operation) call.pt
        (handler_of json c call.time call.operation) s s' t (stream ++ next) parsed
        (not_over_write call.operation) (route_of json c connection call.time call.operation)
        runs in
    let (served, heard) =
      serve_step json c connection (λ (post : Post json). post.call.time)
        (λ (post : Post json). post.content) post rest (length rest) s s' s'' w stream
        (erase_all b'\n' t) next (map (erase_all b'\n') texts) first read run reads in
    (w ++ stream, s'', served, heard, end)
