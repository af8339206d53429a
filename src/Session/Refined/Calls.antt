-- ===== src/Session/Refined/Calls.antt =====
-- Sequences of requests to the session handlers, against the map of sessions.
use redis_rest.Base.{List, [], ◌∷◌, ◌≡◌, ◌∙◌, Text, All, map}
use redis_rest.Base.Outcome.{Outcome, ok, Action, pure, ◌>>=◌, bind_step, pure_lem}
use redis_rest.Ptree.{PtreeLibrary}
use redis_rest.Ptree.Laws.{WritesJson}
use redis_rest.Cluster.{ClusterClient}
use redis_rest.Cluster.Laws.{Semantics, IsReliable}
use redis_rest.Session.Lifecycle.{Names}
use redis_rest.Session.Store.{Operation, slot, Sessions, outcome_of, after, answer_of}
use redis_rest.Session.Refined.{Simulates, Requests, handler_of, moved, step_lem}

-- A request that is handled at a time: what it asks for, of which session.
pub record Call (json : PtreeLibrary) : Type 0 where
  pub operation : Operation json.Ptree
  pub key : Text
  pub time : Text
  pub pt : json.Ptree

module _ (json : PtreeLibrary) where
  -- The requests ask for one operation of one session each.
  abbrev pub AsksFor : Call json → Type 0
  AsksFor call =
      (item : json.Ptree) × Names json call.pt item call.key
      × Requests json call.operation call.pt item

  -- The replies of the calls one after the other, and the map that they leave.
  abbrev pub answers_of : List (Call json) → Sessions json.Ptree → List (Outcome Text)
  answers_of [] sessions = []
  answers_of (call ∷ rest) sessions =
      answer_of json call.time call.operation call.key (sessions (slot call.key))
      ∷ answers_of rest (after call.operation call.key sessions)

  abbrev pub sessions_after : List (Call json) → Sessions json.Ptree → Sessions json.Ptree
  sessions_after [] sessions = sessions
  sessions_after (call ∷ rest) sessions =
      sessions_after rest (after call.operation call.key sessions)

  unfoldable pub handle_calls : (c : ClusterClient) → List (Call json) → Action c.State (List Text)
  handle_calls c [] = pure []
  handle_calls c (call ∷ rest) = do
    first ← handler_of json c call.time call.operation call.pt
    others ← handle_calls c rest
    pure (first ∷ others)

-- On a cluster that answers and with a JSON library that reads what it writes: over any sequence of
-- requests to the five session handlers, each of one session, if the server holds what the map of
-- sessions says and the map's replies can be printed, the handlers give exactly the map's replies, one
-- for each request, and the server holds what the map says in the end.
pub handle_calls-Simulates :
    (json : PtreeLibrary) (laws : WritesJson json) {c : ClusterClient} {m : Semantics c}
    (up : IsReliable c m) (calls : List (Call json)) (texts : List Text)
    (sessions : Sessions json.Ptree) (s : c.State)
    → All (AsksFor json) calls
    → Simulates json m sessions s
    → answers_of json calls sessions ≡ map ok texts
    → (s' : c.State) × (handle_calls json c calls s ≡ (ok texts, s'))
      × Simulates json m (sessions_after json calls sessions) s'
unfolding handle_calls
handle_calls-Simulates json laws up [] [] sessions s asks sim printed = (s, pure_lem [] s, sim)
handle_calls-Simulates json laws up [] (t ∷ texts) sessions s asks sim printed = cc
handle_calls-Simulates json laws up (call ∷ rest) [] sessions s asks sim printed = cc
handle_calls-Simulates json laws {c} {m} up (call ∷ rest) (t ∷ texts) sessions s
      ((item, q, h), asks) sim printed =
    let key = call.key in
    let held = sessions (slot key) in
    let (s', entry, runs, stands, changed) =
      step_lem json up laws call.time call.pt item key t q s call.operation held h (sim key) (cc) in
    let sim' =
      moved json up sessions key (outcome_of call.operation held) entry s s' sim stands changed in
    let (s'', run, end) =
      handle_calls-Simulates json laws up rest texts (after call.operation key sessions) s' asks
        sim' (cc) in
    (s'', bind_step _ _ _ runs ∙ bind_step _ _ _ run ∙ pure_lem (t ∷ texts) s'', end)
