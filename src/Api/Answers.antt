-- ===== src/Api/Answers.antt =====
-- What a client of the POST handler reads from the response.
use redis_rest.Base.{
  List, [], ◌∷◌, ◌++◌, none, some, ◌≡◌, ◌≢◌, refl, ◌∙◌, Text, codes, All, erase_all, text_eq-false,
}
use redis_rest.Base.Outcome.{Outcome, ok, Action, bind_step, lift_step, pure_lem, try_catch_lem}
use redis_rest.Ptree.{PtreeLibrary}
use redis_rest.Cluster.{ClusterClient}
use redis_rest.Http.{ok_200}
use redis_rest.Http.Frame.{read_response, read-respond}
use redis_rest.Api.{find_route, routes, run_route, dispatch, apollo, answer}

find_route-missing :
    {A : Type 0} (operation : Text) (routes : List (Text × A))
    → All (λ route. operation ≢ route.0) routes
    → find_route operation routes ≡ none
unfolding find_route
find_route-missing operation [] h = refl
find_route-missing operation ((name, handler) ∷ rest) (other, h) =
    rw (text_eq-false operation name other) (find_route-missing operation rest h)

module _ (json : PtreeLibrary) (c : ClusterClient) (now : Text) (connection : Outcome Unit)
    (content operation : Text) (pt : json.Ptree) where
  -- Content whose JSON names the operation.
  abbrev pub Asks : Type 0
  Asks = (json.read_json content ≡ ok pt) × (json.get_string (codes "operation") pt ≡ ok operation)

  dispatch_lem :
      (s : c.State)
      → operation ≢ codes "OVER_WRITE"
      → dispatch json c now connection operation pt s
        ≡ run_route json c now (find_route operation (routes json c now)) pt s
  unfolding dispatch
  dispatch_lem s other = rw (text_eq-false operation (codes "OVER_WRITE") other) refl

  -- How a request ends whose operation is not OVER_WRITE, by how its route ends.
  apollo_lem :
      (s : c.State) {w : Text} {s' : c.State}
      → Asks
      → operation ≢ codes "OVER_WRITE"
      → run_route json c now (find_route operation (routes json c now)) pt s ≡ (ok w, s')
      → apollo json c now connection content s ≡ (ok w, s')
  unfolding apollo
  apollo_lem s (parses, names) other routed =
      try_catch_lem _ _ _ s
        (lift_step _ _ _ parses ∙ lift_step _ _ _ names ∙ dispatch_lem s other ∙ routed)

  -- An operation of the chain whose handler returns `t`: the client reads `t` less its newlines, and the
  -- length of the response frames it.
  pub apollo_answer :
      (handler : json.Ptree → Action c.State Text) (s s' : c.State) (t more : Text)
      → Asks
      → operation ≢ codes "OVER_WRITE"
      → find_route operation (routes json c now) ≡ some handler
      → handler pt s ≡ (ok t, s')
      → (w : Text) × (apollo json c now connection content s ≡ (ok w, s'))
        × (read_response ok_200 (w ++ more) ≡ (erase_all b'\n' t, more))
  unfolding run_route
  apollo_answer handler s s' t more asks other route runs =
      let routed : run_route json c now (find_route operation (routes json c now)) pt s
          ≡ (ok (answer ok_200 t), s') =
        rw route (bind_step _ _ _ runs ∙ pure_lem _ _) in
      (
        answer ok_200 t,
        apollo_lem s asks other routed,
        read-respond ok_200 (erase_all b'\n' t) more,
      )

  -- An operation that is not in the chain gets no response at all, and nothing changes.
  apollo_silent :
      (s : c.State)
      → Asks
      → operation ≢ codes "OVER_WRITE"
      → All (λ route. operation ≢ route.0) (routes json c now)
      → apollo json c now connection content s ≡ (ok [], s)
  unfolding run_route
  apollo_silent s asks other unknown =
      let routed : run_route json c now (find_route operation (routes json c now)) pt s
          ≡ (ok [], s) =
        rw (find_route-missing operation (routes json c now) unknown) (pure_lem [] s) in
      apollo_lem s asks other routed
