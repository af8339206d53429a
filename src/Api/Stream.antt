-- ===== src/Api/Stream.antt =====
-- Posts on one connection, one after the other: what the server writes and how a client reads it.
use redis_rest.Base.{ℕ, zero, suc, List, [], ◌∷◌, ◌++◌, append_assoc, ◌≡◌, refl, ◌∙◌, Text}
use redis_rest.Base.Outcome.{Outcome, ok, Action, pure, ◌>>=◌, bind_step, pure_lem}
use redis_rest.Ptree.{PtreeLibrary}
use redis_rest.Cluster.{ClusterClient}
use redis_rest.Http.{ok_200}
use redis_rest.Http.Frame.{read_response}
use redis_rest.Api.{apollo}

-- A client that reads as many responses as it posted.
pub read_responses : ℕ → Text → List Text × Text
read_responses zero stream = ([], stream)
read_responses (suc n) stream =
    let (body, rest) = read_response ok_200 stream in
    let (bodies, end) = read_responses n rest in (body ∷ bodies, end)

pub read_end : (next : Text) → read_responses zero next ≡ ([], next)
unfolding read_responses
read_end next = refl

read_next :
    (n : ℕ) (stream body rest end : Text) (bodies : List Text)
    → read_response ok_200 stream ≡ (body, rest)
    → read_responses n rest ≡ (bodies, end)
    → read_responses (suc n) stream ≡ (body ∷ bodies, end)
unfolding read_responses
read_next n stream body rest end bodies first others = rw (first, others) refl

module _ (json : PtreeLibrary) (c : ClusterClient) (connection : Outcome Unit) {Post : Type 0}
    (time content : Post → Text) where
  -- What is written for the posts, each with its content and the time at which it is served.
  unfoldable pub serve : List Post → Action c.State Text
  serve [] = pure []
  serve (post ∷ rest) = do
    first ← apollo json c (time post) connection (content post)
    others ← serve rest
    pure (first ++ others)

  pub serve_end : (s : c.State) → serve [] s ≡ (ok [], s)
  unfolding serve
  serve_end s = pure_lem [] s

  -- A post whose response is read whole, before posts whose responses are.
  pub serve_step :
      (post : Post) (rest : List Post) (n : ℕ) (s s' s'' : c.State) (w stream body next : Text)
      (bodies : List Text)
      → apollo json c (time post) connection (content post) s ≡ (ok w, s')
      → read_response ok_200 (w ++ (stream ++ next)) ≡ (body, stream ++ next)
      → serve rest s' ≡ (ok stream, s'')
      → read_responses n (stream ++ next) ≡ (bodies, next)
      → (serve (post ∷ rest) s ≡ (ok (w ++ stream), s''))
        × (read_responses (suc n) ((w ++ stream) ++ next) ≡ (body ∷ bodies, next))
  unfolding serve
  serve_step post rest n s s' s'' w stream body next bodies first read run reads = (
    bind_step _ _ _ first ∙ bind_step _ _ _ run ∙ pure_lem (w ++ stream) s'',
    rw (append_assoc w stream next)
        (read_next n (w ++ (stream ++ next)) body (stream ++ next) next bodies read reads),
  )
