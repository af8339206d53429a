-- ===== src/Api/Framed.antt =====
-- Whatever fails, the POST handler writes one whole response or nothing.
use redis_rest.Base.{
  [], ◌++◌, Option, none, some, ◌≡◌, ◌⊎◌, inl, inr, refl, sym, subst, ◌∙◌, Text, codes, text_eq,
  Bool-cases,
}
use redis_rest.Base.Outcome.{
  Outcome, ok, json_parser_error, std_exception, undefined, Action, continue, handle, pure,
  pure_lem, try_catch, ◌>>=◌,
}
use redis_rest.Ptree.{PtreeLibrary}
use redis_rest.Cluster.{ClusterClient}
use redis_rest.Http.{Status, ok_200, bad_request_400, respond}
use redis_rest.Http.Frame.{read_response, read-respond}
use redis_rest.Api.{find_route, routes, run_route, dispatch, apollo, answer}

-- Every value that an action returns has a property.
Returns : {S A : Type 0} → (A → Type 0) → Action S A → Type 0
Returns {S} {A} P m = (s : S) (a : A) (s' : S) → m s ≡ (ok a, s') → P a

module _ {S B : Type 0} where
  same_value : (b b' : B) (s s' : S) → ◌≡◌ {A = Outcome B × S} (ok b, s) (ok b', s') → b ≡ b'
  same_value b b' s s' e = cc

module _ (S : Type 0) {B : Type 0} (P : B → Type 0) where
  Returns-pure : (b : B) → P b → Returns {S = S} P (pure b)
  unfolding Returns
  Returns-pure b h s a s' e = subst P (same_value b a s s' (sym (pure_lem b s) ∙ e)) h

module _ {S B : Type 0} (P : B → Type 0) where
  handle-Returns :
      (o : Outcome B) (on_json on_std : Text → Action S B) (s : S)
      → ((b : B) → o ≡ ok b → P b)
      → ((what : Text) → Returns P (on_json what))
      → ((what : Text) → Returns P (on_std what))
      → (b : B) (s' : S) → handle o on_json on_std s ≡ (ok b, s')
      → P b
  unfolding Returns
  handle-Returns (ok a) on_json on_std s h j t b s' e = subst P (same_value a b s s' e) (h a refl)
  handle-Returns (json_parser_error m) on_json on_std s h j t b s' e = j m s b s' e
  handle-Returns (std_exception m) on_json on_std s h j t b s' e = t m s b s' e
  handle-Returns undefined on_json on_std s h j t b s' e = cc

  Returns-try_catch :
      (m : Action S B) (on_json on_std : Text → Action S B)
      → Returns P m
      → ((what : Text) → Returns P (on_json what))
      → ((what : Text) → Returns P (on_std what))
      → Returns P (try_catch m on_json on_std)
  unfolding Returns try_catch
  Returns-try_catch m on_json on_std h j t s b s' e =
      handle-Returns (m s).0 on_json on_std (m s).1
        (λ (a : B) (o : (m s).0 ≡ ok a). h s a (m s).1 (λ i. (o i, (m s).1))) j t b s' e

module _ {S A B : Type 0} (P : B → Type 0) where
  continue-Returns :
      (o : Outcome A) (f : A → Action S B) (s : S)
      → ((a : A) → Returns P (f a))
      → (b : B) (s' : S) → continue o f s ≡ (ok b, s')
      → P b
  unfolding Returns
  continue-Returns (ok a) f s h b s' e = h a s b s' e
  continue-Returns (json_parser_error m) f s h b s' e = cc
  continue-Returns (std_exception m) f s h b s' e = cc
  continue-Returns undefined f s h b s' e = cc

  Returns-bind :
      (m : Action S A) (f : A → Action S B) → ((a : A) → Returns P (f a)) → Returns P (m >>= f)
  unfolding Returns ◌>>=◌
  Returns-bind m f h s b s' e = continue-Returns (m s).0 f (m s).1 h b s' e

-- Nothing, or one whole response.
abbrev pub Framed : Text → Type 0
Framed w = (w ≡ []) ⊎ ((status : Status) × (body : Text) × (w ≡ respond status body))

module _ (json : PtreeLibrary) (c : ClusterClient) (now : Text) (connection : Outcome Unit) where
  run_route-Framed :
      (handler : Option (json.Ptree → Action c.State Text)) (pt : json.Ptree)
      → Returns Framed (run_route json c now handler pt)
  unfolding run_route
  run_route-Framed none pt = Returns-pure c.State Framed [] (inl refl)
  run_route-Framed (some handler) pt =
      Returns-bind Framed (handler pt) _
        (λ text. Returns-pure c.State Framed (answer ok_200 text) (inr (ok_200, _, refl)))

  dispatch-Framed :
      (operation : Text) (pt : json.Ptree)
      → Returns Framed (dispatch json c now connection operation pt)
  unfolding dispatch
  dispatch-Framed operation pt = elim (Bool-cases (text_eq operation (codes "OVER_WRITE"))) [
    | inl same ↦
        rw (same, dispatch)
          (Returns-bind Framed _ _ (λ x. Returns-pure c.State Framed [] (inl refl)))
    | inr other ↦
        rw (other, dispatch) (run_route-Framed (find_route operation (routes json c now)) pt)
  ]

  apollo-Framed : (content : Text) → Returns Framed (apollo json c now connection content)
  unfolding apollo
  apollo-Framed content =
      Returns-try_catch Framed _ _ _
        (Returns-bind Framed _ _
          (λ pt. Returns-bind Framed _ _ (λ operation. dispatch-Framed operation pt)))
        (λ what. Returns-bind Framed _ _ (λ text.
          Returns-pure c.State Framed (answer bad_request_400 text)
            (inr (bad_request_400, _, refl))))
        (λ what.
          Returns-pure c.State Framed (respond bad_request_400 what)
            (inr (bad_request_400, what, refl)))

  read-Framed :
      (w next : Text)
      → Framed w
      → (w ≡ [])
        ⊎ ((status : Status) × (body : Text) × (w ≡ respond status body)
            × (read_response status (w ++ next) ≡ (body, next)))
  read-Framed w next (inl silent) = inl silent
  read-Framed w next (inr (status, body, e)) =
      inr (status, body, e, rw e (read-respond status body next))

  -- For every content and however the JSON library, the cluster and the handlers fail: where the POST
  -- handler ends, it has written nothing, or one response whose length frames its body, so that a client
  -- that knows the status reads the body and then what is sent next.
  pub apollo-respond :
      (content next : Text) (s s' : c.State) (w : Text)
      → apollo json c now connection content s ≡ (ok w, s')
      → (w ≡ [])
        ⊎ ((status : Status) × (body : Text) × (w ≡ respond status body)
            × (read_response status (w ++ next) ≡ (body, next)))
  unfolding Returns
  apollo-respond content next s s' w e = read-Framed w next (apollo-Framed content s w s' e)
