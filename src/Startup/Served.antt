-- ===== src/Startup/Served.antt =====
-- Which handler the server's tables hold once serverRedisResource has run.
use redis_rest.Base.{
  false, List, [], ◌∷◌, Option, none, some, ◌≡◌, ◌≢◌, inl, inr, refl, sym, All, ap, ◌∙◌, Text,
  codes, text_eq, text_eq_iff, text_eq_refl, text_eq-false, if◌then◌else◌, Bool-cases, arith,
}
use redis_rest.Startup.{
  Endpoint, t_area_handler, t_area_get_handler, t_function_handler, t_function_get_handler,
  apollo_handler, defaultindex_handler, Methods, Resources, Server, set_method, set_resource,
  t_area, t_area_get, t_function, t_function_get, url_pattern, install_apollo, defaultindex,
  connected, install, server_redis_resource,
}

unfoldable pub method_of : Text → Methods → Option Endpoint
method_of method [] = none
method_of method ((m, h) ∷ rest) =
    let later = method_of method rest in if text_eq method m then some h else later

-- The entry for a pattern and a method.
unfoldable pub entry : Text → Text → Resources → Option Endpoint
entry path method [] = none
entry path method ((p, methods) ∷ rest) =
    let later = entry path method rest in if text_eq path p then method_of method methods else later

method_of-set :
    (method : Text) (h : Endpoint) (methods : Methods)
    → method_of method (set_method method h methods) ≡ some h
unfolding method_of set_method
method_of-set method h [] = rw (text_eq_refl method) refl
method_of-set method h ((m, old) ∷ rest) = elim (Bool-cases (text_eq method m)) [
  | inl same ↦ rw (same, same) refl
  | inr other ↦ rw (other, other) (method_of-set method h rest)
]

entry-set_same :
    (path method : Text) (h : Endpoint) (resources : Resources)
    → entry path method (set_resource path method h resources) ≡ some h
unfolding entry set_resource
entry-set_same path method h [] = rw (text_eq_refl path) (method_of-set method h [])
entry-set_same path method h ((p, methods) ∷ rest) = elim (Bool-cases (text_eq path p)) [
  | inl same ↦ rw (same, same) (method_of-set method h methods)
  | inr other ↦ rw (other, other) (entry-set_same path method h rest)
]

entry-set_other :
    (path path' method method' : Text) (h : Endpoint) (resources : Resources)
    → path' ≢ path
    → entry path' method' (set_resource path method h resources) ≡ entry path' method' resources
unfolding entry set_resource
entry-set_other path path' method method' h [] apart = rw (text_eq-false path' path apart) refl
entry-set_other path path' method method' h ((p, methods) ∷ rest) apart =
    let later = entry-set_other path path' method method' h rest apart in
    elim (Bool-cases (text_eq path p)) [
      | inl same ↦
          let e : path ≡ p = (text_eq_iff path p).0 same in
          let off : text_eq path' p ≡ false = rw (sym e) (text_eq-false path' path apart) in
          rw same (rw off refl)
      | inr other ↦ elim (Bool-cases (text_eq path' p)) [
        | inl hit ↦ rw other (rw hit refl)
        | inr miss ↦ rw other (rw miss later)
      ]
    ]

kept :
    (path path' : Text) (h h' : Endpoint) (resources : Resources)
    → path' ≢ path
    → entry path' (codes "POST") resources ≡ some h'
    → entry path' (codes "POST") (set_resource path (codes "POST") h resources) ≡ some h'
kept path path' h h' resources apart here =
    entry-set_other path path' (codes "POST") (codes "POST") h resources apart ∙ here

differ : (a b : Text) → text_eq a b ≡ false → a ≢ b
differ a b h = ground (arith, text_eq_iff a b)

-- The patterns of the endpoints that need no setting, with their handlers.
abbrev pub fixed : List (Text × Endpoint)
fixed =
    (codes "^/t_area$", t_area_handler)
    ∷ (codes "^/t_area_get$", t_area_get_handler)
    ∷ (codes "^/t_function$", t_function_handler)
    ∷ (codes "^/t_function_get$", t_function_get_handler)
    ∷ []

-- The table after the four endpoints are installed, before apollo is.
abbrev after_fixed : Resources → Resources
after_fixed resources =
    set_resource (codes "^/t_function_get$") (codes "POST") t_function_get_handler (
      set_resource (codes "^/t_function$") (codes "POST") t_function_handler (
        set_resource (codes "^/t_area_get$") (codes "POST") t_area_get_handler
          (set_resource (codes "^/t_area$") (codes "POST") t_area_handler resources)))

fixed_installed :
    (resources : Resources)
    → All (λ (path, h). entry path (codes "POST") (after_fixed resources) ≡ some h) fixed
unfolding text_eq
fixed_installed resources = (
  kept _ _ _ _ _ (differ _ _ refl) (
      kept _ _ _ _ _ (differ _ _ refl)
        (kept _ _ _ _ _ (differ _ _ refl) (entry-set_same _ _ _ resources))),
  (
    kept _ _ _ _ _ (differ _ _ refl) (kept _ _ _ _ _ (differ _ _ refl) (entry-set_same _ _ _ _)),
    (kept _ _ _ _ _ (differ _ _ refl) (entry-set_same _ _ _ _), (entry-set_same _ _ _ _, tt)),
  ),
)

module _ {Cluster Port : Type 0} (lexical_cast : Text → Option Port)
    (create_cluster : Text → Port → Option Cluster) where
  runs :
      (host port url : Text) (cluster : Cluster) (server : Server Cluster)
      → connected lexical_cast create_cluster host port ≡ some cluster
      → server_redis_resource lexical_cast create_cluster host port url server
        ≡ defaultindex (
            install_apollo url (
              t_function_get
                (t_function (t_area_get (t_area record server { cluster_p = some cluster })))))
  unfolding server_redis_resource install
  runs host port url cluster server connects = ap (λ o. install url o server) connects

  -- If the cluster connects, then whatever the server held before and whatever the url setting is: the
  -- server has the cluster; a POST on the url's pattern goes to apollo; a POST on the pattern of each of
  -- the four fixed endpoints goes to its handler unless the url's pattern is that pattern; a GET that
  -- no pattern takes goes to defaultindex; and an entry with a pattern that is none of these is as it
  -- was.
  pub server_redis_resource-Serves :
      (host port url : Text) (cluster : Cluster) (server : Server Cluster)
      → connected lexical_cast create_cluster host port ≡ some cluster
      → let s = server_redis_resource lexical_cast create_cluster host port url server in
        (s.cluster_p ≡ some cluster)
        × (entry (url_pattern url) (codes "POST") s.resource ≡ some apollo_handler)
        × All
            (λ (path, h). path ≢ url_pattern url → entry path (codes "POST") s.resource ≡ some h)
            fixed
        × (method_of (codes "GET") s.default_resource ≡ some defaultindex_handler)
        × ((path method : Text)
            → path ≢ url_pattern url
            → All (λ (taken, h). path ≢ taken) fixed
            → entry path method s.resource ≡ entry path method server.resource)
  server_redis_resource-Serves host port url cluster server connects =
      let (a, (b, (c, (d, _)))) = fixed_installed server.resource in
      rw (runs host port url cluster server connects) (
        refl,
        entry-set_same _ _ _ _,
        (
          λ apart. kept _ _ _ _ _ apart a,
          (
            λ apart. kept _ _ _ _ _ apart b,
            (λ apart. kept _ _ _ _ _ apart c, (λ apart. kept _ _ _ _ _ apart d, tt)),
          ),
        ),
        method_of-set _ _ _,
        λ path method apart (p, (q, (r, (t, _)))).
            entry-set_other _ _ _ _ _ _ apart
            ∙ entry-set_other _ _ _ _ _ _ t
            ∙ entry-set_other _ _ _ _ _ _ r
            ∙ entry-set_other _ _ _ _ _ _ q
            ∙ entry-set_other _ _ _ _ _ _ p,
      )
