-- ===== src/Api/Isolation.antt =====
-- The service writes below its two prefixes alone.
use redis_rest.Base.{
  false, List, [], ◌∷◌, ◌++◌, ◌≡◌, refl, Text, codes, starts_with, All, All-append, NoNul, text_eq,
  arith, Bool-cases, inl, inr,
}
use redis_rest.Base.Outcome.{Outcome, Action}
use redis_rest.Ptree.{PtreeLibrary}
use redis_rest.Cluster.{ClusterClient}
use redis_rest.Cluster.Laws.{Entry, Semantics}
use redis_rest.Cluster.Frame.{Leaves, Leaves-pure, Leaves-bind, leaves_rules}
use redis_rest.Cluster.Namespace.{Outside}
use redis_rest.Session.Isolation.{session_prefix}
use redis_rest.Session.Isolation as SessionRules
use redis_rest.Master.Isolation as MasterRules
use redis_rest.Master.Listed as ListedRules
use redis_rest.Master.ReadOnly as ReadRules
use redis_rest.Master.Common.{title_prefix}
use redis_rest.Api.{
  titles, find_route, general_routes, first_routes, last_routes, routes, run_route, dispatch,
  apollo,
}

abbrev pub master_prefix : Text
master_prefix = codes "{KV_MF}:"

-- A key of neither prefix.
abbrev pub Foreign : Text → Entry → Type 0
Foreign j e = (starts_with session_prefix j ≡ false) × (starts_with master_prefix j ≡ false)

pub starts_with-longer : (p q j : Text) → starts_with p j ≡ false → starts_with (p ++ q) j ≡ false
unfolding starts_with
starts_with-longer [] q j h = cc
starts_with-longer (x ∷ p) q [] h = refl
starts_with-longer (x ∷ p) q (y ∷ j) h = ground (arith, starts_with-longer p q j)

-- `p` is the master prefix or longer.
abbrev IsMaster : Text → Type 0
IsMaster p = (q : Text) × (p ≡ master_prefix ++ q)

module _ {c : ClusterClient} {m : Semantics c} {A : Type 0} where
  of_session : {a : Action c.State A} → Leaves m (Outside session_prefix) a → Leaves m Foreign a
  of_session h = record { at = λ s j p. h.at s j p.0 }

  of_master :
      (p : Text) {a : Action c.State A} → IsMaster p → Leaves m (Outside p) a → Leaves m Foreign a
  of_master p (q, e) h = record {
    at = λ s j foreign. h.at s j (rw e (starts_with-longer master_prefix q j foreign.1));
  }

-- A title whose keys are masters.
abbrev IsTitle : Text × Text → Type 0
IsTitle (title, name) = NoNul (title_prefix title) × IsMaster (title_prefix title)

module _ (json : PtreeLibrary) {c : ClusterClient} (m : Semantics c) (now : Text) where
  open m use {view}

  abbrev IsForeign : Text × (json.Ptree → Action c.State Text) → Type 0
  IsForeign (name, handler) = (pt : json.Ptree) → Leaves m Foreign (handler pt)

  general-Foreign :
      (ts : List (Text × Text)) → All IsTitle ts → All IsForeign (general_routes json c now ts)
  general-Foreign [] h = tt
  general-Foreign ((title, name) ∷ ts) ((plain, master), h) = (
    λ pt. of_master _ master (MasterRules.general_batch_create-Leaves json m now pt title _ plain),
    (
      λ pt. ReadRules.general_list_by_keys-Leaves json m now Foreign pt title _,
      (
        λ pt. ReadRules.general_list_by_keywords-Leaves json m now Foreign pt title _,
        general-Foreign ts h,
      ),
    ),
  )

  first-Foreign : All IsForeign (first_routes json c now)
  first-Foreign = (
    λ pt. of_session (SessionRules.create-Leaves json m now pt),
    (
      λ pt. of_session (SessionRules.add-Leaves json m now pt),
      (
        λ pt. of_session (SessionRules.delete-Leaves json m now pt),
        (
          λ pt. SessionRules.query-Leaves json m now Foreign pt,
          (
            λ pt. of_session (SessionRules.update-Leaves json m now pt),
            (
              λ pt.
                  of_master _ (codes "area:", refl)
                    (MasterRules.batch_create_areas-Leaves json m now pt),
              (
                λ pt. ReadRules.list_areas_by_keys-Leaves json m now Foreign pt,
                (
                  λ pt. ReadRules.list_areas_by_keywords-Leaves json m now Foreign pt,
                  (
                    λ pt.
                        of_master _ (codes "area:", refl)
                          (MasterRules.delete_areas_by_keys-Leaves json m now pt),
                    (
                      λ pt.
                          of_master _ (codes "area:", refl)
                            (ListedRules.delete_areas_by_keywords-Leaves json m now pt),
                      (
                        λ pt.
                            of_master _ (codes "language:", refl)
                              (MasterRules.batch_create_language-Leaves json m now pt),
                        (
                          λ pt. ReadRules.list_language_by_keys-Leaves json m now Foreign pt,
                          (
                            λ pt. ReadRules.list_language_by_keywords-Leaves json m now Foreign pt,
                            (
                              λ pt.
                                  of_master _ (codes "ship:", refl)
                                    (MasterRules.batch_create_shipvia-Leaves json m now pt),
                              (
                                λ pt. ReadRules.list_shipvia_by_keys-Leaves json m now Foreign pt,
                                (
                                  λ pt.
                                      ReadRules.list_shipvia_by_keywords-Leaves json m now Foreign
                                        pt,
                                  tt,
                                ),
                              ),
                            ),
                          ),
                        ),
                      ),
                    ),
                  ),
                ),
              ),
            ),
          ),
        ),
      ),
    ),
  )

  last-Foreign : All IsForeign (last_routes json c now)
  last-Foreign = (
    λ pt.
        of_master _ (codes "role:", refl)
          (MasterRules.set_user_role-Leaves json m now pt (codes "{KV_MF}:role") _ (omega arith)),
    (λ pt. ReadRules.get_user_role-Leaves json m now Foreign pt (codes "{KV_MF}:role") _, tt),
  )

titles-IsTitle : All IsTitle titles
titles-IsTitle = (
  (omega arith, (codes "trade:", refl)),
  (
    (omega arith, (codes "website:", refl)),
    (
      (omega arith, (codes "seaport:", refl)),
      (
        (omega arith, (codes "warehouse:", refl)),
        (
          (omega arith, (codes "airport:", refl)),
          (
            (omega arith, (codes "currency:", refl)),
            (
              (omega arith, (codes "country:", refl)),
              (
                (omega arith, (codes "region:", refl)),
                (
                  (omega arith, (codes "state:", refl)),
                  (
                    (omega arith, (codes "city:", refl)),
                    (
                      (omega arith, (codes "uom:", refl)),
                      (
                        (omega arith, (codes "exchange:", refl)),
                        (
                          (omega arith, (codes "tax:", refl)),
                          ((omega arith, (codes "taxfile:", refl)), tt),
                        ),
                      ),
                    ),
                  ),
                ),
              ),
            ),
          ),
        ),
      ),
    ),
  ),
)

module _ (json : PtreeLibrary) {c : ClusterClient} (m : Semantics c) (now : Text) where
  open m use {view}

  routes-Foreign : All (IsForeign json m now) (routes json c now)
  unfolding routes
  routes-Foreign =
      let both =
        All-append (IsForeign json m now) (first_routes json c now)
          (general_routes json c now titles) (first-Foreign json m now)
          (general-Foreign json m now titles titles-IsTitle) in
      All-append (IsForeign json m now)
        (first_routes json c now ++ general_routes json c now titles) (last_routes json c now) both
        (last-Foreign json m now)

  run-Foreign :
      (operation : Text) (routes : List (Text × (json.Ptree → Action c.State Text)))
      (pt : json.Ptree)
      → All (IsForeign json m now) routes
      → Leaves m Foreign (run_route json c now (find_route operation routes) pt)
  unfolding find_route run_route
  run-Foreign operation [] pt h = Leaves-pure []
  run-Foreign operation ((name, handler) ∷ rest) pt (at_first, h) =
      elim (Bool-cases (text_eq operation name)) [
        | inl same ↦ rw same (Leaves-bind _ _ (at_first pt) λ t. Leaves-pure _)
        | inr other ↦ rw other (run-Foreign operation rest pt h)
      ]

  apollo-Foreign :
      (connection : Outcome Unit) (content : Text)
      → Leaves m Foreign (apollo json c now connection content)
  unfolding apollo dispatch
  apollo-Foreign connection content =
      search
        (
          leaves_rules,
          λ (op : Text) (pt : json.Ptree). run-Foreign op (routes json c now) pt routes-Foreign,
        )
        depth 20

  -- Whatever a request holds and however the cluster fails, the POST handler leaves every key that
  -- begins neither with `{KV_SESSION}:` nor with `{KV_MF}:` as it was.
  pub apollo_confined :
      (connection : Outcome Unit) (content : Text) (s : c.State) (j : Text)
      → starts_with session_prefix j ≡ false
      → starts_with master_prefix j ≡ false
      → view (apollo json c now connection content s).1 j ≡ view s j
  apollo_confined connection content s j not_session not_master =
      (apollo-Foreign connection content).at s j (not_session, not_master)
