-- ===== src/Api/Masters/Routed.antt =====
-- The chain of operations has the operations of every master.
use redis_rest.Base.{
  List, [], ◌∷◌, some, subst, ◌≡◌, ◌≢◌, refl, Text, codes, All, ◌⊎◌, inl, inr, text_eq, text_eq_iff,
  false, arith,
}
use redis_rest.Ptree.{PtreeLibrary}
use redis_rest.Cluster.{ClusterClient}
use redis_rest.Api.{titles, find_route, routes}
use redis_rest.Api.Masters.{
  Operation, create, by_keys, delete_areas, Master, areas, languages, ships, roles, general,
  master_of, operation_name, handler_of,
}

abbrev pub Among : {A : Type 0} → A → List A → Type 0
Among x [] = ⊥
Among x (y ∷ ys) = (y ≡ x) ⊎ Among x ys

all_among : {A : Type 0} (P : A → Type 0) (x : A) (ys : List A) → All P ys → Among x ys → P x
all_among P x [] h i = absurd i
all_among P x (y ∷ ys) (p, h) (inl e) = subst P e p
all_among P x (y ∷ ys) (p, h) (inr i) = all_among P x ys h i

-- A general master is one of those that the chain lists.
abbrev pub IsServed : Master → Type 0
IsServed (general title name) = Among (title, name) titles
IsServed master = Unit

differ : (a b : Text) → text_eq a b ≡ false → a ≢ b
differ a b h = ground (arith, text_eq_iff a b)

module _ (json : PtreeLibrary) (c : ClusterClient) (now : Text) where
  -- The chain has the operation, with its handler.
  abbrev pub IsRouted : Operation → Type 0
  IsRouted op =
      (operation_name op ≢ codes "OVER_WRITE")
      × (find_route (operation_name op) (routes json c now) ≡ some (handler_of json c now op))

  titles-IsRouted :
      All
        (λ (title, name).
          IsRouted (create (general title name)) × IsRouted (by_keys (general title name)))
        titles
  unfolding find_route routes text_eq
  titles-IsRouted = (
    ((differ _ _ refl, refl), (differ _ _ refl, refl)),
    (
      ((differ _ _ refl, refl), (differ _ _ refl, refl)),
      (
        ((differ _ _ refl, refl), (differ _ _ refl, refl)),
        (
          ((differ _ _ refl, refl), (differ _ _ refl, refl)),
          (
            ((differ _ _ refl, refl), (differ _ _ refl, refl)),
            (
              ((differ _ _ refl, refl), (differ _ _ refl, refl)),
              (
                ((differ _ _ refl, refl), (differ _ _ refl, refl)),
                (
                  ((differ _ _ refl, refl), (differ _ _ refl, refl)),
                  (
                    ((differ _ _ refl, refl), (differ _ _ refl, refl)),
                    (
                      ((differ _ _ refl, refl), (differ _ _ refl, refl)),
                      (
                        ((differ _ _ refl, refl), (differ _ _ refl, refl)),
                        (
                          ((differ _ _ refl, refl), (differ _ _ refl, refl)),
                          (
                            ((differ _ _ refl, refl), (differ _ _ refl, refl)),
                            (((differ _ _ refl, refl), (differ _ _ refl, refl)), tt),
                          ),
                        ),
                      ),
                    ),
                  ),
                ),
              ),
            ),
          ),
        ),
      ),
    ),
  )

  general-IsRouted :
      (title name : Text)
      → Among (title, name) titles
      → IsRouted (create (general title name)) × IsRouted (by_keys (general title name))
  general-IsRouted title name i =
      all_among (λ (t, n). IsRouted (create (general t n)) × IsRouted (by_keys (general t n)))
        (title, name) titles titles-IsRouted i

  pub served-IsRouted : (op : Operation) → IsServed (master_of op) → IsRouted op
  unfolding find_route routes text_eq
  served-IsRouted delete_areas i = (differ _ _ refl, refl)
  served-IsRouted (create areas) i = (differ _ _ refl, refl)
  served-IsRouted (by_keys areas) i = (differ _ _ refl, refl)
  served-IsRouted (create languages) i = (differ _ _ refl, refl)
  served-IsRouted (by_keys languages) i = (differ _ _ refl, refl)
  served-IsRouted (create ships) i = (differ _ _ refl, refl)
  served-IsRouted (by_keys ships) i = (differ _ _ refl, refl)
  served-IsRouted (create roles) i = (differ _ _ refl, refl)
  served-IsRouted (by_keys roles) i = (differ _ _ refl, refl)
  served-IsRouted (create (general title name)) i = (general-IsRouted title name i).0
  served-IsRouted (by_keys (general title name)) i = (general-IsRouted title name i).1
