-- ===== src/Orderbot/Resources.antt =====
-- The resources copied by method hold, for each method, what the original holds.
use redis_rest.Base.{
  Bool, false, List, [], ◌∷◌, ◌++◌, append-nil, append_assoc, Option, some, ◌≡◌, refl, sym, ap, ◌∙◌,
  Text, text_eq, text_eq_refl, text_eq_iff, All, if◌then◌else◌, Bool-cases, inl, inr, arith,
}
use redis_rest.Orderbot.{
  Resource, OptResource, add_opt, copy_methods, copy_from, copy_opt, match_paths, match_methods,
}

module _ {Callback : Type 0} where
  -- The entries of one method, scanned from the original resources.
  abbrev pub listed_methods : Text → Text → List (Text × Callback) → List (Text × Callback)
  listed_methods method path [] = []
  listed_methods method path ((m, callback) ∷ rest) =
      let later = listed_methods method path rest in
      if text_eq method m then (path, callback) ∷ later else later

  abbrev pub listed : Text → Resource Callback → List (Text × Callback)
  listed method [] = []
  listed method ((path, methods) ∷ rest) = listed_methods method path methods ++ listed method rest

  -- All entries that the copy has under a method.
  grouped : Text → OptResource Callback → List (Text × Callback)
  grouped method [] = []
  grouped method ((m, entries) ∷ rest) =
      let later = grouped method rest in if text_eq method m then entries ++ later else later

  Apart : Text → OptResource Callback → Type 0
  Apart method opt = All (λ group. text_eq method group.0 ≡ false) opt

  -- No method has two groups.
  Unique : OptResource Callback → Type 0
  Unique [] = Unit
  Unique ((m, entries) ∷ rest) = Apart m rest × Unique rest

  grouped-Apart :
      (method : Text) (opt : OptResource Callback) → Apart method opt → grouped method opt ≡ []
  unfolding grouped Apart
  grouped-Apart method [] h = refl
  grouped-Apart method ((m, entries) ∷ rest) (other, h) = rw other (grouped-Apart method rest h)

  Apart-add :
      (j method : Text) (entry : Text × Callback) (opt : OptResource Callback)
      → text_eq j method ≡ false
      → Apart j opt
      → Apart j (add_opt method entry opt)
  unfolding Apart add_opt
  Apart-add j method entry [] other h = (other, tt)
  Apart-add j method entry ((m, entries) ∷ rest) other (first, h) =
      ground (arith, Apart-add j method entry rest other h)

  Unique-add :
      (method : Text) (entry : Text × Callback) (opt : OptResource Callback)
      → Unique opt
      → Unique (add_opt method entry opt)
  unfolding Unique add_opt Apart
  Unique-add method entry [] h = (tt, tt)
  Unique-add method entry ((m, entries) ∷ rest) (first, h) = elim (Bool-cases (text_eq method m)) [
    | inl same ↦ rw same (first, h)
    | inr other ↦ rw other (
      Apart-add m method entry rest (flipped method m other) first,
      Unique-add method entry rest h,
    )
  ]
    where
      flipped : (a b : Text) → text_eq a b ≡ false → text_eq b a ≡ false
      flipped a b h = ground (arith, text_eq_iff a b, text_eq_iff b a)

  grouped-add_same :
      (method : Text) (entry : Text × Callback) (opt : OptResource Callback)
      → Unique opt
      → grouped method (add_opt method entry opt) ≡ grouped method opt ++ entry ∷ []
  unfolding Unique add_opt grouped
  grouped-add_same method entry [] h = rw (text_eq_refl method) refl
  grouped-add_same method entry ((m, entries) ∷ rest) (first, h) =
      elim (Bool-cases (text_eq method m)) [
        | inl same ↦
            let e : grouped method rest ≡ [] =
              grouped-Apart method rest (rw ((text_eq_iff method m).0 same) first) in
            rw (same, same, e, append-nil (entries ++ entry ∷ []), append-nil entries) refl
        | inr other ↦ rw (other, other) (grouped-add_same method entry rest h)
      ]

  grouped-add_other :
      (other method : Text) (entry : Text × Callback) (opt : OptResource Callback)
      → text_eq other method ≡ false
      → grouped other (add_opt method entry opt) ≡ grouped other opt
  unfolding add_opt grouped
  grouped-add_other other method entry [] apart = rw apart refl
  grouped-add_other other method entry ((m, entries) ∷ rest) apart =
      elim (Bool-cases (text_eq method m)) [
        | inl same ↦
            let e : text_eq other m ≡ false = rw (sym ((text_eq_iff method m).0 same)) apart in
            rw (same, e) refl
        | inr different ↦ rw (different, grouped-add_other other method entry rest apart) refl
      ]

  -- What an entry of the method `m` adds under another method, or the same.
  abbrev share : Text → Text → Text × Callback → List (Text × Callback)
  share method m entry = if text_eq method m then entry ∷ [] else []

  grouped-add :
      (method m : Text) (entry : Text × Callback) (opt : OptResource Callback)
      → Unique opt
      → grouped method (add_opt m entry opt) ≡ grouped method opt ++ share method m entry
  grouped-add method m entry opt h = elim (Bool-cases (text_eq method m)) [
    | inl same ↦ rw (same, (text_eq_iff method m).0 same) (grouped-add_same m entry opt h)
    | inr other ↦
        rw (other, append-nil (grouped method opt)) (grouped-add_other method m entry opt other)
  ]

  listed-share :
      (method path m : Text) (callback : Callback) (rest : List (Text × Callback))
      → share method m (path, callback) ++ listed_methods method path rest
        ≡ listed_methods method path ((m, callback) ∷ rest)
  listed-share method path m callback rest = elim (Bool-cases (text_eq method m)) [
    | inl same ↦ rw same refl
    | inr other ↦ rw other refl
  ]

  grouped-methods :
      (method path : Text) (methods : List (Text × Callback)) (opt : OptResource Callback)
      → Unique opt
      → (grouped method (copy_methods path methods opt)
          ≡ grouped method opt ++ listed_methods method path methods)
        × Unique (copy_methods path methods opt)
  unfolding copy_methods
  grouped-methods method path [] opt h = (sym (append-nil (grouped method opt)), h)
  grouped-methods method path ((m, callback) ∷ rest) opt h =
      let (e, unique) =
        grouped-methods method path rest (add_opt m (path, callback) opt)
          (Unique-add m (path, callback) opt h) in
      (
        e
            ∙ rw
                (
                  grouped-add method m (path, callback) opt h,
                  append_assoc (grouped method opt) (share method m (path, callback))
                      (listed_methods method path rest),
                )
                (ap (λ t. grouped method opt ++ t) (listed-share method path m callback rest)),
        unique,
      )

  grouped-copy :
      (method : Text) (resource : Resource Callback) (opt : OptResource Callback)
      → Unique opt
      → (grouped method (copy_from resource opt) ≡ grouped method opt ++ listed method resource)
        × Unique (copy_from resource opt)
  unfolding copy_from
  grouped-copy method [] opt h = (sym (append-nil (grouped method opt)), h)
  grouped-copy method ((path, methods) ∷ rest) opt h =
      let (e, unique) = grouped-methods method path methods opt h in
      let (f, unique') = grouped-copy method rest (copy_methods path methods opt) unique in
      (
        f
            ∙ rw e (
                append_assoc (grouped method opt) (listed_methods method path methods)
                  (listed method rest)),
        unique',
      )

  module _ (matches : Text → Text → Bool) where
    match_paths-append :
        (temp : Text) (xs ys : List (Text × Callback)) (before : Option Callback)
        → match_paths matches temp (xs ++ ys) before
          ≡ match_paths matches temp ys (match_paths matches temp xs before)
    unfolding match_paths
    match_paths-append temp [] ys before = refl
    match_paths-append temp ((path, callback) ∷ xs) ys before =
        match_paths-append temp xs ys (if matches path temp then some callback else before)

    -- A request reads the copy group by group, which is one pass over the method's entries.
    match_methods-grouped :
        (method temp : Text) (opt : OptResource Callback) (before : Option Callback)
        → match_methods matches method temp opt before
          ≡ match_paths matches temp (grouped method opt) before
    unfolding match_methods match_paths grouped
    match_methods-grouped method temp [] before = refl
    match_methods-grouped method temp ((m, entries) ∷ rest) before =
        elim (Bool-cases (text_eq method m)) [
          | inl same ↦ rw same (
              match_methods-grouped method temp rest (match_paths matches temp entries before)
              ∙ sym (match_paths-append temp entries (grouped method rest) before))
          | inr other ↦ rw other (match_methods-grouped method temp rest before)
        ]

    -- For every way to match patterns: the callback that the copy by method gives a request is the last
    -- one of its method, in the order of the original resources, whose pattern matches, and where
    -- none does, the callback of before.
    pub match_methods-copy :
        (method temp : Text) (resource : Resource Callback) (before : Option Callback)
        → match_methods matches method temp (copy_opt resource) before
          ≡ match_paths matches temp (listed method resource) before
    unfolding grouped Unique
    match_methods-copy method temp resource before =
        match_methods-grouped method temp (copy_opt resource) before
        ∙ ap (λ entries. match_paths matches temp entries before)
            (grouped-copy method resource [] tt).0
