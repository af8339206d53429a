-- ===== src/Strings.antt =====
-- The `std::string` operations that the program's loops are made of.
use Prim.Native.Nat.add
use mathlib.Core.Option
use redis_rest.Base.{
  ℕ, zero, suc, ◌+◌, ◌≤◌, Bool, true, false, List, [], ◌∷◌, ◌++◌, Option, none, some, ◌≡◌, refl, ap,
  ◌∙◌, Text, length, take, drop, starts_with, ltb, if◌then◌else◌, arith, Bool-cases, inl, inr,
  length-append, drop-length_append, sym,
}

-- The first place at which `p` stands in `t`.
unfoldable pub find_in : Text → Text → Option ℕ
find_in p [] = if starts_with p [] then some 0 else none
find_in p (x ∷ t) = if starts_with p (x ∷ t) then some 0 else Option.map suc (find_in p t)

-- str.find(p, pos): `none` is npos.
unfoldable pub find : Text → Text → ℕ → Option ℕ
unfolding find_in
find str p pos =
    if ltb (length str) pos then none else Option.map (λ i. pos + i) (find_in p (drop pos str))

-- str.replace(pos, len, by), at a `pos` in the string.
unfoldable pub replace : Text → ℕ → ℕ → Text → Text
replace str pos len by = take pos str ++ by ++ drop (pos + len) str

-- str.erase(pos, len)
unfoldable pub erase : Text → ℕ → ℕ → Text
erase str pos len = take pos str ++ drop (pos + len) str

-- What FIND finds: the pattern stands at that place.
pub find_in_sound : (p t : Text) (i : ℕ) → find_in p t ≡ some i → starts_with p (drop i t) ≡ true
unfolding find_in
find_in_sound p [] i h = elim (Bool-cases (starts_with p [])) [
  | inl e ↦ ground arith
  | inr e ↦ ground arith
]
find_in_sound p (x ∷ t) zero h = ground arith
find_in_sound p (x ∷ t) (suc i) h = ground (arith, find_in_sound p t i)

pub find_in-le : (p t : Text) (i : ℕ) → find_in p t ≡ some i → i ≤ length t
unfolding find_in
find_in-le p [] i h = ground arith
find_in-le p (x ∷ t) zero h = omega arith
find_in-le p (x ∷ t) (suc i) h = ground (arith, find_in-le p t i)

pub starts_with-length : (p t : Text) → starts_with p t ≡ true → length p ≤ length t
unfolding starts_with
starts_with-length [] t h = omega arith
starts_with-length (x ∷ p) [] h = cc
starts_with-length (x ∷ p) (y ∷ t) h = ground (arith, starts_with-length p t)

module _ {ℓ} {A : Type ℓ} where
  drop-nil : (n : ℕ) → ◌≡◌ {A = List A} (drop n []) []
  drop-nil zero = refl
  drop-nil (suc n) = refl

  pub drop-add : (i k : ℕ) (t : List A) → drop (i + k) t ≡ drop k (drop i t)
  drop-add zero k t = rw add.zero
  drop-add (suc i) k [] = drop-nil (suc i + k) ∙ sym (drop-nil k)
  drop-add (suc i) k (x ∷ t) = rw add.suc (drop-add i k t)

  pub take_past : (xs ys : List A) (i : ℕ) → take (length xs + i) (xs ++ ys) ≡ xs ++ take i ys
  take_past [] ys i = rw add.zero
  take_past (x ∷ xs) ys i = rw add.suc (ap (◌∷◌ x) (take_past xs ys i))

  pub drop_past : (xs ys : List A) (i : ℕ) → drop (length xs + i) (xs ++ ys) ≡ drop i ys
  drop_past [] ys i = rw add.zero
  drop_past (x ∷ xs) ys i = rw add.suc (drop_past xs ys i)

  pub length-take : (i : ℕ) (xs : List A) → i ≤ length xs → length (take i xs) ≡ i
  length-take zero xs h = refl
  length-take (suc i) [] h = elim h [ ]
  length-take (suc i) (x ∷ xs) h = ap suc (length-take i xs (omega arith))

-- A search from a position inside the string looks at what follows it.
pub find-append :
    (p xs ys : Text)
    → find (xs ++ ys) p (length xs) ≡ Option.map (λ i. length xs + i) (find_in p ys)
unfolding find
find-append p xs ys = rw drop-length_append (ground (arith, length-append xs ys))

-- Does `p` stand somewhere in the text?
unfoldable pub occurs : Text → Text → Bool
unfolding find_in
occurs p t = elim (find_in p t) [ none ↦ false | some i ↦ true ]

pub occurs_in_rest : (p xs ys : Text) → occurs p ys ≡ true → occurs p (xs ++ ys) ≡ true
unfolding occurs
occurs_in_rest p [] ys h = h
occurs_in_rest p (x ∷ xs) ys h = ground (arith, occurs_in_rest p xs ys h)

starts_with-more : (p xs ys : Text) → starts_with p xs ≡ true → starts_with p (xs ++ ys) ≡ true
unfolding starts_with
starts_with-more [] xs ys h = refl
starts_with-more (c ∷ p) [] ys h = cc
starts_with-more (c ∷ p) (x ∷ xs) ys h = ground (arith, starts_with-more p xs ys)

occurs_at_front : (p t : Text) → starts_with p t ≡ true → occurs p t ≡ true
unfolding occurs
occurs_at_front p [] h = ground arith
occurs_at_front p (x ∷ t) h = ground arith

pub occurs_in_front : (p xs ys : Text) → occurs p xs ≡ true → occurs p (xs ++ ys) ≡ true
unfolding occurs
occurs_in_front p [] ys h = occurs_at_front p ys (starts_with-more p [] ys (ground arith))
occurs_in_front p (x ∷ xs) ys h =
    ground (arith, starts_with-more p (x ∷ xs) ys, occurs_in_front p xs ys)
