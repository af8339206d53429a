-- ===== src/Base/Bytes.antt =====
-- A `std::string` is the list of its bytes. Lengths, prefixes and equality of texts.
use Prim.Native.Nat.{ℕ, zero, suc, ◌+◌, ◌-◌}
use Prim.Native.Char.{code}
use Prim.Native.String.{String}
use mathlib.Core.Path.{◌≡◌, refl, ap}
use mathlib.Core.Logic.{◌≢◌, ◌↔◌}
use mathlib.Core.Bool.{Bool, true, false, ◌&&◌, ◌||◌}
use mathlib.Core.List.{List, [], ◌∷◌, ◌++◌}
use native.Mathlib.Omega.{arith}
use redis_rest.Base.Tests.{◌==◌, if◌then◌else◌}

abbrev pub Text : Type 0
Text = List ℕ

-- The bytes of a literal, which is ASCII wherever the program writes one.
abbrev pub codes : String → Text
codes String.[] = []
codes (String.◌∷◌ c s) = code c ∷ codes s

module _ {ℓ} {A : Type ℓ} where
  abbrev pub length : List A → ℕ
  length [] = 0
  length (x ∷ xs) = suc (length xs)

  abbrev pub take : ℕ → List A → List A
  take zero xs = []
  take (suc n) [] = []
  take (suc n) (x ∷ xs) = x ∷ take n xs

  abbrev pub drop : ℕ → List A → List A
  drop zero xs = xs
  drop (suc n) [] = []
  drop (suc n) (x ∷ xs) = drop n xs

  pub length-append : (xs ys : List A) → length (xs ++ ys) ≡ length xs + length ys
  length-append [] ys = omega arith
  length-append (x ∷ xs) ys = omega (arith, length-append xs ys)

  pub take-append-drop : (n : ℕ) (xs : List A) → take n xs ++ drop n xs ≡ xs
  take-append-drop zero xs = refl
  take-append-drop (suc n) [] = refl
  take-append-drop (suc n) (x ∷ xs) = ap (◌∷◌ x) (take-append-drop n xs)

  pub length-drop : (n : ℕ) (xs : List A) → length (drop n xs) ≡ length xs - n
  length-drop zero xs = omega arith
  length-drop (suc n) [] = omega arith
  length-drop (suc n) (x ∷ xs) = omega (arith, length-drop n xs)

  pub take-length_append : (xs ys : List A) → take (length xs) (xs ++ ys) ≡ xs
  take-length_append [] ys = refl
  take-length_append (x ∷ xs) ys = ap (◌∷◌ x) (take-length_append xs ys)

  pub drop-length_append : (xs ys : List A) → drop (length xs) (xs ++ ys) ≡ ys
  drop-length_append [] ys = refl
  drop-length_append (x ∷ xs) ys = drop-length_append xs ys

  abbrev pub is_empty : List A → Bool
  is_empty [] = true
  is_empty (x ∷ xs) = false

module _ {ℓ κ} {A : Type ℓ} (P : A → Type κ) where
  abbrev pub All : List A → Type κ
  All [] = Unit
  All (x ∷ xs) = P x × All xs

  pub All-append : (xs ys : List A) → All xs → All ys → All (xs ++ ys)
  All-append [] ys _ hy = hy
  All-append (x ∷ xs) ys (px, hx) hy = (px, All-append xs ys hx hy)

-- `operator==` and `compare(…) == 0`.
unfoldable pub text_eq : Text → Text → Bool
text_eq [] [] = true
text_eq (x ∷ xs) (y ∷ ys) = x == y && text_eq xs ys
text_eq _ _ = false

pub text_eq_iff : (xs ys : Text) → (text_eq xs ys ≡ true) ↔ (xs ≡ ys)
unfolding text_eq
text_eq_iff [] [] = (λ _. refl, λ _. refl)
text_eq_iff [] (y ∷ ys) = (λ h. cc, λ h. cc)
text_eq_iff (x ∷ xs) [] = (λ h. cc, λ h. cc)
text_eq_iff (x ∷ xs) (y ∷ ys) = ground (arith, text_eq_iff xs ys)

pub text_eq_refl : (xs : Text) → text_eq xs xs ≡ true
text_eq_refl xs = (text_eq_iff xs xs).1 refl

pub text_eq-false : (xs ys : Text) → xs ≢ ys → text_eq xs ys ≡ false
text_eq-false xs ys h = ground (arith, text_eq_iff xs ys)

unfoldable pub text_mem : Text → List Text → Bool
text_mem k [] = false
text_mem k (j ∷ js) = text_eq k j || text_mem k js

-- Does `t` begin with `p`?
unfoldable pub starts_with : Text → Text → Bool
starts_with [] t = true
starts_with (x ∷ p) [] = false
starts_with (x ∷ p) (y ∷ t) = x == y && starts_with p t

pub starts_with-append : (p t : Text) → starts_with p (p ++ t) ≡ true
unfolding starts_with
starts_with-append [] t = refl
starts_with-append (x ∷ p) t = ground (arith, starts_with-append p t)

pub starts_with-split : (p t : Text) → starts_with p t ≡ true → t ≡ p ++ drop (length p) t
unfolding starts_with
starts_with-split [] t h = refl
starts_with-split (x ∷ p) [] h = cc
starts_with-split (x ∷ p) (y ∷ t) h = ground (arith, starts_with-split p t)

-- `t.substr(0, t.length() - 1)`: on the empty text the length wraps around and all of it is taken.
unfoldable pub drop_last : Text → Text
drop_last [] = []
drop_last (x ∷ []) = []
drop_last (x ∷ y ∷ t) = x ∷ drop_last (y ∷ t)

pub drop_last-append : (t : Text) (c : ℕ) → drop_last (t ++ c ∷ []) ≡ t
unfolding drop_last
drop_last-append [] c = refl
drop_last-append (x ∷ []) c = refl
drop_last-append (x ∷ y ∷ t) c = ap (◌∷◌ x) (drop_last-append (y ∷ t) c)

-- What a reader of `t.c_str()` sees: the bytes before the first NUL.
unfoldable pub c_str : Text → Text
c_str [] = []
c_str (x ∷ t) = let rest = x ∷ c_str t in if x == 0 then [] else rest

abbrev pub NoNul : Text → Type 0
NoNul = All (λ c. c ≢ 0)

pub c_str-of_NoNul : (t : Text) → NoNul t → c_str t ≡ t
unfolding c_str
c_str-of_NoNul [] h = refl
c_str-of_NoNul (x ∷ t) h = ground (arith, c_str-of_NoNul t)

-- `t.erase(remove(t.begin(), t.end(), c), t.end())`
unfoldable pub erase_all : ℕ → Text → Text
erase_all c [] = []
erase_all c (x ∷ t) = let rest = erase_all c t in if x == c then rest else x ∷ rest

abbrev pub Lacks : ℕ → Text → Type 0
Lacks b = All (λ c. c ≢ b)

pub erase_all-Lacks : (c : ℕ) (t : Text) → Lacks c (erase_all c t)
unfolding erase_all
erase_all-Lacks c [] = tt
erase_all-Lacks c (x ∷ t) = ground (arith, erase_all-Lacks c t)

pub erase_all-of_Lacks : (c : ℕ) (t : Text) → Lacks c t → erase_all c t ≡ t
unfolding erase_all
erase_all-of_Lacks c [] h = refl
erase_all-of_Lacks c (x ∷ t) h = ground (arith, erase_all-of_Lacks c t)
