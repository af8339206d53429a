-- ===== src/Static/Confined.antt =====
-- The served file never lies outside web/.
use redis_rest.Base.{
  ℕ, zero, suc, ◌+◌, ◌<◌, true, false, [], ◌∷◌, ◌++◌, none, some, ◌≡◌, refl, Text, codes, length,
  take, drop, arith, Option-cases, inl, inr, length-append, length-drop, starts_with,
  starts_with-append, if◌then◌else◌,
}
use redis_rest.Strings.{
  find, find_in, erase, occurs, find_in-le, find_in_sound, starts_with-length, length-take,
}
use redis_rest.Static.{dot_dot, sanitize_from, sanitize, has_char, index_name, file_name}

find_0 : (p t : Text) {i : ℕ} → find t p 0 ≡ some i → find_in p t ≡ some i
unfolding find
find_0 p t h = ground arith

not_found_0 : (p t : Text) → find t p 0 ≡ none → occurs p t ≡ false
unfolding find occurs
not_found_0 p t h = ground arith

-- A round takes one byte away.
length-erase :
    (path : Text) (pos : ℕ)
    → find path dot_dot 0 ≡ some pos
    → suc (length (erase path pos 1)) ≡ length path
unfolding erase
length-erase path pos h =
    let found = find_0 dot_dot path h in
    omega (
      arith,
      length-append (take pos path) (drop (pos + 1) path),
      length-take pos path (find_in-le dot_dot path pos found),
      length-drop (pos + 1) path,
      length-drop pos path,
      starts_with-length dot_dot (drop pos path) (find_in_sound dot_dot path pos found),
    )

sanitize_from-clean :
    (fuel : ℕ) (path : Text)
    → length path < fuel
    → (clean : Text) × (sanitize_from fuel path ≡ some clean) × (occurs dot_dot clean ≡ false)
unfolding sanitize_from
sanitize_from-clean zero path h = elim h [ ]
sanitize_from-clean (suc fuel) path h = elim (Option-cases (find path dot_dot 0)) [
  | inl e ↦ (path, rw (e, sanitize_from), not_found_0 dot_dot path e)
  | inr (pos, e) ↦
      let (clean, found, safe) =
        sanitize_from-clean fuel (erase path pos 1) (omega (arith, length-erase path pos e)) in
      (clean, rw (e, sanitize_from) found, safe)
]

sanitize-clean :
    (path : Text) → (clean : Text) × (sanitize path ≡ some clean) × (occurs dot_dot clean ≡ false)
sanitize-clean path = unfold sanitize in sanitize_from-clean (suc (length path)) path (omega arith)

occurs-past :
    (t suffix : Text)
    → has_char b'.' t ≡ false
    → occurs dot_dot (t ++ suffix) ≡ occurs dot_dot suffix
unfolding occurs has_char starts_with
occurs-past [] suffix h = refl
occurs-past (x ∷ t) suffix h = ground (arith, occurs-past t suffix)

occurs-web : (path : Text) → occurs dot_dot (codes "web" ++ path) ≡ occurs dot_dot path
occurs-web path = occurs-past (codes "web") path (unfold has_char in refl)

index_only :
    (occurs dot_dot (codes "index.html") ≡ false) × (occurs dot_dot (codes "/index.html") ≡ false)
unfolding occurs starts_with
index_only = (refl, refl)

-- One byte of "/" between the name and the index, written by the source in two steps.
opened_clean :
    (name : Text)
    → occurs dot_dot name ≡ false
    → occurs dot_dot (if has_char b'.' name then name else index_name name) ≡ false
unfolding index_name
opened_clean name h = ground (
  arith,
  occurs-past name (codes "index.html"),
  occurs-past name (codes "/index.html"),
  index_only,
)

web_prefix : (t : Text) → starts_with (codes "web") (codes "web" ++ t) ≡ true
web_prefix = starts_with-append (codes "web")

opened_in_web : (path : Text) → starts_with (codes "web") (file_name path) ≡ true
unfolding file_name index_name
opened_in_web path = ground (
  arith,
  web_prefix path,
  web_prefix (path ++ codes "index.html"),
  web_prefix (path ++ codes "/index.html"),
)

-- Every requested path is cleaned in as many rounds as it has bytes; the name then opened begins with
-- "web" and holds no "..".
pub sanitize-file_name :
    (path : Text)
    → (clean : Text) × (sanitize path ≡ some clean)
      × (starts_with (codes "web") (file_name clean) ≡ true)
      × (occurs dot_dot (file_name clean) ≡ false)
sanitize-file_name path =
    let (clean, found, safe) = sanitize-clean path in
    (
      clean,
      found,
      opened_in_web clean,
      unfold file_name in opened_clean (codes "web" ++ clean) (rw (occurs-web clean) safe),
    )

-- A path with no ".." is served as it is.
pub sanitize-of_clean : (path : Text) → occurs dot_dot path ≡ false → sanitize path ≡ some path
unfolding sanitize sanitize_from occurs find
sanitize-of_clean path h = ground arith
