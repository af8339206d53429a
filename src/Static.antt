-- ===== src/Static.antt =====
-- The default GET resource, which serves files below web/: `defaultindex` of
-- src/redis/redis_source.hpp, and the same text twice in src/serverResource.hpp.
pub mod Confined
pub mod Chunks
pub mod Serve
use redis_rest.Base.{
  ℕ, zero, suc, ◌+◌, ◌-◌, Bool, true, false, List, [], ◌∷◌, ◌++◌, Option, none, some, Text, codes,
  length, take, drop, ltb, ◌==◌, if◌then◌else◌,
}
use redis_rest.Strings.{find, erase}

abbrev pub dot_dot : Text
dot_dot = codes ".."

-- while ((pos = path.find("..")) != npos) path.erase(pos, 1), on fuel.
pub sanitize_from : ℕ → Text → Option Text
sanitize_from zero path = none
sanitize_from (suc fuel) path = elim (find path dot_dot 0) [
  | none ↦ some path
  | some pos ↦ sanitize_from fuel (erase path pos 1)
]

-- Each round takes a byte away.
unfoldable pub sanitize : Text → Option Text
unfolding sanitize_from
sanitize path = sanitize_from (suc (length path)) path

unfoldable pub has_char : ℕ → Text → Bool
has_char c [] = false
has_char c (x ∷ t) = if x == c then true else has_char c t

-- filename[filename.length() - 1] != '/': the name is not empty, since it begins with "web".
unfoldable pub last_is : ℕ → Text → Bool
last_is c [] = false
last_is c (x ∷ []) = x == c
last_is c (x ∷ y ∷ t) = last_is c (y ∷ t)

-- filename += '/' unless it ends so, and the index.
unfoldable pub index_name : Text → Text
index_name name =
    if last_is b'/' name then name ++ codes "index.html" else name ++ codes "/index.html"

-- The name that is opened, from a path with no "..": the index of a directory if no '.' is in it.
unfoldable pub file_name : Text → Text
file_name path =
    let name = codes "web" ++ path in if has_char b'.' name then name else index_name name

abbrev pub buffer_size : ℕ
buffer_size = 131072

-- while ((read_length = ifs.read(&buffer[0], size).gcount()) > 0) write(&buffer[0], read_length):
-- what is left of the file, and the pieces written, on fuel.
pub chunks_from : ℕ → ℕ → Text → Option (List Text)
chunks_from zero size left = none
chunks_from (suc fuel) size [] = some []
chunks_from (suc fuel) size (x ∷ left) = elim (chunks_from fuel size (drop size (x ∷ left))) [
  | none ↦ none
  | some rest ↦ some (take size (x ∷ left) ∷ rest)
]

unfoldable pub chunks : ℕ → Text → Option (List Text)
unfolding chunks_from
chunks size file = chunks_from (suc (length file)) size file

-- The pieces in which the body of a file is written: whole, or by the buffer.
unfoldable pub send_file : Text → Option (List Text)
send_file file = if ltb buffer_size (length file) then chunks buffer_size file else some (file ∷ [])
