-- ===== src/Examples/Areas.antt =====
-- The theorems on the table endpoints, at one area.
use redis_rest.Base.{
  ℕ, ◌+◌, ◌-◌, ◌*◌, true, false, [], ◌∷◌, none, ◌≡◌, refl, Text, codes, text_eq, erase_all,
  is_empty, if◌then◌else◌,
}
use redis_rest.Base.Int.{ℤ, pos}
use redis_rest.Base.Outcome.{Outcome, ok, json_parser_error, std_exception, undefined}
use redis_rest.Tables.{Connection, area, fields, read_fields}
use redis_rest.Tables.Stored.{Names}
use redis_rest.Examples.Trees.{Tree, leaf, child, trees, write_text, find_child}
use redis_rest.Examples.Data.{told}

-- A server that nobody reaches without a host.
abbrev server : Connection
server = record {
  State = Unit;
  connect = λ host port password s.
      if is_empty host then (std_exception (codes "no address"), s) else (ok tt, s);
  set = λ key value s. (ok true, s);
  get = λ key s. (ok none, s);
}

-- The digits of a text as a number.
abbrev number_from : ℕ → Text → ℕ
number_from n [] = n
number_from n (d ∷ t) = number_from (n * 10 + (d - b'0')) t

abbrev int_outcome : Outcome Text → Outcome ℤ
int_outcome (ok t) = ok (pos (number_from 0 t))
int_outcome (json_parser_error m) = json_parser_error m
int_outcome (std_exception m) = std_exception m
int_outcome undefined = undefined

abbrev int_of : Text → Tree → Outcome ℤ
int_of name t = int_outcome (trees.get_string name t)

abbrev with : Text → Text → Tree → Tree
with name value t = child t name (leaf value)

abbrev named : Tree
named = with (codes "area_id") (codes "J4") (leaf [])

abbrev africa : Tree
africa = with (codes "data_version") (codes "1") (
    with (codes "dr") (codes "0") (
      with (codes "short_name") (codes "Africa") (
        with (codes "full_name") (codes "Africa")
          (with (codes "parent_area_code") [] (with (codes "area_code") (codes "1") named)))))

abbrev content_of : Tree → Text
content_of t = erase_all b'\n' (told (trees.write_json false t))

names_africa : Names trees area (content_of africa) (codes "J4")
unfolding write_text find_child text_eq erase_all
names_africa = record { tree = africa; reads = refl; names = refl }

lacking : read_fields trees int_of (fields area) named ≡ std_exception (codes "No such node")
unfolding read_fields find_child text_eq
lacking = refl
