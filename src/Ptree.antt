-- ===== src/Ptree.antt =====
-- Boost.PropertyTree as the program calls it: a parameter, since its code is not in the repository.
-- `get` throws `ptree_bad_path`, a `std::exception`; the two JSON functions throw
-- `json_parser_error`. No path that the program writes holds a dot.
pub mod Laws
use redis_rest.Base.{Bool, List, Text}
use redis_rest.Base.Int.{ℤ}
use redis_rest.Base.Outcome.{Outcome}

pub record PtreeLibrary : Type 1 where
  pub Ptree : Type 0
  -- `ptree()`
  pub empty : Ptree
  -- `begin()` to `end()`
  pub children : Ptree → List (Text × Ptree)
  pub get_child : Text → Ptree → Outcome Ptree
  -- `get<string>`
  pub get_string : Text → Ptree → Outcome Text
  -- `put<int>`, `put<std::string>`
  pub put_int : Text → ℤ → Ptree → Ptree
  pub put_string : Text → Text → Ptree → Ptree
  pub add_child : Text → Ptree → Ptree → Ptree
  pub push_back : Text → Ptree → Ptree → Ptree
  -- The first argument is `pretty`.
  pub write_json : Bool → Ptree → Outcome Text
  pub read_json : Text → Outcome Ptree
