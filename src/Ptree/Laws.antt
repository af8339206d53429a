-- ===== src/Ptree/Laws.antt =====
-- What the program relies on in Boost.PropertyTree's JSON functions.
use redis_rest.Base.{◌≡◌, ◌≢◌, ◌++◌, ◌∷◌, [], false, Text, NoNul}
use redis_rest.Base.Outcome.{ok}
use redis_rest.Ptree.{PtreeLibrary}

-- A tree written on one line ends in a newline, holds no NUL byte since the writer escapes it, and
-- without that newline it is a text that reads back as the same tree.
pub record WritesJson (lib : PtreeLibrary) : Type 0 where
  pub line :
      (t : lib.Ptree) {w : Text}
      → lib.write_json false t ≡ ok w
      → (b : Text) × (b ≢ []) × (w ≡ b ++ b'\n' ∷ []) × NoNul w × (lib.read_json b ≡ ok t)
