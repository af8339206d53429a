-- ===== src/Tables/Stored.antt =====
-- What the table endpoints answer.
use redis_rest.Base.{◌≡◌, ◌∙◌, Text}
use redis_rest.Base.Int.{ℤ}
use redis_rest.Base.Outcome.{
  Outcome, ok, std_exception, lift, pure_lem, lift_step, lift_lem, raise_step, try_catch_lem,
}
use redis_rest.Ptree.{PtreeLibrary}
use redis_rest.Http.{bad_request_400, respond}
use redis_rest.Tables.{Connection, Table, id_field, fields, read_fields, save}

-- A request that names a record.
pub record Names (json : PtreeLibrary) (table : Table) (content id : Text) : Type 0 where
  pub tree : json.Ptree
  pub reads : json.read_json content ≡ ok tree
  pub names : json.get_string (id_field table) tree ≡ ok id

module _ (json : PtreeLibrary) (get_int : Text → json.Ptree → Outcome ℤ)
    (connection : Connection) where
  open connection use {State, connect, set, get}

  -- Whatever the server does: a request that names a record and lacks a field is answered with 400 and
  -- the message of the tree library, before any connection is made.
  pub incomplete_refused :
      (table : Table) {content id what : Text} (s : State)
      → (asked : Names json table content id)
      → read_fields json get_int (fields table) asked.tree ≡ std_exception what
      → save json get_int connection table content s ≡ (ok (respond bad_request_400 what), s)
  unfolding save
  incomplete_refused table s asked lacking =
      try_catch_lem _ _ _ s (
        lift_step _ _ _ asked.reads
        ∙ lift_step _ _ _ asked.names
        ∙ raise_step (lift (read_fields json get_int (fields table) asked.tree)) _ s
            (lift_lem _ s lacking))
      ∙ pure_lem _ s
