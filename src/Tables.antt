-- ===== src/Tables.antt =====
-- The four table endpoints of src/redis/redis_source.hpp: t_area, t_area_get, t_function and
-- t_function_get. They talk to a single Redis server through the vendored redispp.
pub mod Stored
use redis_rest.Base.{
  Bool, List, [], ◌∷◌, ◌++◌, false, Option, none, some, Text, codes, if◌then◌else◌,
}
use redis_rest.Base.Int.{ℤ}
use redis_rest.Base.Outcome.{
  Outcome, ok, json_parser_error, std_exception, undefined, Action, pure, throw, lift, try_catch,
  ◌>>=◌, ◌>>◌,
}
use redis_rest.Ptree.{PtreeLibrary}
use redis_rest.Http.{ok_200, bad_request_400, respond}

-- `Connection` as the program calls it: the constructor with a host, a port and a password, `set`, and `get` with the test of
-- `result().is_initialized()`. Each may raise.
pub record Connection : Type 1 where
  pub State : Type 0
  pub connect : Text → Text → Text → Action State Unit
  pub set : Text → Text → Action State Bool
  pub get : Text → Action State (Option Text)

-- The globals. serverRedisResource has parameters of the same names, and nothing sets these.
abbrev pub redis_host : Text
redis_host = []

abbrev pub redis_port : Text
redis_port = []

abbrev pub redis_password : Text
redis_password = []

pub data Table : Type 0 where
  area function : Table

abbrev pub key_prefix : Table → Text
key_prefix area = codes "t_area:"
key_prefix function = codes "t_function:"

-- The field that names a record, which is read first.
abbrev pub id_field : Table → Text
id_field area = codes "area_id"
id_field function = codes "function_id"

-- get<string> and get<int>
pub data Field : Type 0 where
  string int : Text → Field

-- The fields read after it, in order.
abbrev pub fields : Table → List Field
fields area =
    string (codes "area_code")
    ∷ string (codes "parent_area_code")
    ∷ string (codes "full_name")
    ∷ string (codes "short_name")
    ∷ int (codes "dr")
    ∷ int (codes "data_version")
    ∷ []
fields function =
    string (codes "code")
    ∷ string (codes "name")
    ∷ string (codes "description")
    ∷ string (codes "up_level_function_id")
    ∷ int (codes "level")
    ∷ int (codes "type")
    ∷ string (codes "note")
    ∷ int (codes "dr")
    ∷ int (codes "data_version")
    ∷ []

-- What follows a `get`: its value is not used.
abbrev pub then_read : {A : Type 0} → Outcome A → Outcome Unit → Outcome Unit
then_read (ok a) later = later
then_read (json_parser_error m) later = json_parser_error m
then_read (std_exception m) later = std_exception m
then_read undefined later = undefined

module _ (json : PtreeLibrary) (get_int : Text → json.Ptree → Outcome ℤ) where
  open json use {Ptree, get_string, write_json, read_json}

  unfoldable pub read_fields : List Field → Ptree → Outcome Unit
  read_fields [] pt = ok tt
  read_fields (string name ∷ rest) pt = then_read (get_string name pt) (read_fields rest pt)
  read_fields (int name ∷ rest) pt = then_read (get_int name pt) (read_fields rest pt)

  module _ (connection : Connection) where
    open connection use {State, connect, set, get}

    abbrev pub bad_request : Text → Action State Text
    bad_request what = pure (respond bad_request_400 what)

    -- The handlers t_area and t_function.
    abbrev pub save_record : Table → Text → Action State Text
    save_record table content = do
      pt ← lift (read_json content)
      id ← lift (get_string (id_field table) pt)
      lift (read_fields (fields table) pt)
      line ← lift (write_json false pt)
      connect redis_host redis_port redis_password
      stored ← set (key_prefix table ++ id) line
      if stored then pure (respond ok_200 (codes "200")) else throw (codes "error set to redis")

    unfoldable pub save : Table → Text → Action State Text
    save table content = try_catch (save_record table content) bad_request bad_request

    -- The handlers t_area_get and t_function_get.
    abbrev pub load_record : Table → Text → Action State Text
    load_record table content = do
      pt ← lift (read_json content)
      id ← lift (get_string (id_field table) pt)
      connect redis_host redis_port redis_password
      found ← get (key_prefix table ++ id)
      elim found [
        | none ↦ throw (codes "error get info from redis")
        | some line ↦ pure (respond ok_200 line)
      ]

    unfoldable pub load : Table → Text → Action State Text
    load table content = try_catch (load_record table content) bad_request bad_request
