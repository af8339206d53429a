-- ===== src/Config.antt =====
-- The configuration: `iconfig` of src/config.hpp. Boost's ini parser and lexical_cast are parameters: a
-- file as read is a lookup, and what raises is `none`.
pub mod Instance
use redis_rest.Base.{ℕ, List, [], ◌∷◌, Option, none, some, Text, codes}

infixl 5 ◌>>=◌
abbrev pub ◌>>=◌ : {A B : Type 0} → Option A → (A → Option B) → Option B
none >>= f = none
some a >>= f = f a

-- The members, less the tree itself.
pub record Config : Type 0 where
  pub ip : Text
  pub port : ℕ
  pub username : Text
  pub password : Text
  pub database : Text
  pub table : Text
  pub table2 : Text
  pub threads : ℕ
  pub orderbot_username : Text
  pub orderbot_password : Text
  pub orderbot_url : Text
  pub redis_host : Text
  pub redis_password : Text
  pub redis_port : ℕ
  pub webserver_url : Text

-- A file that was read: `none` where read_ini raises, and a lookup in which a missing name raises.
abbrev pub IniFile : Type 0
IniFile = Option (Text → Option Text)

module _ (to_port to_size : Text → Option ℕ) where
  -- The constructor.
  unfoldable pub new_config : IniFile → Option Config
  new_config file = do
    get ← file
    ip ← get (codes "mysql.ip")
    port_text ← get (codes "mysql.port")
    port ← to_port port_text
    username ← get (codes "mysql.username")
    password ← get (codes "mysql.password")
    database ← get (codes "mysql.database")
    table ← get (codes "mysql.table")
    table2 ← get (codes "mysql.table2")
    threads_text ← get (codes "webserver.threads")
    threads ← to_size threads_text
    orderbot_username ← get (codes "orderbot.username")
    orderbot_password ← get (codes "orderbot.password")
    orderbot_url ← get (codes "orderbot.url")
    redis_host ← get (codes "redis.host")
    redis_password ← get (codes "redis.password")
    redis_port_text ← get (codes "redis.port")
    redis_port ← to_port redis_port_text
    webserver_url ← get (codes "webserver.url")
    some record {
      ip = ip;
      port = port;
      username = username;
      password = password;
      database = database;
      table = table;
      table2 = table2;
      threads = threads;
      orderbot_username = orderbot_username;
      orderbot_password = orderbot_password;
      orderbot_url = orderbot_url;
      redis_host = redis_host;
      redis_password = redis_password;
      redis_port = redis_port;
      webserver_url = webserver_url;
    }

  -- get_instance(filename), for the file as it is then and the pointer m_ps: the pointer that is left,
  -- which is what is returned, and null where the constructor raised.
  unfoldable pub get_instance : IniFile → Option Config → Option Config
  get_instance file none = new_config file
  get_instance file (some config) = some config

  -- One call after another: what each gives.
  unfoldable pub get_instances : List IniFile → Option Config → List (Option Config)
  get_instances [] before = []
  get_instances (file ∷ rest) before =
      get_instance file before ∷ get_instances rest (get_instance file before)
