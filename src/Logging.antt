-- ===== src/Logging.antt =====
-- The log's level and filter: `initlog` and `singleton_boost_log` of src/renesolalog.hpp. The file
-- config.ini and Boost.Log are parameters: `ini` is the file as read, its lookup `none` where `get`
-- raises, and `built` tells whether the sink's construction succeeds.
pub mod Levels
use redis_rest.Base.{
  ℕ, Bool, true, false, List, [], ◌∷◌, ◌++◌, Option, none, some, Text, codes, text_eq, leb,
  if◌then◌else◌,
}

pub data Severity : Type 0 where
  normal notification warning error critical : Severity

-- The enumerators' values.
abbrev pub rank : Severity → ℕ
rank normal = 0
rank notification = 1
rank warning = 2
rank error = 3
rank critical = 4

-- operator<<
abbrev pub shown : Severity → Text
shown normal = codes "normal"
shown notification = codes "notification"
shown warning = codes "warning"
shown error = codes "error"
shown critical = codes "critical"

abbrev pub SeverityMap : Type 0
SeverityMap = List (Text × Severity)

abbrev pub severity_map : SeverityMap
severity_map =
    (codes "normal", normal)
    ∷ (codes "notification", notification)
    ∷ (codes "warning", warning)
    ∷ (codes "error", error)
    ∷ (codes "critical", critical)
    ∷ []

-- severitymap.find(level)
unfoldable pub find_level : Text → SeverityMap → Option Severity
find_level level [] = none
find_level level ((name, severity) ∷ rest) =
    let later = find_level level rest in if text_eq level name then some severity else later

-- severitymap[level]: a missing name is added with the value 0.
unfoldable pub level_or_first : Text → SeverityMap → Severity
level_or_first level m = elim (find_level level m) [ none ↦ normal | some severity ↦ severity ]

-- What log_level_ is set to.
unfoldable pub log_level : Text → Severity
log_level level = elim (find_level level severity_map) [ none ↦ error | some severity ↦ severity ]

-- A sink: the pattern of its file's name, and the least severity that its filter lets through.
pub record Sink : Type 0 where
  pub file_name : Text
  pub threshold : Severity

-- The filter on a record, which may have no severity: expr::attr(…).or_default(normal) >= …
abbrev pub passes : Sink → Option Severity → Bool
passes sink none = leb (rank sink.threshold) (rank normal)
passes sink (some severity) = leb (rank sink.threshold) (rank severity)

abbrev pub sink_of : Text → Text → Sink
sink_of name level = record {
  file_name = name ++ codes "_%Y%m%d_%5N.log";
  threshold = level_or_first level severity_map;
}

-- The members: the sink, which may be null, and log_level_, which is not set at first.
pub record BoostLog : Type 0 where
  pub initsink : Option Sink
  pub level : Option Severity

-- initlog() after an exception: the pointer is null, and log_level_ stays.
abbrev pub no_sink : Option Severity → BoostLog
no_sink before = record { initsink = none; level = before }

-- What the two lookups lead to.
unfoldable pub configured : Bool → Option Text → Option Text → Option Severity → BoostLog
configured built none level before = no_sink before
configured built (some name) none before = no_sink before
configured built (some name) (some level) before = record {
  initsink = if built then some (sink_of name level) else none;
  level = some (log_level level);
}

module _ (ini : Option (Text → Option Text)) (built : Bool) where
  -- initlog(), stored in initsink_.
  unfoldable pub init_log : Option Severity → BoostLog
  unfolding configured
  init_log before = elim ini [
    | none ↦ no_sink before
    | some lookup ↦ configured built (lookup (codes "log.name")) (lookup (codes "log.level")) before
  ]

  -- The constructor, and get_initsink().
  abbrev pub new_log : BoostLog
  new_log = init_log none

  unfoldable pub get_initsink : BoostLog → BoostLog
  get_initsink log = elim log.initsink [ none ↦ init_log log.level | some sink ↦ log ]
