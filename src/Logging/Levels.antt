-- ===== src/Logging/Levels.antt =====
-- Which records the log keeps.
use redis_rest.Base.{
  Bool, true, false, Option, none, some, ◌≡◌, refl, Text, codes, text_eq, leb, Option-cases, inl,
  inr, arith,
}
use redis_rest.Logging.{
  Severity, normal, notification, warning, error, critical, rank, shown, severity_map, find_level,
  level_or_first, log_level, Sink, passes, sink_of, BoostLog, configured, init_log, new_log,
  get_initsink,
}

find-shown : (severity : Severity) → find_level (shown severity) severity_map ≡ some severity
unfolding find_level text_eq
find-shown normal = refl
find-shown notification = refl
find-shown warning = refl
find-shown error = refl
find-shown critical = refl

-- A log that is ready: a sink, and a level at which records pass its filter.
abbrev pub Ready : BoostLog → Type 0
Ready log =
    (sink : Sink) × (severity : Severity) × (log.initsink ≡ some sink)
    × (log.level ≡ some severity)
    × (passes sink (some severity) ≡ true)

same_rank : (severity : Severity) → leb (rank severity) (rank severity) ≡ true
same_rank severity = ground arith

level_passes : (name level : Text) → passes (sink_of name level) (some (log_level level)) ≡ true
unfolding level_or_first log_level
level_passes name level = elim (Option-cases (find_level level severity_map)) [
  | inl missing ↦ rw (missing, level_or_first, log_level) refl
  | inr (severity, found) ↦ rw (found, level_or_first, log_level) (same_rank severity)
]

configured-Ready :
    (built : Bool) (name level : Option Text) (before : Option Severity) (sink : Sink)
    → (configured built name level before).initsink ≡ some sink
    → Ready (configured built name level before)
unfolding configured
configured-Ready built none level before sink h = cc
configured-Ready built (some name) none before sink h = cc
configured-Ready false (some name) (some level) before sink h = cc
configured-Ready true (some name) (some level) before sink h =
    (sink_of name level, log_level level, refl, refl, level_passes name level)

init_log-Ready :
    (ini : Option (Text → Option Text)) (built : Bool) (before : Option Severity) (sink : Sink)
    → (init_log ini built before).initsink ≡ some sink
    → Ready (init_log ini built before)
unfolding init_log
init_log-Ready none built before sink h = cc
init_log-Ready (some lookup) built before sink h =
    configured-Ready built (lookup (codes "log.name")) (lookup (codes "log.level")) before sink h

module _ (ini : Option (Text → Option Text)) (built : Bool) where
  -- Whatever config.ini holds: where get_initsink of a new log gives a sink, log_level_ is set, and the
  -- sink's filter lets records of that level through.
  get_initsink-Ready :
      (sink : Sink)
      → (get_initsink ini built (new_log ini built)).initsink ≡ some sink
      → Ready (get_initsink ini built (new_log ini built))
  unfolding get_initsink
  get_initsink-Ready sink h = elim (Option-cases (new_log ini built).initsink) [
    | inl missing ↦
        rw (missing, get_initsink)
          (init_log-Ready ini built (new_log ini built).level sink
            (rw (missing, get_initsink) at h))
    | inr (first, there) ↦ rw (there, get_initsink) (init_log-Ready ini built none first there)
  ]

-- If config.ini names a file and, as the program prints it, a severity, and the sink can be built,
-- the log keeps exactly the records of at least that severity, a record with none counting as normal.
pub shown-passes :
    (lookup : Text → Option Text) (name : Text) (chosen record_level : Severity)
    → lookup (codes "log.name") ≡ some name
    → lookup (codes "log.level") ≡ some (shown chosen)
    → (sink : Sink) × (new_log (some lookup) true
        ≡ record { initsink = some sink; level = some chosen })
      × (passes sink (some record_level) ≡ leb (rank chosen) (rank record_level))
      × (passes sink none ≡ leb (rank chosen) (rank normal))
unfolding init_log configured log_level level_or_first
shown-passes lookup name chosen record_level named levelled = (
  sink_of name (shown chosen),
  rw (named, levelled) (rw (find-shown chosen, log_level) refl),
  rw (find-shown chosen, level_or_first) refl,
  rw (find-shown chosen, level_or_first) refl,
)

-- If the level in config.ini is no severity's name and the sink can be built, log_level_ is error, and
-- yet the filter lets every record through.
unknown_level_unfiltered :
    (lookup : Text → Option Text) (name level : Text) (record_level : Option Severity)
    → lookup (codes "log.name") ≡ some name
    → lookup (codes "log.level") ≡ some level
    → find_level level severity_map ≡ none
    → (sink : Sink) × (new_log (some lookup) true
        ≡ record { initsink = some sink; level = some error })
      × (passes sink record_level ≡ true)
unfolding init_log configured log_level level_or_first find_level
unknown_level_unfiltered lookup name level record_level named levelled unknown =
    (sink_of name level, rw (named, levelled) (rw (unknown, log_level) refl), all_pass record_level)
  where
    all_pass : (r : Option Severity) → passes (sink_of name level) r ≡ true
    all_pass none = rw (unknown, level_or_first) refl
    all_pass (some severity) = rw (unknown, level_or_first) (ground arith)
