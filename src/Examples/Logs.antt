-- ===== src/Examples/Logs.antt =====
-- The theorems on the log, at two files config.ini.
use redis_rest.Base.{true, none, some, Option, ◌≡◌, refl, Text, codes, text_eq, leb, if◌then◌else◌}
use redis_rest.Logging.{
  normal, warning, error, rank, Sink, passes, sink_of, new_log, init_log, configured, get_initsink,
}
use redis_rest.Logging.Levels.{shown-passes}

abbrev file : Text → Text → Option Text
file level key =
    if text_eq key (codes "log.name")
    then some (codes "service")
    else (if text_eq key (codes "log.level") then some level else none)

ready :
    (get_initsink
      (some (file (codes "warning")))
      true
      (new_log (some (file (codes "warning"))) true)).initsink
    ≡ some (sink_of (codes "service") (codes "warning"))
unfolding get_initsink init_log configured text_eq
ready = refl

shown-passes_example :
    (sink : Sink) × (new_log (some (file (codes "warning"))) true
      ≡ record { initsink = some sink; level = some warning })
    × (passes sink (some error) ≡ leb (rank warning) (rank error))
    × (passes sink none ≡ leb (rank warning) (rank normal))
unfolding text_eq
shown-passes_example =
    shown-passes (file (codes "warning")) (codes "service") warning error refl refl
