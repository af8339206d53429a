-- ===== src/Examples/Configs.antt =====
-- The theorem on the configuration, with a file that cannot be read and two that can.
use redis_rest.Base.{ℕ, List, [], ◌∷◌, Option, none, some, ◌≡◌, Text, codes}
use redis_rest.Config.{IniFile, get_instances}
use redis_rest.Config.Instance.{first_config, each_prefix, get_instances-first}

abbrev digit_of : Text → Option ℕ
digit_of [] = none
digit_of (d ∷ t) = some d

-- A file in which every name has the same text.
abbrev constant : Text → IniFile
constant t = some (λ name. some t)

abbrev files : List IniFile
files = none ∷ constant (codes "1") ∷ constant (codes "2") ∷ []

get_instances-first_example :
    get_instances digit_of digit_of files none
    ≡ each_prefix digit_of digit_of (first_config digit_of digit_of) files
get_instances-first_example = get_instances-first digit_of digit_of files
