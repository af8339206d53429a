-- ===== src/Config/Instance.antt =====
-- There is one configuration, of the first file that can be read.
use redis_rest.Base.{ℕ, List, [], ◌∷◌, Option, none, some, ◌≡◌, refl, ap, Text}
use redis_rest.Config.{Config, IniFile, new_config, get_instance, get_instances}

abbrev pub or_later : Option Config → Option Config → Option Config
or_later none later = later
or_later (some config) later = some config

module _ (to_port to_size : Text → Option ℕ) where
  -- The configuration of the first file that gives one.
  abbrev pub first_config : List IniFile → Option Config
  first_config [] = none
  first_config (file ∷ rest) = or_later (new_config to_port to_size file) (first_config rest)

  -- What `g` says of each beginning of a list, but the empty one.
  abbrev pub each_prefix : (List IniFile → Option Config) → List IniFile → List (Option Config)
  each_prefix g [] = []
  each_prefix g (file ∷ rest) = g (file ∷ []) ∷ each_prefix (λ p. g (file ∷ p)) rest

  instances_kept :
      (files : List IniFile) (config : Config)
      → get_instances to_port to_size files (some config) ≡ each_prefix (λ p. some config) files
  unfolding get_instances get_instance
  instances_kept [] config = refl
  instances_kept (file ∷ rest) config = ap (◌∷◌ (some config)) (instances_kept rest config)

  -- The calls after one that made a configuration or raised.
  instances_after :
      (made : Option Config) (rest : List IniFile)
      → get_instances to_port to_size rest none ≡ each_prefix first_config rest
      → get_instances to_port to_size rest made
        ≡ each_prefix (λ p. or_later made (first_config p)) rest
  instances_after none rest h = h
  instances_after (some config) rest h = instances_kept rest config

  or_later-none : (made : Option Config) → made ≡ or_later made none
  or_later-none none = refl
  or_later-none (some config) = refl

  -- Over any sequence of calls, each with the file that its name had then: a call returns the
  -- configuration of the first file so far that gives one, whatever file it names itself, and raises
  -- while there is none.
  pub get_instances-first :
      (files : List IniFile)
      → get_instances to_port to_size files none ≡ each_prefix first_config files
  unfolding get_instances get_instance
  get_instances-first [] = refl
  get_instances-first (file ∷ rest) =
      let made = new_config to_port to_size file in
      λ i. or_later-none made i ∷ instances_after made rest (get_instances-first rest) i
