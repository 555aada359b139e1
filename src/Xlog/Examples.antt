-- ===== src/Xlog/Examples.antt =====
-- Levels, configurations and loggers at concrete inputs, and the theorems about them there.
use mathlib.Core.Option
use dolly.Prelude.{◌≡◌, refl, none, some, List, [], ◌∷◌, Str, codes, str_eq, map}
use dolly.GoText.{join}
use dolly.Xlog.{
  LogLevel, error, info, trace, debug, RepoLogger, RepoMap, parse_log_level_config, set_log_level,
}
use dolly.Xlog.Loggers.{level_in, replaced, first}
use dolly.Xlog.Settings.{setting_text, last_of, configured_levels}

abbrev loggers : RepoLogger
loggers =
    (codes "authz", record { pkg = codes "authz"; level = info })
    ∷ (codes "tasks", record { pkg = codes "tasks"; level = info })
    ∷ []

abbrev settings : List (Str × LogLevel)
settings = (codes "tasks", debug) ∷ (codes "tasks", error) ∷ []

bad_config : parse_log_level_config (codes "*=INFO,tasks") ≡ none
unfolding parse_log_level_config Option.bind str_eq
bad_config = refl

configured_levels_example :
    Option.map
      (λ m. level_in (codes "tasks") (set_log_level m loggers))
      (parse_log_level_config (join (map setting_text ((codes "*", trace) ∷ settings)) b','))
    ≡ some (
        replaced
          (first
            (last_of (codes "tasks") ((codes "*", trace) ∷ settings))
            (last_of (codes "*") ((codes "*", trace) ∷ settings)))
          (level_in (codes "tasks") loggers))
configured_levels_example =
    configured_levels (codes "*", trace) settings (codes "tasks") loggers refl

abbrev repos : RepoMap
repos = (codes "dolly", loggers) ∷ []
