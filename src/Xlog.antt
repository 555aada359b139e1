-- ===== src/Xlog.antt =====
-- xlog/logmap.go: log levels, and the loggers of packages by repository. A `PackageLogger` is reached
-- from the map of its repository alone and by its package's name, so a change through the pointer is a
-- change of the entry. Only the seven levels are modelled; an error is `none`, its text and the
-- formatter are left out.
pub mod Levels
pub mod Settings
pub mod Loggers
pub mod Examples
use mathlib.Core.Option
use dolly.Prelude.{
  Bool, true, false, ◌||◌, Option, none, some, List, [], ◌∷◌, Str, codes, str_eq, Assoc, lookup,
  insert, if◌then◌else◌,
}
use dolly.GoText.{split}

pub data LogLevel : Type 0 where
  critical error warning notice info trace debug : LogLevel

-- `Char`
unfoldable pub char : LogLevel → Str
char critical = codes "C"
char error = codes "E"
char warning = codes "W"
char notice = codes "N"
char info = codes "I"
char trace = codes "T"
char debug = codes "D"

-- `String`
unfoldable pub string : LogLevel → Str
string critical = codes "CRITICAL"
string error = codes "ERROR"
string warning = codes "WARNING"
string notice = codes "NOTICE"
string info = codes "INFO"
string trace = codes "TRACE"
string debug = codes "DEBUG"

-- `ParseLevel`
unfoldable pub parse_level : Str → Option LogLevel
parse_level s =
    if str_eq s (codes "CRITICAL") || str_eq s (codes "C")
    then some critical
    else if str_eq s (codes "ERROR") || str_eq s (codes "0") || str_eq s (codes "E")
    then some error
    else if str_eq s (codes "WARNING") || str_eq s (codes "1") || str_eq s (codes "W")
    then some warning
    else if str_eq s (codes "NOTICE") || str_eq s (codes "2") || str_eq s (codes "N")
    then some notice
    else if str_eq s (codes "INFO") || str_eq s (codes "3") || str_eq s (codes "I")
    then some info
    else if str_eq s (codes "TRACE") || str_eq s (codes "4") || str_eq s (codes "T")
    then some trace
    else if str_eq s (codes "DEBUG") || str_eq s (codes "5") || str_eq s (codes "D")
    then some debug
    else none

-- `Set`: whether it succeeds, and the level after
unfoldable pub set : Str → LogLevel → Bool × LogLevel
unfolding parse_level
set s l = elim (parse_level s) [ none ↦ (false, l) | some value ↦ (true, value) ]

pub record PackageLogger : Type 0 where
  pub pkg : Str
  pub level : LogLevel

abbrev pub RepoLogger : Type 0
RepoLogger = Assoc PackageLogger

-- The `repoMap` of the global logger; a nil map is the empty one.
abbrev pub RepoMap : Type 0
RepoMap = Assoc RepoLogger

abbrev pub set_level : LogLevel → PackageLogger → PackageLogger
set_level l p = record p { level = l }

-- `setRepoLogLevelInternal`
unfoldable pub set_repo_log_level_internal : LogLevel → RepoLogger → RepoLogger
set_repo_log_level_internal l [] = []
set_repo_log_level_internal l ((k, p) ∷ r) = (k, set_level l p) ∷ set_repo_log_level_internal l r

-- `SetGlobalLogLevel`
unfoldable pub set_global_log_level : LogLevel → RepoMap → RepoMap
unfolding set_repo_log_level_internal
set_global_log_level l [] = []
set_global_log_level l ((repo, r) ∷ repos) =
    (repo, set_repo_log_level_internal l r) ∷ set_global_log_level l repos

-- `GetRepoLogger`
unfoldable pub get_repo_logger : Str → RepoMap → Option RepoLogger
get_repo_logger repo repos = lookup repo repos

-- One setting of a configuration: `pkg=level`
unfoldable pub parse_setting : List Str → Option (Str × LogLevel)
unfolding parse_level
parse_setting [] = none
parse_setting (pkg ∷ []) = none
parse_setting (pkg ∷ l ∷ []) = Option.map (λ level. (pkg, level)) (parse_level l)
parse_setting (pkg ∷ l ∷ more ∷ parts) = none

-- The loop over the settings; `out` is the map so far.
unfoldable pub parse_settings : List Str → Assoc LogLevel → Option (Assoc LogLevel)
unfolding parse_setting split
parse_settings [] out = some out
parse_settings (setstring ∷ setlist) out =
    Option.bind (parse_setting (split setstring b'='))
      (λ setting. parse_settings setlist (insert setting.0 setting.1 out))

-- `ParseLogLevelConfig`
unfoldable pub parse_log_level_config : Str → Option (Assoc LogLevel)
unfolding parse_settings split
parse_log_level_config conf = parse_settings (split conf b',') []

-- l.level = v for the entry of a package, if there is one
unfoldable pub set_entry : Str → LogLevel → RepoLogger → RepoLogger
set_entry k v r = elim (lookup k r) [ none ↦ r | some p ↦ insert k (set_level v p) r ]

-- for k, v := range m { … }
unfoldable pub set_entries : Assoc LogLevel → RepoLogger → RepoLogger
unfolding set_entry
set_entries [] r = r
set_entries ((k, v) ∷ m) r = set_entries m (set_entry k v r)

-- `SetLogLevel`
unfoldable pub set_log_level : Assoc LogLevel → RepoLogger → RepoLogger
unfolding set_entries set_repo_log_level_internal
set_log_level m r = elim (lookup (codes "*") m) [
  | none ↦ set_entries m r
  | some l ↦ set_entries m (set_repo_log_level_internal l r)
]

abbrev pub or_empty : Option RepoLogger → RepoLogger
or_empty none = []
or_empty (some r) = r

abbrev pub or_made : Str → RepoLogger → Option PackageLogger → RepoLogger
or_made pkg r none = insert pkg (record { pkg = pkg; level = info }) r
or_made pkg r (some p) = r

-- `NewPackageLogger`
unfoldable pub new_package_logger : Str → Str → RepoMap → RepoMap
new_package_logger repo pkg repos =
    let r = or_empty (lookup repo repos) in insert repo (or_made pkg r (lookup pkg r)) repos

-- The change of a repository's loggers, if it has some: `getRepoLogger` and the write through the map
unfoldable pub with_repo : Str → (RepoLogger → RepoLogger) → RepoMap → RepoMap
unfolding get_repo_logger
with_repo repo f repos = elim (get_repo_logger repo repos) [
  | none ↦ repos
  | some r ↦ insert repo (f r) repos
]

-- `SetRepoLogLevel`
unfoldable pub set_repo_log_level : Str → LogLevel → RepoMap → RepoMap
unfolding with_repo
set_repo_log_level repo l = with_repo repo (set_repo_log_level_internal l)

-- `SetPackageLogLevel`
unfoldable pub set_package_log_level : Str → Str → LogLevel → RepoMap → RepoMap
unfolding set_repo_log_level with_repo set_entry
set_package_log_level repo pkg l repos =
    if str_eq pkg [] || str_eq pkg (codes "*")
    then set_repo_log_level repo l repos
    else with_repo repo (set_entry pkg l) repos
