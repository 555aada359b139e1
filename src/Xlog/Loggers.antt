-- ===== src/Xlog/Loggers.antt =====
-- The level of a package's logger after each operation of xlog/logmap.go.
use mathlib.Core.Option
use dolly.Prelude.{
  ◌≡◌, refl, ap, ◌∙◌, Bool, true, false, ◌&&◌, ◌||◌, Option, none, some, [], ◌∷◌, Str, codes,
  str_eq, str_eq_iff, Assoc, lookup, lookup-insert, arith, if◌then◌else◌, Option-cases, inl, inr,
}
use dolly.Xlog.{
  LogLevel, info, PackageLogger, RepoLogger, RepoMap, set_level, set_repo_log_level_internal,
  set_global_log_level, get_repo_logger, set_entry, set_entries, set_log_level, or_empty, or_made,
  new_package_logger, with_repo, set_repo_log_level, set_package_log_level,
}

abbrev level : PackageLogger → LogLevel
level p = p.level

-- The level of a package's logger, where there is one.
abbrev pub level_in : Str → RepoLogger → Option LogLevel
level_in pkg r = Option.map level (lookup pkg r)

abbrev below : Str → Option RepoLogger → Option LogLevel
below pkg none = none
below pkg (some r) = level_in pkg r

abbrev pub level_of : Str → Str → RepoMap → Option LogLevel
level_of repo pkg repos = below pkg (lookup repo repos)

-- A level written over another, which has to be there.
abbrev pub replaced : Option LogLevel → Option LogLevel → Option LogLevel
replaced none old = old
replaced (some l) none = none
replaced (some l) (some k) = some l

abbrev pub first : Option LogLevel → Option LogLevel → Option LogLevel
first none l = l
first (some k) l = some k

level_in-internal :
    (l : LogLevel) (p : Str) (r : RepoLogger)
    → level_in p (set_repo_log_level_internal l r) ≡ replaced (some l) (level_in p r)
unfolding set_repo_log_level_internal lookup
level_in-internal l p [] = refl
level_in-internal l p ((k, q) ∷ r) = ground (arith, level_in-internal l p r)

level_in-set_entry :
    (k p : Str) (v : LogLevel) (r : RepoLogger)
    → level_in p (set_entry k v r)
      ≡ (if str_eq k p then replaced (some v) (level_in p r) else level_in p r)
unfolding set_entry
level_in-set_entry k p v r = elim (Option-cases (lookup k r)) [
  | inl e ↦ rw (e, set_entry) (ground (arith, str_eq_iff k p))
  | inr (q, e) ↦
      rw (e, set_entry) (ground (arith, str_eq_iff k p, lookup-insert k p (set_level v q) r))
]

abbrev pub is_none : Option LogLevel → Bool
is_none none = true
is_none (some l) = false

-- A Go map has one value for a key.
abbrev pub unique : Assoc LogLevel → Bool
unique [] = true
unique ((k, v) ∷ m) = is_none (lookup k m) && unique m

level_in-set_entries :
    (m : Assoc LogLevel) (p : Str) (r : RepoLogger)
    → unique m ≡ true
    → level_in p (set_entries m r) ≡ replaced (lookup p m) (level_in p r)
unfolding set_entries lookup
level_in-set_entries [] p r u = refl
level_in-set_entries ((k, v) ∷ m) p r u =
    level_in-set_entries m p (set_entry k v r) (ground arith)
    ∙ ap (replaced (lookup p m)) (level_in-set_entry k p v r)
    ∙ ground (arith, str_eq_iff k p)

-- `SetLogLevel` gives a package's logger the level that the map has for the package, or else the
-- level that it has for `*`, if it has either; other loggers keep their level, and none is added.
pub level_in-set_log_level :
    (m : Assoc LogLevel) (p : Str) (r : RepoLogger)
    → unique m ≡ true
    → level_in p (set_log_level m r)
      ≡ replaced (first (lookup p m) (lookup (codes "*") m)) (level_in p r)
unfolding set_log_level
level_in-set_log_level m p r u = elim (Option-cases (lookup (codes "*") m)) [
  | inl e ↦ rw (e, set_log_level) (level_in-set_entries m p r u ∙ ground arith)
  | inr (l, e) ↦
      rw (e, set_log_level)
        (level_in-set_entries m p (set_repo_log_level_internal l r) u
          ∙ ap (replaced (lookup p m)) (level_in-internal l p r)
          ∙ ground arith)
]

level_of-with_repo :
    (repo other p : Str) (f : RepoLogger → RepoLogger) (repos : RepoMap)
    → level_of other p (with_repo repo f repos) ≡ (
        if str_eq repo other
        then below p (Option.map f (lookup repo repos))
        else level_of other p repos)
unfolding with_repo get_repo_logger
level_of-with_repo repo other p f repos = elim (Option-cases (lookup repo repos)) [
  | inl e ↦ rw (e, with_repo) (ground (arith, str_eq_iff repo other))
  | inr (r, e) ↦ rw (e, with_repo) (ground (arith, lookup-insert repo other (f r) repos))
]

level_of-global :
    (l : LogLevel) (repo p : Str) (repos : RepoMap)
    → level_of repo p (set_global_log_level l repos) ≡ replaced (some l) (level_of repo p repos)
unfolding set_global_log_level lookup
level_of-global l repo p [] = refl
level_of-global l repo p ((k, r) ∷ repos) =
    ground (arith, level_in-internal l p r, level_of-global l repo p repos)

level_of-set_repo :
    (repo other p : Str) (l : LogLevel) (repos : RepoMap)
    → level_of other p (set_repo_log_level repo l repos) ≡ (
        if str_eq repo other
        then replaced (some l) (level_of other p repos)
        else level_of other p repos)
unfolding set_repo_log_level
level_of-set_repo repo other p l repos =
    level_of-with_repo repo other p (set_repo_log_level_internal l) repos
    ∙ elim (Option-cases (lookup repo repos)) [
      | inl e ↦ rw e (ground (arith, str_eq_iff repo other))
      | inr (r, e) ↦ rw e (ground (arith, str_eq_iff repo other, level_in-internal l p r))
    ]

level_of-set_one :
    (repo pkg other p : Str) (l : LogLevel) (repos : RepoMap)
    → level_of other p (with_repo repo (set_entry pkg l) repos) ≡ (
        if str_eq repo other && str_eq pkg p
        then replaced (some l) (level_of other p repos)
        else level_of other p repos)
level_of-set_one repo pkg other p l repos =
    level_of-with_repo repo other p (set_entry pkg l) repos
    ∙ elim (Option-cases (lookup repo repos)) [
      | inl e ↦ rw e (ground (arith, str_eq_iff repo other))
      | inr (r, e) ↦ rw e (ground (arith, str_eq_iff repo other, level_in-set_entry pkg p l r))
    ]

-- The package's name stands for all packages.
abbrev pub means_all : Str → Bool
means_all pkg = str_eq pkg [] || str_eq pkg (codes "*")

-- `SetPackageLogLevel` gives the level to the logger of the package in the repository, or to all of
-- the repository's for the package `*` or the empty one; `SetRepoLogLevel` gives it to all of the
-- repository's, and `SetGlobalLogLevel` to all there are. Each leaves the levels of all other loggers
-- as they are, and adds no logger.
pub levels_set :
    (repo pkg other p : Str) (l : LogLevel) (repos : RepoMap)
    → (level_of other p (set_package_log_level repo pkg l repos) ≡ (
        if str_eq repo other && (means_all pkg || str_eq pkg p)
        then replaced (some l) (level_of other p repos)
        else level_of other p repos))
      × (level_of other p (set_repo_log_level repo l repos) ≡ (
          if str_eq repo other
          then replaced (some l) (level_of other p repos)
          else level_of other p repos))
      × (level_of other p (set_global_log_level l repos)
          ≡ replaced (some l) (level_of other p repos))
unfolding set_package_log_level
levels_set repo pkg other p l repos = (
  ground (arith, level_of-set_repo repo other p l repos, level_of-set_one repo pkg other p l repos),
  level_of-set_repo repo other p l repos,
  level_of-global l other p repos,
)

abbrev pub or_info : Option LogLevel → LogLevel
or_info none = info
or_info (some l) = l

level_in-or_made :
    (pkg p : Str) (r : RepoLogger)
    → level_in p (or_made pkg r (lookup pkg r))
      ≡ (if str_eq pkg p then some (or_info (level_in p r)) else level_in p r)
level_in-or_made pkg p r = elim (Option-cases (lookup pkg r)) [
  | inl e ↦
      rw e (
        ground
          (arith, str_eq_iff pkg p, lookup-insert pkg p (record { pkg = pkg; level = info }) r))
  | inr (q, e) ↦ rw e (ground (arith, str_eq_iff pkg p))
]

-- `NewPackageLogger` leaves a logger that is there as it is, with its level, adds one at INFO if there
-- is none for the package in the repository, and changes no other logger.
pub level_of-new :
    (repo pkg other p : Str) (repos : RepoMap)
    → level_of other p (new_package_logger repo pkg repos) ≡ (
        if str_eq repo other && str_eq pkg p
        then some (or_info (level_of other p repos))
        else level_of other p repos)
unfolding new_package_logger lookup
level_of-new repo pkg other p repos =
    let r = or_empty (lookup repo repos) in
    ground (
      arith,
      str_eq_iff repo other,
      lookup-insert repo other (or_made pkg r (lookup pkg r)) repos,
      level_in-or_made pkg p r,
    )
