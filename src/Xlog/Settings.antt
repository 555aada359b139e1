-- ===== src/Xlog/Settings.antt =====
-- `ParseLogLevelConfig` of xlog/logmap.go reads back a configuration that is written out, and
-- `SetLogLevel` applies it.
use mathlib.Core.Option
use dolly.Prelude.{
  ◌≡◌, refl, ap, ◌∙◌, ℕ, Bool, true, not, ◌&&◌, Option, none, some, List, [], ◌∷◌, ◌++◌, Str, codes,
  str_eq, str_eq_iff, Assoc, lookup, insert, lookup-insert, arith, if◌then◌else◌, ◌==◌, map, All,
  ◌⊎◌, inl, inr,
}
use dolly.GoText.{split, join}
use dolly.Xlog.{
  LogLevel, critical, error, warning, notice, info, trace, debug, string, RepoLogger, parse_setting,
  parse_settings, parse_log_level_config, set_log_level,
}
use dolly.Xlog.Levels.{parse_level-string}
use dolly.Xlog.Loggers.{level_in, replaced, first, unique, level_in-set_log_level}

-- The text has no such byte.
abbrev pub free : ℕ → Str → Bool
free b [] = true
free b (c ∷ s) = not (c == b) && free b s

split-free : (b : ℕ) (s : Str) → free b s ≡ true → split s b ≡ s ∷ []
unfolding split
split-free b [] h = refl
split-free b (c ∷ s) h = ground (arith, split-free b s)

split-sep : (b : ℕ) (s t : Str) → free b s ≡ true → split (s ++ b ∷ t) b ≡ s ∷ split t b
unfolding split
split-sep b [] t h = ground arith
split-sep b (c ∷ s) t h = ground (arith, split-sep b s t)

free-append : (b : ℕ) (s t : Str) → free b (s ++ t) ≡ (free b s && free b t)
free-append b [] t = refl
free-append b (c ∷ s) t = ground (arith, free-append b s t)

free-string : (b : ℕ) (l : LogLevel) → b ≡ 44 ⊎ b ≡ 61 → free b (string l) ≡ true
unfolding string
free-string b critical h = ground arith
free-string b error h = ground arith
free-string b warning h = ground arith
free-string b notice h = ground arith
free-string b info h = ground arith
free-string b trace h = ground arith
free-string b debug h = ground arith

-- A setting as a configuration writes it.
abbrev pub setting_text : Str × LogLevel → Str
setting_text (pkg, l) = pkg ++ b'=' ∷ string l

-- The names of packages, without the bytes that separate.
abbrev pub plain : List (Str × LogLevel) → Bool
plain [] = true
plain ((pkg, l) ∷ ss) = free b',' pkg && free b'=' pkg && plain ss

insert_all : List (Str × LogLevel) → Assoc LogLevel → Assoc LogLevel
insert_all [] out = out
insert_all ((pkg, l) ∷ ss) out = insert_all ss (insert pkg l out)

split-join :
    (b : ℕ) (s : Str) (ss : List Str)
    → All (λ t. free b t ≡ true) (s ∷ ss)
    → split (join (s ∷ ss) b) b ≡ s ∷ ss
unfolding join
split-join b s [] (h, k) = split-free b s h
split-join b s (t ∷ ss) (h, k) =
    split-sep b s (join (t ∷ ss) b) h ∙ ap (λ r. s ∷ r) (split-join b t ss k)

texts-free :
    (ss : List (Str × LogLevel))
    → plain ss ≡ true
    → All (λ t. free b',' t ≡ true) (map setting_text ss)
texts-free [] h = tt
texts-free ((pkg, l) ∷ ss) h = (
  ground (arith, free-append b',' pkg (b'=' ∷ string l), free-string b',' l (inl refl)),
  texts-free ss (ground arith),
)

parse_setting-text :
    (pkg : Str) (l : LogLevel)
    → free b'=' pkg ≡ true
    → parse_setting (split (setting_text (pkg, l)) b'=') ≡ some (pkg, l)
parse_setting-text pkg l h =
    ap parse_setting (
      split-sep b'=' pkg (string l) h
      ∙ ap (λ r. pkg ∷ r) (split-free b'=' (string l) (free-string b'=' l (inr refl))))
    ∙ (unfold parse_setting in ap (Option.map (λ level. (pkg, level))) (parse_level-string l))

parse_settings-texts :
    (ss : List (Str × LogLevel)) (out : Assoc LogLevel)
    → plain ss ≡ true
    → parse_settings (map setting_text ss) out ≡ some (insert_all ss out)
unfolding parse_settings insert_all Option.bind
parse_settings-texts [] out h = refl
parse_settings-texts ((pkg, l) ∷ ss) out h =
    ap
      (λ o.
        Option.bind o
          (λ setting. parse_settings (map setting_text ss) (insert setting.0 setting.1 out)))
      (parse_setting-text pkg l (ground arith))
    ∙ parse_settings-texts ss (insert pkg l out) (ground arith)

unique-insert :
    (k : Str) (l : LogLevel) (m : Assoc LogLevel) → unique m ≡ true → unique (insert k l m) ≡ true
unfolding insert lookup
unique-insert k l [] h = refl
unique-insert k l ((j, v) ∷ m) h =
    ground (arith, str_eq_iff j k, str_eq_iff k j, lookup-insert k j l m, unique-insert k l m)

unique-insert_all :
    (ss : List (Str × LogLevel)) (m : Assoc LogLevel)
    → unique m ≡ true
    → unique (insert_all ss m) ≡ true
unfolding insert_all
unique-insert_all [] m h = h
unique-insert_all ((pkg, l) ∷ ss) m h =
    unique-insert_all ss (insert pkg l m) (unique-insert pkg l m h)

-- The level of the last setting for a package.
abbrev pub last_of : Str → List (Str × LogLevel) → Option LogLevel
last_of p [] = none
last_of p ((pkg, l) ∷ ss) = first (last_of p ss) (if str_eq pkg p then some l else none)

lookup-insert_all :
    (ss : List (Str × LogLevel)) (p : Str) (m : Assoc LogLevel)
    → lookup p (insert_all ss m) ≡ first (last_of p ss) (lookup p m)
unfolding insert_all
lookup-insert_all [] p m = refl
lookup-insert_all ((pkg, l) ∷ ss) p m =
    lookup-insert_all ss p (insert pkg l m) ∙ ground (arith, lookup-insert pkg p l m)

first-none : (o : Option LogLevel) → first o none ≡ o
first-none none = refl
first-none (some l) = refl

-- A configuration is one or more settings `pkg=LEVEL` with commas between, the names without commas
-- and equality signs. `ParseLogLevelConfig` reads it, and `SetLogLevel` with the result gives the
-- logger of a package the level of the last setting for the package, or else that of the last one for
-- `*`; a package with neither keeps its level.
pub configured_levels :
    (s : Str × LogLevel) (ss : List (Str × LogLevel)) (p : Str) (r : RepoLogger)
    → plain (s ∷ ss) ≡ true
    → Option.map
        (λ m. level_in p (set_log_level m r))
        (parse_log_level_config (join (map setting_text (s ∷ ss)) b','))
      ≡ some (replaced (first (last_of p (s ∷ ss)) (last_of (codes "*") (s ∷ ss))) (level_in p r))
unfolding parse_log_level_config lookup
configured_levels s ss p r h =
    let all = s ∷ ss in
    let latest = λ (q : Str). lookup-insert_all all q [] ∙ first-none (last_of q all) in
    ap (λ parts. Option.map (λ m. level_in p (set_log_level m r)) (parse_settings parts []))
      (split-join b',' (setting_text s) (map setting_text ss) (texts-free all h))
    ∙ ap (Option.map (λ m. level_in p (set_log_level m r))) (parse_settings-texts all [] h)
    ∙ ap some (
        level_in-set_log_level (insert_all all []) p r (unique-insert_all all [] refl)
        ∙ ap (λ o. replaced (first o (lookup (codes "*") (insert_all all []))) (level_in p r))
            (latest p)
        ∙ ap (λ o. replaced (first (last_of p all) o) (level_in p r)) (latest (codes "*")))
