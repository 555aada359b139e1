-- ===== src/Xlog/Levels.antt =====
-- The texts that `ParseLevel` of xlog/logmap.go reads.
use dolly.Prelude.{
  ◌≡◌, ◌⊎◌, ◌↔◌, inl, inr, refl, true, ◌||◌, Option, none, some, Str, codes, str_eq, str_eq_iff,
  arith,
}
use dolly.Xlog.{
  LogLevel, critical, error, warning, notice, info, trace, debug, char, string, parse_level,
}

-- The digit of a level, which the lowest has not.
abbrev pub digit : LogLevel → Option Str
digit critical = none
digit error = some (codes "0")
digit warning = some (codes "1")
digit notice = some (codes "2")
digit info = some (codes "3")
digit trace = some (codes "4")
digit debug = some (codes "5")

pub parse_level-string : (l : LogLevel) → parse_level (string l) ≡ some l
unfolding parse_level string str_eq
parse_level-string critical = refl
parse_level-string error = refl
parse_level-string warning = refl
parse_level-string notice = refl
parse_level-string info = refl
parse_level-string trace = refl
parse_level-string debug = refl

parse_level-char : (l : LogLevel) → parse_level (char l) ≡ some l
unfolding parse_level char str_eq
parse_level-char critical = refl
parse_level-char error = refl
parse_level-char warning = refl
parse_level-char notice = refl
parse_level-char info = refl
parse_level-char trace = refl
parse_level-char debug = refl

parse_level-digit : (l : LogLevel) (s : Str) → digit l ≡ some s → parse_level s ≡ some l
unfolding parse_level str_eq
parse_level-digit critical s h = absurd (cc h)
parse_level-digit error s h = let e : s ≡ codes "0" = cc h in rw e refl
parse_level-digit warning s h = let e : s ≡ codes "1" = cc h in rw e refl
parse_level-digit notice s h = let e : s ≡ codes "2" = cc h in rw e refl
parse_level-digit info s h = let e : s ≡ codes "3" = cc h in rw e refl
parse_level-digit trace s h = let e : s ≡ codes "4" = cc h in rw e refl
parse_level-digit debug s h = let e : s ≡ codes "5" = cc h in rw e refl

abbrev pub IsName : LogLevel → Str → Type 0
IsName l s = (s ≡ string l) ⊎ ((s ≡ char l) ⊎ (digit l ≡ some s))

two : (s a b : Str) → (str_eq s a || str_eq s b) ≡ true → (s ≡ a) ⊎ (s ≡ b)
two s a b h = ground (arith, str_eq_iff s a, str_eq_iff s b)

three :
    (s a b c : Str)
    → (str_eq s a || str_eq s b || str_eq s c) ≡ true
    → (s ≡ a) ⊎ ((s ≡ c) ⊎ (some b ≡ some s))
three s a b c h = ground (arith, str_eq_iff s a, str_eq_iff s b, str_eq_iff s c)

parsed : (s : Str) (l : LogLevel) → parse_level s ≡ some l → IsName l s
unfolding parse_level string char
parsed s l h = ground (
  arith,
  two s (codes "CRITICAL") (codes "C"),
  three s (codes "ERROR") (codes "0") (codes "E"),
  three s (codes "WARNING") (codes "1") (codes "W"),
  three s (codes "NOTICE") (codes "2") (codes "N"),
  three s (codes "INFO") (codes "3") (codes "I"),
  three s (codes "TRACE") (codes "4") (codes "T"),
  three s (codes "DEBUG") (codes "5") (codes "D"),
)

-- `ParseLevel` reads a text as a level exactly if it is what `String` or `Char` writes for the level,
-- or the level's digit, from 0 for ERROR to 5 for DEBUG.
pub parse_level_iff : (s : Str) (l : LogLevel) → (parse_level s ≡ some l) ↔ IsName l s
parse_level_iff s l = (parsed s l, named)
  where
    named : IsName l s → parse_level s ≡ some l
    named (inl e) = rw e (parse_level-string l)
    named (inr (inl e)) = rw e (parse_level-char l)
    named (inr (inr e)) = parse_level-digit l s e
