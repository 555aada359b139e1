-- ===== src/GoText.antt =====
-- What the packages use of Go's `strings` and `bytes`, over byte lists. Case folding and white space
-- are those of ASCII text.
pub mod Laws
pub mod Numbers
use dolly.Prelude.{
  ℕ, zero, suc, ◌+◌, ◌-◌, ◌≡◌, Bool, true, false, ◌&&◌, ◌||◌, Option, none, some, List, [], ◌∷◌,
  ◌++◌, map, Str, str_eq, leb, ltb, ◌==◌, if◌then◌else◌, length, take, drop,
}
use mathlib.Core.Option

-- `strings.HasPrefix`
unfoldable pub has_prefix : Str → Str → Bool
has_prefix s [] = true
has_prefix [] (d ∷ p) = false
has_prefix (c ∷ s) (d ∷ p) = c == d && has_prefix s p

-- `strings.HasSuffix`
unfoldable pub has_suffix : Str → Str → Bool
has_suffix s p = leb (length p) (length s) && str_eq (drop (length s - length p) s) p

-- `strings.Index`; `none` is -1.
unfoldable pub index : Str → Str → Option ℕ
index [] p = if has_prefix [] p then some 0 else none
index (c ∷ s) p =
    let rest = Option.map suc (index s p) in if has_prefix (c ∷ s) p then some 0 else rest

-- `bytes.IndexByte`
unfoldable pub index_byte : Str → ℕ → Option ℕ
index_byte [] b = none
index_byte (c ∷ s) b = let rest = Option.map suc (index_byte s b) in if c == b then some 0 else rest

abbrev pub later_index : Option ℕ → Option ℕ → Option ℕ
later_index none first = first
later_index (some i) first = some (suc i)

-- `strings.LastIndex` of one byte
unfoldable pub last_index_byte : Str → ℕ → Option ℕ
last_index_byte [] b = none
last_index_byte (c ∷ s) b = later_index (last_index_byte s b) (if c == b then some 0 else none)

abbrev pub is_some {ℓ} : {A : Type ℓ} → Option A → Bool
is_some none = false
is_some (some a) = true

-- `strings.Contains`
unfoldable pub contains : Str → Str → Bool
unfolding index has_prefix
contains s p = is_some (index s p)

abbrev pub cons_head : ℕ → List Str → List Str
cons_head c [] = (c ∷ []) ∷ []
cons_head c (p ∷ ps) = (c ∷ p) ∷ ps

-- `strings.Split` at a separator of one byte
unfoldable pub split : Str → ℕ → List Str
split [] b = [] ∷ []
split (c ∷ s) b = if c == b then [] ∷ split s b else cons_head c (split s b)

-- `strings.Join` with a separator of one byte
unfoldable pub join : List Str → ℕ → Str
join [] b = []
join (p ∷ []) b = p
join (p ∷ q ∷ ps) b = p ++ b ∷ join (q ∷ ps) b

abbrev pub is_empty {ℓ} : {A : Type ℓ} → List A → Bool
is_empty [] = true
is_empty (x ∷ xs) = false

-- `bytes.TrimRight`, the cutset as a test
unfoldable pub trim_right : (ℕ → Bool) → Str → Str
trim_right cut [] = []
trim_right cut (c ∷ s) =
    let rest = trim_right cut s in if is_empty rest && cut c then [] else c ∷ rest

unfoldable pub trim_left : (ℕ → Bool) → Str → Str
trim_left cut [] = []
trim_left cut (c ∷ s) = let rest = trim_left cut s in if cut c then rest else c ∷ s

-- The white space of `bytes.TrimSpace`: tab, newline, vertical tab, form feed, return and space.
abbrev pub is_space : ℕ → Bool
is_space c = (leb 9 c && leb c 13) || c == 32

unfoldable pub trim_space : Str → Str
unfolding trim_right trim_left
trim_space s = trim_right is_space (trim_left is_space s)

-- `strings.ToLower`
unfoldable pub lower : ℕ → ℕ
lower c = if leb b'A' c && leb c b'Z' then c + 32 else c

unfoldable pub to_lower : Str → Str
unfolding lower
to_lower s = map lower s

-- `strings.EqualFold`
unfoldable pub equal_fold : Str → Str → Bool
unfolding to_lower
equal_fold s t = str_eq (to_lower s) (to_lower t)

-- The loop of `strings.Replace`, without a limit: `skip` bytes of a match are still to be left out.
unfoldable pub replace_loop : Str → Str → ℕ → Str → Str
unfolding has_prefix
replace_loop old new skip [] = []
replace_loop old new (suc skip) (c ∷ s) = replace_loop old new skip s
replace_loop old new zero (c ∷ s) =
    let kept = c ∷ replace_loop old new 0 s in
    let replaced = new ++ replace_loop old new (length old - 1) s in
    if has_prefix (c ∷ s) old then replaced else kept

-- `strings.Replace` of all occurrences of a text that is not empty
unfoldable pub replace : Str → Str → Str → Str
unfolding replace_loop
replace s old new = replace_loop old new 0 s
