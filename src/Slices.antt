-- ===== src/Slices.antt =====
-- algorithms/slices/slices.go and uint64s.go. A slice is a list; an index out of range is a panic,
-- `none`. The five functions `*SlicesEqual` have one body, at five element types.
pub mod Equal
pub mod Search
pub mod Mapped
pub mod Examples
use dolly.Prelude.{
  ℕ, zero, suc, ◌+◌, ◌≡◌, Bool, true, false, ◌&&◌, Option, none, some, List, [], ◌∷◌, ◌++◌, map,
  Str, str_eq, ltb, ◌==◌, if◌then◌else◌, length, get_elem?, set, replicate,
}
use dolly.GoText.{contains, equal_fold}

module _ {A : Type 0} (eq : A → A → Bool) where
  abbrev differs : Option A → A → Option Bool → Option Bool
  differs none v rest = none
  differs (some w) v rest = if eq v w then rest else some false

  -- for idx, v := range a { if v != b[idx] { return false } }; return true
  equal_loop : List A → List A → ℕ → Option Bool
  equal_loop [] b idx = some true
  equal_loop (v ∷ a) b idx = let rest = equal_loop a b (idx + 1) in differs (get_elem? b idx) v rest

  unfoldable pub slices_equal : List A → List A → Option Bool
  unfolding equal_loop
  slices_equal a b = if length a == length b then equal_loop a b 0 else some false

abbrev bool_eq : Bool → Bool → Bool
bool_eq true true = true
bool_eq false false = true
bool_eq _ _ = false

unfoldable pub byte_slices_equal : List ℕ → List ℕ → Option Bool
unfolding slices_equal
byte_slices_equal = slices_equal ◌==◌

unfoldable pub string_slices_equal : List Str → List Str → Option Bool
unfolding slices_equal
string_slices_equal = slices_equal str_eq

unfoldable pub bool_slices_equal : List Bool → List Bool → Option Bool
unfolding slices_equal
bool_slices_equal = slices_equal bool_eq

-- An int64 is its 64-bit pattern; `==` compares the patterns.
unfoldable pub int64_slices_equal : List ℕ → List ℕ → Option Bool
unfolding slices_equal
int64_slices_equal = slices_equal ◌==◌

unfoldable pub uint64_slices_equal : List ℕ → List ℕ → Option Bool
unfolding slices_equal
uint64_slices_equal = slices_equal ◌==◌

-- `==` on float64 is a parameter: it is not reflexive (NaN).
unfoldable pub float64_slices_equal :
    {Float : Type 0} → (Float → Float → Bool) → List Float → List Float → Option Bool
unfolding slices_equal
float64_slices_equal eq = slices_equal eq

unfoldable pub contains_string : List Str → Str → Bool
contains_string [] item = false
contains_string (x ∷ items) item = if str_eq x item then true else contains_string items item

unfoldable pub string_contains_one_of : Str → List Str → Bool
string_contains_one_of item [] = false
string_contains_one_of item (x ∷ items) =
    if contains item x then true else string_contains_one_of item items

unfoldable pub contains_string_equal_fold : List Str → Str → Bool
contains_string_equal_fold [] item = false
contains_string_equal_fold (x ∷ items) item =
    if equal_fold x item then true else contains_string_equal_fold items item

-- `copy(c, src)`
copy_into : List Str → List Str → List Str
copy_into c [] = c
copy_into [] (x ∷ src) = []
copy_into (y ∷ c) (x ∷ src) = x ∷ copy_into c src

-- nil is `none`.
unfoldable pub clone_strings : Option (List Str) → Option (List Str)
unfolding copy_into
clone_strings none = none
clone_strings (some src) = some (copy_into (replicate (length src) []) src)

unfoldable pub nvl_string : List Str → Str
nvl_string [] = []
nvl_string (x ∷ items) = if ltb 0 (length x) then x else nvl_string items

unfoldable pub nvl_int : List ℕ → ℕ
nvl_int [] = 0
nvl_int (x ∷ items) = if x == 0 then nvl_int items else x

-- for idx, v := range items { res[idx] = mapFn(v) }
map_loop : (Str → Str) → List Str → ℕ → List Str → List Str
map_loop map_fn [] idx res = res
map_loop map_fn (v ∷ items) idx res = map_loop map_fn items (idx + 1) (set res idx (map_fn v))

unfoldable pub map_string_slice : List Str → (Str → Str) → List Str
unfolding map_loop
map_string_slice items map_fn = map_loop map_fn items 0 (replicate (length items) [])

unfoldable pub prefixed : Str → List Str → List Str
unfolding map_string_slice
prefixed prefix items = map_string_slice items (λ s. prefix ++ s)

unfoldable pub suffixed : Str → List Str → List Str
unfolding map_string_slice
suffixed suffix items = map_string_slice items (λ s. s ++ suffix)

unfoldable pub quoted : List Str → List Str
unfolding map_string_slice
quoted items = map_string_slice items (λ s. b'"' ∷ s ++ b'"' ∷ [])
