-- ===== src/Slices/Examples.antt =====
-- The theorems about slices.go at concrete inputs.
use mathlib.Core.Bool.{true, false}
use dolly.Prelude.{◌≡◌, refl, some, List, [], ◌∷◌, Str, str_eq, codes}
use dolly.Slices.{byte_slices_equal, contains_string_equal_fold}
use dolly.GoText.{equal_fold}

abbrev names : List Str
names = codes "bob" ∷ codes "" ∷ codes "Alice" ∷ []

unequal_lengths : byte_slices_equal (1 ∷ 2 ∷ []) (1 ∷ []) ≡ some false
unfolding byte_slices_equal
unequal_lengths = refl

finds_alice : contains_string_equal_fold names (codes "aLICE") ≡ true
unfolding contains_string_equal_fold equal_fold str_eq
finds_alice = refl
