-- ===== src/Slices/Mapped.antt =====
-- The copies of slices.go: `CloneStrings`, and `MapStringSlice` with its three callers.
use mathlib.Core.List.{append_assoc}
use dolly.Prelude.{
  ℕ, ◌+◌, ◌≡◌, refl, sym, ap, ◌∙◌, Option, none, some, List, [], ◌∷◌, ◌++◌, map, Str, length,
  length-append, set, replicate, arith,
}
use dolly.Slices.{clone_strings, copy_into, map_loop, map_string_slice, prefixed, suffixed, quoted}

set-append_length :
    (done rest : List Str) (old new : Str)
    → set (done ++ old ∷ rest) (length done) new ≡ done ++ new ∷ rest
set-append_length [] rest old new = refl
set-append_length (x ∷ done) rest old new = ap (λ r. x ∷ r) (set-append_length done rest old new)

-- The loop fills the slice from the left: what is done stays, and the rest is written in order.
map_loop-append :
    (f : Str → Str) (items done : List Str) (idx : ℕ)
    → idx ≡ length done
    → map_loop f items idx (done ++ replicate (length items) []) ≡ done ++ map f items
unfolding map_loop
map_loop-append f [] done idx e = refl
map_loop-append f (v ∷ items) done idx e =
    rw (e, set-append_length done (replicate (length items) []) [] (f v))
      (rw (sym (append_assoc done (f v ∷ []) (replicate (length items) []))) (
        map_loop-append f items (done ++ f v ∷ []) (length done + 1)
          (omega (arith, length-append done (f v ∷ [])))
        ∙ append_assoc done (f v ∷ []) (map f items)))

map_string_slice-map : (items : List Str) (f : Str → Str) → map_string_slice items f ≡ map f items
unfolding map_string_slice
map_string_slice-map items f = map_loop-append f items [] 0 refl

copy_into-replicate : (src : List Str) → copy_into (replicate (length src) []) src ≡ src
unfolding copy_into
copy_into-replicate [] = refl
copy_into-replicate (x ∷ src) = ap (λ r. x ∷ r) (copy_into-replicate src)

-- `MapStringSlice`, whose loop writes by index into a new slice, is the pointwise map, so that
-- `Prefixed`, `Suffixed` and `Quoted` put the prefix, the suffix or the quotes at every string;
-- `CloneStrings` returns its argument, nil for nil.
pub copies_are_maps :
    (items : List Str) (f : Str → Str) (affix : Str) (src : Option (List Str))
    → (map_string_slice items f ≡ map f items)
      × (prefixed affix items ≡ map (λ s. affix ++ s) items)
      × (suffixed affix items ≡ map (λ s. s ++ affix) items)
      × (quoted items ≡ map (λ s. b'"' ∷ s ++ b'"' ∷ []) items)
      × (clone_strings src ≡ src)
unfolding prefixed suffixed quoted
copies_are_maps items f affix src = (
  map_string_slice-map items f,
  map_string_slice-map items (λ s. affix ++ s),
  map_string_slice-map items (λ s. s ++ affix),
  map_string_slice-map items (λ s. b'"' ∷ s ++ b'"' ∷ []),
  clone src,
)
  where
    clone : (src : Option (List Str)) → clone_strings src ≡ src
    clone none = unfold clone_strings in refl
    clone (some src) = unfold clone_strings in ap some (copy_into-replicate src)
