-- ===== src/Slices/Search.antt =====
-- The searches of slices.go: `ContainsString`, `StringContainsOneOf`, `ContainsStringEqualFold`,
-- `NvlString` and `NvlInt`.
use dolly.Prelude.{
  inl, inr, ℕ, zero, suc, ◌≡◌, ◌≢◌, ◌↔◌, ◌⊎◌, refl, ap, true, List, [], ◌∷◌, ◌++◌, Str, str_eq_iff,
  All, arith,
}
use dolly.GoText.{contains, equal_fold}
use dolly.Slices.{
  contains_string, string_contains_one_of, contains_string_equal_fold, nvl_string, nvl_int,
}

-- Some element satisfies the predicate.
abbrev pub Any : {A : Type 0} → (A → Type 0) → List A → Type 0
Any P [] = ⊥
Any P (x ∷ xs) = P x ⊎ Any P xs

-- The three searches return true exactly when some element of the slice equals the item, is a part
-- of the item, or equals the item up to case.
pub searches_iff_Any :
    (items : List Str) (item : Str)
    → ((contains_string items item ≡ true) ↔ Any (λ x. x ≡ item) items)
      × ((string_contains_one_of item items ≡ true) ↔ Any (λ x. contains item x ≡ true) items)
      × ((contains_string_equal_fold items item ≡ true) ↔ Any (λ x. equal_fold x item ≡ true) items)
unfolding contains_string string_contains_one_of contains_string_equal_fold
searches_iff_Any [] item = ground arith
searches_iff_Any (x ∷ items) item =
    let ih = searches_iff_Any items item in ground (arith, ih, str_eq_iff x item)

-- `x` stands in the list, behind values that are all `unset`.
abbrev pub FirstBehind : {A : Type 0} → A → A → List A → Type 0
FirstBehind {A} unset x items =
    (before : List A) × (after : List A) × (items ≡ before ++ x ∷ after)
    × All (λ y. y ≡ unset) before

nvl_string_first :
    (items : List Str) → nvl_string items ≢ [] → FirstBehind [] (nvl_string items) items
unfolding nvl_string
nvl_string_first [] h = absurd (h refl)
nvl_string_first ([] ∷ items) h =
    let (before, after, e, zeros) = nvl_string_first items h in
    ([] ∷ before, after, ap (λ (r : List Str). [] ∷ r) e, (refl, zeros))
nvl_string_first ((c ∷ x) ∷ items) h = ([], items, ground arith, tt)

nvl_string_none : (items : List Str) → (nvl_string items ≡ []) ↔ All (λ x. x ≡ []) items
unfolding nvl_string
nvl_string_none [] = ground arith
nvl_string_none ([] ∷ items) = ground (arith, nvl_string_none items)
nvl_string_none ((c ∷ x) ∷ items) = ground arith

nvl_int_first : (items : List ℕ) → nvl_int items ≢ 0 → FirstBehind 0 (nvl_int items) items
unfolding nvl_int
nvl_int_first [] h = absurd (h refl)
nvl_int_first (zero ∷ items) h =
    let (before, after, e, zeros) = nvl_int_first items h in
    (0 ∷ before, after, ap (λ (r : List ℕ). 0 ∷ r) e, (refl, zeros))
nvl_int_first (suc x ∷ items) h = ([], items, ground arith, tt)

nvl_int_none : (items : List ℕ) → (nvl_int items ≡ 0) ↔ All (λ x. x ≡ 0) items
unfolding nvl_int
nvl_int_none [] = ground arith
nvl_int_none (x ∷ items) = ground (arith, nvl_int_none items)

-- `NvlString` returns "" if all strings are empty, and otherwise a string of the list that is not
-- empty and before which all are; `NvlInt` does so with 0.
pub nvl_first :
    (strings : List Str) (ints : List ℕ)
    → ((nvl_string strings ≡ []) × All (λ x. x ≡ []) strings
        ⊎ (nvl_string strings ≢ []) × FirstBehind [] (nvl_string strings) strings)
      × ((nvl_int ints ≡ 0) × All (λ x. x ≡ 0) ints
          ⊎ (nvl_int ints ≢ 0) × FirstBehind 0 (nvl_int ints) ints)
nvl_first strings ints = (by_text (nvl_string strings) refl, by_number (nvl_int ints) refl)
  where
    by_text :
        (r : Str)
        → nvl_string strings ≡ r
        → ((nvl_string strings ≡ []) × All (λ x. x ≡ []) strings
            ⊎ (nvl_string strings ≢ []) × FirstBehind [] (nvl_string strings) strings)
    by_text [] e = inl (e, (nvl_string_none strings).0 e)
    by_text (c ∷ r) e =
        let some_text : nvl_string strings ≢ [] = λ n. ground (arith, n, e) in
        inr (some_text, nvl_string_first strings some_text)

    by_number :
        (r : ℕ)
        → nvl_int ints ≡ r
        → ((nvl_int ints ≡ 0) × All (λ x. x ≡ 0) ints
            ⊎ (nvl_int ints ≢ 0) × FirstBehind 0 (nvl_int ints) ints)
    by_number zero e = inl (e, (nvl_int_none ints).0 e)
    by_number (suc r) e =
        let nonzero : nvl_int ints ≢ 0 = λ n. ground (arith, n, e) in
        inr (nonzero, nvl_int_first ints nonzero)
