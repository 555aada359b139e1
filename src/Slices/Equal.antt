-- ===== src/Slices/Equal.antt =====
-- The equality tests of slices.go.
use mathlib.Core.List.{append_assoc}
use dolly.Prelude.{
  ℕ, ◌+◌, ◌≡◌, ◌↔◌, refl, sym, Bool, true, false, Option, some, List, [], ◌∷◌, ◌++◌, Str, str_eq,
  str_eq_iff, ◌==◌, ==_iff, if◌then◌else◌, length, length-append, get_elem?, arith,
}
use dolly.Slices.{
  slices_equal, equal_loop, byte_slices_equal, string_slices_equal, int64_slices_equal,
  uint64_slices_equal, bool_slices_equal, bool_eq, float64_slices_equal,
}

get_elem?-append_length :
    {A : Type 0} (pre rest : List A) (y : A) → get_elem? (pre ++ y ∷ rest) (length pre) ≡ some y
get_elem?-append_length [] rest y = refl
get_elem?-append_length (x ∷ pre) rest y = get_elem?-append_length pre rest y

module _ {A : Type 0} (eq : A → A → Bool) where
  -- Element by element, the reference definition.
  pub pointwise : List A → List A → Bool
  pointwise [] [] = true
  pointwise [] (y ∷ ys) = false
  pointwise (x ∷ xs) [] = false
  pointwise (x ∷ xs) (y ∷ ys) = if eq x y then pointwise xs ys else false

  equal_loop-append :
      (a pre rest : List A) (n : ℕ)
      → length a ≡ length rest
      → n ≡ length pre
      → equal_loop eq a (pre ++ rest) n ≡ some (pointwise a rest)
  unfolding equal_loop pointwise
  equal_loop-append [] pre [] n h e = refl
  equal_loop-append [] pre (y ∷ rest) n h e = absurd (omega arith)
  equal_loop-append (x ∷ a) pre [] n h e = absurd (omega arith)
  equal_loop-append (x ∷ a) pre (y ∷ rest) n h e =
      let step : equal_loop eq a (pre ++ y ∷ rest) (n + 1) ≡ some (pointwise a rest) =
        rw (sym (append_assoc pre (y ∷ []) rest)) (
          equal_loop-append a (pre ++ y ∷ []) rest (n + 1) (omega arith)
            (omega (arith, length-append pre (y ∷ [])))) in
      rw (step, e, get_elem?-append_length pre rest y) (ground arith)

  pointwise-length : (a b : List A) → pointwise a b ≡ true → length a ≡ length b
  unfolding pointwise
  pointwise-length [] [] h = refl
  pointwise-length [] (y ∷ ys) h = ground arith
  pointwise-length (x ∷ xs) [] h = ground arith
  pointwise-length (x ∷ xs) (y ∷ ys) h = ground (arith, pointwise-length xs ys)

  slices_equal-pointwise : (a b : List A) → slices_equal eq a b ≡ some (pointwise a b)
  unfolding slices_equal
  slices_equal-pointwise a b = ground (arith, equal_loop-append a [] b 0, pointwise-length a b)

pub pointwise_sound :
    {A : Type 0} (eq : A → A → Bool)
    → ((x y : A) → (eq x y ≡ true) ↔ (x ≡ y))
    → (a b : List A) → (pointwise eq a b ≡ true) ↔ (a ≡ b)
unfolding pointwise
pointwise_sound {A} eq law a b = (to a b, λ e. rw e (back b))
  where
    to : (a b : List A) → pointwise eq a b ≡ true → a ≡ b
    to [] [] h = refl
    to [] (y ∷ ys) h = ground arith
    to (x ∷ xs) [] h = ground arith
    to (x ∷ xs) (y ∷ ys) h = ground (arith, law x y, to xs ys)

    back : (b : List A) → pointwise eq b b ≡ true
    back [] = refl
    back (y ∷ ys) = ground (arith, law y y, back ys)

bool_eq_iff : (x y : Bool) → (bool_eq x y ≡ true) ↔ (x ≡ y)
bool_eq_iff x y = ground arith

-- A test of slices decides equality: it never reads out of range, and it returns true exactly on
-- equal slices.
abbrev pub Decides : {A : Type 0} → (List A → List A → Option Bool) → List A → List A → Type 0
Decides test a b = (r : Bool) × (test a b ≡ some r) × ((r ≡ true) ↔ (a ≡ b))

-- `ByteSlicesEqual`, `StringSlicesEqual`, `BoolSlicesEqual`, `Int64SlicesEqual` and
-- `Uint64SlicesEqual` return on all slices, without a panic, and return true exactly when the two
-- slices are equal.
pub slices_equal_decide :
    (xs ys : List ℕ) (ss ts : List Str) (bs cs : List Bool)
    → Decides byte_slices_equal xs ys
      × Decides string_slices_equal ss ts
      × Decides bool_slices_equal bs cs
      × Decides int64_slices_equal xs ys
      × Decides uint64_slices_equal xs ys
unfolding byte_slices_equal string_slices_equal bool_slices_equal int64_slices_equal
    uint64_slices_equal
slices_equal_decide xs ys ss ts bs cs = (
  (pointwise ◌==◌ xs ys, slices_equal-pointwise ◌==◌ xs ys, pointwise_sound ◌==◌ ==_iff xs ys),
  (
    pointwise str_eq ss ts,
    slices_equal-pointwise str_eq ss ts,
    pointwise_sound str_eq str_eq_iff ss ts,
  ),
  (
    pointwise bool_eq bs cs,
    slices_equal-pointwise bool_eq bs cs,
    pointwise_sound bool_eq bool_eq_iff bs cs,
  ),
  (pointwise ◌==◌ xs ys, slices_equal-pointwise ◌==◌ xs ys, pointwise_sound ◌==◌ ==_iff xs ys),
  (pointwise ◌==◌ xs ys, slices_equal-pointwise ◌==◌ xs ys, pointwise_sound ◌==◌ ==_iff xs ys),
)

-- `Float64SlicesEqual` returns on all slices, without a panic, and its result is that of `==`
-- element by element, slices of different lengths being different, whatever `==` is on floats.
pub float64_slices_equal-pointwise :
    {Float : Type 0} (eq : Float → Float → Bool) (a b : List Float)
    → float64_slices_equal eq a b ≡ some (pointwise eq a b)
unfolding float64_slices_equal
float64_slices_equal-pointwise eq a b = slices_equal-pointwise eq a b
