-- ===== src/GoText/Numbers.antt =====
-- What the packages use of Go's `strconv`, over byte lists: reading and writing decimal numbers.
use dolly.Prelude.{
  ℕ, zero, suc, ◌+◌, ◌-◌, ◌*◌, ◌/◌, ◌%◌, ◌^◌, ◌≤◌, ◌<◌, ◌≡◌, ◌≢◌, refl, ap, sym, ◌∙◌, Bool, true,
  false, ◌&&◌, Option, none, some, [], ◌∷◌, Str, ltb, leb, ◌==◌, if◌then◌else◌, All, arith,
}

abbrev pub is_digit : ℕ → Bool
is_digit c = leb b'0' c && leb c b'9'

unfoldable pub digits : ℕ → Str → Option ℕ
digits n [] = some n
digits n (c ∷ s) = let rest = digits (n * 10 + (c - b'0')) s in if is_digit c then rest else none

abbrev pub below : ℕ → Option ℕ → Option ℕ
below limit none = none
below limit (some n) = if ltb n limit then some n else none

-- `strconv.ParseUint(t, 10, 0)`, a uint of 64 bits
unfoldable pub parse_uint : Str → Option ℕ
unfolding digits
parse_uint [] = none
parse_uint (c ∷ s) = below (2 ^ 64) (digits 0 (c ∷ s))

-- A number that `strconv.Atoi` has read: its magnitude, and whether it had a minus sign.
pub record Signed : Type 0 where
  pub minus : Bool
  pub value : ℕ

abbrev pub signed : Bool → Option ℕ → Option Signed
signed minus none = none
signed minus (some n) =
    if leb n (if minus then 2 ^ 63 else 2 ^ 63 - 1)
    then some (record { minus = minus; value = n })
    else none

unfoldable pub digits_of : Str → Option ℕ
digits_of [] = none
digits_of (c ∷ s) = digits 0 (c ∷ s)

-- `strconv.Atoi`
unfoldable pub atoi : Str → Option Signed
unfolding digits digits_of
atoi [] = none
atoi (c ∷ s) =
    if c == b'-'
    then signed true (digits_of s)
    else if c == b'+'
    then signed false (digits_of s)
    else signed false (digits_of (c ∷ s))

-- The digits of a number before `out`; `fuel` is at least the number.
unfoldable pub emit : ℕ → ℕ → Str → Str
emit zero n out = out
emit (suc fuel) n out =
    let more = emit fuel (n / 10) ((b'0' + n % 10) ∷ out) in if n == 0 then out else more

-- `strconv.AppendInt(b, n, 10)` of a number that is not negative
unfoldable pub format_int : ℕ → Str
unfolding emit
format_int n = if n == 0 then b'0' ∷ [] else emit n n []

digits_step : (n : ℕ) (out : Str) → digits (n / 10) ((b'0' + n % 10) ∷ out) ≡ digits n out
unfolding digits
digits_step n out = ground arith

digits-emit : (fuel n : ℕ) (out : Str) → n ≤ fuel → digits 0 (emit fuel n out) ≡ digits n out
unfolding emit
digits-emit zero n out h = ap (λ m. digits m out) (omega arith)
digits-emit (suc fuel) n out h =
    grind (arith, digits_step n out, digits-emit fuel (n / 10) ((b'0' + n % 10) ∷ out))

-- Written digits
abbrev pub AreDigits : Str → Type 0
AreDigits s = All (λ c. is_digit c ≡ true) s

emit-AreDigits : (fuel n : ℕ) (out : Str) → AreDigits out → AreDigits (emit fuel n out)
unfolding emit
emit-AreDigits zero n out h = h
emit-AreDigits (suc fuel) n out h =
    grind (arith, emit-AreDigits fuel (n / 10) ((b'0' + n % 10) ∷ out))

emit-ne-nil : (fuel n : ℕ) (out : Str) → out ≢ [] → emit fuel n out ≢ []
unfolding emit
emit-ne-nil zero n out h = h
emit-ne-nil (suc fuel) n [] h = absurd (h refl)
emit-ne-nil (suc fuel) n (c ∷ out) h =
    grind (arith, emit-ne-nil fuel (n / 10) ((b'0' + n % 10) ∷ c ∷ out) (λ e. absurd (cc e)))

format_int-emit : (n : ℕ) → format_int (suc n) ≡ emit n (suc n / 10) ((b'0' + suc n % 10) ∷ [])
unfolding format_int emit
format_int-emit n = ground arith

pub format_int-ne-nil : (n : ℕ) → format_int n ≢ []
unfolding format_int
format_int-ne-nil zero h = absurd (cc h)
format_int-ne-nil (suc n) h =
    emit-ne-nil n (suc n / 10) ((b'0' + suc n % 10) ∷ []) (λ e. absurd (cc e))
      (sym (format_int-emit n) ∙ h)

pub format_int-AreDigits : (n : ℕ) → AreDigits (format_int n)
unfolding format_int
format_int-AreDigits zero = (refl, tt)
format_int-AreDigits (suc n) =
    rw (format_int-emit n)
      (emit-AreDigits n (suc n / 10) ((b'0' + suc n % 10) ∷ []) (ground arith, tt))

digits-format_int : (n : ℕ) → digits 0 (format_int n) ≡ some n
unfolding format_int digits
digits-format_int zero = refl
digits-format_int (suc n) =
    ap (digits 0) (format_int-emit n)
    ∙ digits-emit n (suc n / 10) ((b'0' + suc n % 10) ∷ []) (omega arith)
    ∙ digits_step (suc n) []

atoi-digits :
    (s : Str) (n : ℕ)
    → s ≢ []
    → AreDigits s
    → digits 0 s ≡ some n
    → n < 2 ^ 63
    → atoi s ≡ some (record { minus = false; value = n })
unfolding atoi digits_of
atoi-digits [] n some_digit all h small = absurd (some_digit refl)
atoi-digits (c ∷ s) n some_digit all h small =
    rw (first (c == b'-') refl, second (c == b'+') refl, h) (ground arith)
  where
    first : (b : Bool) → (c == b'-') ≡ b → (c == b'-') ≡ false
    first b e = ground (arith, all.0)

    second : (b : Bool) → (c == b'+') ≡ b → (c == b'+') ≡ false
    second b e = ground (arith, all.0)

-- A number below 2^63 is read back from its decimal text.
pub atoi-format_int :
    (n : ℕ) → n < 2 ^ 63 → atoi (format_int n) ≡ some (record { minus = false; value = n })
atoi-format_int n small =
    atoi-digits (format_int n) n (format_int-ne-nil n) (format_int-AreDigits n)
      (digits-format_int n) small
