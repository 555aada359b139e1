-- ===== src/Ca/Csr/Arcs.antt =====
-- The texts of object identifiers in xpki/csr/types.go. An arc is an int, by its 64-bit pattern. The
-- regular expression of `parseObjectIdentifier` is not anchored: it matches a text with a digit in it.
use dolly.Prelude.{
  ℕ, ◌-◌, ◌%◌, ◌^◌, ◌<◌, ◌≡◌, ◌≢◌, refl, Bool, true, false, not, ◌||◌, Option, none, some, List, [],
  ◌∷◌, ◌++◌, map, Str, codes, ltb, ◌==◌, if◌then◌else◌, All, Result, ok, err, panic, ◌>>=◌, ◌>>◌,
  guard, or_err, arith,
}
use dolly.GoText.{split, join}
use dolly.GoText.Laws.{IsWhole, split-join}
use dolly.GoText.Numbers.{
  Signed, is_digit, atoi, format_int, AreDigits, format_int-AreDigits, format_int-ne-nil,
  atoi-format_int,
}
use dolly.Ca.Std.{Oid}

abbrev pattern_of : Signed → ℕ
pattern_of n = if n.minus then (2 ^ 64 - n.value) % 2 ^ 64 else n.value

abbrev has_digit : Str → Bool
has_digit [] = false
has_digit (c ∷ s) = is_digit c || has_digit s

-- for i, intString := range segments { … }
unfoldable pub read_arcs : List Str → Result Oid
read_arcs [] = ok []
read_arcs (int_string ∷ segments) = do
  n ← or_err (codes "invalid OID") (atoi int_string)
  oid ← read_arcs segments
  ok (pattern_of n ∷ oid)

-- `parseObjectIdentifier`
unfoldable pub parse_object_identifier : Str → Result Oid
unfolding read_arcs
parse_object_identifier oid_string = do
  guard (has_digit oid_string) (codes "invalid OID: " ++ oid_string)
  read_arcs (split oid_string b'.')

abbrev arc_text : ℕ → Str
arc_text n = if ltb n (2 ^ 63) then format_int n else b'-' ∷ format_int (2 ^ 64 - n)

-- `String`
unfoldable pub oid_string : Oid → Str
oid_string oid = join (map arc_text oid) b'.'

-- `MarshalJSON`
unfoldable pub marshal_json : Oid → Str
unfolding oid_string
marshal_json oid = b'"' ∷ oid_string oid ++ b'"' ∷ []

-- The text between a first byte and the last one, and the last one; a byte alone has no slice between.
abbrev unquoted : Str → Option (Str × ℕ)
unquoted [] = none
unquoted (c ∷ []) = some ([], c)
unquoted (c ∷ d ∷ s) = elim (unquoted (d ∷ s)) [ none ↦ none | some r ↦ some (c ∷ r.0, r.1) ]

-- `UnmarshalJSON`; no bytes panic, and so does a quote alone.
unfoldable pub unmarshal_json : Str → Result Oid
unfolding parse_object_identifier
unmarshal_json [] = panic
unmarshal_json (c ∷ data_rest) = elim (unquoted data_rest) [
  | none ↦ if c == b'"' then panic else err (codes "OID JSON string not wrapped in quotes")
  | some r ↦
      if not (c == b'"') || not (r.1 == b'"')
      then err (codes "OID JSON string not wrapped in quotes")
      else parse_object_identifier r.0
]

-- Arcs that are not negative
abbrev pub AreArcs : Oid → Type 0
AreArcs oid = All (λ n. n < 2 ^ 63) oid

digits-IsWhole : (s : Str) → AreDigits s → IsWhole b'.' s
digits-IsWhole [] h = tt
digits-IsWhole (c ∷ s) (first, h) = (ground (arith, first), digits-IsWhole s h)

arc_text-format_int : (n : ℕ) → n < 2 ^ 63 → arc_text n ≡ format_int n
arc_text-format_int n h = ground (arith, h)

arcs-IsWhole : (oid : Oid) → AreArcs oid → All (IsWhole b'.') (map arc_text oid)
arcs-IsWhole [] h = tt
arcs-IsWhole (n ∷ oid) (first, h) = (
  rw (arc_text-format_int n first) (digits-IsWhole (format_int n) (format_int-AreDigits n)),
  arcs-IsWhole oid h,
)

read_arcs-arc_text : (oid : Oid) → AreArcs oid → read_arcs (map arc_text oid) ≡ ok oid
unfolding read_arcs
read_arcs-arc_text [] h = refl
read_arcs-arc_text (n ∷ oid) (first, h) =
    rw (arc_text-format_int n first, atoi-format_int n first, read_arcs-arc_text oid h) refl

has_digit-append : (s t : Str) → has_digit s ≡ true → has_digit (s ++ t) ≡ true
has_digit-append [] t h = absurd (cc h)
has_digit-append (c ∷ s) t h = ground (arith, h, has_digit-append s t)

format_int-has_digit : (n : ℕ) → has_digit (format_int n) ≡ true
format_int-has_digit n = go (format_int n) (format_int-ne-nil n) (format_int-AreDigits n)
  where
    go : (s : Str) → s ≢ [] → AreDigits s → has_digit s ≡ true
    go [] h all = absurd (h refl)
    go (c ∷ s) h all = ground (arith, all.0)

oid_string-has_digit :
    (n : ℕ) (oid : Oid) → AreArcs (n ∷ oid) → has_digit (oid_string (n ∷ oid)) ≡ true
unfolding oid_string join
oid_string-has_digit n [] (first, h) = rw (arc_text-format_int n first) (format_int-has_digit n)
oid_string-has_digit n (m ∷ oid) (first, h) = rw (arc_text-format_int n first) (
    has_digit-append (format_int n) (b'.' ∷ join (map arc_text (m ∷ oid)) b'.')
      (format_int-has_digit n))

unquoted-append : (s : Str) (c : ℕ) → unquoted (s ++ c ∷ []) ≡ some (s, c)
unquoted-append [] c = refl
unquoted-append (d ∷ []) c = refl
unquoted-append (d ∷ e ∷ s) c = rw (unquoted-append (e ∷ s) c) refl

-- An object identifier of at least one arc, none of them negative, is read back from the JSON text
-- that it is written as.
pub unmarshal_json-marshal_json :
    (n : ℕ) (oid : Oid) → AreArcs (n ∷ oid) → unmarshal_json (marshal_json (n ∷ oid)) ≡ ok (n ∷ oid)
unfolding unmarshal_json marshal_json parse_object_identifier join
unmarshal_json-marshal_json n oid h =
    let split_back : split (oid_string (n ∷ oid)) b'.' ≡ map arc_text (n ∷ oid) =
      unfold oid_string in
      split-join (arc_text n) (map arc_text oid) b'.' (arcs-IsWhole (n ∷ oid) h) in
    rw (unquoted-append (oid_string (n ∷ oid)) b'"', oid_string-has_digit n oid h, split_back)
      (read_arcs-arc_text (n ∷ oid) h)
