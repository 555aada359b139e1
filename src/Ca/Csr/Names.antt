-- ===== src/Ca/Csr/Names.antt =====
-- The subject and the alternative names that a request asks for, in xpki/csr/csr.go.
use dolly.Prelude.{
  ◌≡◌, refl, ap, ◌∙◌, Bool, true, false, some, List, [], ◌∷◌, ◌++◌, Str, str_eq, if◌then◌else◌,
}
use dolly.Ca.Std.{Name}
use dolly.Ca.Csr.{
  X509Name, X509Subject, empty_name, replace_slice_if_empty, replace_if_empty, populated, append_if,
  add_names, subject_name, populate_name,
}

append_nil : {A : Type 0} (xs : List A) → xs ++ [] ≡ xs
append_nil [] = refl
append_nil (x ∷ xs) = ap (λ ys. x ∷ ys) (append_nil xs)

append_assoc : {A : Type 0} (xs ys zs : List A) → (xs ++ ys) ++ zs ≡ xs ++ (ys ++ zs)
append_assoc [] ys zs = refl
append_assoc (x ∷ xs) ys zs = ap (λ ws. x ∷ ws) (append_assoc xs ys zs)

-- The values of a field that are given, in order.
abbrev pub given : (X509Name → Str) → List X509Name → List Str
given field [] = []
given field (n ∷ names) =
    if str_eq (field n) [] then given field names else field n ∷ given field names

append_if-given :
    (s : Str) (old rest : List Str)
    → append_if s old ++ rest ≡ old ++ (if str_eq s [] then rest else s ∷ rest)
append_if-given s old rest = go (str_eq s [])
  where
    go :
        (b : Bool)
        → (if b then old else old ++ s ∷ []) ++ rest ≡ old ++ (if b then rest else s ∷ rest)
    go true = refl
    go false = append_assoc old (s ∷ []) rest

add_names-given :
    (names : List X509Name) (name : Name)
    → add_names names name ≡ record name {
      country = name.country ++ given (λ n. n.c) names;
      province = name.province ++ given (λ n. n.st) names;
      locality = name.locality ++ given (λ n. n.l) names;
      organization = name.organization ++ given (λ n. n.o) names;
      organizational_unit = name.organizational_unit ++ given (λ n. n.ou) names;
    }
unfolding add_names
add_names-given [] name =
    rw
      (
        append_nil name.country,
        append_nil name.province,
        append_nil name.locality,
        append_nil name.organization,
        append_nil name.organizational_unit,
      )
      refl
add_names-given (n ∷ names) name =
    add_names-given names (record name {
      country = append_if n.c name.country;
      province = append_if n.st name.province;
      locality = append_if n.l name.locality;
      organization = append_if n.o name.organization;
      organizational_unit = append_if n.ou name.organizational_unit;
    })
    ∙ rw
        (
          append_if-given n.c name.country (given (λ m. m.c) names),
          append_if-given n.st name.province (given (λ m. m.st) names),
          append_if-given n.l name.locality (given (λ m. m.l) names),
          append_if-given n.o name.organization (given (λ m. m.o) names),
          append_if-given n.ou name.organizational_unit (given (λ m. m.ou) names),
        )
        refl

-- A value that is asked for, or the one of the certificate request if none is.
abbrev pub or_list : List Str → List Str → List Str
or_list [] old = old
or_list (s ∷ asked) old = s ∷ asked

abbrev pub or_name : Str → Str → Str
or_name [] old = old
or_name (c ∷ asked) old = c ∷ asked

replace_slice_if_empty-or_list :
    (asked old : List Str) → replace_slice_if_empty asked old ≡ or_list asked old
replace_slice_if_empty-or_list [] old = refl
replace_slice_if_empty-or_list (s ∷ asked) old = refl

replace_if_empty-or_name : (asked old : Str) → replace_if_empty asked old ≡ or_name asked old
unfolding str_eq
replace_if_empty-or_name [] old = refl
replace_if_empty-or_name (c ∷ asked) old = refl

-- The subject of a certificate has, of each field, the values that the request's subject gives, in
-- order and without the empty ones, and those of the certificate request's subject if it gives none.
pub populate_name-given :
    (s : X509Subject) (req : Name)
    → populate_name (some s) req ≡ record {
      common_name = or_name s.common_name req.common_name;
      serial_number = or_name s.serial_number req.serial_number;
      country = or_list (given (λ n. n.c) s.names) req.country;
      province = or_list (given (λ n. n.st) s.names) req.province;
      locality = or_list (given (λ n. n.l) s.names) req.locality;
      organization = or_list (given (λ n. n.o) s.names) req.organization;
      organizational_unit = or_list (given (λ n. n.ou) s.names) req.organizational_unit;
    }
unfolding populate_name subject_name
populate_name-given s req =
    let plain = record empty_name {
      common_name = s.common_name;
      serial_number = s.serial_number;
    } in
    ap (λ name. populated name req) (add_names-given s.names plain)
    ∙ rw
        (
          replace_if_empty-or_name s.common_name req.common_name,
          replace_if_empty-or_name s.serial_number req.serial_number,
          replace_slice_if_empty-or_list (given (λ n. n.c) s.names) req.country,
          replace_slice_if_empty-or_list (given (λ n. n.st) s.names) req.province,
          replace_slice_if_empty-or_list (given (λ n. n.l) s.names) req.locality,
          replace_slice_if_empty-or_list (given (λ n. n.o) s.names) req.organization,
          replace_slice_if_empty-or_list (given (λ n. n.ou) s.names) req.organizational_unit,
        )
        refl
