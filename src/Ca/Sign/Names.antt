-- ===== src/Ca/Sign/Names.antt =====
-- The names of a certificate of `Sign` in xpki/authority/issuer.go, and the rules of its profile.
use dolly.Prelude.{
  ℕ, ◌≡◌, refl, ap, sym, ◌∙◌, Bool, true, false, ◌⊎◌, inl, inr, Option, none, some, List, [], ◌∷◌,
  ◌++◌, Str, codes, str_eq, str_eq_iff, if◌then◌else◌, ok, guard, bind-ok, guard-ok, All,
  Bool-cases,
}
use dolly.Ca.Std.{Regexp}
use dolly.Ca.Csr.{Template}
use dolly.Ca.Profile.{CertProfile}
use dolly.Ca.Sign.Fill.{Issuer, with_profile, with_times}
use dolly.Ca.Sign.{
  check_common_name, check_names, check_list, check_uris, check_uri_list, check_template,
}

-- The rules of a profile; no rule allows everything, and a rule for names allows the empty one.
abbrev pub IsNameAllowed : Option Regexp → Str → Type 0
IsNameAllowed none name = Unit
IsNameAllowed (some regex) name = (name ≡ []) ⊎ (regex name ≡ true)

abbrev pub AreAllowed : Option Regexp → List Str → Type 0
AreAllowed none names = Unit
AreAllowed (some regex) names = All (λ name. regex name ≡ true) names

abbrev pub IsUriAllowed : Regexp → Option Str → Type 0
IsUriAllowed regex u = (uri : Str) × (u ≡ some uri) × (regex uri ≡ true)

abbrev pub AreUrisAllowed : Option Regexp → List (Option Str) → Type 0
AreUrisAllowed none uris = Unit
AreUrisAllowed (some regex) uris = All (IsUriAllowed regex) uris

abbrev pub AreNamesAllowed : CertProfile → Template → Type 0
AreNamesAllowed p t =
    IsNameAllowed p.allowed_names_regex t.subject.common_name
    × AreAllowed p.allowed_dns_regex t.dns_names
    × AreAllowed p.allowed_email_regex t.email_addresses
    × AreUrisAllowed p.allowed_uri_regex t.uris

check_common_name-IsNameAllowed :
    (regex : Option Regexp) (name : Str) (u : Unit {0})
    → check_common_name regex name ≡ ok u
    → IsNameAllowed regex name
unfolding check_common_name
check_common_name-IsNameAllowed none name u h = tt
check_common_name-IsNameAllowed (some regex) name u h = elim (Bool-cases (str_eq name [])) [
  | inl e ↦ inl ((str_eq_iff name []).0 e)
  | inr e ↦ inr (
      guard-ok (regex name) (codes "CommonName does not match allowed list: " ++ name) u (
        sym (
          ap
            (λ b.
              if b
              then ok tt
              else guard (regex name) (codes "CommonName does not match allowed list: " ++ name))
            e)
        ∙ h))
]

names_allowed :
    (text : Str) (regex : Regexp) (names : List Str) (u : Unit {0})
    → check_names text regex names ≡ ok u
    → All (λ name. regex name ≡ true) names
unfolding check_names
names_allowed text regex [] u h = tt
names_allowed text regex (name ∷ names) u h =
    let (v, a, h1) = bind-ok (guard (regex name) (text ++ name)) _ u h in
    (guard-ok (regex name) (text ++ name) v a, names_allowed text regex names u h1)

list_allowed :
    (text : Str) (regex : Option Regexp) (names : List Str) (u : Unit {0})
    → check_list text regex names ≡ ok u
    → AreAllowed regex names
unfolding check_list
list_allowed text none names u h = tt
list_allowed text (some regex) names u h = names_allowed text regex names u h

uris_allowed :
    (regex : Regexp) (uris : List (Option Str)) (u : Unit {0})
    → check_uris regex uris ≡ ok u
    → All (IsUriAllowed regex) uris
unfolding check_uris
uris_allowed regex [] u h = tt
uris_allowed regex (none ∷ uris) u h = absurd (cc h)
uris_allowed regex (some uri ∷ uris) u h =
    let (v, a, h1) =
      bind-ok (guard (regex uri) (codes "URI does not match allowed list: " ++ uri)) _ u h in
    (
      (uri, refl, guard-ok (regex uri) (codes "URI does not match allowed list: " ++ uri) v a),
      uris_allowed regex uris u h1,
    )

uri_list_allowed :
    (regex : Option Regexp) (uris : List (Option Str)) (u : Unit {0})
    → check_uri_list regex uris ≡ ok u
    → AreUrisAllowed regex uris
unfolding check_uri_list
uri_list_allowed none uris u h = tt
uri_list_allowed (some regex) uris u h = uris_allowed regex uris u h

pub check_template-AreNamesAllowed :
    (p : CertProfile) (t : Template) → check_template p t ≡ ok tt → AreNamesAllowed p t
unfolding check_template
check_template-AreNamesAllowed p t h =
    let dns_text = codes "DNS Name does not match allowed list: " in
    let email_text = codes "Email does not match allowed list: " in
    let (u, a, h1) =
      bind-ok (check_common_name p.allowed_names_regex t.subject.common_name) _ tt h in
    let (v, b, h2) = bind-ok (check_list dns_text p.allowed_dns_regex t.dns_names) _ tt h1 in
    let (w, c, h3) =
      bind-ok (check_list email_text p.allowed_email_regex t.email_addresses) _ tt h2 in
    (
      check_common_name-IsNameAllowed p.allowed_names_regex t.subject.common_name u a,
      list_allowed dns_text p.allowed_dns_regex t.dns_names v b,
      list_allowed email_text p.allowed_email_regex t.email_addresses w c,
      uri_list_allowed p.allowed_uri_regex t.uris tt h3,
    )

pub nothing_allowed : (regex : Option Regexp) → AreAllowed regex []
nothing_allowed none = tt
nothing_allowed (some regex) = tt

pub no_uris_allowed : (regex : Option Regexp) → AreUrisAllowed regex []
no_uris_allowed none = tt
no_uris_allowed (some regex) = tt

-- The names are fewer after `fillTemplate`, if the profile is for an authority.
pub with_profile-AreNamesAllowed :
    (ca : Issuer) (p : CertProfile) (ski : Str) (start end : ℕ) (t : Template)
    → AreNamesAllowed p t
    → AreNamesAllowed p (with_profile ca p ski (with_times start end t))
unfolding with_profile with_times
with_profile-AreNamesAllowed ca p ski start end t (name, dns, email, uris) = (
  name,
  strings p.is_ca p.allowed_dns_regex t.dns_names dns,
  strings p.is_ca p.allowed_email_regex t.email_addresses email,
  urls p.is_ca p.allowed_uri_regex t.uris uris,
)
  where
    strings :
        (b : Bool) (regex : Option Regexp) (xs : List Str)
        → AreAllowed regex xs
        → AreAllowed regex (if b then [] else xs)
    strings true regex xs h = nothing_allowed regex
    strings false regex xs h = h

    urls :
        (b : Bool) (regex : Option Regexp) (xs : List (Option Str))
        → AreUrisAllowed regex xs
        → AreUrisAllowed regex (if b then [] else xs)
    urls true regex xs h = no_uris_allowed regex
    urls false regex xs h = h
