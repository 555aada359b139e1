-- ===== src/Ca/Sign/Allowed.antt =====
-- What a certificate of `Sign` in xpki/authority/issuer.go may hold.
use mathlib.Core.Path.{subst}
use dolly.Prelude.{
  ℕ, ◌≡◌, refl, ap, sym, Bool, true, false, Option, none, some, List, [], ◌∷◌, Str, codes, lookup,
  if◌then◌else◌, ok, err, All, arith,
}
use dolly.Ca.Std.{Std}
use dolly.Ca.Csr.{Template, add_san, add_sans, set_san}
use dolly.Ca.Profile.{AllowedFields, CertProfile, usages}
use dolly.Ca.Sign.Fill.{Issuer, with_profile, start_time, end_time}
use dolly.Ca.Sign.{SignRequest, or_default, masked, safe_template, to_be_signed, requested, sign}
use dolly.Ca.Sign.Inverted.{sign-Signed}
use dolly.Ca.Sign.Fields.{IsGranted, add_extensions-core, fill_template-core, parse_pem-bare}
use dolly.Ca.Sign.Names.{
  AreNamesAllowed, check_template-AreNamesAllowed, nothing_allowed, no_uris_allowed,
  with_profile-AreNamesAllowed,
}

abbrev pub Conforms : Std → CertProfile → Template → Type 0
Conforms std p t =
    (t.is_ca ≡ p.is_ca)
    × (t.key_usage ≡ (usages p).ku)
    × (t.ext_key_usage ≡ (usages p).eku)
    × AreNamesAllowed p t
    × All (IsGranted std p) t.extra_extensions

-- Nothing but a subject, a key and names.
abbrev pub IsPlain : Template → Type 0
IsPlain t = (t.extra_extensions ≡ []) × (t.not_before ≡ 0) × (t.not_after ≡ 0)

module _ (std : Std) where
  add_san-IsPlain : (san : Str) (t : Template) → IsPlain t → IsPlain (add_san std san t)
  unfolding add_san
  add_san-IsPlain san t h = ground arith

  add_sans-IsPlain : (sans : List Str) (t : Template) → IsPlain t → IsPlain (add_sans std sans t)
  unfolding add_sans
  add_sans-IsPlain [] t h = h
  add_sans-IsPlain (san ∷ sans) t h =
      add_sans-IsPlain sans (add_san std san t) (add_san-IsPlain san t h)

  set_san-IsPlain :
      (sans : Option (List Str)) (t : Template) → IsPlain t → IsPlain (set_san std sans t)
  unfolding set_san
  set_san-IsPlain none t h = h
  set_san-IsPlain (some sans) t h =
      add_sans-IsPlain sans
        (record t { ip_addresses = []; email_addresses = []; dns_names = []; uris = [] }) h

  safe_template-IsPlain :
      (f : Option AllowedFields) (t : Template) → IsPlain t → IsPlain (safe_template f t)
  unfolding safe_template
  safe_template-IsPlain none t h = h
  safe_template-IsPlain (some f) t h = (refl, refl, refl)

  pub requested-IsPlain :
      (p : CertProfile) (req : SignRequest) (csr : Template)
      → IsPlain csr
      → IsPlain (requested std p req csr)
  unfolding requested
  requested-IsPlain p req csr h =
      set_san-IsPlain req.san (safe_template p.allowed_csr_fields csr)
        (safe_template-IsPlain p.allowed_csr_fields csr h)

  to_be_signed-Conforms :
      (ca : Issuer) (p : CertProfile) (f t : Template)
      → to_be_signed std ca f ≡ ok t
      → Conforms std p f
      → Conforms std p t
  unfolding to_be_signed
  to_be_signed-Conforms ca p f t h k = go ca.has_bundle f.is_ca h
    where
      go :
          (b c : Bool)
          → (if b
              then ok f
              else (if c
                  then ok (record f { dns_names = []; email_addresses = []; uris = [] })
                  else err (codes "CA template is not specified")))
            ≡ ok t
          → Conforms std p t
      go true c e = let same : f ≡ t = cc e in subst (Conforms std p) same k
      go false false e = absurd (cc e)
      go false true e =
          let same : record f { dns_names = []; email_addresses = []; uris = [] } ≡ t = cc e in
          subst (Conforms std p) same (
            k.0,
            k.1,
            k.2,
            (
              k.3.0,
              nothing_allowed p.allowed_dns_regex,
              nothing_allowed p.allowed_email_regex,
              no_uris_allowed p.allowed_uri_regex,
            ),
            k.4,
          )

  -- If `Sign` makes a template for a certificate, its profile is the one of the request's name, or
  -- `default`, and the template conforms to it: it is an authority's exactly if the profile says so, it
  -- has the profile's key usages, its common name (if it has one), DNS names, email addresses and URIs
  -- match the profile's compiled rules for them, whether the request or the certificate request named
  -- them, and each of its extra extensions has an identifier that the profile allows, or is the
  -- encoding of the profile's own policies, if it has any, or the OCSP one, if the profile asks for it.
  pub sign-Conforms :
      (ca : Issuer) (now : ℕ) (random : Option Str) (req : SignRequest) (t : Template)
      → sign std ca now random req ≡ ok t
      → (p : CertProfile) × (lookup (or_default req.profile) ca.profiles ≡ some p)
        × Conforms std p t
  unfolding with_profile
  sign-Conforms ca now random req t h =
      let s = sign-Signed std ca now random req t h in
      let p = s.profile in
      let asked = record (requested std p req s.csr) { serial_number = masked s.serial } in
      let plain = requested-IsPlain p req s.csr (parse_pem-bare std req.request s.csr s.parsed) in
      let (same, granted) =
        add_extensions-core std p req.extensions asked s.extended s.extends
          (subst (All (IsGranted std p)) (sym plain.0) tt) in
      let start = start_time p now req.not_before in
      let end = end_time p start req.not_after in
      let (ski, filled, granted') =
        fill_template-core std p ca now req.not_before req.not_after s.extended s.filled s.fills
          granted in
      let names : AreNamesAllowed p s.extended =
        subst (AreNamesAllowed p) (sym same)
          (check_template-AreNamesAllowed p (requested std p req s.csr) s.checked) in
      let kept : AreNamesAllowed p s.filled =
        subst (AreNamesAllowed p) (sym filled)
          (with_profile-AreNamesAllowed ca p ski start end s.extended names) in
      (
        p,
        s.chosen,
        to_be_signed-Conforms ca p s.filled t s.finishes (
          ap (λ u. u.is_ca) filled,
          ap (λ u. u.key_usage) filled,
          ap (λ u. u.ext_key_usage) filled,
          kept,
          granted',
        ),
      )
