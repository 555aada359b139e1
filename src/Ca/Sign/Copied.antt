-- ===== src/Ca/Sign/Copied.antt =====
-- What a certificate of `Sign` in xpki/authority/issuer.go takes over from the certificate request, and
-- its times.
use mathlib.Core.Path.{subst}
use dolly.Prelude.{
  ℕ, ◌+◌, ◌-◌, ◌*◌, ◌≡◌, refl, ap, sym, ◌∙◌, Bool, true, false, not, ◌&&◌, Option, none, some, List,
  [], Str, lookup, ◌==◌, if◌then◌else◌, ok, All,
}
use dolly.Ca.Std.{Std}
use dolly.Ca.Csr.{Template, empty_name, set_san, populate_name, parse_pem}
use dolly.Ca.Profile.{AllowedFields, CertProfile, minute}
use dolly.Ca.Sign.Fill.{Issuer, with_profile, with_times, start_time, end_time, round_minute}
use dolly.Ca.Sign.{
  SignRequest, or_default, masked, if_allowed, safe_template, to_be_signed, requested, sign,
}
use dolly.Ca.Sign.Inverted.{Signed, sign-Signed}
use dolly.Ca.Sign.Fields.{core, IsGranted, add_extensions-core, fill_template-core, parse_pem-bare}
use dolly.Ca.Sign.Allowed.{requested-IsPlain}

-- Whether a profile lets a field of the certificate request through.
abbrev pub lets_through : (AllowedFields → Bool) → Option AllowedFields → Bool
lets_through field none = true
lets_through field (some f) = field f

-- A list of names of a certificate request, after the profile's rules and the dropping of an
-- authority's names
let_through :
    {A : Type 0} (allowed is_ca : Bool) (xs : List A)
    → (if is_ca then [] else if_allowed allowed xs) ≡ (if allowed && not is_ca then xs else [])
let_through true true xs = refl
let_through true false xs = refl
let_through false true xs = refl
let_through false false xs = refl

-- What `safe_template` keeps, field by field
safe_template-fields :
    (f : Option AllowedFields) (csr : Template)
    → ((safe_template f csr).public_key ≡ csr.public_key)
      × ((safe_template f csr).subject
          ≡ (if lets_through (λ a. a.subject) f then csr.subject else empty_name))
      × ((safe_template f csr).dns_names ≡ if_allowed (lets_through (λ a. a.dns) f) csr.dns_names)
      × ((safe_template f csr).ip_addresses
          ≡ if_allowed (lets_through (λ a. a.ip) f) csr.ip_addresses)
      × ((safe_template f csr).email_addresses
          ≡ if_allowed (lets_through (λ a. a.email) f) csr.email_addresses)
      × ((safe_template f csr).uris ≡ if_allowed (lets_through (λ a. a.uri) f) csr.uris)
unfolding safe_template
safe_template-fields none csr = (refl, refl, refl, refl, refl, refl)
safe_template-fields (some f) csr = (refl, refl, refl, refl, refl, refl)

module _ (std : Std) (ca : Issuer) (now : ℕ) (random : Option Str) (req : SignRequest) where
  -- The certificate, but for its extensions, from the template that was checked.
  signed_core :
      (t : Template) (s : Signed std ca now random req t)
      → ca.has_bundle ≡ true
      → (ski : Str) × (core t
          ≡ core (
              with_profile ca s.profile ski (
                with_times
                  (start_time s.profile now req.not_before)
                  (end_time s.profile (start_time s.profile now req.not_before) req.not_after)
                  (record (requested std s.profile req s.csr) {
                    serial_number = masked s.serial;
                  }))))
  unfolding to_be_signed with_profile with_times
  signed_core t s bundle =
      let p = s.profile in
      let asked = record (requested std p req s.csr) { serial_number = masked s.serial } in
      let plain =
        requested-IsPlain std p req s.csr (parse_pem-bare std req.request s.csr s.parsed) in
      let (same, granted) =
        add_extensions-core std p req.extensions asked s.extended s.extends
          (subst (All (IsGranted std p)) (sym plain.0) tt) in
      let start = start_time p now req.not_before in
      let end = end_time p start req.not_after in
      let (ski, filled, granted') =
        fill_template-core std p ca now req.not_before req.not_after s.extended s.filled s.fills
          granted in
      let final : ok s.filled ≡ ok t = sym (rw (bundle, to_be_signed) refl) ∙ s.finishes in
      let last : s.filled ≡ t = cc final in
      (
        ski,
        ap core (sym last)
            ∙ filled
            ∙ ap (λ u. core (with_profile ca p ski (with_times start end u))) same,
      )

  -- If an issuer with a certificate of its own signs, the certificate is valid from the time that the
  -- request names, else from now, rounded to a minute, less the profile's backdate, which is five
  -- minutes if the profile has none; and until the time that the request names, else for the
  -- profile's expiry. The times of the certificate request have no effect. A time is missing if it is
  -- zero.
  pub sign-times :
      (t : Template)
      → sign std ca now random req ≡ ok t
      → ca.has_bundle ≡ true
      → (p : CertProfile) × (lookup (or_default req.profile) ca.profiles ≡ some p)
        × (t.not_before ≡ (
            if req.not_before == 0
            then round_minute now - (if p.backdate == 0 then 5 * minute else p.backdate)
            else req.not_before))
        × (t.not_after ≡ (if req.not_after == 0 then t.not_before + p.expiry else req.not_after))
  unfolding with_profile with_times start_time end_time
  sign-times t h bundle =
      let s = sign-Signed std ca now random req t h in
      let p = s.profile in
      let plain =
        requested-IsPlain std p req s.csr (parse_pem-bare std req.request s.csr s.parsed) in
      let (ski, same) = signed_core t s bundle in
      let from : t.not_before ≡ start_time p now req.not_before =
        ap (λ u. u.not_before) same ∙ rw (plain.1) refl in
      let until : t.not_after ≡ end_time p (start_time p now req.not_before) req.not_after =
        ap (λ u. u.not_after) same ∙ rw (plain.2) refl in
      (p, s.chosen, from, until ∙ ap (λ b. end_time p b req.not_after) (sym from))

  requested-safe_template :
      (p : CertProfile) (csr : Template)
      → req.san ≡ none
      → req.subject ≡ none
      → requested std p req csr ≡ safe_template p.allowed_csr_fields csr
  unfolding requested set_san populate_name
  requested-safe_template p csr no_san no_subject = rw (no_san, no_subject) refl

  names-let_through :
      {A : Type 0} (p : CertProfile) (csr : Template) (f : Template → List A) (allowed : Bool)
      (xs : List A)
      → requested std p req csr ≡ safe_template p.allowed_csr_fields csr
      → f (safe_template p.allowed_csr_fields csr) ≡ if_allowed allowed xs
      → (if p.is_ca then [] else f (requested std p req csr))
        ≡ (if allowed && not p.is_ca then xs else [])
  names-let_through p csr f allowed xs asked e =
      ap (λ u. if p.is_ca then [] else f u) asked
      ∙ ap (λ ys. if p.is_ca then [] else ys) e
      ∙ let_through allowed p.is_ca xs

  -- If an issuer with a certificate of its own signs a request that names no subject and no
  -- alternative names, the certificate has the certificate request's key, and its subject and its
  -- names of each kind are those of the certificate request if the profile lets that field through,
  -- and none else. An authority's profile drops the names of all kinds.
  pub sign-copied :
      (t : Template)
      → sign std ca now random req ≡ ok t
      → ca.has_bundle ≡ true
      → req.san ≡ none
      → req.subject ≡ none
      → (p : CertProfile) × (csr : Template) × (lookup (or_default req.profile) ca.profiles
          ≡ some p)
        × (parse_pem std req.request ≡ ok csr)
        × (t.public_key ≡ csr.public_key)
        × (t.subject ≡ (
            if lets_through (λ a. a.subject) p.allowed_csr_fields then csr.subject else empty_name))
        × (t.dns_names ≡ (
            if lets_through (λ a. a.dns) p.allowed_csr_fields && not p.is_ca
            then csr.dns_names
            else []))
        × (t.ip_addresses ≡ (
            if lets_through (λ a. a.ip) p.allowed_csr_fields && not p.is_ca
            then csr.ip_addresses
            else []))
        × (t.email_addresses ≡ (
            if lets_through (λ a. a.email) p.allowed_csr_fields && not p.is_ca
            then csr.email_addresses
            else []))
        × (t.uris ≡ (
            if lets_through (λ a. a.uri) p.allowed_csr_fields && not p.is_ca then csr.uris else []))
  unfolding with_profile with_times
  sign-copied t h bundle no_san no_subject =
      let s = sign-Signed std ca now random req t h in
      let p = s.profile in
      let fields = safe_template-fields p.allowed_csr_fields s.csr in
      let (ski, same) = signed_core t s bundle in
      let asked = requested-safe_template p s.csr no_san no_subject in
      (
        p,
        s.csr,
        s.chosen,
        s.parsed,
        ap (λ u. u.public_key) same ∙ ap (λ u. u.public_key) asked ∙ fields.0,
        ap (λ u. u.subject) same ∙ ap (λ u. u.subject) asked ∙ fields.1,
        ap (λ u. u.dns_names) same
            ∙ names-let_through p s.csr (λ u. u.dns_names)
                (lets_through (λ a. a.dns) p.allowed_csr_fields) s.csr.dns_names asked fields.2,
        ap (λ u. u.ip_addresses) same
            ∙ names-let_through p s.csr (λ u. u.ip_addresses)
                (lets_through (λ a. a.ip) p.allowed_csr_fields) s.csr.ip_addresses asked fields.3,
        ap (λ u. u.email_addresses) same
            ∙ names-let_through p s.csr (λ u. u.email_addresses)
                (lets_through (λ a. a.email) p.allowed_csr_fields) s.csr.email_addresses asked
                fields.4,
        ap (λ u. u.uris) same
            ∙ names-let_through p s.csr (λ u. u.uris)
                (lets_through (λ a. a.uri) p.allowed_csr_fields) s.csr.uris asked fields.5,
      )
