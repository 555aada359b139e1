-- ===== src/Ca/Examples.antt =====
-- The theorems about xpki/authority at a configuration, an authority and a request.
mod Setup
use dolly.Prelude.{
  ℕ, ◌+◌, ◌-◌, ◌*◌, ◌^◌, arith, ◌≡◌, refl, true, false, not, ◌&&◌, ◌⊎◌, inr, Option, none, some, [],
  ◌∷◌, codes, str_eq, All, Assoc, lookup, insert, length, ◌==◌, if◌then◌else◌, inl, Result, ok, err,
  panic,
}
use dolly.GoText.{split, contains, replace, replace_loop, trim_space}
use dolly.Slices.{contains_string}
use dolly.Ca.Std.{CertificateRequest, Std}
use dolly.Ca.Csr.{
  X509Subject, empty_name, populate_name, Template, empty_template, set_san, read_extensions, parse,
  parse_pem,
}
use dolly.Ca.Profile.{
  CertProfile, default_cert_profile, usages, usages_loop, check_policies, compiled,
  validate_profile, hour, minute,
}
use dolly.Ca.Config.{
  AiaConfig, IssuerConfig, CaConfig, Config, merged_aia, issuer_profiles, completed_issuer,
  completed_issuers, completed, with_default, labels_of, validate_profiles, validate_config,
  load_config,
}
use dolly.Ca.Config.Compiled.{IsFresh, IsValidated}
use dolly.Ca.Config.Valid.{IsPlaced, load_config-IsValidated, validate-misplaced}
use dolly.Ca.Authority.{
  Authority, filled_aia, register, add_issuers, new_authority, get_issuer_by_label,
}
use dolly.Ca.Sign.Fill.{
  Issuer, start_time, end_time, with_times, with_profile, fill_template, round_minute,
}
use dolly.Ca.Sign.{
  Bundle, SignRequest, made_issuer, create_issuer, or_default, safe_template, check_common_name,
  check_names, check_list, check_uris, check_uri_list, check_template, add_extensions, to_be_signed,
  requested, finish, sign_request, sign,
}
use dolly.Ca.Sign.Allowed.{Conforms, sign-Conforms}
use dolly.Ca.Sign.Copied.{lets_through, sign-times, sign-copied}
use dolly.Ca.Issued.{selected, new_issuer, issued_by_rules}
use dolly.GoText.Numbers.{atoi}
use dolly.Ca.Csr.Arcs.{
  read_arcs, parse_object_identifier, marshal_json, unmarshal_json, unmarshal_json-marshal_json,
}
use dolly.Ca.Examples.Setup.{
  csr, std, server, aia, ca1, authority, decoded, loaded, read_bundle, made, issuer, request, now,
  certificate, loads, makes, found, signs, has_bundle, decoded-IsDecoded,
}

-- What the certificate holds of the request, of the profile and of the issuer.
holds :
    (certificate.dns_names ≡ codes "www.dolly.org" ∷ [])
    × (certificate.ip_addresses ≡ [])
    × (certificate.serial_number ≡ 72 ∷ 1 ∷ [])
    × (certificate.key_usage ≡ 5)
    × (certificate.ext_key_usage ≡ 1 ∷ 2 ∷ [])
    × (certificate.issuing_certificate_url ≡ codes "http://ca/a1" ∷ [])
unfolding get_issuer_by_label load_config completed completed_issuers completed_issuer merged_aia
    issuer_profiles validate_config validate_profiles validate_profile usages usages_loop lookup
    insert str_eq check_policies compiled contains_string new_authority add_issuers filled_aia
    register new_issuer selected create_issuer made_issuer replace replace_loop trim_space sign
    parse_pem parse read_extensions sign_request requested safe_template set_san populate_name
    check_template check_common_name check_list check_names check_uri_list check_uris finish
    add_extensions fill_template with_profile with_times start_time end_time to_be_signed contains
holds = (refl, refl, refl, refl, refl, refl)

sign-Conforms_example :
    (p : CertProfile) × (lookup (or_default request.profile) issuer.profiles ≡ some p)
    × Conforms std p certificate
sign-Conforms_example = sign-Conforms std issuer now (some (200 ∷ 1 ∷ [])) request certificate signs

sign-copied_example :
    (p : CertProfile) × (c : Template) × (lookup (or_default request.profile) issuer.profiles
      ≡ some p)
    × (parse_pem std request.request ≡ ok c)
    × (certificate.public_key ≡ c.public_key)
    × (certificate.subject
        ≡ (if lets_through (λ a. a.subject) p.allowed_csr_fields then c.subject else empty_name))
    × (certificate.dns_names ≡ (
        if lets_through (λ a. a.dns) p.allowed_csr_fields && not p.is_ca then c.dns_names else []))
    × (certificate.ip_addresses ≡ (
        if lets_through (λ a. a.ip) p.allowed_csr_fields && not p.is_ca
        then c.ip_addresses
        else []))
    × (certificate.email_addresses ≡ (
        if lets_through (λ a. a.email) p.allowed_csr_fields && not p.is_ca
        then c.email_addresses
        else []))
    × (certificate.uris
        ≡ (if lets_through (λ a. a.uri) p.allowed_csr_fields && not p.is_ca then c.uris else []))
sign-copied_example =
    sign-copied std issuer now (some (200 ∷ 1 ∷ [])) request certificate signs has_bundle refl refl

-- The profile that is looked up in the loaded configuration.
abbrev or_server : Option CertProfile → CertProfile
or_server none = server
or_server (some p) = p

abbrev loaded_server : CertProfile
loaded_server = or_server (lookup (codes "server") loaded.profiles)

loaded_found : lookup (codes "server") loaded.profiles ≡ some loaded_server
unfolding load_config completed completed_issuers completed_issuer merged_aia issuer_profiles
    validate_config validate_profiles validate_profile usages usages_loop lookup insert str_eq
    check_policies compiled contains_string
loaded_found = refl

load_config-IsValidated_example :
    (p : CertProfile) × (lookup
        (codes "server")
        (with_default (lookup (codes "default") decoded.profiles) decoded.profiles)
      ≡ some p)
    × IsValidated std p loaded_server
load_config-IsValidated_example =
    load_config-IsValidated std decoded loaded decoded-IsDecoded loads (codes "server")
      loaded_server loaded_found

abbrev misplaced : CertProfile
misplaced = record default_cert_profile { issuer_label = codes "ca2" }

-- A profile without an expiry, behind one of an unknown issuer
abbrev later : Assoc CertProfile
later = (codes "broken", record default_cert_profile { expiry = 0 }) ∷ []

misplaced_valid : validate_profile std misplaced ≡ ok misplaced
unfolding validate_profile usages usages_loop lookup str_eq check_policies compiled
misplaced_valid = refl

misplaced_missing : contains_string (labels_of (some authority)) misplaced.issuer_label ≡ false
unfolding contains_string str_eq
misplaced_missing = refl

validate-misplaced_example :
    validate_config std (record {
      authority = some authority;
      profiles = (codes "server", default_cert_profile) ∷ (codes "lost", misplaced) ∷ later;
    })
    ≡ ok (record {
      authority = some authority;
      profiles = (codes "server", default_cert_profile) ∷ (codes "lost", misplaced) ∷ later;
    })
validate-misplaced_example =
    validate-misplaced std (some authority) (codes "lost") misplaced misplaced
      ((codes "server", default_cert_profile) ∷ []) ((codes "server", default_cert_profile) ∷ [])
      later
      (unfold validate_config validate_profiles validate_profile usages usages_loop lookup str_eq
          check_policies compiled in
        refl)
      (inl refl, tt) misplaced_valid (λ e. absurd (cc e)) misplaced_missing

issued_by_rules_example :
    (p : CertProfile) × (q : CertProfile) × (lookup
        (or_default request.profile)
        (with_default (lookup (codes "default") decoded.profiles) decoded.profiles)
      ≡ some p)
    × ((p.issuer_label ≡ codes "ca1")
        ⊎ ((p.issuer_label ≡ []) × ((length authority.issuers == 1) ≡ true)))
    × IsValidated std p q
    × Conforms std q certificate
unfolding lookup
issued_by_rules_example =
    issued_by_rules std read_bundle decoded loaded authority aia made (codes "ca1") issuer now
      (some (200 ∷ 1 ∷ [])) request certificate refl refl (refl, tt) decoded-IsDecoded loads makes
      found signs

-- The arcs of an identifier may have signs: the text need only have a digit somewhere.
signs_taken : parse_object_identifier (codes "-1.+2") ≡ ok ((2 ^ 64 - 1) ∷ 2 ∷ [])
unfolding parse_object_identifier read_arcs split atoi
signs_taken = refl

unmarshal_json-marshal_json_example :
    unmarshal_json (marshal_json (2 ∷ 5 ∷ 29 ∷ 19 ∷ [])) ≡ ok (2 ∷ 5 ∷ 29 ∷ 19 ∷ [])
unmarshal_json-marshal_json_example =
    unmarshal_json-marshal_json 2 (5 ∷ 29 ∷ 19 ∷ [])
      (omega arith, (omega arith, (omega arith, (omega arith, tt))))
