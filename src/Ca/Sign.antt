-- ===== src/Ca/Sign.antt =====
-- xpki/authority/issuer.go: an issuer, and `Sign` up to the template that `x509.CreateCertificate`
-- gets. The clock and the random bytes are arguments. The key hashes of an issuer are not modelled.
pub mod Fill
pub mod Inverted
pub mod Fields
pub mod Names
pub mod Allowed
pub mod Copied
pub mod Policies
use dolly.Prelude.{
  ℕ, ◌+◌, ◌-◌, ◌*◌, ◌/◌, ◌%◌, Bool, true, false, not, ◌&&◌, ◌||◌, Option, none, some, List, [], ◌∷◌,
  ◌++◌, map, Str, codes, str_eq, Assoc, lookup, ltb, ◌==◌, if◌then◌else◌, Result, ok, err, panic,
  ◌>>=◌, ◌>>◌, guard, or_err,
}
use dolly.GoText.{is_empty, replace, trim_space}
use dolly.Ca.Std.{Oid, Regexp, Extension, Std}
use dolly.Ca.Csr.{X509Subject, populate_name, Template, empty_template, set_san, parse_pem}
use dolly.Ca.Profile.{AllowedFields, CertProfile, is_allowed_extention}
use dolly.Ca.Config.{AiaConfig, IssuerConfig}
use dolly.Ca.Sign.Fill.{Issuer, fill_template}

-- What `certutil.VerifyBundleFromPEM` returns beside an error; `has_key_info` says whether the key
-- of its certificate can be read.
pub record Bundle : Type 0 where
  pub subject_id : Str
  pub cert_pem : Str
  pub ca_certs_pem : Str
  pub is_untrusted : Bool
  pub has_key_info : Bool

abbrev pub issuer_id : Str
issuer_id = codes "${ISSUER_ID}"

abbrev url_for : Str → (AiaConfig → Str) → Option AiaConfig → Str
url_for id f none = []
url_for id f (some aia) = replace (f aia) issuer_id id

-- return &Issuer{ … }
unfoldable pub made_issuer : IssuerConfig → Assoc CertProfile → Bundle → Issuer
unfolding replace trim_space
made_issuer cfg profiles bundle =
    let cert_pem = trim_space bundle.cert_pem in
    record {
      label = cfg.label;
      profiles = profiles;
      has_bundle = true;
      crl_url = url_for bundle.subject_id (λ a. a.crl_url) cfg.aia;
      aia_url = url_for bundle.subject_id (λ a. a.aia_url) cfg.aia;
      ocsp_url = url_for bundle.subject_id (λ a. a.ocsp_url) cfg.aia;
      cabundle_pem =
          if str_eq bundle.ca_certs_pem []
          then cert_pem
          else cert_pem ++ 10 ∷ trim_space bundle.ca_certs_pem;
    }

-- `CreateIssuer`, from the verified bundle on; `profiles` are those that the configuration names. The
-- issuer of an untrusted bundle is nil: `errors.WithMessagef` of a nil error is nil.
unfoldable pub create_issuer : IssuerConfig → Assoc CertProfile → Bundle → Result (Option Issuer)
unfolding made_issuer
create_issuer cfg profiles bundle =
    if bundle.is_untrusted
    then ok none
    else if not bundle.has_key_info
    then err (codes "failed to decode SubjectPublicKeyInfo")
    else ok (some (made_issuer cfg profiles bundle))

-- `csr.X509Extension`; the value is in hexadecimal.
pub record X509Extension : Type 0 where
  pub id : Oid
  pub critical : Bool
  pub value : Str

-- `csr.SignRequest`
pub record SignRequest : Type 0 where
  pub san : Option (List Str)
  pub request : Str
  pub subject : Option X509Subject
  pub profile : Str
  pub extensions : List X509Extension
  pub not_before : ℕ
  pub not_after : ℕ

abbrev pub if_allowed {ℓ} : {A : Type ℓ} → Bool → List A → List A
if_allowed true xs = xs
if_allowed false xs = []

-- The fields of the request's template that the profile lets through
unfoldable pub safe_template : Option AllowedFields → Template → Template
safe_template none csr = csr
safe_template (some f) csr = record empty_template {
  subject = if f.subject then csr.subject else empty_template.subject;
  dns_names = if_allowed f.dns csr.dns_names;
  ip_addresses = if_allowed f.ip csr.ip_addresses;
  uris = if_allowed f.uri csr.uris;
  email_addresses = if_allowed f.email csr.email_addresses;
  public_key = csr.public_key;
}

-- The check of the common name
unfoldable pub check_common_name : Option Regexp → Str → Result (Unit {0})
check_common_name none name = ok tt
check_common_name (some regex) name =
    if str_eq name []
    then ok tt
    else guard (regex name) (codes "CommonName does not match allowed list: " ++ name)

-- for _, name := range names { … }
unfoldable pub check_names : Str → Regexp → List Str → Result (Unit {0})
check_names text regex [] = ok tt
check_names text regex (name ∷ names) = do
  guard (regex name) (text ++ name)
  check_names text regex names

unfoldable pub check_list : Str → Option Regexp → List Str → Result (Unit {0})
unfolding check_names
check_list text none names = ok tt
check_list text (some regex) names = check_names text regex names

-- The text of a nil URL panics.
abbrev pub uri_text : Option Str → Result Str
uri_text none = panic
uri_text (some uri) = ok uri

unfoldable pub check_uris : Regexp → List (Option Str) → Result (Unit {0})
check_uris regex [] = ok tt
check_uris regex (u ∷ uris) = do
  uri ← uri_text u
  guard (regex uri) (codes "URI does not match allowed list: " ++ uri)
  check_uris regex uris

unfoldable pub check_uri_list : Option Regexp → List (Option Str) → Result (Unit {0})
unfolding check_uris
check_uri_list none uris = ok tt
check_uri_list (some regex) uris = check_uris regex uris

-- The checks of `Sign` against the profile's rules
unfoldable pub check_template : CertProfile → Template → Result (Unit {0})
unfolding check_common_name check_list check_uri_list
check_template p t = do
  check_common_name p.allowed_names_regex t.subject.common_name
  check_list (codes "DNS Name does not match allowed list: ") p.allowed_dns_regex t.dns_names
  check_list (codes "Email does not match allowed list: ") p.allowed_email_regex t.email_addresses
  check_uri_list p.allowed_uri_regex t.uris

-- serialNumber[0] &= 0x7F
abbrev pub masked : Str → Str
masked [] = []
masked (b ∷ bytes) = (b % 128) ∷ bytes

-- if s == "" { s = "default" }
abbrev pub or_default : Str → Str
or_default name = if str_eq name [] then codes "default" else name

module _ (std : Std) where
  -- for _, ext := range req.Extensions { … }
  unfoldable pub add_extensions : List Oid → List X509Extension → Template → Result Template
  unfolding is_allowed_extention
  add_extensions allowed [] t = ok t
  add_extensions allowed (ext ∷ extensions) t = do
    guard (is_allowed_extention allowed ext.id) (codes "extension not allowed")
    raw_value ← or_err (codes "failed to decode extension") (std.hex_decode ext.value)
    add_extensions allowed extensions (record t {
      extra_extensions =
          t.extra_extensions
          ++ record { id = ext.id; critical = ext.critical; value = raw_value } ∷ [];
    })

  -- The part of `sign` before `CreateCertificate`
  unfoldable pub to_be_signed : Issuer → Template → Result Template
  to_be_signed ca t =
      if ca.has_bundle
      then ok t
      else if t.is_ca
      then ok (record t { dns_names = []; email_addresses = []; uris = [] })
      else err (codes "CA template is not specified")

  -- The template with the subject and the names that the request asks for
  unfoldable pub requested : CertProfile → SignRequest → Template → Template
  unfolding safe_template set_san populate_name
  requested p req csr =
      let t = set_san std req.san (safe_template p.allowed_csr_fields csr) in
      record t { subject = populate_name req.subject t.subject }

  -- The end of `Sign`: from the extensions on
  unfoldable pub finish : Issuer → ℕ → SignRequest → CertProfile → Template → Result Template
  unfolding add_extensions fill_template to_be_signed
  finish ca now req profile t = do
    extended ← add_extensions profile.allowed_extensions req.extensions t
    filled ← fill_template std ca profile now req.not_before req.not_after extended
    to_be_signed ca filled

  -- `Sign` once there are a profile and a request; `random` is what `io.ReadFull` reads, if it does.
  unfoldable pub sign_request :
      Issuer → ℕ → Option Str → SignRequest → CertProfile → Template → Result Template
  unfolding requested check_template finish
  sign_request ca now random req profile csr = do
    check_template profile (requested profile req csr)
    serial ← or_err (codes "failed to generate serial number") random
    finish ca now req profile (record (requested profile req csr) { serial_number = masked serial })

  -- `Sign`
  unfoldable pub sign : Issuer → ℕ → Option Str → SignRequest → Result Template
  unfolding parse_pem sign_request
  sign ca now random req = do
    profile ←
        or_err (codes "unsupported profile: " ++ or_default req.profile)
          (lookup (or_default req.profile) ca.profiles)
    csr ← parse_pem std req.request
    sign_request ca now random req profile csr
