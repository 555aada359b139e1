-- ===== src/Ca/Config.antt =====
-- The configuration of xpki/authority/config.go. A pointer to a profile is its name in the map
-- `profiles`, so the profiles of an issuer are the ones that `Validate` completes. Maps are walked in
-- their lists' order. No profile of the decoded map is nil
-- (`LoadConfig` would panic on one other than `default`).
pub mod Loaded
pub mod Compiled
pub mod Valid
use dolly.Prelude.{
  ℕ, ◌+◌, ◌*◌, Bool, true, false, not, ◌&&◌, ◌||◌, Option, none, some, List, [], ◌∷◌, ◌++◌, map,
  Str, codes, str_eq, Assoc, lookup, insert, ltb, ◌==◌, if◌then◌else◌, length, Result, ok, err,
  ◌>>=◌, ◌>>◌, guard, or_err,
}
use dolly.GoText.{is_empty}
use dolly.Slices.{contains_string}
use dolly.Ca.Std.{Std}
use dolly.Ca.Profile.{CertProfile, default_cert_profile, validate_profile, hour}

pub record AiaConfig : Type 0 where
  pub aia_url : Str
  pub ocsp_url : Str
  pub crl_url : Str
  pub crl_expiry : ℕ
  pub ocsp_expiry : ℕ
  pub crl_renewal : ℕ

pub record IssuerConfig : Type 0 where
  pub disabled : Option Bool
  pub label : Str
  pub cert_file : Str
  pub key_file : Str
  pub ca_bundle_file : Str
  pub root_bundle_file : Str
  pub aia : Option AiaConfig
  pub profiles : List Str

pub record CaConfig : Type 0 where
  pub default_aia : Option AiaConfig
  pub issuers : List IssuerConfig

pub record Config : Type 0 where
  pub authority : Option CaConfig
  pub profiles : Assoc CertProfile

abbrev pub default_crl_renewal : ℕ
default_crl_renewal = 7 * 24 * hour

abbrev pub default_crl_expiry : ℕ
default_crl_expiry = 30 * 24 * hour

abbrev pub default_ocsp_expiry : ℕ
default_ocsp_expiry = 1 * 24 * hour

abbrev pub or_duration : ℕ → ℕ → ℕ
or_duration d default = if ltb 0 d then d else default

-- `GetCRLExpiry`, `GetOCSPExpiry`, `GetCRLRenewal`; the receiver may be nil.
unfoldable pub get_crl_expiry : Option AiaConfig → ℕ
get_crl_expiry none = default_crl_expiry
get_crl_expiry (some c) = or_duration c.crl_expiry default_crl_expiry

unfoldable pub get_ocsp_expiry : Option AiaConfig → ℕ
get_ocsp_expiry none = default_ocsp_expiry
get_ocsp_expiry (some c) = or_duration c.ocsp_expiry default_ocsp_expiry

unfoldable pub get_crl_renewal : Option AiaConfig → ℕ
get_crl_renewal none = default_crl_renewal
get_crl_renewal (some c) = or_duration c.crl_renewal default_crl_renewal

abbrev pub is_true : Option Bool → Bool
is_true none = false
is_true (some b) = b

-- `GetDisabled`
abbrev pub get_disabled : IssuerConfig → Bool
get_disabled c = is_true c.disabled

abbrev pub or_text : Str → Str → Str
or_text s default = if str_eq s [] then default else s

abbrev pub or_zero : ℕ → ℕ → ℕ
or_zero d default = if d == 0 then default else d

-- What `LoadConfig` makes of an issuer's `AIA`, given the default one.
unfoldable pub merged_aia : AiaConfig → Option AiaConfig → AiaConfig
unfolding get_crl_expiry get_crl_renewal get_ocsp_expiry
merged_aia default none = default
merged_aia default (some aia) = record {
  aia_url = or_text aia.aia_url default.aia_url;
  ocsp_url = or_text aia.ocsp_url default.ocsp_url;
  crl_url = or_text aia.crl_url default.crl_url;
  crl_expiry = or_zero aia.crl_expiry (get_crl_expiry (some default));
  ocsp_expiry = or_zero aia.ocsp_expiry (get_ocsp_expiry (some default));
  crl_renewal = or_zero aia.crl_renewal (get_crl_renewal (some default));
}

-- Whether an issuer takes a profile; `only` says that it is the only issuer.
abbrev pub takes : Bool → Str → CertProfile → Bool
takes only label p = str_eq p.issuer_label label || (str_eq p.issuer_label [] && only)

-- for name, profile := range cfg.Profiles { … }
unfoldable pub issuer_profiles : Bool → Str → Assoc CertProfile → List Str
issuer_profiles only label [] = []
issuer_profiles only label ((name, p) ∷ profiles) =
    let rest = issuer_profiles only label profiles in
    if takes only label p then name ∷ rest else rest

unfoldable pub completed_issuer : AiaConfig → Bool → Assoc CertProfile → IssuerConfig → IssuerConfig
unfolding merged_aia issuer_profiles
completed_issuer default only profiles iss = record iss {
  aia = some (merged_aia default iss.aia);
  profiles = issuer_profiles only iss.label profiles;
}

-- for i := range cfg.Authority.Issuers { … }, which runs only if there is a default `AIA`
unfoldable pub completed_issuers :
    Option AiaConfig → Assoc CertProfile → List IssuerConfig → List IssuerConfig
unfolding completed_issuer
completed_issuers none profiles issuers = issuers
completed_issuers (some default) profiles issuers =
    map (completed_issuer default (length issuers == 1) profiles) issuers

abbrev pub completed_ca : Assoc CertProfile → CaConfig → CaConfig
completed_ca profiles ca = record ca {
  issuers = completed_issuers ca.default_aia profiles ca.issuers;
}

abbrev pub with_default : Option CertProfile → Assoc CertProfile → Assoc CertProfile
with_default none profiles = insert (codes "default") default_cert_profile profiles
with_default (some p) profiles = profiles

abbrev pub map_ca : (CaConfig → CaConfig) → Option CaConfig → Option CaConfig
map_ca f none = none
map_ca f (some ca) = some (f ca)

-- `LoadConfig` between the decoding and the validation, where there are profiles
unfoldable pub completed : Config → Config
unfolding completed_issuers
completed cfg =
    let profiles = with_default (lookup (codes "default") cfg.profiles) cfg.profiles in
    record { profiles = profiles; authority = map_ca (completed_ca profiles) cfg.authority }

-- The labels for which `issuers[label]` is true
abbrev pub labels_of : Option CaConfig → List Str
labels_of none = []
labels_of (some ca) = map (λ iss. iss.label) ca.issuers

module _ (std : Std) where
  -- The loop of `Validate` over the profiles. `errors.WithMessagef` of the error, which is nil there,
  -- is nil.
  unfoldable pub validate_profiles : List Str → Assoc CertProfile → Result (Assoc CertProfile)
  unfolding validate_profile contains_string
  validate_profiles issuers [] = ok []
  validate_profiles issuers ((name, profile) ∷ profiles) = do
    p ← validate_profile std profile
    ps ←
        (if not (str_eq p.issuer_label []) && not (contains_string issuers p.issuer_label)
          then ok profiles
          else validate_profiles issuers profiles)
    ok ((name, p) ∷ ps)

  -- `Validate` of the configuration
  unfoldable pub validate_config : Config → Result Config
  unfolding validate_profiles
  validate_config c = do
    profiles ← validate_profiles (labels_of c.authority) c.profiles
    ok (record c { profiles = profiles })

  -- `LoadConfig` from the decoded configuration on
  unfoldable pub load_config : Config → Result Config
  unfolding completed validate_config
  load_config cfg = do
    guard (not (is_empty cfg.profiles)) (codes "no \"profiles\" configuration present")
    validate_config (completed cfg)
