-- ===== src/Ca/Profile.antt =====
-- The certificate profiles of xpki/authority/config.go, and the tables of xpki/csr/types.go.
-- Durations are not negative, in nanoseconds. An int is its 64-bit pattern.
pub mod Roles
use Prim.Native.Nat.{bit_or}
use dolly.Prelude.{
  ℕ, ◌+◌, ◌*◌, ◌^◌, Bool, true, false, not, ◌&&◌, ◌||◌, Option, none, some, List, [], ◌∷◌, ◌++◌,
  Str, codes, str_eq, Assoc, lookup, ltb, ◌==◌, if◌then◌else◌, length, Result, ok, err, ◌>>=◌, ◌>>◌,
  guard, or_err,
}
use dolly.GoText.{is_empty, join}
use dolly.Slices.{contains_string}
use dolly.Ca.Std.{Oid, Regexp, Std}
use dolly.Ca.Csr.{oid_eq}

-- `csr.AllowedFields`
pub record AllowedFields : Type 0 where
  pub subject : Bool
  pub dns : Bool
  pub ip : Bool
  pub email : Bool
  pub uri : Bool

-- `csr.CertificatePolicyQualifier`
pub record Qualifier : Type 0 where
  pub kind : Str
  pub value : Str

-- `csr.CertificatePolicy`
pub record Policy : Type 0 where
  pub id : Oid
  pub qualifiers : List Qualifier

pub record CertProfile : Type 0 where
  pub description : Str
  pub usage : List Str
  pub is_ca : Bool
  pub max_path_len : ℕ
  pub ocsp_no_check : Bool
  pub expiry : ℕ
  pub backdate : ℕ
  pub allowed_extensions : List Oid
  pub allowed_names : Str
  pub allowed_dns : Str
  pub allowed_email : Str
  pub allowed_uri : Str
  pub allowed_csr_fields : Option AllowedFields
  pub policies : List Policy
  pub issuer_label : Str
  pub allowed_roles : List Str
  pub denied_roles : List Str
  pub allowed_names_regex : Option Regexp
  pub allowed_dns_regex : Option Regexp
  pub allowed_email_regex : Option Regexp
  pub allowed_uri_regex : Option Regexp

-- The key usages of crypto/x509 are bits.
abbrev pub key_usages : Assoc ℕ
key_usages =
    (codes "signing", 1)
    ∷ (codes "digital signature", 1)
    ∷ (codes "content commitment", 2)
    ∷ (codes "key encipherment", 4)
    ∷ (codes "key agreement", 16)
    ∷ (codes "data encipherment", 8)
    ∷ (codes "cert sign", 32)
    ∷ (codes "crl sign", 64)
    ∷ (codes "encipher only", 128)
    ∷ (codes "decipher only", 256)
    ∷ []

-- The extended ones are numbered from 0.
abbrev pub ext_key_usages : Assoc ℕ
ext_key_usages =
    (codes "any", 0)
    ∷ (codes "server auth", 1)
    ∷ (codes "client auth", 2)
    ∷ (codes "code signing", 3)
    ∷ (codes "email protection", 4)
    ∷ (codes "s/mime", 4)
    ∷ (codes "ipsec end system", 5)
    ∷ (codes "ipsec tunnel", 6)
    ∷ (codes "ipsec user", 7)
    ∷ (codes "timestamping", 8)
    ∷ (codes "ocsp signing", 9)
    ∷ (codes "microsoft sgc", 10)
    ∷ (codes "netscape sgc", 11)
    ∷ []

pub record Usages : Type 0 where
  pub ku : ℕ
  pub eku : List ℕ
  pub unk : List Str

abbrev pub add_usage : Str → Option ℕ → Option ℕ → Usages → Usages
add_usage use_name (some kuse) e u = record u { ku = bit_or u.ku kuse }
add_usage use_name none (some ekuse) u = record u { eku = u.eku ++ ekuse ∷ [] }
add_usage use_name none none u = record u { unk = u.unk ++ use_name ∷ [] }

-- The loop of `Usages`
unfoldable pub usages_loop : List Str → Usages → Usages
usages_loop [] u = u
usages_loop (use_name ∷ usage) u =
    usages_loop usage
      (add_usage use_name (lookup use_name key_usages) (lookup use_name ext_key_usages) u)

-- `Usages`
unfoldable pub usages : CertProfile → Usages
unfolding usages_loop
usages p = usages_loop p.usage (record { ku = 0; eku = []; unk = [] })

-- `IsAllowed`
unfoldable pub is_allowed : CertProfile → Str → Bool
unfolding contains_string
is_allowed p role =
    if ltb 0 (length p.denied_roles)
      && (contains_string p.denied_roles role || contains_string p.denied_roles (codes "*"))
    then false
    else if ltb 0 (length p.allowed_roles)
        && (contains_string p.allowed_roles role || contains_string p.allowed_roles (codes "*"))
    then true
    else true

-- `IsAllowedExtention`
unfoldable pub is_allowed_extention : List Oid → Oid → Bool
is_allowed_extention [] oid = false
is_allowed_extention (allowed ∷ oids) oid =
    let rest = is_allowed_extention oids oid in if oid_eq allowed oid then true else rest

abbrev pub hour : ℕ
hour = 3600000000000

abbrev pub minute : ℕ
minute = 60000000000

-- `DefaultCertProfile`
abbrev pub default_cert_profile : CertProfile
default_cert_profile = record {
  description = codes "default profile with Server and Client auth";
  usage =
      codes "signing" ∷ codes "key encipherment" ∷ codes "server auth" ∷ codes "client auth" ∷ [];
  is_ca = false;
  max_path_len = 0;
  ocsp_no_check = false;
  expiry = 8760 * hour;
  backdate = 10 * minute;
  allowed_extensions = [];
  allowed_names = [];
  allowed_dns = [];
  allowed_email = [];
  allowed_uri = [];
  allowed_csr_fields = none;
  policies = [];
  issuer_label = [];
  allowed_roles = [];
  denied_roles = [];
  allowed_names_regex = none;
  allowed_dns_regex = none;
  allowed_email_regex = none;
  allowed_uri_regex = none;
}

abbrev pub notice_type : Str
notice_type = codes "id-qt-unotice"

abbrev pub cps_type : Str
cps_type = codes "id-qt-cps"

-- The loops of `Validate` over the policies and their qualifiers
unfoldable pub check_qualifiers : List Qualifier → Result (Unit {0})
check_qualifiers [] = ok tt
check_qualifiers (q ∷ qualifiers) =
    let rest = check_qualifiers qualifiers in
    if not (str_eq q.kind []) && not (str_eq q.kind notice_type) && not (str_eq q.kind cps_type)
    then err (codes "invalid policy qualifier type: " ++ q.kind)
    else rest

unfoldable pub check_policies : List Policy → Result (Unit {0})
unfolding check_qualifiers
check_policies [] = ok tt
check_policies (policy ∷ policies) = do check_qualifiers policy.qualifiers; check_policies policies

module _ (std : Std) where
  -- if rule != "" && regex == nil { regex = compile(rule) }
  unfoldable pub compiled : Str → Option Regexp → Str → Result (Option Regexp)
  compiled text (some regex) rule = ok (some regex)
  compiled text none rule =
      if str_eq rule []
      then ok none
      else (do regex ← or_err text (std.compile rule); ok (some regex))

  -- `Validate` of a profile, with the rules that it compiles
  unfoldable pub validate_profile : CertProfile → Result CertProfile
  unfolding usages check_policies compiled
  validate_profile p = do
    guard (not (p.expiry == 0)) (codes "no expiry set")
    guard (not (is_empty p.usage)) (codes "no usages specified")
    guard (is_empty (usages p).unk) (codes "unknown usage: " ++ join (usages p).unk b',')
    check_policies p.policies
    names ← compiled (codes "failed to compile AllowedNames") p.allowed_names_regex p.allowed_names
    dns ← compiled (codes "failed to compile AllowedDNS") p.allowed_dns_regex p.allowed_dns
    email ← compiled (codes "failed to compile AllowedEmail") p.allowed_email_regex p.allowed_email
    uri ← compiled (codes "failed to compile AllowedURI") p.allowed_uri_regex p.allowed_uri
    ok (record p {
      allowed_names_regex = names;
      allowed_dns_regex = dns;
      allowed_email_regex = email;
      allowed_uri_regex = uri;
    })
