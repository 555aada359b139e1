-- ===== src/Ca/Std.antt =====
-- What xpki/authority and xpki/csr call of Go's standard library to read and write whole formats:
-- PEM, certificate requests, ASN.1, URLs, addresses, regular expressions. It is a parameter of the
-- model; the theorems assume nothing of it.
use dolly.Prelude.{ℕ, Bool, Option, List, Str}

-- An `asn1.ObjectIdentifier`
abbrev pub Oid : Type 0
Oid = List ℕ

-- A compiled `regexp.Regexp`, by what it matches.
abbrev pub Regexp : Type 0
Regexp = Str → Bool

-- `pkix.Name`
pub record Name : Type 0 where
  pub common_name : Str
  pub serial_number : Str
  pub country : List Str
  pub province : List Str
  pub locality : List Str
  pub organization : List Str
  pub organizational_unit : List Str

-- `pkix.Extension`
pub record Extension : Type 0 where
  pub id : Oid
  pub critical : Bool
  pub value : Str

-- `csr.BasicConstraints`; an int is its 64-bit pattern.
pub record BasicConstraints : Type 0 where
  pub is_ca : Bool
  pub max_path_len : ℕ

-- What is read of an `x509.CertificateRequest`. A `*url.URL` is its text, nil is `none`; a public key
-- is its encoding.
pub record CertificateRequest : Type 0 where
  pub subject : Name
  pub public_key : Str
  pub dns_names : List Str
  pub ip_addresses : List Str
  pub email_addresses : List Str
  pub uris : List (Option Str)
  pub extensions : List Extension

pub record Std : Type 0 where
  -- `pem.Decode`: the type and the bytes of the first block
  pub pem_decode : Str → Option (Str × Str)
  -- `x509.ParseCertificateRequest` and `CheckSignature`
  pub parse_certificate_request : Str → Option CertificateRequest
  pub check_signature : CertificateRequest → Bool
  -- `asn1.Unmarshal` into basic constraints: them and the trailing bytes
  pub unmarshal_constraints : Str → Option (BasicConstraints × Str)
  -- `asn1.Marshal` of policies: an identifier and qualifiers, each a type and a value
  pub marshal_policies : List (Oid × List (Str × Str)) → Option Str
  -- `url.Parse`, `net.ParseIP` and the address of `mail.ParseAddress`, by their texts
  pub parse_url : Str → Option Str
  pub parse_ip : Str → Option Str
  pub parse_address : Str → Option Str
  pub hex_decode : Str → Option Str
  pub compile : Str → Option Regexp
  -- the SHA-1 digest of the key, for `computeSKI`
  pub key_digest : Str → Option Str
