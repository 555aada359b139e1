-- ===== src/Ca/Csr.antt =====
-- xpki/csr/csr.go: subjects, the alternative names of a request, and the template that a certificate
-- request gives.
pub mod Names
pub mod Arcs
use dolly.Prelude.{
  ℕ, Bool, true, false, not, ◌&&◌, ◌||◌, Option, none, some, List, [], ◌∷◌, ◌++◌, Str, codes,
  str_eq, if◌then◌else◌, ◌==◌, Result, ok, err, ◌>>=◌, ◌>>◌, guard, or_err,
}
use dolly.GoText.{contains, is_empty, trim_space}
use dolly.Ca.Std.{Oid, Name, Extension, BasicConstraints, CertificateRequest, Std}

-- `X509Name`
pub record X509Name : Type 0 where
  pub c : Str
  pub st : Str
  pub l : Str
  pub o : Str
  pub ou : Str

-- `X509Subject`
pub record X509Subject : Type 0 where
  pub common_name : Str
  pub names : List X509Name
  pub serial_number : Str

abbrev pub empty_name : Name
empty_name = record {
  common_name = [];
  serial_number = [];
  country = [];
  province = [];
  locality = [];
  organization = [];
  organizational_unit = [];
}

-- `appendIf`
abbrev pub append_if : Str → List Str → List Str
append_if s a = if str_eq s [] then a else a ++ s ∷ []

-- for _, n := range s.Names { … }
unfoldable pub add_names : List X509Name → Name → Name
add_names [] name = name
add_names (n ∷ names) name = add_names names (record name {
  country = append_if n.c name.country;
  province = append_if n.st name.province;
  locality = append_if n.l name.locality;
  organization = append_if n.o name.organization;
  organizational_unit = append_if n.ou name.organizational_unit;
})

-- `(*X509Subject).Name`
unfoldable pub subject_name : X509Subject → Name
unfolding add_names
subject_name s =
    add_names s.names
      (record empty_name { common_name = s.common_name; serial_number = s.serial_number })

-- `CertificateRequest`, as far as it names the subject
pub record KeyedRequest : Type 0 where
  pub common_name : Str
  pub names : List X509Name
  pub serial_number : Str

-- `isNameEmpty`
unfoldable pub is_name_empty : X509Name → Bool
unfolding trim_space
is_name_empty n =
    is_empty (trim_space n.c)
    && is_empty (trim_space n.st)
    && is_empty (trim_space n.l)
    && is_empty (trim_space n.o)
    && is_empty (trim_space n.ou)

-- for _, n := range r.Names { … }
unfoldable pub check_names : List X509Name → Result (Unit {0})
unfolding is_name_empty
check_names [] = ok tt
check_names (n ∷ names) =
    let rest = check_names names in if is_name_empty n then err (codes "empty name") else rest

-- `(*CertificateRequest).Validate`
unfoldable pub validate_request : KeyedRequest → Result (Unit {0})
unfolding check_names
validate_request r = if str_eq r.common_name [] then check_names r.names else ok tt

-- `(*CertificateRequest).Name`
unfoldable pub request_name : KeyedRequest → Name
unfolding add_names
request_name r =
    add_names r.names
      (record empty_name { common_name = r.common_name; serial_number = r.serial_number })

-- `replaceSliceIfEmpty`, and the same for a text
abbrev pub replace_slice_if_empty : List Str → List Str → List Str
replace_slice_if_empty [] new = new
replace_slice_if_empty (s ∷ replaced) new = s ∷ replaced

abbrev pub replace_if_empty : Str → Str → Str
replace_if_empty s new = if str_eq s [] then new else s

abbrev pub populated : Name → Name → Name
populated name req = record {
  common_name = replace_if_empty name.common_name req.common_name;
  serial_number = replace_if_empty name.serial_number req.serial_number;
  country = replace_slice_if_empty name.country req.country;
  province = replace_slice_if_empty name.province req.province;
  locality = replace_slice_if_empty name.locality req.locality;
  organization = replace_slice_if_empty name.organization req.organization;
  organizational_unit = replace_slice_if_empty name.organizational_unit req.organizational_unit;
}

-- `PopulateName`
unfoldable pub populate_name : Option X509Subject → Name → Name
unfolding subject_name
populate_name none req = req
populate_name (some s) req = populated (subject_name s) req

-- What the source sets of an `x509.Certificate` before it is signed. The zero time is 0; times are
-- nanoseconds since then.
pub record Template : Type 0 where
  pub subject : Name
  pub public_key : Str
  pub dns_names : List Str
  pub ip_addresses : List Str
  pub email_addresses : List Str
  pub uris : List (Option Str)
  pub is_ca : Bool
  pub max_path_len : ℕ
  pub max_path_len_zero : Bool
  pub basic_constraints_valid : Bool
  pub not_before : ℕ
  pub not_after : ℕ
  pub key_usage : ℕ
  pub ext_key_usage : List ℕ
  pub serial_number : Str
  pub subject_key_id : Str
  pub ocsp_server : List Str
  pub crl_distribution_points : List Str
  pub issuing_certificate_url : List Str
  pub extra_extensions : List Extension

-- `x509.Certificate{}`
abbrev pub empty_template : Template
empty_template = record {
  subject = empty_name;
  public_key = [];
  dns_names = [];
  ip_addresses = [];
  email_addresses = [];
  uris = [];
  is_ca = false;
  max_path_len = 0;
  max_path_len_zero = false;
  basic_constraints_valid = false;
  not_before = 0;
  not_after = 0;
  key_usage = 0;
  ext_key_usage = [];
  serial_number = [];
  subject_key_id = [];
  ocsp_server = [];
  crl_distribution_points = [];
  issuing_certificate_url = [];
  extra_extensions = [];
}

abbrev pub oid_eq : Oid → Oid → Bool
oid_eq = str_eq

abbrev pub basic_constraints_oid : Oid
basic_constraints_oid = 2 ∷ 5 ∷ 29 ∷ 19 ∷ []

module _ (std : Std) where
  -- One name of `SetSAN`; a URL that does not parse is appended as nil.
  unfoldable pub add_san : Str → Template → Template
  add_san san t =
      if contains san (codes "://")
      then record t { uris = t.uris ++ std.parse_url san ∷ [] }
      else elim (std.parse_ip san) [
        | some ip ↦ record t { ip_addresses = t.ip_addresses ++ ip ∷ [] }
        | none ↦ elim (std.parse_address san) [
          | some email ↦ record t { email_addresses = t.email_addresses ++ email ∷ [] }
          | none ↦ record t { dns_names = t.dns_names ++ san ∷ [] }
        ]
      ]

  unfoldable pub add_sans : List Str → Template → Template
  unfolding add_san
  add_sans [] t = t
  add_sans (san ∷ sans) t = add_sans sans (add_san san t)

  -- `SetSAN`; a nil slice is `none`.
  unfoldable pub set_san : Option (List Str) → Template → Template
  unfolding add_sans
  set_san none t = t
  set_san (some sans) t =
      add_sans sans
        (record t { ip_addresses = []; email_addresses = []; dns_names = []; uris = [] })

  abbrev pub with_constraints : BasicConstraints → Template → Template
  with_constraints c t = record t {
    basic_constraints_valid = true;
    is_ca = c.is_ca;
    max_path_len = c.max_path_len;
    max_path_len_zero = c.max_path_len == 0;
  }

  abbrev pub without_rest : BasicConstraints × Str → Result BasicConstraints
  without_rest (c, rest) = do
    guard (is_empty rest) (codes "failed to parse BasicConstraints: trailing data")
    ok c

  -- The loop of `Parse` over the request's extensions
  unfoldable pub read_extensions : List Extension → Template → Result Template
  read_extensions [] t = ok t
  read_extensions (e ∷ extensions) t =
      if oid_eq e.id basic_constraints_oid
      then (do
        parsed ←
            or_err (codes "failed to parse BasicConstraints") (std.unmarshal_constraints e.value)
        c ← without_rest parsed
        read_extensions extensions (with_constraints c t))
      else read_extensions extensions t

  -- `Parse`
  unfoldable pub parse : Str → Result Template
  unfolding read_extensions
  parse csr_bytes = do
    csrv ← or_err (codes "failed to parse") (std.parse_certificate_request csr_bytes)
    guard (std.check_signature csrv) (codes "key mismatch")
    read_extensions csrv.extensions (record empty_template {
      subject = csrv.subject;
      public_key = csrv.public_key;
      dns_names = csrv.dns_names;
      ip_addresses = csrv.ip_addresses;
      email_addresses = csrv.email_addresses;
      uris = csrv.uris;
    })

  -- `ParsePEM`
  unfoldable pub parse_pem : Str → Result Template
  unfolding parse
  parse_pem csr_pem = do
    block ← or_err (codes "unable to parse PEM") (std.pem_decode csr_pem)
    guard
        (str_eq block.0 (codes "NEW CERTIFICATE REQUEST")
          || str_eq block.0 (codes "CERTIFICATE REQUEST"))
        (codes "unsupported type in PEM: " ++ block.0)
    parse block.1
