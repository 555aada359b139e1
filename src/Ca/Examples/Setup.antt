-- ===== src/Ca/Examples/Setup.antt =====
-- A configuration of xpki/authority, the authority that is made of it, and a request that its issuer
-- signs.
use dolly.Prelude.{
  ℕ, ◌*◌, ◌≡◌, refl, true, false, inr, Option, none, some, [], ◌∷◌, codes, str_eq, All, lookup,
  insert, Result, ok, err, panic,
}
use dolly.GoText.{contains, replace, replace_loop, trim_space}
use dolly.Slices.{contains_string}
use dolly.Ca.Std.{CertificateRequest, Std}
use dolly.Ca.Csr.{
  empty_name, populate_name, Template, empty_template, set_san, read_extensions, parse, parse_pem,
}
use dolly.Ca.Profile.{
  CertProfile, default_cert_profile, usages, usages_loop, check_policies, compiled,
  validate_profile, hour, minute,
}
use dolly.Ca.Config.{
  AiaConfig, IssuerConfig, CaConfig, Config, merged_aia, issuer_profiles, completed_issuer,
  completed_issuers, completed, labels_of, validate_profiles, validate_config, load_config,
}
use dolly.Ca.Config.Compiled.{IsFresh}
use dolly.Ca.Config.Valid.{IsPlaced}
use dolly.Ca.Authority.{
  Authority, filled_aia, register, add_issuers, new_authority, get_issuer_by_label,
}
use dolly.Ca.Sign.Fill.{Issuer, start_time, end_time, with_times, with_profile, fill_template}
use dolly.Ca.Sign.{
  Bundle, SignRequest, made_issuer, create_issuer, safe_template, check_common_name, check_names,
  check_list, check_uris, check_uri_list, check_template, add_extensions, to_be_signed, requested,
  finish, sign_request, sign,
}
use dolly.Ca.Issued.{selected, new_issuer}

abbrev pub csr : CertificateRequest
csr = record {
  subject = record empty_name { common_name = codes "www.dolly.org" };
  public_key = codes "key";
  dns_names = codes "www.dolly.org" ∷ [];
  ip_addresses = codes "10.0.0.1" ∷ [];
  email_addresses = [];
  uris = [];
  extensions = [];
}

-- Every text is a request in PEM, and a rule matches the texts that it is a part of.
abbrev pub std : Std
std = record {
  pem_decode = λ text. some (codes "CERTIFICATE REQUEST", text);
  parse_certificate_request = λ bytes. some csr;
  check_signature = λ request. true;
  unmarshal_constraints = λ value. none;
  marshal_policies = λ policies. some [];
  parse_url = λ text. some text;
  parse_ip = λ text. none;
  parse_address = λ text. none;
  hex_decode = λ text. some text;
  compile = λ rule. some (λ text. contains text rule);
  key_digest = λ key. some (codes "ski");
}

abbrev pub server : CertProfile
server = record default_cert_profile {
  allowed_dns = codes ".org";
  issuer_label = codes "ca1";
  allowed_csr_fields =
      some (record { subject = true; dns = true; ip = false; email = true; uri = true });
}

abbrev pub aia : AiaConfig
aia = record {
  aia_url = codes "http://ca/${ISSUER_ID}";
  ocsp_url = codes "http://ocsp";
  crl_url = codes "http://crl";
  crl_expiry = hour;
  ocsp_expiry = hour;
  crl_renewal = hour;
}

abbrev pub ca1 : IssuerConfig
ca1 = record {
  disabled = none;
  label = codes "ca1";
  cert_file = codes "ca1.pem";
  key_file = codes "ca1.key";
  ca_bundle_file = [];
  root_bundle_file = [];
  aia = none;
  profiles = [];
}

abbrev pub authority : CaConfig
authority = record { default_aia = some aia; issuers = ca1 ∷ [] }

abbrev pub decoded : Config
decoded = record { authority = some authority; profiles = (codes "server", server) ∷ [] }

abbrev pub or_decoded : Result Config → Config
or_decoded (ok c) = c
or_decoded (err e) = decoded
or_decoded panic = decoded

abbrev pub loaded : Config
loaded = or_decoded (load_config std decoded)

pub loads : load_config std decoded ≡ ok loaded
unfolding load_config completed completed_issuers completed_issuer merged_aia issuer_profiles
    validate_config validate_profiles validate_profile usages usages_loop lookup insert str_eq
    check_policies compiled contains_string
loads = refl

abbrev pub read_bundle : IssuerConfig → Result Bundle
read_bundle cfg = ok (record {
  subject_id = codes "a1";
  cert_pem = codes "cert";
  ca_certs_pem = [];
  is_untrusted = false;
  has_key_info = true;
})

abbrev pub no_authority : Authority (Option Issuer)
no_authority = record { issuers = []; issuers_by_profile = [] }

abbrev pub or_none : Result (Authority (Option Issuer)) → Authority (Option Issuer)
or_none (ok a) = a
or_none (err e) = no_authority
or_none panic = no_authority

abbrev pub made : Authority (Option Issuer)
made = or_none (new_authority (new_issuer std read_bundle loaded.profiles) loaded)

pub makes : new_authority (new_issuer std read_bundle loaded.profiles) loaded ≡ ok made
unfolding load_config completed completed_issuers completed_issuer merged_aia issuer_profiles
    validate_config validate_profiles validate_profile usages usages_loop lookup insert str_eq
    check_policies compiled contains_string new_authority add_issuers filled_aia register new_issuer
    selected create_issuer made_issuer replace replace_loop trim_space
makes = refl

abbrev pub no_issuer : Issuer
no_issuer = record {
  label = [];
  profiles = [];
  has_bundle = false;
  crl_url = [];
  aia_url = [];
  ocsp_url = [];
  cabundle_pem = [];
}

abbrev pub or_no_issuer : Option (Option Issuer) → Issuer
or_no_issuer none = no_issuer
or_no_issuer (some none) = no_issuer
or_no_issuer (some (some ca)) = ca

abbrev pub issuer : Issuer
issuer = or_no_issuer (get_issuer_by_label (codes "ca1") made)

abbrev pub request : SignRequest
request = record {
  san = none;
  request = codes "csr";
  subject = none;
  profile = codes "server";
  extensions = [];
  not_before = 0;
  not_after = 0;
}

abbrev pub or_empty : Result Template → Template
or_empty (ok t) = t
or_empty (err e) = empty_template
or_empty panic = empty_template

abbrev pub now : ℕ
now = 1000 * minute

abbrev pub certificate : Template
certificate = or_empty (sign std issuer now (some (200 ∷ 1 ∷ [])) request)

pub found : get_issuer_by_label (codes "ca1") made ≡ some (some issuer)
unfolding get_issuer_by_label load_config completed completed_issuers completed_issuer merged_aia
    issuer_profiles validate_config validate_profiles validate_profile usages usages_loop lookup
    insert str_eq check_policies compiled contains_string new_authority add_issuers filled_aia
    register new_issuer selected create_issuer made_issuer replace replace_loop trim_space
found = refl

pub signs : sign std issuer now (some (200 ∷ 1 ∷ [])) request ≡ ok certificate
unfolding get_issuer_by_label load_config completed completed_issuers completed_issuer merged_aia
    issuer_profiles validate_config validate_profiles validate_profile usages usages_loop lookup
    insert str_eq check_policies compiled contains_string new_authority add_issuers filled_aia
    register new_issuer selected create_issuer made_issuer replace replace_loop trim_space sign
    parse_pem parse read_extensions sign_request requested safe_template set_san populate_name
    check_template check_common_name check_list check_names check_uri_list check_uris finish
    add_extensions fill_template with_profile with_times start_time end_time to_be_signed contains
signs = refl

pub has_bundle : issuer.has_bundle ≡ true
unfolding get_issuer_by_label load_config completed completed_issuers completed_issuer merged_aia
    issuer_profiles validate_config validate_profiles validate_profile usages usages_loop lookup
    insert str_eq check_policies compiled contains_string new_authority add_issuers filled_aia
    register new_issuer selected create_issuer made_issuer replace replace_loop trim_space
has_bundle = refl

-- Each profile of the configuration is as decoded, and names no issuer or `ca1`.
pub decoded-IsDecoded :
    All (λ e. IsFresh e.1 × IsPlaced (labels_of decoded.authority) e.1) decoded.profiles
unfolding contains_string str_eq
decoded-IsDecoded = (((refl, refl, refl, refl), inr refl), tt)
