-- ===== src/Ca/Sign/Fill.antt =====
-- `fillTemplate` of xpki/authority/issuer.go and `addPolicies` of extensions.go.
use dolly.Prelude.{
  ℕ, ◌+◌, ◌-◌, ◌*◌, ◌/◌, Bool, true, false, not, ◌&&◌, ◌||◌, List, [], ◌∷◌, ◌++◌, Str, codes,
  str_eq, Assoc, ltb, ◌==◌, if◌then◌else◌, Result, ok, ◌>>=◌, ◌>>◌, guard, or_err,
}
use dolly.GoText.{is_empty}
use dolly.Ca.Std.{Oid, Std}
use dolly.Ca.Csr.{Template}
use dolly.Ca.Profile.{CertProfile, Policy, Qualifier, usages, notice_type, cps_type, minute}

pub record Issuer : Type 0 where
  pub label : Str
  pub profiles : Assoc CertProfile
  pub has_bundle : Bool
  pub crl_url : Str
  pub aia_url : Str
  pub ocsp_url : Str
  pub cabundle_pem : Str

-- The qualifiers of a policy: only two types are known.
unfoldable pub policy_qualifiers : List Qualifier → Result (List (Str × Str))
policy_qualifiers [] = ok []
policy_qualifiers (q ∷ qualifiers) = do
  guard (str_eq q.kind notice_type || str_eq q.kind cps_type)
      (codes "Invalid qualifier type in Policies " ++ q.kind)
  rest ← policy_qualifiers qualifiers
  ok ((q.kind, q.value) ∷ rest)

unfoldable pub policy_list : List Policy → Result (List (Oid × List (Str × Str)))
unfolding policy_qualifiers
policy_list [] = ok []
policy_list (policy ∷ policies) = do
  qualifiers ← policy_qualifiers policy.qualifiers
  rest ← policy_list policies
  ok ((policy.id, qualifiers) ∷ rest)

abbrev pub policies_oid : Oid
policies_oid = 2 ∷ 5 ∷ 29 ∷ 32 ∷ []

abbrev pub ocsp_no_check_oid : Oid
ocsp_no_check_oid = 1 ∷ 3 ∷ 6 ∷ 1 ∷ 5 ∷ 5 ∷ 7 ∷ 48 ∷ 1 ∷ 5 ∷ []

abbrev pub url_list : Str → List Str → List Str
url_list url old = if str_eq url [] then old else url ∷ []

-- The times of `fillTemplate`. `Round` is to the nearest minute, half a minute up.
abbrev pub round_minute : ℕ → ℕ
round_minute t = (t + 30000000000) / minute * minute

unfoldable pub start_time : CertProfile → ℕ → ℕ → ℕ
start_time p now not_before =
    if not_before == 0
    then round_minute now - (if p.backdate == 0 then 5 * minute else p.backdate)
    else not_before

unfoldable pub end_time : CertProfile → ℕ → ℕ → ℕ
end_time p start not_after = if not_after == 0 then start + p.expiry else not_after

unfoldable pub with_times : ℕ → ℕ → Template → Template
with_times start end t = record t {
  not_before = if t.not_before == 0 || ltb t.not_before start then start else t.not_before;
  not_after = if t.not_after == 0 || ltb end t.not_after then end else t.not_after;
}

-- From the key usages to the URLs
unfoldable pub with_profile : Issuer → CertProfile → Str → Template → Template
unfolding usages
with_profile ca p ski t =
    let clear = λ (xs : List Str). if p.is_ca then [] else xs in
    record t {
      key_usage = (usages p).ku;
      ext_key_usage = (usages p).eku;
      basic_constraints_valid = true;
      is_ca = p.is_ca;
      max_path_len = if p.is_ca then p.max_path_len else t.max_path_len;
      max_path_len_zero = if p.is_ca then p.max_path_len == 0 else t.max_path_len_zero;
      dns_names = clear t.dns_names;
      ip_addresses = clear t.ip_addresses;
      email_addresses = clear t.email_addresses;
      uris = if p.is_ca then [] else t.uris;
      subject_key_id = ski;
      ocsp_server = url_list ca.ocsp_url t.ocsp_server;
      crl_distribution_points = url_list ca.crl_url t.crl_distribution_points;
      issuing_certificate_url = url_list ca.aia_url t.issuing_certificate_url;
    }

abbrev pub with_no_check : Bool → Template → Template
with_no_check false t = t
with_no_check true t = record t {
  extra_extensions =
      t.extra_extensions
      ++ record { id = ocsp_no_check_oid; critical = false; value = 5 ∷ 0 ∷ [] } ∷ [];
}

module _ (std : Std) where
  -- `addPolicies`
  unfoldable pub add_policies : List Policy → Template → Result Template
  unfolding policy_list
  add_policies policies t = do
    list ← policy_list policies
    bytes ← or_err (codes "marshal") (std.marshal_policies list)
    ok (record t {
      extra_extensions =
          t.extra_extensions ++ record { id = policies_oid; critical = false; value = bytes } ∷ [];
    })

  -- `fillTemplate`
  unfoldable pub fill_template : Issuer → CertProfile → ℕ → ℕ → ℕ → Template → Result Template
  unfolding add_policies with_times with_profile start_time end_time usages
  fill_template ca p now not_before not_after t = do
    ski ← or_err (codes "ski") (std.key_digest t.public_key)
    guard (not (p.expiry == 0 && not_after == 0)) (codes "expiry is not set")
    guard (not ((usages p).ku == 0 && is_empty (usages p).eku))
        (codes "invalid profile: no key usages")
    let start = start_time p now not_before
    let filled = with_profile ca p ski (with_times start (end_time p start not_after) t)
    qualified ← (if is_empty p.policies then ok filled else add_policies p.policies filled)
    ok (with_no_check p.ocsp_no_check qualified)
