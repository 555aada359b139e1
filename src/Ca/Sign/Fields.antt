-- ===== src/Ca/Sign/Fields.antt =====
-- What the steps of `Sign` in xpki/authority/issuer.go after its checks leave of a template: all
-- fields but the extensions are those that the profile and the request decide, and extensions are
-- only added.
use mathlib.Core.Path.{subst}
use dolly.Prelude.{
  ℕ, ◌≡◌, refl, ap, sym, ◌∙◌, Bool, true, false, not, ◌&&◌, ◌||◌, ◌⊎◌, inl, inr, List, [], ◌∷◌,
  ◌++◌, Str, codes, str_eq, ◌==◌, if◌then◌else◌, ok, ◌>>=◌, guard, or_err, or_err-ok, some, bind-ok,
  guard-ok, All,
}
use dolly.GoText.{is_empty}
use dolly.Ca.Std.{Std, Oid, Extension, BasicConstraints}
use dolly.Ca.Csr.{
  Template, read_extensions, parse, parse_pem, oid_eq, basic_constraints_oid, with_constraints,
  without_rest, empty_template,
}
use dolly.Ca.Profile.{CertProfile, Policy, usages, is_allowed_extention}
use dolly.Ca.Sign.Fill.{
  Issuer, fill_template, policy_list, add_policies, policies_oid, ocsp_no_check_oid, with_profile,
  with_times, with_no_check, start_time, end_time,
}
use dolly.Ca.Sign.{X509Extension, add_extensions}

-- A template but for its extensions.
abbrev pub core : Template → Template
core t = record t { extra_extensions = [] }

-- What `addPolicies` adds for the policies of a profile
abbrev IsPoliciesOf : Std → List Policy → Extension → Type 0
IsPoliciesOf std policies e =
    (is_empty policies ≡ false)
    × (list : List (Oid × List (Str × Str))) × (policy_list policies ≡ ok list)
    × (bytes : Str) × (std.marshal_policies list ≡ some bytes)
    × (e ≡ record { id = policies_oid; critical = false; value = bytes })

-- An extra extension that a profile may bring into a template: one that it allows, that of its own
-- policies, if it has any, or that of OCSP, if it asks for it.
abbrev pub IsGranted : Std → CertProfile → Extension → Type 0
IsGranted std p e =
    (is_allowed_extention p.allowed_extensions e.id ≡ true)
    ⊎ IsPoliciesOf std p.policies e
    ⊎ ((p.ocsp_no_check ≡ true)
        × (e ≡ record { id = ocsp_no_check_oid; critical = false; value = 5 ∷ 0 ∷ [] }))

All-append : {A : Type 0} (P : A → Type 0) (xs ys : List A) → All P xs → All P ys → All P (xs ++ ys)
All-append P [] ys h k = k
All-append P (x ∷ xs) ys h k = (h.0, All-append P xs ys h.1 k)

module _ (std : Std) (p : CertProfile) where
  pub add_extensions-core :
      (extensions : List X509Extension) (t e : Template)
      → add_extensions std p.allowed_extensions extensions t ≡ ok e
      → All (IsGranted std p) t.extra_extensions
      → (core e ≡ core t) × All (IsGranted std p) e.extra_extensions
  unfolding add_extensions
  add_extensions-core [] t e h k =
      let same : t ≡ e = cc h in
      (ap core (sym same), subst (λ s. All (IsGranted std p) s.extra_extensions) same k)
  add_extensions-core (x ∷ extensions) t e h k =
      let (u, a, h1) = bind-ok _ _ e h in
      let (raw, b, h2) =
        bind-ok (or_err (codes "failed to decode extension") (std.hex_decode x.value)) _ e h1 in
      let added = record t {
        extra_extensions =
            t.extra_extensions ++ record { id = x.id; critical = x.critical; value = raw } ∷ [];
      } in
      let allowed =
        guard-ok (is_allowed_extention p.allowed_extensions x.id) (codes "extension not allowed") u
          a in
      let (same, granted) = add_extensions-core extensions added e h2 (
        All-append (IsGranted std p) t.extra_extensions
          (record { id = x.id; critical = x.critical; value = raw } ∷ []) k (inl allowed, tt)) in
      (same, granted)

  kept :
      (t e : Template)
      → t ≡ e
      → All (IsGranted std p) t.extra_extensions
      → (core e ≡ core t) × All (IsGranted std p) e.extra_extensions
  kept t e same k =
      (ap core (sym same), subst (λ s. All (IsGranted std p) s.extra_extensions) same k)

  appended :
      (t : Template) (x : Extension)
      → IsGranted std p x
      → All (IsGranted std p) t.extra_extensions
      → (e : Template) → ok (record t { extra_extensions = t.extra_extensions ++ x ∷ [] }) ≡ ok e
      → (core e ≡ core t) × All (IsGranted std p) e.extra_extensions
  appended t x granted k e h =
      kept (record t { extra_extensions = t.extra_extensions ++ x ∷ [] }) e (cc h)
        (All-append (IsGranted std p) t.extra_extensions (x ∷ []) k (granted, tt))

  add_policies-core :
      (t q : Template)
      → is_empty p.policies ≡ false
      → add_policies std p.policies t ≡ ok q
      → All (IsGranted std p) t.extra_extensions
      → (core q ≡ core t) × All (IsGranted std p) q.extra_extensions
  unfolding add_policies
  add_policies-core t q some_left h k =
      let (list, a, h1) = bind-ok (policy_list p.policies) _ q h in
      let (bytes, b, h2) = bind-ok (or_err (codes "marshal") (std.marshal_policies list)) _ q h1 in
      appended t (record { id = policies_oid; critical = false; value = bytes })
        (inr (
          inl (
            some_left,
            list,
            a,
            bytes,
            or_err-ok (codes "marshal") (std.marshal_policies list) bytes b,
            refl,
          )))
        k q h2

  -- The template behind `addPolicies`, if the profile has policies.
  policies-core :
      (none_left : Bool) (t q : Template)
      → is_empty p.policies ≡ none_left
      → (if none_left then ok t else add_policies std p.policies t) ≡ ok q
      → All (IsGranted std p) t.extra_extensions
      → (core q ≡ core t) × All (IsGranted std p) q.extra_extensions
  policies-core true t q e h k = kept t q (cc h) k
  policies-core false t q e h k = add_policies-core t q e h k

  no_check-core :
      (b : Bool) (t : Template)
      → p.ocsp_no_check ≡ b
      → All (IsGranted std p) t.extra_extensions
      → (core (with_no_check b t) ≡ core t)
        × All (IsGranted std p) (with_no_check b t).extra_extensions
  no_check-core false t e k = (refl, k)
  no_check-core true t e k =
      appended t (record { id = ocsp_no_check_oid; critical = false; value = 5 ∷ 0 ∷ [] })
        (inr (inr (e, refl))) k (with_no_check true t) refl

  pub fill_template-core :
      (ca : Issuer) (now not_before not_after : ℕ) (t f : Template)
      → fill_template std ca p now not_before not_after t ≡ ok f
      → All (IsGranted std p) t.extra_extensions
      → (ski : Str) × (core f
          ≡ core (
              with_profile ca p ski (
                with_times
                  (start_time p now not_before)
                  (end_time p (start_time p now not_before) not_after)
                  t)))
        × All (IsGranted std p) f.extra_extensions
  unfolding fill_template with_profile with_times
  fill_template-core ca now not_before not_after t f h k =
      let (ski, a, h1) = bind-ok (or_err (codes "ski") (std.key_digest t.public_key)) _ f h in
      let (u, b, h2) =
        bind-ok (guard (not (p.expiry == 0 && not_after == 0)) (codes "expiry is not set")) _ f
          h1 in
      let (v, c, h3) =
        bind-ok
          (guard (not ((usages p).ku == 0 && is_empty (usages p).eku))
            (codes "invalid profile: no key usages"))
          _ f h2 in
      let filled = with_profile ca p ski (
        with_times (start_time p now not_before)
          (end_time p (start_time p now not_before) not_after) t) in
      let (q, d, h4) =
        bind-ok (if is_empty p.policies then ok filled else add_policies std p.policies filled) _ f
          h3 in
      let (same, granted) = policies-core (is_empty p.policies) filled q refl d k in
      let (same', granted') = no_check-core p.ocsp_no_check q refl granted in
      let last : with_no_check p.ocsp_no_check q ≡ f = cc h4 in
      (
        ski,
        ap core (sym last) ∙ same' ∙ same,
        subst (λ s. All (IsGranted std p) s.extra_extensions) last granted',
      )

module _ (std : Std) where
  -- What the request's extensions do not touch.
  IsBare : Template → Template → Type 0
  IsBare t e =
      (e.extra_extensions ≡ t.extra_extensions)
      × (e.not_before ≡ t.not_before)
      × (e.not_after ≡ t.not_after)

  read_extensions-IsBare :
      (extensions : List Extension) (t e : Template)
      → read_extensions std extensions t ≡ ok e
      → IsBare t e
  unfolding read_extensions IsBare
  read_extensions-IsBare [] t e h =
      let same : t ≡ e = cc h in subst (IsBare t) same (refl, refl, refl)
  read_extensions-IsBare (x ∷ extensions) t e h =
      go (oid_eq x.id basic_constraints_oid) h
        (λ c. read_extensions-IsBare extensions (with_constraints std c t) e)
        (read_extensions-IsBare extensions t e)
    where
      go :
          (b : Bool)
          → (if b
              then (or_err
                    (codes "failed to parse BasicConstraints")
                    (std.unmarshal_constraints x.value)
                  >>= λ parsed. without_rest std parsed >>= λ c.
                      read_extensions std extensions (with_constraints std c t))
              else read_extensions std extensions t)
            ≡ ok e
          → ((c : BasicConstraints)
              → read_extensions std extensions (with_constraints std c t) ≡ ok e
              → IsBare (with_constraints std c t) e)
          → (read_extensions std extensions t ≡ ok e → IsBare t e)
          → IsBare t e
      go false k with_c without = without k
      go true k with_c without =
          let (parsed, a, k1) =
            bind-ok
              (or_err (codes "failed to parse BasicConstraints")
                (std.unmarshal_constraints x.value))
              _ e k in
          let (c, b, k2) = bind-ok (without_rest std parsed) _ e k1 in with_c c k2

  parse-IsBare : (bytes : Str) (e : Template) → parse std bytes ≡ ok e → IsBare empty_template e
  unfolding parse IsBare
  parse-IsBare bytes e h =
      let (csrv, c, h3) =
        bind-ok (or_err (codes "failed to parse") (std.parse_certificate_request bytes)) _ e h in
      let (v, d, h4) = bind-ok (guard (std.check_signature csrv) (codes "key mismatch")) _ e h3 in
      read_extensions-IsBare csrv.extensions
        (record empty_template {
          subject = csrv.subject;
          public_key = csrv.public_key;
          dns_names = csrv.dns_names;
          ip_addresses = csrv.ip_addresses;
          email_addresses = csrv.email_addresses;
          uris = csrv.uris;
        })
        e h4

  -- A template that is read from a request has no extensions and no times.
  pub parse_pem-bare :
      (text : Str) (e : Template)
      → parse_pem std text ≡ ok e
      → (e.extra_extensions ≡ []) × (e.not_before ≡ 0) × (e.not_after ≡ 0)
  unfolding parse_pem IsBare
  parse_pem-bare text e h =
      let (block, a, h1) =
        bind-ok (or_err (codes "unable to parse PEM") (std.pem_decode text)) _ e h in
      let (u, b, h2) =
        bind-ok
          (guard
            (str_eq block.0 (codes "NEW CERTIFICATE REQUEST")
              || str_eq block.0 (codes "CERTIFICATE REQUEST"))
            (codes "unsupported type in PEM: " ++ block.0))
          _ e h1 in
      parse-IsBare block.1 e h2
