-- ===== src/Ca/Sign/Policies.antt =====
-- The qualifiers of a profile's policies: `Validate` of xpki/authority/config.go takes one without a
-- type, `addPolicies` of extensions.go does not.
use mathlib.Core.List.{Memᴰ}
use mathlib.Core.List.Memᴰ
use dolly.Prelude.{
  ℕ, ◌≡◌, ap, sym, ◌∙◌, true, false, not, ◌&&◌, ◌||◌, inl, inr, Option, some, List, [], ◌∷◌, ◌++◌,
  Str, codes, str_eq, lookup, ◌==◌, if◌then◌else◌, ok, guard, or_err, bind-ok, guard-ok,
}
use dolly.GoText.{is_empty}
use dolly.Ca.Std.{Std, Oid}
use dolly.Ca.Csr.{Template}
use dolly.Ca.Profile.{CertProfile, Policy, Qualifier, usages, notice_type, cps_type}
use dolly.Ca.Sign.Fill.{
  Issuer, policy_qualifiers, policy_list, add_policies, fill_template, start_time, end_time,
  with_times, with_profile,
}
use dolly.Ca.Sign.{SignRequest, or_default, sign}
use dolly.Ca.Sign.Inverted.{sign-Signed}

policy_qualifiers-typed :
    (qualifiers : List Qualifier) (list : List (Str × Str)) (q : Qualifier)
    → policy_qualifiers qualifiers ≡ ok list
    → Memᴰ q qualifiers
    → (str_eq q.kind notice_type || str_eq q.kind cps_type) ≡ true
unfolding policy_qualifiers
policy_qualifiers-typed [] list q h m = absurd (Memᴰ.not-nil m)
policy_qualifiers-typed (r ∷ qualifiers) list q h m =
    let known = str_eq r.kind notice_type || str_eq r.kind cps_type in
    let text = codes "Invalid qualifier type in Policies " ++ r.kind in
    let (u, a, h1) = bind-ok (guard known text) _ list h in
    let (rest, b, h2) = bind-ok (policy_qualifiers qualifiers) _ list h1 in
    elim (Memᴰ.cases_cons m) [
      | inl e ↦
          ap (λ s. str_eq s.kind notice_type || str_eq s.kind cps_type) e ∙ guard-ok known text u a
      | inr k ↦ policy_qualifiers-typed qualifiers rest q b k
    ]

policy_list-typed :
    (policies : List Policy) (list : List (Oid × List (Str × Str))) (policy : Policy)
    (q : Qualifier)
    → policy_list policies ≡ ok list
    → Memᴰ policy policies
    → Memᴰ q policy.qualifiers
    → (str_eq q.kind notice_type || str_eq q.kind cps_type) ≡ true
unfolding policy_list
policy_list-typed [] list policy q h m k = absurd (Memᴰ.not-nil m)
policy_list-typed (p ∷ policies) list policy q h m k =
    let (qualifiers, a, h1) = bind-ok (policy_qualifiers p.qualifiers) _ list h in
    let (rest, b, h2) = bind-ok (policy_list policies) _ list h1 in
    elim (Memᴰ.cases_cons m) [
      | inl e ↦
          policy_qualifiers-typed policy.qualifiers qualifiers q
            (ap (λ s. policy_qualifiers s.qualifiers) e ∙ a) k
      | inr j ↦ policy_list-typed policies rest policy q b j k
    ]

module _ (std : Std) where
  fill_template-typed :
      (ca : Issuer) (p : CertProfile) (now not_before not_after : ℕ) (t f : Template)
      (policy : Policy) (q : Qualifier)
      → fill_template std ca p now not_before not_after t ≡ ok f
      → Memᴰ policy p.policies
      → Memᴰ q policy.qualifiers
      → (str_eq q.kind notice_type || str_eq q.kind cps_type) ≡ true
  unfolding fill_template add_policies
  fill_template-typed ca p now not_before not_after t f policy q h m k =
      let (ski, a, h1) = bind-ok (or_err (codes "ski") (std.key_digest t.public_key)) _ f h in
      let (u, b, h2) =
        bind-ok (guard (not (p.expiry == 0 && not_after == 0)) (codes "expiry is not set")) _ f
          h1 in
      let (v, c, h3) =
        bind-ok
          (guard (not ((usages p).ku == 0 && is_empty (usages p).eku))
            (codes "invalid profile: no key usages"))
          _ f h2 in
      let start = start_time p now not_before in
      let filled = with_profile ca p ski (with_times start (end_time p start not_after) t) in
      let (qualified, d, h4) =
        bind-ok (if is_empty p.policies then ok filled else add_policies std p.policies filled) _ f
          h3 in
      go p.policies m filled qualified d
    where
      go :
          (policies : List Policy)
          → Memᴰ policy policies
          → (filled qualified : Template)
          → (if is_empty policies then ok filled else add_policies std policies filled)
            ≡ ok qualified
          → (str_eq q.kind notice_type || str_eq q.kind cps_type) ≡ true
      go [] j filled qualified e = absurd (Memᴰ.not-nil j)
      go (r ∷ policies) j filled qualified e =
          let (list, a, e1) = bind-ok (policy_list (r ∷ policies)) _ qualified e in
          policy_list-typed (r ∷ policies) list policy q a j k

  -- If a policy of the profile that a request names has a qualifier without a type, `Sign` makes no
  -- certificate.
  pub untyped_qualifier_unsigned :
      (ca : Issuer) (now : ℕ) (random : Option Str) (req : SignRequest) (t : Template)
      (p : CertProfile) (policy : Policy) (q : Qualifier)
      → lookup (or_default req.profile) ca.profiles ≡ some p
      → Memᴰ policy p.policies
      → Memᴰ q policy.qualifiers
      → q.kind ≡ []
      → ¬ (sign std ca now random req ≡ ok t)
  unfolding str_eq
  untyped_qualifier_unsigned ca now random req t p policy q chosen m k untyped h =
      let s = sign-Signed std ca now random req t h in
      let both : some s.profile ≡ some p = sym s.chosen ∙ chosen in
      let same : s.profile ≡ p = cc both in
      let fills =
        sym (ap (λ r. fill_template std ca r now req.not_before req.not_after s.extended) same)
        ∙ s.fills in
      let typed =
        fill_template-typed ca p now req.not_before req.not_after s.extended s.filled policy q fills
          m k in
      let known = λ (kind : Str). str_eq kind notice_type || str_eq kind cps_type in
      let clash : false ≡ true = sym (ap known untyped) ∙ typed in absurd (cc clash)
