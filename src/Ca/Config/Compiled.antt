-- ===== src/Ca/Config/Compiled.antt =====
-- What `Validate` of a profile in xpki/authority/config.go makes sure of.
use mathlib.Core.Path.{subst}
use dolly.Prelude.{
  ◌≡◌, ◌≢◌, refl, sym, ◌∙◌, Bool, true, false, not, ◌⊎◌, inl, inr, Option, none, some, [], ◌++◌,
  Str, codes, str_eq, str_eq_iff, ◌==◌, ==_iff, if◌then◌else◌, ok, ◌>>=◌, guard, or_err, bind-ok,
  guard-ok, or_err-ok,
}
use dolly.GoText.{is_empty, join}
use dolly.Ca.Std.{Std, Regexp}
use dolly.Ca.Profile.{CertProfile, usages, check_policies, compiled, validate_profile}

-- A profile as it is decoded: nothing is compiled.
abbrev pub IsFresh : CertProfile → Type 0
IsFresh p =
    (p.allowed_names_regex ≡ none)
    × (p.allowed_dns_regex ≡ none)
    × (p.allowed_email_regex ≡ none)
    × (p.allowed_uri_regex ≡ none)

-- A rule and what it is compiled to: the empty rule to nothing.
abbrev pub IsCompiled : Std → Str → Option Regexp → Type 0
IsCompiled std rule regex =
    ((rule ≡ []) × (regex ≡ none)) ⊎ ((r : Regexp) × (std.compile rule ≡ some r) × (regex ≡ some r))

-- A profile that is fit for use, and what `Validate` makes of it.
abbrev pub IsValidated : Std → CertProfile → CertProfile → Type 0
IsValidated std p q =
    (p.expiry ≢ 0)
    × (is_empty p.usage ≡ false)
    × (is_empty (usages p).unk ≡ true)
    × IsCompiled std p.allowed_names q.allowed_names_regex
    × IsCompiled std p.allowed_dns q.allowed_dns_regex
    × IsCompiled std p.allowed_email q.allowed_email_regex
    × IsCompiled std p.allowed_uri q.allowed_uri_regex
    × (q ≡ record p {
      allowed_names_regex = q.allowed_names_regex;
      allowed_dns_regex = q.allowed_dns_regex;
      allowed_email_regex = q.allowed_email_regex;
      allowed_uri_regex = q.allowed_uri_regex;
    })

unnegated : (b : Bool) → not b ≡ true → b ≡ false
unnegated true h = absurd (cc h)
unnegated false h = refl

module _ (std : Std) where
  compiled-IsCompiled :
      (text : Str) (regex : Option Regexp) (rule : Str) (r : Option Regexp)
      → compiled std text regex rule ≡ ok r
      → regex ≡ none
      → IsCompiled std rule r
  unfolding compiled
  compiled-IsCompiled text (some old) rule r h fresh = absurd (cc fresh)
  compiled-IsCompiled text none rule r h fresh = go (str_eq rule []) refl h
    where
      go :
          (b : Bool)
          → str_eq rule [] ≡ b
          → (if b then ok none else (or_err text (std.compile rule) >>= (λ x. ok (some x)))) ≡ ok r
          → IsCompiled std rule r
      go true e k = let same : none ≡ r = cc k in inl ((str_eq_iff rule []).0 e, sym same)
      go false e k =
          let (x, a, k1) = bind-ok (or_err text (std.compile rule)) _ r k in
          let same : some x ≡ r = cc k1 in inr (x, or_err-ok text (std.compile rule) x a, sym same)

  pub validate_profile-IsValidated :
      (p q : CertProfile) → IsFresh p → validate_profile std p ≡ ok q → IsValidated std p q
  unfolding validate_profile
  validate_profile-IsValidated p q (n, d, m, u) h =
      let (v1, a1, h1) = bind-ok (guard (not (p.expiry == 0)) (codes "no expiry set")) _ q h in
      let (v2, a2, h2) =
        bind-ok (guard (not (is_empty p.usage)) (codes "no usages specified")) _ q h1 in
      let unknown = codes "unknown usage: " ++ join (usages p).unk b',' in
      let (v3, a3, h3) = bind-ok (guard (is_empty (usages p).unk) unknown) _ q h2 in
      let (v4, a4, h4) = bind-ok (check_policies p.policies) _ q h3 in
      let names_text = codes "failed to compile AllowedNames" in
      let (names, b1, h5) =
        bind-ok (compiled std names_text p.allowed_names_regex p.allowed_names) _ q h4 in
      let dns_text = codes "failed to compile AllowedDNS" in
      let (dns, b2, h6) =
        bind-ok (compiled std dns_text p.allowed_dns_regex p.allowed_dns) _ q h5 in
      let email_text = codes "failed to compile AllowedEmail" in
      let (email, b3, h7) =
        bind-ok (compiled std email_text p.allowed_email_regex p.allowed_email) _ q h6 in
      let uri_text = codes "failed to compile AllowedURI" in
      let (uri, b4, h8) =
        bind-ok (compiled std uri_text p.allowed_uri_regex p.allowed_uri) _ q h7 in
      let made = record p {
        allowed_names_regex = names;
        allowed_dns_regex = dns;
        allowed_email_regex = email;
        allowed_uri_regex = uri;
      } in
      let same : made ≡ q = cc h8 in
      let expiry =
        unnegated (p.expiry == 0) (guard-ok (not (p.expiry == 0)) (codes "no expiry set") v1 a1) in
      subst (IsValidated std p) same (
        (λ e. absurd (cc (sym expiry ∙ (==_iff p.expiry 0).1 e))),
        unnegated (is_empty p.usage)
            (guard-ok (not (is_empty p.usage)) (codes "no usages specified") v2 a2),
        guard-ok (is_empty (usages p).unk) unknown v3 a3,
        compiled-IsCompiled names_text p.allowed_names_regex p.allowed_names names b1 n,
        compiled-IsCompiled dns_text p.allowed_dns_regex p.allowed_dns dns b2 d,
        compiled-IsCompiled email_text p.allowed_email_regex p.allowed_email email b3 m,
        compiled-IsCompiled uri_text p.allowed_uri_regex p.allowed_uri uri b4 u,
        refl,
      )
