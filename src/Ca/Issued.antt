-- ===== src/Ca/Issued.antt =====
-- xpki/authority put together: a configuration is loaded, its authority made, an issuer found by its
-- label, and a request signed. What `NewIssuer` reads of keys and files, and the bundle that
-- `certutil.VerifyBundleFromPEM` makes of them, is a parameter.
use mathlib.Core.Path.{subst}
use mathlib.Core.List.{Memᴰ}
use mathlib.Core.List.Memᴰ
use dolly.Prelude.{
  ℕ, ◌≡◌, refl, ap, sym, ◌∙◌, Bool, true, false, not, ◌⊎◌, inl, inr, Option, none, some, List, [],
  ◌∷◌, Str, codes, str_eq, str_eq_iff, Assoc, lookup, ◌==◌, if◌then◌else◌, length, Result, ok, err,
  ◌>>=◌, bind-ok, All, arith, Bool-cases,
}
use dolly.Ca.Std.{Std}
use dolly.Ca.Csr.{Template}
use dolly.Ca.Profile.{CertProfile}
use dolly.Ca.Config.{
  AiaConfig, IssuerConfig, CaConfig, Config, takes, issuer_profiles, completed_issuer,
  completed_issuers, completed_ca, map_ca, with_default, labels_of, load_config,
}
use dolly.Ca.Config.Loaded.{IsMap, with_default-IsMap, issuer_profiles-takes}
use dolly.Ca.Config.Compiled.{IsFresh, IsValidated}
use dolly.Ca.Config.Valid.{IsPlaced, load_config-IsValidated, load_config-authority}
use dolly.Ca.Authority.{Authority, new_authority, get_issuer_by_label}
use dolly.Ca.Authority.Found.{by_label-IsMade}
use dolly.Ca.Sign.Fill.{Issuer}
use dolly.Ca.Sign.{Bundle, SignRequest, made_issuer, create_issuer, or_default, sign}
use dolly.Ca.Sign.Allowed.{Conforms, sign-Conforms}

-- The profiles behind the names that an issuer's configuration holds.
unfoldable pub selected : List Str → Assoc CertProfile → Assoc CertProfile
selected [] profiles = []
selected (name ∷ names) profiles =
    let rest = selected names profiles in
    elim (lookup name profiles) [ none ↦ rest | some p ↦ (name, p) ∷ rest ]

selected-lookup :
    (names : List Str) (m : Assoc CertProfile) (name : Str) (p : CertProfile)
    → lookup name (selected names m) ≡ some p
    → (lookup name m ≡ some p) × Memᴰ name names
unfolding selected lookup
selected-lookup [] m name p h = absurd (cc h)
selected-lookup (n ∷ names) m name p h = go (lookup n m) refl h (selected-lookup names m name p)
  where
    go :
        (o : Option CertProfile)
        → lookup n m ≡ o
        → lookup name (elim o [ none ↦ selected names m | some q ↦ (n, q) ∷ selected names m ])
          ≡ some p
        → (lookup name (selected names m) ≡ some p → (lookup name m ≡ some p) × Memᴰ name names)
        → (lookup name m ≡ some p) × Memᴰ name (n ∷ names)
    go none e k ih = ((ih k).0, Memᴰ.tail (ih k).1)
    go (some q) e k ih = elim (Bool-cases (str_eq n name)) [
      | inl same ↦
          let there = (str_eq_iff n name).0 same in
          (ap (λ s. lookup s m) (sym there) ∙ e ∙ sym (rw (same) refl) ∙ k, Memᴰ.head (sym there))
      | inr other ↦ let below = ih (sym (rw (other) refl) ∙ k) in (below.0, Memᴰ.tail below.1)
    ]

module _ (std : Std) (read_bundle : IssuerConfig → Result Bundle) where
  -- `NewIssuer`
  unfoldable pub new_issuer : Assoc CertProfile → IssuerConfig → Result (Option Issuer)
  unfolding create_issuer selected
  new_issuer profiles cfg = do
    bundle ← read_bundle cfg
    create_issuer cfg (selected cfg.profiles profiles) bundle

  create_issuer-profiles :
      (cfg : IssuerConfig) (profiles : Assoc CertProfile) (bundle : Bundle) (ca : Issuer)
      → create_issuer cfg profiles bundle ≡ ok (some ca)
      → ca.profiles ≡ profiles
  unfolding create_issuer made_issuer
  create_issuer-profiles cfg profiles bundle ca h = go bundle.is_untrusted bundle.has_key_info h
    where
      go :
          (b c : Bool)
          → (if b
              then ok none
              else if not c
              then err (codes "failed to decode SubjectPublicKeyInfo")
              else ok (some (made_issuer cfg profiles bundle)))
            ≡ ok (some ca)
          → ca.profiles ≡ profiles
      go true c e = absurd (cc e)
      go false false e = absurd (cc e)
      go false true e =
          let same : made_issuer cfg profiles bundle ≡ ca = cc e in ap (λ i. i.profiles) (sym same)

  new_issuer-profiles :
      (profiles : Assoc CertProfile) (cfg : IssuerConfig) (ca : Issuer)
      → new_issuer profiles cfg ≡ ok (some ca)
      → ca.profiles ≡ selected cfg.profiles profiles
  unfolding new_issuer
  new_issuer-profiles profiles cfg ca h =
      let (bundle, a, h1) = bind-ok (read_bundle cfg) _ (some ca) h in
      create_issuer-profiles cfg (selected cfg.profiles profiles) bundle ca h1

  -- An issuer of a loaded configuration lists the profiles that it takes.
  listed-profiles :
      (default : AiaConfig) (all : Assoc CertProfile) (issuers : List IssuerConfig)
      (source : IssuerConfig)
      → Memᴰ source (completed_issuers (some default) all issuers)
      → source.profiles ≡ issuer_profiles (length issuers == 1) source.label all
  unfolding completed_issuers completed_issuer
  listed-profiles default all issuers source h =
      let (iss, k, e) =
        Memᴰ.of_map (completed_issuer default (length issuers == 1) all) issuers h in
      subst (λ s. s.profiles ≡ issuer_profiles (length issuers == 1) s.label all) e refl

  takes-label :
      (only : Bool) (label : Str) (p : CertProfile)
      → takes only label p ≡ true
      → (p.issuer_label ≡ label) ⊎ ((p.issuer_label ≡ []) × (only ≡ true))
  takes-label only label p h =
      ground (arith, str_eq_iff p.issuer_label label, str_eq_iff p.issuer_label [])

  -- Take a configuration as it is decoded, with a default `AIA`, whose profiles have distinct names and
  -- name no issuer or one that it has. If it loads, an authority is made of it, the issuer found there
  -- by its label is not nil, and signs a request, then the certificate is issued under a profile of the
  -- configuration (or the default one that loading adds): the one that the request names; that profile
  -- names this issuer, or no issuer and this is the only one; it has an expiry and known usages; and
  -- the certificate conforms to it as loaded, with each of its nonempty rules compiled.
  pub issued_by_rules :
      (cfg c : Config) (authority : CaConfig) (default : AiaConfig) (a : Authority (Option Issuer))
      (label : Str) (ca : Issuer) (now : ℕ) (random : Option Str) (req : SignRequest) (t : Template)
      → cfg.authority ≡ some authority
      → authority.default_aia ≡ some default
      → IsMap cfg.profiles
      → All (λ e. IsFresh e.1 × IsPlaced (labels_of cfg.authority) e.1) cfg.profiles
      → load_config std cfg ≡ ok c
      → new_authority (new_issuer c.profiles) c ≡ ok a
      → get_issuer_by_label label a ≡ some (some ca)
      → sign std ca now random req ≡ ok t
      → (p : CertProfile) × (q : CertProfile) × (lookup
            (or_default req.profile)
            (with_default (lookup (codes "default") cfg.profiles) cfg.profiles)
          ≡ some p)
        × ((p.issuer_label ≡ label)
            ⊎ ((p.issuer_label ≡ []) × ((length authority.issuers == 1) ≡ true)))
        × IsValidated std p q
        × Conforms std q t
  issued_by_rules cfg c authority default a label ca now random req t given aia unique good loads
        made found signs =
      let all = with_default (lookup (codes "default") cfg.profiles) cfg.profiles in
      let done = completed_ca all authority in
      let authority' : c.authority ≡ some done =
        load_config-authority std cfg c loads ∙ ap (map_ca (completed_ca all)) given in
      let (m, labelled) =
        by_label-IsMade (new_issuer c.profiles) c done a label (some ca) authority' made found in
      let (q, chosen, conforms) = sign-Conforms std ca now random req t signs in
      let name = or_default req.profile in
      let profiles =
        new_issuer-profiles c.profiles (record m.source { aia = some m.aia }) ca m.makes in
      let (at, listed) =
        selected-lookup m.source.profiles c.profiles name q
          (ap (lookup name) (sym profiles) ∙ chosen) in
      let (p, from, valid) = load_config-IsValidated std cfg c good loads name q at in
      let inside : Memᴰ m.source (completed_issuers (some default) all authority.issuers) =
        subst (λ o. Memᴰ m.source (completed_issuers o all authority.issuers)) aia m.listed in
      let mine = listed-profiles default all authority.issuers m.source inside in
      let only = length authority.issuers == 1 in
      let (p', from', t') =
        issuer_profiles-takes only m.source.label all (with_default-IsMap cfg.profiles unique) name
          (subst (Memᴰ name) mine listed) in
      let both : some p' ≡ some p = sym from' ∙ from in
      let same : p' ≡ p = cc both in
      let taken =
        takes-label only m.source.label p
          (subst (λ r. takes only m.source.label r ≡ true) same t') in
      (
        p,
        q,
        from,
        subst (λ l. (p.issuer_label ≡ l) ⊎ ((p.issuer_label ≡ []) × (only ≡ true))) labelled taken,
        valid,
        conforms,
      )
