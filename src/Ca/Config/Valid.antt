-- ===== src/Ca/Config/Valid.antt =====
-- What `Validate` of the configuration in xpki/authority/config.go makes sure of, and where it stops
-- short.
use mathlib.Core.Path.{subst}
use dolly.Prelude.{
  ◌≡◌, ◌≢◌, refl, ap, sym, ◌∙◌, Bool, true, false, not, ◌&&◌, ◌⊎◌, inl, inr, Option, none, some,
  List, [], ◌∷◌, ◌++◌, map, length, Str, codes, str_eq, str_eq_iff, Assoc, lookup, insert, ◌==◌,
  if◌then◌else◌, ok, guard, Result, bind-ok, All, arith, Bool-cases,
}
use dolly.GoText.{is_empty}
use dolly.Slices.{contains_string}
use dolly.Ca.Std.{Std}
use dolly.Ca.Profile.{CertProfile, default_cert_profile, validate_profile}
use dolly.Ca.Config.{
  AiaConfig, IssuerConfig, CaConfig, completed_issuer, completed_issuers, completed_ca, map_ca,
  Config, with_default, completed, labels_of, validate_profiles, validate_config, load_config,
}
use dolly.Ca.Config.Compiled.{IsFresh, IsValidated, validate_profile-IsValidated}

-- A profile that names no issuer, or one of the configuration.
abbrev pub IsPlaced : List Str → CertProfile → Type 0
IsPlaced issuers p = (p.issuer_label ≡ []) ⊎ (contains_string issuers p.issuer_label ≡ true)

module _ (std : Std) where
  -- The test of `Validate` for a profile whose issuer is missing.
  not_misplaced :
      (issuers : List Str) (p : CertProfile)
      → IsPlaced issuers p
      → (not (str_eq p.issuer_label []) && not (contains_string issuers p.issuer_label)) ≡ false
  not_misplaced issuers p (inl e) = rw ((str_eq_iff p.issuer_label []).1 e) refl
  not_misplaced issuers p (inr e) = ground (arith, e)

  -- The profiles that a map holds, each validated.
  validate_profiles-lookup :
      (issuers : List Str) (ps qs : Assoc CertProfile)
      → All (λ e. IsFresh e.1 × IsPlaced issuers e.1) ps
      → validate_profiles std issuers ps ≡ ok qs
      → (name : Str) (q : CertProfile) → lookup name qs ≡ some q
      → (p : CertProfile) × (lookup name ps ≡ some p) × IsValidated std p q
  unfolding validate_profiles lookup
  validate_profiles-lookup issuers [] qs k h name q found =
      let same : [] ≡ qs = cc h in
      let nothing : none ≡ some q = ap (lookup name) same ∙ found in absurd (cc nothing)
  validate_profiles-lookup issuers ((j, p) ∷ ps) qs ((fresh, placed), k) h name q found =
      let (p', a, h1) = bind-ok (validate_profile std p) _ qs h in
      let valid = validate_profile-IsValidated std p p' fresh a in
      let label = ap (λ r. r.issuer_label) (valid.7) in
      let placed' = subst (λ l. (l ≡ []) ⊎ (contains_string issuers l ≡ true)) (sym label) placed in
      let (rest, b, h2) =
        bind-ok
          (if not (str_eq p'.issuer_label []) && not (contains_string issuers p'.issuer_label)
            then ok ps
            else validate_profiles std issuers ps)
          _ qs h1 in
      let checked : validate_profiles std issuers ps ≡ ok rest =
        sym (rw (not_misplaced issuers p' placed') refl) ∙ b in
      let same : ((j, p') ∷ rest) ≡ qs = cc h2 in
      let here = ap (lookup name) same ∙ found in
      go (str_eq j name) p' valid rest here
        (validate_profiles-lookup issuers ps rest k checked name q)
    where
      go :
          (b : Bool) (p' : CertProfile)
          → IsValidated std p p'
          → (rest : Assoc CertProfile) → (if b then some p' else lookup name rest) ≡ some q
          → (lookup name rest ≡ some q
              → (r : CertProfile) × (lookup name ps ≡ some r) × IsValidated std r q)
          → (r : CertProfile) × ((if b then some p else lookup name ps) ≡ some r)
            × IsValidated std r q
      go true p' valid rest e ih =
          let same : p' ≡ q = cc e in (p, refl, subst (IsValidated std p) same valid)
      go false p' valid rest e ih = ih e

  All-insert :
      {V : Type 0} (P : V → Type 0) (k : Str) (v : V) (m : Assoc V)
      → P v
      → All (λ e. P e.1) m
      → All (λ e. P e.1) (insert k v m)
  unfolding insert
  All-insert P k v [] h all = (h, tt)
  All-insert P k v ((j, w) ∷ m) h (first, all) = go (str_eq j k) (All-insert P k v m h all)
    where
      go :
          (b : Bool)
          → All (λ e. P e.1) (insert k v m)
          → All (λ e. P e.1) (if b then (k, v) ∷ m else (j, w) ∷ insert k v m)
      go true rest = (h, all)
      go false rest = (first, rest)

  All-with_default :
      (P : CertProfile → Type 0) (o : Option CertProfile) (m : Assoc CertProfile)
      → P default_cert_profile
      → All (λ e. P e.1) m
      → All (λ e. P e.1) (with_default o m)
  All-with_default P none m h all = All-insert P (codes "default") default_cert_profile m h all
  All-with_default P (some p) m h all = all

  labels_of-issuers :
      (default : AiaConfig) (only : Bool) (profiles : Assoc CertProfile)
      (issuers : List IssuerConfig)
      → map (λ iss. iss.label) (map (completed_issuer default only profiles) issuers)
        ≡ map (λ iss. iss.label) issuers
  unfolding completed_issuer
  labels_of-issuers default only profiles [] = refl
  labels_of-issuers default only profiles (iss ∷ issuers) =
      ap (λ ls. iss.label ∷ ls) (labels_of-issuers default only profiles issuers)

  labels_of-completed_issuers :
      (o : Option AiaConfig) (profiles : Assoc CertProfile) (issuers : List IssuerConfig)
      → map (λ iss. iss.label) (completed_issuers o profiles issuers)
        ≡ map (λ iss. iss.label) issuers
  unfolding completed_issuers
  labels_of-completed_issuers none profiles issuers = refl
  labels_of-completed_issuers (some default) profiles issuers =
      labels_of-issuers default (length issuers == 1) profiles issuers

  labels_of-completed_ca :
      (profiles : Assoc CertProfile) (o : Option CaConfig)
      → labels_of (map_ca (completed_ca profiles) o) ≡ labels_of o
  labels_of-completed_ca profiles none = refl
  labels_of-completed_ca profiles (some ca) =
      labels_of-completed_issuers ca.default_aia profiles ca.issuers

  -- If `LoadConfig` takes a configuration as it is decoded, whose profiles name no issuer or one of the
  -- configuration, each profile of the result is a profile of the decoded configuration, or the
  -- default one if that has none, with an expiry and usages, no unknown usage, and unchanged but for
  -- its rules, each of which is compiled unless it is empty.
  pub load_config-IsValidated :
      (cfg c : Config)
      → All (λ e. IsFresh e.1 × IsPlaced (labels_of cfg.authority) e.1) cfg.profiles
      → load_config std cfg ≡ ok c
      → (name : Str) (q : CertProfile) → lookup name c.profiles ≡ some q
      → (p : CertProfile) × (lookup name
            (with_default (lookup (codes "default") cfg.profiles) cfg.profiles)
          ≡ some p)
        × IsValidated std p q
  unfolding load_config validate_config completed
  load_config-IsValidated cfg c k h name q found =
      let all = with_default (lookup (codes "default") cfg.profiles) cfg.profiles in
      let absent =
        guard (not (is_empty cfg.profiles)) (codes "no \"profiles\" configuration present") in
      let (v, a, h1) = bind-ok absent _ c h in
      let (ps, b, h2) =
        bind-ok (validate_profiles std (labels_of (completed cfg).authority) all) _ c h1 in
      let same : record (completed cfg) { profiles = ps } ≡ c = cc h2 in
      let labels = sym (labels_of-completed_ca all cfg.authority) in
      let good =
        All-with_default (λ p. IsFresh p × IsPlaced (labels_of cfg.authority) p)
          (lookup (codes "default") cfg.profiles) cfg.profiles ((refl, refl, refl, refl), inl refl)
          k in
      validate_profiles-lookup (labels_of (completed cfg).authority) all ps
        (subst (λ ls. All (λ e. IsFresh e.1 × IsPlaced ls e.1) all) labels good) b name q
        (ap (λ d. lookup name d.profiles) same ∙ found)

  pub load_config-authority :
      (cfg c : Config)
      → load_config std cfg ≡ ok c
      → c.authority
        ≡ map_ca
            (completed_ca (with_default (lookup (codes "default") cfg.profiles) cfg.profiles))
            cfg.authority
  unfolding load_config validate_config completed
  load_config-authority cfg c h =
      let all = with_default (lookup (codes "default") cfg.profiles) cfg.profiles in
      let absent =
        guard (not (is_empty cfg.profiles)) (codes "no \"profiles\" configuration present") in
      let (v, a, h1) = bind-ok absent _ c h in
      let (ps, b, h2) =
        bind-ok (validate_profiles std (labels_of (completed cfg).authority) all) _ c h1 in
      let same : record (completed cfg) { profiles = ps } ≡ c = cc h2 in
      ap (λ d. d.authority) (sym same)

  validate_profiles-misplaced :
      (issuers : List Str) (name : Str) (p q : CertProfile) (before done later : Assoc CertProfile)
      → validate_profiles std issuers before ≡ ok done
      → All (λ e. IsPlaced issuers e.1) done
      → validate_profile std p ≡ ok q
      → q.issuer_label ≢ []
      → contains_string issuers q.issuer_label ≡ false
      → validate_profiles std issuers (before ++ (name, p) ∷ later) ≡ ok (done ++ (name, q) ∷ later)
  unfolding validate_profiles
  validate_profiles-misplaced issuers name p q [] done later h placed valid label missing =
      let none_done : [] ≡ done = cc h in
      elim (Bool-cases (str_eq q.issuer_label [])) [
        | inl e ↦ absurd (label ((str_eq_iff q.issuer_label []).0 e))
        | inr e ↦ rw (valid, e, missing) (ap (λ d. ok (d ++ (name, q) ∷ later)) none_done)
      ]
  validate_profiles-misplaced issuers name p q ((n, b) ∷ before) done later h placed valid label
        missing =
      let (b', a, h1) = bind-ok (validate_profile std b) _ done h in
      let (rest, c, h2) =
        bind-ok
          (if not (str_eq b'.issuer_label []) && not (contains_string issuers b'.issuer_label)
            then ok before
            else validate_profiles std issuers before)
          _ done h1 in
      let same : ((n, b') ∷ rest) ≡ done = cc h2 in
      let all = subst (All (λ e. IsPlaced issuers e.1)) (sym same) placed in
      let checked : validate_profiles std issuers before ≡ ok rest =
        sym (rw (not_misplaced issuers b' all.0) refl) ∙ c in
      rw
        (
          a,
          not_misplaced issuers b' all.0,
          validate_profiles-misplaced issuers name p q before rest later checked all.1 valid label
              missing,
        )
        (ap (λ d. ok (d ++ (name, q) ∷ later)) same)

  -- A profile that names an issuer which the configuration does not have is not reported, if it is
  -- valid in itself, and `Validate` ends there without an error: behind any profiles that it accepts and
  -- that name no issuer or one that the configuration has, it stores this one, and the profiles after it, whatever they are, are neither checked nor are
  -- their rules compiled.
  pub validate-misplaced :
      (authority : Option CaConfig) (name : Str) (p q : CertProfile)
      (before done later : Assoc CertProfile)
      → validate_config std (record { authority = authority; profiles = before })
        ≡ ok (record { authority = authority; profiles = done })
      → All (λ e. IsPlaced (labels_of authority) e.1) done
      → validate_profile std p ≡ ok q
      → q.issuer_label ≢ []
      → contains_string (labels_of authority) q.issuer_label ≡ false
      → validate_config std
          (record { authority = authority; profiles = before ++ (name, p) ∷ later })
        ≡ ok (record { authority = authority; profiles = done ++ (name, q) ∷ later })
  unfolding validate_config
  validate-misplaced authority name p q before done later accepted placed valid label missing =
      let (ps, a, h) = bind-ok (validate_profiles std (labels_of authority) before) _ _ accepted in
      let same : ps ≡ done = ap profiles_of h in
      rw
        (validate_profiles-misplaced (labels_of authority) name p q before done later
          (a ∙ ap ok same) placed valid label missing)
        refl
    where
      profiles_of : Result Config → Assoc CertProfile
      profiles_of (ok c) = c.profiles
      profiles_of _ = []
