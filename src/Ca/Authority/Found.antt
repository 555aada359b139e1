-- ===== src/Ca/Authority/Found.antt =====
-- The issuers that an authority of xpki/authority/authority.go finds are made of its configuration.
use mathlib.Core.Path.{subst}
use mathlib.Core.List.{Memᴰ}
use dolly.Prelude.{
  ◌≡◌, refl, ap, sym, ◌∙◌, Bool, true, false, ◌⊎◌, inl, inr, Option, some, List, [], ◌∷◌, Str,
  str_eq, str_eq_iff, Assoc, lookup, insert, lookup-insert, if◌then◌else◌, Result, ok, ◌>>=◌,
  bind-ok,
}
use dolly.Ca.Config.{AiaConfig, IssuerConfig, CaConfig, Config, get_disabled}
use dolly.Ca.Authority.{
  Authority, filled_aia, register, added, add_issuers, new_authority, get_issuer_by_label,
  get_issuer_by_profile,
}

module _ {Issuer : Type 0} (new_issuer : IssuerConfig → Result Issuer) where
  -- What `NewIssuer` makes of an enabled issuer of the configuration, its `AIA` filled in.
  pub record IsMade (default : Option AiaConfig) (issuers : List IssuerConfig) (issuer : Issuer)
      : Type 0 where
    pub source : IssuerConfig
    pub aia : AiaConfig
    pub listed : Memᴰ source issuers
    pub enabled : get_disabled source ≡ false
    pub fills : filled_aia default source.aia ≡ ok aia
    pub makes : new_issuer (record source { aia = some aia }) ≡ ok issuer

  -- Every issuer of an authority is made of one that is listed.
  abbrev IsBacked : Option AiaConfig → List IssuerConfig → Authority Issuer → Type 0
  IsBacked default issuers a =
      ((label : Str) (issuer : Issuer)
        → lookup label a.issuers ≡ some issuer
        → (m : IsMade default issuers issuer) × (m.source.label ≡ label))
      × ((name : Str) (issuer : Issuer)
          → lookup name a.issuers_by_profile ≡ some issuer
          → (m : IsMade default issuers issuer) × Memᴰ name m.source.profiles)

  register-lookup :
      (names : List Str) (issuer : Issuer) (m : Assoc Issuer) (name : Str) (found : Issuer)
      → lookup name (register new_issuer names issuer m) ≡ some found
      → ((issuer ≡ found) × Memᴰ name names) ⊎ (lookup name m ≡ some found)
  unfolding register
  register-lookup [] issuer m name found h = inr h
  register-lookup (n ∷ names) issuer m name found h =
      elim (register-lookup names issuer (insert n issuer m) name found h) [
        | inl (e, k) ↦ inl (e, Memᴰ.tail k)
        | inr e ↦ go (str_eq n name) refl (sym (lookup-insert n name issuer m) ∙ e)
      ]
    where
      go :
          (b : Bool)
          → str_eq n name ≡ b
          → (if b then some issuer else lookup name m) ≡ some found
          → ((issuer ≡ found) × Memᴰ name (n ∷ names)) ⊎ (lookup name m ≡ some found)
      go true same e = inl (cc e, Memᴰ.head (sym ((str_eq_iff n name).0 same)))
      go false same e = inr e

  added-IsBacked :
      (default : Option AiaConfig) (all : List IssuerConfig) (a : Authority Issuer)
      (isscfg : IssuerConfig) (issuer : Issuer) (m : IsMade default all issuer)
      → m.source ≡ isscfg
      → IsBacked default all a
      → IsBacked default all (added new_issuer isscfg issuer a)
  added-IsBacked default all a isscfg issuer m same (by_label, by_profile) = (
    λ label found h.
        labelled (str_eq isscfg.label label) label found refl
          (sym (lookup-insert isscfg.label label issuer a.issuers) ∙ h),
    λ name found h.
        named name found (register-lookup isscfg.profiles issuer a.issuers_by_profile name found h),
  )
    where
      labelled :
          (b : Bool) (label : Str) (found : Issuer)
          → str_eq isscfg.label label ≡ b
          → (if b then some issuer else lookup label a.issuers) ≡ some found
          → (k : IsMade default all found) × (k.source.label ≡ label)
      labelled true label found e h =
          let here : issuer ≡ found = cc h in
          subst (λ i. (k : IsMade default all i) × (k.source.label ≡ label)) here
            (m, ap (λ i. i.label) same ∙ (str_eq_iff isscfg.label label).0 e)
      labelled false label found e h = by_label label found h

      named :
          (name : Str) (found : Issuer)
          → ((issuer ≡ found) × Memᴰ name isscfg.profiles)
            ⊎ (lookup name a.issuers_by_profile ≡ some found)
          → (k : IsMade default all found) × Memᴰ name k.source.profiles
      named name found (inl (here, k)) =
          subst (λ i. (k : IsMade default all i) × Memᴰ name k.source.profiles) here
            (m, subst (λ i. Memᴰ name i.profiles) (sym same) k)
      named name found (inr h) = by_profile name found h

  add_issuers-IsBacked :
      (default : Option AiaConfig) (all issuers : List IssuerConfig) (a b : Authority Issuer)
      → ((i : IssuerConfig) → Memᴰ i issuers → Memᴰ i all)
      → add_issuers new_issuer default issuers a ≡ ok b
      → IsBacked default all a
      → IsBacked default all b
  unfolding add_issuers
  add_issuers-IsBacked default all [] a b inside h k =
      let same : a ≡ b = cc h in subst (IsBacked default all) same k
  add_issuers-IsBacked default all (isscfg ∷ issuers) a b inside h k =
      go (get_disabled isscfg) refl h
        (λ c. add_issuers-IsBacked default all issuers c b (λ i m. inside i (Memᴰ.tail m)))
    where
      go :
          (disabled : Bool)
          → get_disabled isscfg ≡ disabled
          → (if disabled
              then add_issuers new_issuer default issuers a
              else (filled_aia default isscfg.aia >>= (λ aia.
                  new_issuer (record isscfg { aia = some aia }) >>= (λ issuer.
                    add_issuers new_issuer default issuers (added new_issuer isscfg issuer a)))))
            ≡ ok b
          → ((c : Authority Issuer)
              → add_issuers new_issuer default issuers c ≡ ok b
              → IsBacked default all c
              → IsBacked default all b)
          → IsBacked default all b
      go true e h ih = ih a h k
      go false e h ih =
          let (aia, fills, h1) = bind-ok (filled_aia default isscfg.aia) _ b h in
          let (issuer, makes, h2) =
            bind-ok (new_issuer (record isscfg { aia = some aia })) _ b h1 in
          ih (added new_issuer isscfg issuer a) h2 (
            added-IsBacked default all a isscfg issuer
              (record {
                source = isscfg;
                aia = aia;
                listed = inside isscfg (Memᴰ.head refl);
                enabled = e;
                fills = fills;
                makes = makes;
              })
              refl k)

  new_authority-IsBacked :
      (cfg : Config) (ca : CaConfig) (a : Authority Issuer)
      → cfg.authority ≡ some ca
      → new_authority new_issuer cfg ≡ ok a
      → IsBacked ca.default_aia ca.issuers a
  unfolding new_authority lookup
  new_authority-IsBacked cfg ca a given h =
      let empty : Authority Issuer = record { issuers = []; issuers_by_profile = [] } in
      let opened = sym (rw (given, new_authority) refl) ∙ h in
      add_issuers-IsBacked ca.default_aia ca.issuers ca.issuers empty a (λ i m. m) opened
        (λ label issuer e. absurd (cc e), λ name issuer e. absurd (cc e))

  pub by_label-IsMade :
      (cfg : Config) (ca : CaConfig) (a : Authority Issuer) (label : Str) (issuer : Issuer)
      → cfg.authority ≡ some ca
      → new_authority new_issuer cfg ≡ ok a
      → get_issuer_by_label label a ≡ some issuer
      → (m : IsMade ca.default_aia ca.issuers issuer) × (m.source.label ≡ label)
  unfolding get_issuer_by_label
  by_label-IsMade cfg ca a label issuer given h found =
      (new_authority-IsBacked cfg ca a given h).0 label issuer found

  -- The issuer that an authority finds by a profile's name is what `NewIssuer` makes of an issuer of
  -- the configuration that is not disabled and lists the profile, its `AIA` filled in from the default
  -- one.
  pub by_profile-IsMade :
      (cfg : Config) (ca : CaConfig) (a : Authority Issuer) (name : Str) (issuer : Issuer)
      → cfg.authority ≡ some ca
      → new_authority new_issuer cfg ≡ ok a
      → get_issuer_by_profile name a ≡ some issuer
      → (m : IsMade ca.default_aia ca.issuers issuer) × Memᴰ name m.source.profiles
  unfolding get_issuer_by_profile
  by_profile-IsMade cfg ca a name issuer given h found =
      (new_authority-IsBacked cfg ca a given h).1 name issuer found
