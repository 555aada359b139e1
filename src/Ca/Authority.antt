-- ===== src/Ca/Authority.antt =====
-- xpki/authority/authority.go: the issuers of an authority, by their labels and by profiles. What
-- `NewIssuer` makes of an issuer's configuration (it reads keys and certificates) is a parameter.
pub mod Found
use dolly.Prelude.{
  ℕ, Bool, true, false, Option, none, some, List, [], ◌∷◌, Str, codes, str_eq, Assoc, lookup,
  insert, ◌==◌, if◌then◌else◌, Result, ok, err, panic, ◌>>=◌, or_err,
}
use dolly.Ca.Config.{
  AiaConfig, IssuerConfig, CaConfig, Config, get_crl_expiry, get_ocsp_expiry, get_crl_renewal,
  get_disabled, or_text, or_zero,
}

pub record Authority (Issuer : Type 0) : Type 0 where
  pub issuers : Assoc Issuer
  pub issuers_by_profile : Assoc Issuer

-- The AIA of a copied issuer configuration, filled in: `Copy` of a nil default panics, and so does
-- the reading of its fields.
abbrev pub field_of : (AiaConfig → Str) → Option AiaConfig → Result Str
field_of f none = panic
field_of f (some default) = ok (f default)

abbrev pub text_or : (AiaConfig → Str) → Option AiaConfig → Str → Result Str
text_or f default s = if str_eq s [] then field_of f default else ok s

abbrev pub own_or_copy : Option AiaConfig → Option AiaConfig → Result AiaConfig
own_or_copy default (some aia) = ok aia
own_or_copy (some default) none = ok default
own_or_copy none none = panic

unfoldable pub filled_aia : Option AiaConfig → Option AiaConfig → Result AiaConfig
unfolding get_crl_expiry get_ocsp_expiry get_crl_renewal
filled_aia default own = do
  aia ← own_or_copy default own
  crl_url ← text_or (λ a. a.crl_url) default aia.crl_url
  ocsp_url ← text_or (λ a. a.ocsp_url) default aia.ocsp_url
  aia_url ← text_or (λ a. a.aia_url) default aia.aia_url
  ok (record {
    aia_url = aia_url;
    ocsp_url = ocsp_url;
    crl_url = crl_url;
    crl_expiry = or_zero aia.crl_expiry (get_crl_expiry default);
    ocsp_expiry = or_zero aia.ocsp_expiry (get_ocsp_expiry default);
    crl_renewal = or_zero aia.crl_renewal (get_crl_renewal default);
  })

module _ {Issuer : Type 0} (new_issuer : IssuerConfig → Result Issuer) where
  -- for profileName := range isscfg.Profiles { … }
  unfoldable pub register : List Str → Issuer → Assoc Issuer → Assoc Issuer
  register [] issuer by_profile = by_profile
  register (name ∷ names) issuer by_profile = register names issuer (insert name issuer by_profile)

  abbrev pub added : IssuerConfig → Issuer → Authority Issuer → Authority Issuer
  added isscfg issuer ca = record {
    issuers = insert isscfg.label issuer ca.issuers;
    issuers_by_profile = register isscfg.profiles issuer ca.issuers_by_profile;
  }

  -- The loop of `NewAuthority` over the issuers
  unfoldable pub add_issuers :
      Option AiaConfig → List IssuerConfig → Authority Issuer → Result (Authority Issuer)
  unfolding filled_aia register
  add_issuers default [] ca = ok ca
  add_issuers default (isscfg ∷ issuers) ca =
      if get_disabled isscfg then add_issuers default issuers ca else (do
        aia ← filled_aia default isscfg.aia
        issuer ← new_issuer (record isscfg { aia = some aia })
        add_issuers default issuers (added isscfg issuer ca))

  -- `NewAuthority`
  unfoldable pub new_authority : Config → Result (Authority Issuer)
  unfolding add_issuers
  new_authority cfg = do
    ca ← or_err (codes "missing Authority configuration") cfg.authority
    add_issuers ca.default_aia ca.issuers (record { issuers = []; issuers_by_profile = [] })

-- `GetIssuerByLabel`
unfoldable pub get_issuer_by_label : {Issuer : Type 0} → Str → Authority Issuer → Option Issuer
get_issuer_by_label label s = lookup label s.issuers

-- `GetIssuerByProfile`
unfoldable pub get_issuer_by_profile : {Issuer : Type 0} → Str → Authority Issuer → Option Issuer
get_issuer_by_profile profile s = lookup profile s.issuers_by_profile
