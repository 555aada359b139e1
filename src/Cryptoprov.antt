-- ===== src/Cryptoprov.antt =====
-- xpki/cryptoprov: the providers of a `Crypto` by their manufacturers (provider.go), and the registered
-- loaders that make them from configurations (loader.go). A provider, and what a loader and
-- `LoadTokenConfig` do, are parameters. The registry does not change
-- during a call: `Register` and `Unregister` hold its lock, but `LoadProvider` reads it without.
pub mod Uri
pub mod Loaded
pub mod Registry
pub mod Keys
pub mod Examples
use dolly.Prelude.{
  Bool, true, false, Option, none, some, List, [], ◌∷◌, ◌++◌, Str, codes, str_eq, Assoc, lookup,
  insert, if◌then◌else◌, Result, ok, err, ◌>>=◌, ◌>>◌, guard, or_err,
}

pub record Crypto (Provider : Type 0) : Type 0 where
  pub provider : Option Provider
  pub by_manufacturer : Assoc Provider

abbrev pub is_missing : {V : Type 0} → Str → Assoc V → Bool
is_missing k m = elim (lookup k m) [ none ↦ true | some v ↦ false ]

-- `delete` of a key of a map
unfoldable pub delete : {V : Type 0} → Str → Assoc V → Assoc V
delete k [] = []
delete k ((j, v) ∷ m) = let rest = delete k m in if str_eq j k then rest else (j, v) ∷ rest

module _ {Loader : Type 0} where
  -- `Register`, on the map `loaders`
  unfoldable pub register : Str → Loader → Assoc Loader → Result (Assoc Loader)
  register manufacturer loader loaders = do
    guard (is_missing manufacturer loaders) (codes "already registered: " ++ manufacturer)
    ok (insert manufacturer loader loaders)

  -- `Unregister`
  unfoldable pub unregister : Str → Assoc Loader → Result (Loader × Assoc Loader)
  unfolding delete
  unregister manufacturer loaders = do
    loader ← or_err (codes "not registered: " ++ manufacturer) (lookup manufacturer loaders)
    ok (loader, delete manufacturer loaders)

module _ {Provider : Type 0} (manufacturer_of : Provider → Str) where
  -- `Add`
  unfoldable pub add : Provider → Crypto Provider → Result (Crypto Provider)
  add p c = do
    guard (is_missing (manufacturer_of p) c.by_manufacturer)
        (codes "duplicate provider specified for manufacturer: " ++ manufacturer_of p)
    ok (record c { by_manufacturer = insert (manufacturer_of p) p c.by_manufacturer })

  unfoldable pub add_all : List Provider → Crypto Provider → Result (Crypto Provider)
  unfolding add
  add_all [] c = ok c
  add_all (p ∷ providers) c = do c' ← add p c; add_all providers c'

  -- `New`
  unfoldable pub new : Option Provider → List Provider → Result (Crypto Provider)
  unfolding add_all
  new default_provider providers =
      add_all providers (record { provider = default_provider; by_manufacturer = [] })

  -- `ByManufacturer`
  unfoldable pub by_manufacturer : Str → Crypto Provider → Result Provider
  by_manufacturer manufacturer c =
      let other =
        or_err (codes "provider for manufacturer not found: " ++ manufacturer)
          (lookup manufacturer c.by_manufacturer) in
      elim c.provider [
        | none ↦ other
        | some p ↦ if str_eq (manufacturer_of p) manufacturer then ok p else other
      ]

  module _ {TokenConfig : Type 0} (load_token_config : Str → Result TokenConfig)
      (config_manufacturer : TokenConfig → Str) where
    -- `LoadProvider`
    unfoldable pub load_provider : Assoc (TokenConfig → Result Provider) → Str → Result Provider
    load_provider loaders config_location = do
      tc ← load_token_config config_location
      loader ←
          or_err (codes "provider not registered: " ++ config_manufacturer tc)
            (lookup (config_manufacturer tc) loaders)
      loader tc

    -- for _, configLocation := range providersConfigs { … }
    unfoldable pub load_all :
        Assoc (TokenConfig → Result Provider)
        → List Str
        → Crypto Provider
        → Result (Crypto Provider)
    unfolding load_provider add
    load_all loaders [] c = ok c
    load_all loaders (config_location ∷ configs) c = do
      p ← load_provider loaders config_location
      c' ← add p c
      load_all loaders configs c'

    -- `Load`
    unfoldable pub load :
        Assoc (TokenConfig → Result Provider) → Str → List Str → Result (Crypto Provider)
    unfolding load_all new
    load loaders default_config providers_configs = do
      p ← load_provider loaders default_config
      c ← new (some p) []
      c' ← add p c
      load_all loaders providers_configs c'
