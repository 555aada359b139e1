-- ===== src/Cryptoprov/Keys.antt =====
-- What the parsers of xpki/cryptoprov/uri.go make of a URI, and which provider `LoadPrivateKey` of
-- utils.go asks for a key.
use mathlib.Core.Path.{subst}
use dolly.Prelude.{
  ◌≡◌, refl, ap, sym, ◌∙◌, Bool, true, false, not, ◌||◌, ◌⊎◌, inl, inr, Option, none, some, List,
  [], ◌∷◌, ◌++◌, Str, codes, str_eq, str_eq_iff, Assoc, lookup, lookup-insert, if◌then◌else◌,
  Result, ok, panic, ◌>>◌, guard, or_err, bind-ok, guard-ok, or_err-ok, arith, Bool-cases,
}
use dolly.GoText.{has_prefix, trim_space}
use dolly.Cryptoprov.{Crypto, add, add_all, new, by_manufacturer, load_all, load, load_provider}
use dolly.Cryptoprov.Loaded.{add-insert}
use dolly.Cryptoprov.Uri.{
  System, TokenConfig, KeyUri, set_if_present, trim_nul, attributes, token_of, key_of,
  is_incomplete, with_pin, parse_token_uri, parse_private_key_uri, key_of_uri, load_private_key,
}

complete :
    (private serial id : Bool)
    → not (not private || (serial || id)) ≡ true
    → (serial ≡ false) × (id ≡ false)
complete private serial id h = ground arith

module _ (sys : System) where
  -- A URI of a private key is one of a token too: if both parsers take it, and it gives no source of
  -- the pin, they agree on the serial and the label, and the key has an identifier and a serial. But
  -- only the key's manufacturer and model are trimmed: the token's are those of the URI as they stand.
  pub token-key :
      (uri : Str) (attr : Assoc (List Str)) (c : TokenConfig) (k : KeyUri)
      → attributes sys uri ≡ ok attr
      → set_if_present attr (codes "pin-source") [] ≡ []
      → parse_token_uri sys uri ≡ ok c
      → parse_private_key_uri sys uri ≡ ok k
      → (k.token_serial ≡ c.serial)
        × (k.token_label ≡ c.label)
        × (str_eq k.token_serial [] ≡ false)
        × (str_eq k.id [] ≡ false)
        × (k.manufacturer ≡ trim_space (trim_nul c.man))
        × (k.model ≡ trim_space c.model)
  unfolding parse_token_uri parse_private_key_uri
  token-key uri attr c k read no_pin token key =
      let pin = set_if_present attr (codes "pin-source") [] in
      let absent = (str_eq_iff pin []).1 no_pin in
      let opened : ok (token_of attr) ≡ ok c = sym (rw (read, absent) refl) ∙ token in
      let c' : token_of attr ≡ c = cc opened in
      let incomplete = is_incomplete (set_if_present attr (codes "type") []) (key_of attr) in
      let text = codes "invalid private key URI" in
      let tested : (guard (not incomplete) text >> ok (key_of attr)) ≡ ok k =
        sym (rw (read) refl) ∙ key in
      let (u, a, h) = bind-ok (guard (not incomplete) text) _ k tested in
      let k' : key_of attr ≡ k = cc h in
      let (serial, id) =
        complete (str_eq (set_if_present attr (codes "type") []) (codes "private"))
          (str_eq (key_of attr).token_serial []) (str_eq (key_of attr).id [])
          (guard-ok (not incomplete) text u a) in
      (
        ap (λ x. x.token_serial) (sym k') ∙ ap (λ x. x.serial) c',
        ap (λ x. x.token_label) (sym k') ∙ ap (λ x. x.label) c',
        ap (λ x. str_eq x.token_serial []) (sym k') ∙ serial,
        ap (λ x. str_eq x.id []) (sym k') ∙ id,
        ap (λ x. x.manufacturer) (sym k') ∙ ap (λ x. trim_space (trim_nul x.man)) c',
        ap (λ x. x.model) (sym k') ∙ ap (λ x. trim_space x.model) c',
      )

  -- A source of the pin that is no URL makes `ParseTokenURI` panic.
  pub bad_pin_source :
      (uri : Str) (attr : Assoc (List Str))
      → attributes sys uri ≡ ok attr
      → str_eq (set_if_present attr (codes "pin-source") []) [] ≡ false
      → sys.parse_url (set_if_present attr (codes "pin-source") []) ≡ none
      → parse_token_uri sys uri ≡ panic
  unfolding parse_token_uri with_pin
  bad_pin_source uri attr read given bad = rw (read, given, bad) refl

module _ {Provider : Type 0} (manufacturer_of : Provider → Str) where
  -- Each provider stands under its manufacturer.
  abbrev pub IsKeyed : Crypto Provider → Type 0
  IsKeyed c = (m : Str) (p : Provider) → lookup m c.by_manufacturer ≡ some p → manufacturer_of p ≡ m

  add-IsKeyed :
      (p : Provider) (c d : Crypto Provider)
      → add manufacturer_of p c ≡ ok d
      → IsKeyed c
      → IsKeyed d
  add-IsKeyed p c d h keyed m q found =
      let (missing, same) = add-insert manufacturer_of p c d h in
      let at =
        sym (lookup-insert (manufacturer_of p) m p c.by_manufacturer)
        ∙ ap (λ x. lookup m x.by_manufacturer) (sym same)
        ∙ found in
      go (Bool-cases (str_eq (manufacturer_of p) m)) at
    where
      go :
          (str_eq (manufacturer_of p) m ≡ true) ⊎ (str_eq (manufacturer_of p) m ≡ false)
          → (if str_eq (manufacturer_of p) m then some p else lookup m c.by_manufacturer) ≡ some q
          → manufacturer_of q ≡ m
      go (inl e) at =
          let here : some p ≡ some q = sym (rw (e) refl) ∙ at in
          let same : p ≡ q = cc here in
          ap manufacturer_of (sym same) ∙ (str_eq_iff (manufacturer_of p) m).0 e
      go (inr e) at = keyed m q (sym (rw (e) refl) ∙ at)

  by_manufacturer-keyed :
      (m : Str) (c : Crypto Provider) (p : Provider)
      → IsKeyed c
      → by_manufacturer manufacturer_of m c ≡ ok p
      → manufacturer_of p ≡ m
  unfolding by_manufacturer
  by_manufacturer-keyed m c p keyed h = go c.provider h
    where
      text : Str
      text = codes "provider for manufacturer not found: " ++ m

      go :
          (o : Option Provider)
          → elim o [
            | none ↦ or_err text (lookup m c.by_manufacturer)
            | some q ↦
                if str_eq (manufacturer_of q) m
                then ok q
                else or_err text (lookup m c.by_manufacturer)
          ]
            ≡ ok p
          → manufacturer_of p ≡ m
      go none e = keyed m p (or_err-ok text (lookup m c.by_manufacturer) p e)
      go (some q) e = elim (Bool-cases (str_eq (manufacturer_of q) m)) [
        | inl same ↦
            let here : ok q ≡ ok p = sym (rw (same) refl) ∙ e in
            let both : q ≡ p = cc here in
            ap manufacturer_of (sym both) ∙ (str_eq_iff (manufacturer_of q) m).0 same
        | inr other ↦
            keyed m p (or_err-ok text (lookup m c.by_manufacturer) p (sym (rw (other) refl) ∙ e))
      ]

  load_all-IsKeyed :
      {Config : Type 0} (load_token_config : Str → Result Config)
      (config_manufacturer : Config → Str) (loaders : Assoc (Config → Result Provider))
      (configs : List Str) (c d : Crypto Provider)
      → load_all manufacturer_of load_token_config config_manufacturer loaders configs c ≡ ok d
      → IsKeyed c
      → IsKeyed d
  unfolding load_all
  load_all-IsKeyed ltc cm loaders [] c d h keyed =
      let same : c ≡ d = cc h in subst IsKeyed same keyed
  load_all-IsKeyed ltc cm loaders (location ∷ configs) c d h keyed =
      let (p, a, h1) = bind-ok (load_provider manufacturer_of ltc cm loaders location) _ d h in
      let (e, b, h2) = bind-ok (add manufacturer_of p c) _ d h1 in
      load_all-IsKeyed ltc cm loaders configs e d h2 (add-IsKeyed p c e b keyed)

  load-IsKeyed :
      {Config : Type 0} (load_token_config : Str → Result Config)
      (config_manufacturer : Config → Str) (loaders : Assoc (Config → Result Provider))
      (default_config : Str) (configs : List Str) (c : Crypto Provider)
      → load manufacturer_of load_token_config config_manufacturer loaders default_config configs
        ≡ ok c
      → IsKeyed c
  unfolding load new add_all lookup
  load-IsKeyed ltc cm loaders default_config configs c h =
      let (d, a, h1) =
        bind-ok (load_provider manufacturer_of ltc cm loaders default_config) _ c h in
      let empty : Crypto Provider = record { provider = some d; by_manufacturer = [] } in
      let nothing : IsKeyed empty = λ m p found. absurd (cc found) in
      let (e, added, h2) =
        bind-ok (add manufacturer_of d empty)
          (λ x. load_all manufacturer_of ltc cm loaders configs x) c h1 in
      load_all-IsKeyed ltc cm loaders configs e c h2 (add-IsKeyed d empty e added nothing)

  -- If `Load` makes a `Crypto`, and `LoadPrivateKey` of it succeeds on a text that begins with
  -- `pkcs11`, the text is the URI of a private key, and the key is what the provider of the URI's
  -- manufacturer returns for the URI's identifier.
  pub load_private_key-named :
      {Config : Type 0} {Key : Type 0} (load_token_config : Str → Result Config)
      (config_manufacturer : Config → Str) (loaders : Assoc (Config → Result Provider))
      (default_config : Str) (configs : List Str) (c : Crypto Provider) (sys : System)
      (get_key : Provider → Str → Result Key) (parse_pem : Str → Result Key) (uri : Str)
      (found : Option Provider) (key : Key)
      → load manufacturer_of load_token_config config_manufacturer loaders default_config configs
        ≡ ok c
      → has_prefix uri (codes "pkcs11") ≡ true
      → load_private_key sys manufacturer_of get_key parse_pem c uri ≡ ok (found, key)
      → (p : Provider) × (k : KeyUri) × (found ≡ some p)
        × (parse_private_key_uri sys uri ≡ ok k)
        × (manufacturer_of p ≡ k.manufacturer)
        × (get_key p k.id ≡ ok key)
  unfolding load_private_key key_of_uri
  load_private_key-named {Key = Key} ltc cm loaders default_config configs c sys get_key parse_pem
        uri found key loads named h =
      let opened : key_of_uri sys manufacturer_of get_key parse_pem c uri ≡ ok (found, key) =
        sym (rw (named) refl) ∙ h in
      let (k, a, h1) = bind-ok (parse_private_key_uri sys uri) _ (found, key) opened in
      let (p, b, h2) =
        bind-ok (by_manufacturer manufacturer_of k.manufacturer c) _ (found, key) h1 in
      let (pvk, d, h3) = bind-ok (get_key p k.id) _ (found, key) h2 in
      let both : ◌≡◌ {A = Option Provider × Key} (some p, pvk) (found, key) = cc h3 in
      (
        p,
        k,
        ap (λ x. x.0) (sym both),
        a,
        by_manufacturer-keyed k.manufacturer c p
            (load-IsKeyed ltc cm loaders default_config configs c loads) b,
        d ∙ ap (λ x. ok x.1) both,
      )
