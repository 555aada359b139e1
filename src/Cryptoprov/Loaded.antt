-- ===== src/Cryptoprov/Loaded.antt =====
-- What `Load` of xpki/cryptoprov/loader.go makes: each provider is found by its manufacturer.
use dolly.Prelude.{
  ◌≡◌, refl, ap, sym, ◌∙◌, true, false, ◌⊎◌, inl, inr, Option, none, some, List, [], ◌∷◌, ◌++◌, Str,
  codes, str_eq, str_eq_iff, str_eq_refl, Assoc, lookup, insert, lookup-insert, if◌then◌else◌,
  Result, ok, guard, bind-ok, guard-ok, All, Bool-cases,
}
use dolly.Cryptoprov.{
  Crypto, is_missing, add, add_all, new, by_manufacturer, load_provider, load_all, load,
}
use dolly.Cryptoprov.Registry.{is_missing-none}

module _ {Provider : Type 0} (manufacturer_of : Provider → Str) where
  -- What a successful `Add` has checked and done.
  pub add-insert :
      (p : Provider) (c d : Crypto Provider)
      → add manufacturer_of p c ≡ ok d
      → (lookup (manufacturer_of p) c.by_manufacturer ≡ none)
        × (d ≡ record c { by_manufacturer = insert (manufacturer_of p) p c.by_manufacturer })
  unfolding add
  add-insert p c d h =
      let text = codes "duplicate provider specified for manufacturer: " ++ manufacturer_of p in
      let missing = is_missing (manufacturer_of p) c.by_manufacturer in
      let (u, a, h1) = bind-ok (guard missing text) _ d h in
      let same : record c { by_manufacturer = insert (manufacturer_of p) p c.by_manufacturer } ≡ d =
        cc h1 in
      (is_missing-none (manufacturer_of p) c.by_manufacturer (guard-ok missing text u a), sym same)

  -- A provider that is found stays where it is when another is added.
  add-lookup :
      (p q : Provider) (c d : Crypto Provider) (m : Str)
      → add manufacturer_of p c ≡ ok d
      → lookup m c.by_manufacturer ≡ some q
      → lookup m d.by_manufacturer ≡ some q
  add-lookup p q c d m h found =
      let (missing, same) = add-insert p c d h in
      ap (λ x. lookup m x.by_manufacturer) same
      ∙ lookup-insert (manufacturer_of p) m p c.by_manufacturer
      ∙ go missing (Bool-cases (str_eq (manufacturer_of p) m))
    where
      go :
          lookup (manufacturer_of p) c.by_manufacturer ≡ none
          → (str_eq (manufacturer_of p) m ≡ true) ⊎ (str_eq (manufacturer_of p) m ≡ false)
          → (if str_eq (manufacturer_of p) m then some p else lookup m c.by_manufacturer) ≡ some q
      go missing (inl e) =
          let clash : none ≡ some q =
            sym missing
            ∙ ap (λ k. lookup k c.by_manufacturer) ((str_eq_iff (manufacturer_of p) m).0 e)
            ∙ found in
          absurd (cc clash)
      go missing (inr e) = rw (e) found

  lookup-add :
      (p : Provider) (c d : Crypto Provider)
      → add manufacturer_of p c ≡ ok d
      → lookup (manufacturer_of p) d.by_manufacturer ≡ some p
  lookup-add p c d h =
      ap (λ x. lookup (manufacturer_of p) x.by_manufacturer) (add-insert p c d h).1
      ∙ lookup-insert (manufacturer_of p) (manufacturer_of p) p c.by_manufacturer
      ∙ rw (str_eq_refl (manufacturer_of p)) refl

  module _ {TokenConfig : Type 0} (load_token_config : Str → Result TokenConfig)
      (config_manufacturer : TokenConfig → Str)
      (loaders : Assoc (TokenConfig → Result Provider)) where
    -- What is loaded from a location, kept in a map, and of a manufacturer that another map misses.
    abbrev IsLoaded : Assoc Provider → Assoc Provider → Str → Type 0
    IsLoaded before after location =
        (p : Provider) × (load_provider manufacturer_of load_token_config config_manufacturer
            loaders location
          ≡ ok p)
        × (lookup (manufacturer_of p) before ≡ none)
        × (lookup (manufacturer_of p) after ≡ some p)

    load_all-lookup :
        (configs : List Str) (c d : Crypto Provider) (m : Str) (q : Provider)
        → load_all manufacturer_of load_token_config config_manufacturer loaders configs c ≡ ok d
        → lookup m c.by_manufacturer ≡ some q
        → lookup m d.by_manufacturer ≡ some q
    unfolding load_all
    load_all-lookup [] c d m q h found =
        let same : c ≡ d = cc h in ap (λ x. lookup m x.by_manufacturer) (sym same) ∙ found
    load_all-lookup (location ∷ configs) c d m q h found =
        let (p, a, h1) =
          bind-ok
            (load_provider manufacturer_of load_token_config config_manufacturer loaders location) _
            d h in
        let (e, b, h2) = bind-ok (add manufacturer_of p c) _ d h1 in
        load_all-lookup configs e d m q h2 (add-lookup p q c e m b found)

    load_all-provider :
        (configs : List Str) (c d : Crypto Provider)
        → load_all manufacturer_of load_token_config config_manufacturer loaders configs c ≡ ok d
        → d.provider ≡ c.provider
    unfolding load_all
    load_all-provider [] c d h = let same : c ≡ d = cc h in ap (λ x. x.provider) (sym same)
    load_all-provider (location ∷ configs) c d h =
        let (p, a, h1) =
          bind-ok
            (load_provider manufacturer_of load_token_config config_manufacturer loaders location) _
            d h in
        let (e, b, h2) = bind-ok (add manufacturer_of p c) _ d h1 in
        load_all-provider configs e d h2 ∙ ap (λ x. x.provider) (add-insert p c e b).1

    missing-before :
        (p : Provider) (c d : Crypto Provider) (m : Str)
        → add manufacturer_of p c ≡ ok d
        → lookup m d.by_manufacturer ≡ none
        → lookup m c.by_manufacturer ≡ none
    missing-before p c d m h gone = go (lookup m c.by_manufacturer) refl
      where
        go : (o : Option Provider) → lookup m c.by_manufacturer ≡ o → o ≡ none
        go none e = refl
        go (some q) e =
            let clash : none ≡ some q = sym gone ∙ add-lookup p q c d m h e in absurd (cc clash)

    load_all-IsLoaded :
        (configs : List Str) (b c d : Crypto Provider)
        → ((m : Str) → lookup m c.by_manufacturer ≡ none → lookup m b.by_manufacturer ≡ none)
        → load_all manufacturer_of load_token_config config_manufacturer loaders configs c ≡ ok d
        → All (IsLoaded b.by_manufacturer d.by_manufacturer) configs
    unfolding load_all
    load_all-IsLoaded [] b c d older h = tt
    load_all-IsLoaded (location ∷ configs) b c d older h =
        let (p, a, h1) =
          bind-ok
            (load_provider manufacturer_of load_token_config config_manufacturer loaders location) _
            d h in
        let (e, added, h2) = bind-ok (add manufacturer_of p c) _ d h1 in
        (
          (
            p,
            a,
            older (manufacturer_of p) (add-insert p c e added).0,
            load_all-lookup configs e d (manufacturer_of p) p h2 (lookup-add p c e added),
          ),
          load_all-IsLoaded configs b e d (λ m gone. older m (missing-before p c e m added gone))
              h2,
        )

    -- What `Load` loads from a location is found by its manufacturer.
    abbrev pub IsFound : Crypto Provider → Str → Type 0
    IsFound c location =
        (p : Provider) × (load_provider manufacturer_of load_token_config config_manufacturer
            loaders location
          ≡ ok p)
        × (by_manufacturer manufacturer_of (manufacturer_of p) c ≡ ok p)

    by_manufacturer-IsFound :
        (d : Provider) (c : Crypto Provider) (b : Assoc Provider)
        → c.provider ≡ some d
        → lookup (manufacturer_of d) b ≡ some d
        → (locations : List Str) → All (IsLoaded b c.by_manufacturer) locations
        → All (IsFound c) locations
    unfolding by_manufacturer
    by_manufacturer-IsFound d c b default kept [] all = tt
    by_manufacturer-IsFound d c b default kept (location ∷ locations)
          ((p, loads, missing, here), all) =
        (
          (p, loads, go (Bool-cases (str_eq (manufacturer_of d) (manufacturer_of p)))),
          by_manufacturer-IsFound d c b default kept locations all,
        )
      where
        go :
            (str_eq (manufacturer_of d) (manufacturer_of p) ≡ true)
              ⊎ (str_eq (manufacturer_of d) (manufacturer_of p) ≡ false)
            → by_manufacturer manufacturer_of (manufacturer_of p) c ≡ ok p
        go (inl e) =
            let clash : none ≡ some d =
              sym missing
              ∙ ap (λ m. lookup m b)
                  (sym ((str_eq_iff (manufacturer_of d) (manufacturer_of p)).0 e))
              ∙ kept in
            absurd (cc clash)
        go (inr e) = rw (default, e, here) refl

    -- If `Load` succeeds, a provider is loaded from the default location and from each of the other
    -- locations, and `ByManufacturer` finds each of them by its manufacturer.
    pub load-IsFound :
        (default_config : Str) (configs : List Str) (c : Crypto Provider)
        → load manufacturer_of load_token_config config_manufacturer loaders default_config configs
          ≡ ok c
        → All (IsFound c) (default_config ∷ configs)
    unfolding load new add_all by_manufacturer
    load-IsFound default_config configs c h =
        let (d, a, h1) =
          bind-ok
            (load_provider manufacturer_of load_token_config config_manufacturer loaders
              default_config)
            _ c h in
        let empty : Crypto Provider = record { provider = some d; by_manufacturer = [] } in
        let (e, added, h2) = bind-ok (add manufacturer_of d empty) _ c h1 in
        let default : c.provider ≡ some d =
          load_all-provider configs e c h2 ∙ ap (λ x. x.provider) (add-insert d empty e added).1 in
        (
          (d, a, rw (default, str_eq_refl (manufacturer_of d)) refl),
          by_manufacturer-IsFound d c e.by_manufacturer default (lookup-add d empty e added) configs
              (load_all-IsLoaded configs e e c (λ m gone. gone) h2),
        )
