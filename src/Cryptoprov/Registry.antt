-- ===== src/Cryptoprov/Registry.antt =====
-- `Register` and `Unregister` of xpki/cryptoprov/loader.go.
use dolly.Prelude.{
  ◌≡◌, refl, ap, sym, ◌∙◌, true, false, ◌⊎◌, inl, inr, Option, none, some, [], ◌∷◌, ◌++◌, Str,
  codes, str_eq, str_eq_iff, str_eq_refl, Assoc, lookup, insert, lookup-insert, if◌then◌else◌, ok,
  bind-ok, guard-ok, arith, Bool-cases,
}
use dolly.Cryptoprov.{is_missing, delete, register, unregister}

module _ {V : Type 0} where
  pub lookup-delete :
      (k j : Str) (m : Assoc V) → lookup j (delete k m) ≡ (if str_eq k j then none else lookup j m)
  unfolding lookup delete
  lookup-delete k j [] = ground arith
  lookup-delete k j ((i, w) ∷ m) =
      ground (arith, str_eq_iff k j, str_eq_iff i k, str_eq_iff i j, lookup-delete k j m)

  pub is_missing-none : (k : Str) (m : Assoc V) → is_missing k m ≡ true → lookup k m ≡ none
  is_missing-none k m h = go (lookup k m) h
    where
      go : (o : Option V) → (elim o [ none ↦ true | some v ↦ false ]) ≡ true → o ≡ none
      go none e = refl
      go (some v) e = absurd (cc e)

module _ {Loader : Type 0} where
  -- What `Unregister` gives back after `Register` is the loader that was registered, and every
  -- manufacturer has then the loader, or none, that it had before.
  pub unregister-register :
      (manufacturer : Str) (loader : Loader) (before after : Assoc Loader) (j : Str)
      → register manufacturer loader before ≡ ok after
      → (rest : Assoc Loader) × (unregister manufacturer after ≡ ok (loader, rest))
        × (lookup j rest ≡ lookup j before)
  unfolding register unregister
  unregister-register manufacturer loader before after j h =
      let (u, a, h1) = bind-ok _ _ after h in
      let text = codes "already registered: " ++ manufacturer in
      let same : insert manufacturer loader before ≡ after = cc h1 in
      let missing =
        is_missing-none manufacturer before (guard-ok (is_missing manufacturer before) text u a) in
      let here : lookup manufacturer after ≡ some loader =
        ap (lookup manufacturer) (sym same)
        ∙ lookup-insert manufacturer manufacturer loader before
        ∙ rw (str_eq_refl manufacturer) refl in
      let others : lookup j (delete manufacturer after) ≡ lookup j before =
        lookup-delete manufacturer j after
        ∙ ap (λ m. if str_eq manufacturer j then none else lookup j m) (sym same)
        ∙ go (Bool-cases (str_eq manufacturer j)) missing in
      (delete manufacturer after, rw (here) refl, others)
    where
      go :
          (str_eq manufacturer j ≡ true) ⊎ (str_eq manufacturer j ≡ false)
          → lookup manufacturer before ≡ none
          → (if str_eq manufacturer j then none else lookup j (insert manufacturer loader before))
            ≡ lookup j before
      go (inl e) missing =
          rw (e) (sym missing ∙ ap (λ k. lookup k before) ((str_eq_iff manufacturer j).0 e))
      go (inr e) missing = ground (arith, e, lookup-insert manufacturer j loader before)
