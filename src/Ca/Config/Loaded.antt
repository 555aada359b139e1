-- ===== src/Ca/Config/Loaded.antt =====
-- Which profiles `LoadConfig` of xpki/authority/config.go gives to an issuer.
use mathlib.Core.List.{Memᴰ}
use mathlib.Core.List.Memᴰ
use dolly.Prelude.{
  ◌≡◌, refl, ap, sym, ◌∙◌, Bool, true, false, inl, inr, Option, none, some, [], ◌∷◌, Str, codes,
  str_eq, str_eq_iff, Assoc, lookup, insert, lookup-insert, if◌then◌else◌, arith, Bool-cases,
}
use dolly.Ca.Profile.{CertProfile, default_cert_profile}
use dolly.Ca.Config.{takes, issuer_profiles, with_default}

-- A map has each key once.
abbrev pub IsMap : {V : Type 0} → Assoc V → Type 0
IsMap [] = Unit
IsMap ((k, v) ∷ m) = (lookup k m ≡ none) × IsMap m

insert-IsMap :
    {V : Type 0} (k : Str) (v : V) (m : Assoc V)
    → lookup k m ≡ none
    → IsMap m
    → IsMap (insert k v m)
unfolding lookup insert
insert-IsMap k v [] h unique = (refl, tt)
insert-IsMap k v ((j, w) ∷ m) h (first, unique) = go (str_eq j k) refl h (insert-IsMap k v m)
  where
    go :
        (b : Bool)
        → str_eq j k ≡ b
        → (if b then some w else lookup k m) ≡ none
        → (lookup k m ≡ none → IsMap m → IsMap (insert k v m))
        → IsMap (if b then (k, v) ∷ m else (j, w) ∷ insert k v m)
    go true e absent ih = absurd (cc absent)
    go false e absent ih = (
      ground (arith, lookup-insert k j v m, str_eq_iff k j, str_eq_iff j k, e, first),
      ih absent unique,
    )

pub with_default-IsMap :
    (m : Assoc CertProfile) → IsMap m → IsMap (with_default (lookup (codes "default") m) m)
with_default-IsMap m unique = go (lookup (codes "default") m) refl
  where
    go : (o : Option CertProfile) → lookup (codes "default") m ≡ o → IsMap (with_default o m)
    go none e = insert-IsMap (codes "default") default_cert_profile m e unique
    go (some p) e = unique

-- A profile that an issuer lists is one that it takes.
pub issuer_profiles-takes :
    (only : Bool) (label : Str) (m : Assoc CertProfile)
    → IsMap m
    → (name : Str) → Memᴰ name (issuer_profiles only label m)
    → (p : CertProfile) × (lookup name m ≡ some p) × (takes only label p ≡ true)
unfolding lookup issuer_profiles
issuer_profiles-takes only label [] unique name h = absurd (Memᴰ.not-nil h)
issuer_profiles-takes only label ((j, w) ∷ m) (first, unique) name h =
    go (takes only label w) refl h (issuer_profiles-takes only label m unique name)
  where
    later :
        (p : CertProfile) × (lookup name m ≡ some p) × (takes only label p ≡ true)
        → (p : CertProfile) × ((if str_eq j name then some w else lookup name m) ≡ some p)
          × (takes only label p ≡ true)
    later (p, found, t) = elim (Bool-cases (str_eq j name)) [
      | inl e ↦
          let clash : none ≡ some p =
            sym first ∙ ap (λ k. lookup k m) ((str_eq_iff j name).0 e) ∙ found in
          absurd (cc clash)
      | inr e ↦ (p, rw (e) found, t)
    ]

    go :
        (b : Bool)
        → takes only label w ≡ b
        → Memᴰ name (if b then j ∷ issuer_profiles only label m else issuer_profiles only label m)
        → (Memᴰ name (issuer_profiles only label m)
            → (p : CertProfile) × (lookup name m ≡ some p) × (takes only label p ≡ true))
        → (p : CertProfile) × ((if str_eq j name then some w else lookup name m) ≡ some p)
          × (takes only label p ≡ true)
    go true e h ih = elim (Memᴰ.cases_cons h) [
      | inl same ↦ (w, rw ((str_eq_iff j name).1 (sym same)) refl, e)
      | inr k ↦ later (ih k)
    ]
    go false e h ih = later (ih h)
