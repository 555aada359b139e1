-- ===== src/Ca/Profile/Roles.antt =====
-- `IsAllowed` of a profile, in xpki/authority/config.go.
use dolly.Prelude.{
  ◌≡◌, refl, inl, inr, not, ◌&&◌, ◌||◌, List, [], ◌∷◌, Str, codes, ltb, length, arith, Bool-cases,
}
use dolly.Slices.{contains_string}
use dolly.Ca.Profile.{CertProfile, is_allowed}

denied :
    (roles : List Str) (role : Str)
    → (ltb 0 (length roles) && (contains_string roles role || contains_string roles (codes "*")))
      ≡ (contains_string roles role || contains_string roles (codes "*"))
unfolding contains_string
denied [] role = refl
denied (r ∷ roles) role = ground arith

-- A role may request a profile exactly if the denied roles have neither it nor `*`: the allowed roles,
-- whatever they are, have no effect.
pub is_allowed-denied :
    (p : CertProfile) (role : Str)
    → is_allowed p role
      ≡ not (contains_string p.denied_roles role || contains_string p.denied_roles (codes "*"))
unfolding is_allowed
is_allowed-denied p role =
    elim (Bool-cases
      (contains_string p.denied_roles role || contains_string p.denied_roles (codes "*"))) [
        | inl e ↦ ground (arith, denied p.denied_roles role, e)
        | inr e ↦ ground (arith, denied p.denied_roles role, e)
      ]
