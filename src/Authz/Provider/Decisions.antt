-- ===== src/Authz/Provider/Decisions.antt =====
-- `isAllowed` against the calls that configured the provider: `AllowAny`, `AllowAnyRole`, `Allow`.
use mathlib.Core.Option
use dolly.Prelude.{
  ◌≡◌, refl, ap, sym, ◌∙◌, none, some, List, [], ◌∷◌, Str, arith, Option-cases, inl, inr,
}
use dolly.Authz.Tree.{new_path_node, grant_of, find, update}
use dolly.Authz.Provider.{
  Provider, or_root, path_segments, change_at, allow_any, allow_any_role, allow, decide_at,
  is_allowed,
}
use dolly.Authz.Provider.Rules.{
  Call, call, configure, Rule, rule_of, path_of, effect, permits, rules, any, any_role, roles,
  any_at, any_role_at, roles_at,
}
use dolly.Authz.Provider.Grants.{apply_all, decide_find}

abbrev with_rule : Rule → Provider → Provider
with_rule r c = record c { path_root = some (update (path_of r) (effect r) (or_root c.path_root)) }

call-rule_of : (k : Call) (c : Provider) → call k c ≡ Option.map (λ r. with_rule r c) (rule_of k)
unfolding allow_any allow_any_role allow change_at
call-rule_of (any path) c = sym (Option.map-map (λ r. with_rule r c) any_at (path_segments path))
call-rule_of (any_role path) c =
    sym (Option.map-map (λ r. with_rule r c) any_role_at (path_segments path))
call-rule_of (roles path names) c =
    sym (Option.map-map (λ r. with_rule r c) (λ p. roles_at p names) (path_segments path))

-- After the calls the tree is that of their rules.
pub configure-rules :
    (ks : List Call) (c d : Provider)
    → configure ks c ≡ some d
    → (rs : List Rule) × (rules ks ≡ some rs)
      × (or_root d.path_root ≡ apply_all rs (or_root c.path_root))
unfolding configure rules apply_all Option.bind
configure-rules [] c d h = ([], refl, ground arith)
configure-rules (k ∷ ks) c d h = elim (Option-cases (rule_of k)) [
  | inl e ↦
      let first : call k c ≡ none = call-rule_of k c ∙ ap (Option.map (λ r. with_rule r c)) e in
      let stuck : none ≡ some d = ap (λ o. Option.bind o (configure ks)) (sym first) ∙ h in
      absurd (cc stuck)
  | inr (r, e) ↦
      let first : call k c ≡ some (with_rule r c) =
        call-rule_of k c ∙ ap (Option.map (λ r. with_rule r c)) e in
      let later : configure ks (with_rule r c) ≡ some d =
        ap (λ o. Option.bind o (configure ks)) (sym first) ∙ h in
      let (rs, f, tree) = configure-rules ks (with_rule r c) d later in
      (
        r ∷ rs,
        ap (λ o. Option.bind o (λ r. Option.map (λ rs. r ∷ rs) (rules ks))) e
            ∙ ap (Option.map (λ rs. r ∷ rs)) f,
        tree,
      )
]

-- A provider without a tree is configured by any calls of `AllowAny`, `AllowAnyRole` and `Allow`
-- whose paths begin with a slash. Then `isAllowed` lets a role into a path exactly as the calls
-- specify: of the beginnings of the path, by whole segments, with which the path of some call
-- begins, the longest one decides; the role is let in if some call for exactly that one lets it in,
-- which is any role for `AllowAny`, any role but the empty one and the guest's for `AllowAnyRole`,
-- and for `Allow` such a role that it lists.
pub is_allowed-permits :
    (ks : List Call) (c d : Provider) (path role : Str) (segs : List Str)
    → c.path_root ≡ none
    → configure ks c ≡ some d
    → path_segments path ≡ some segs
    → (rs : List Rule) × (rules ks ≡ some rs)
      × (Option.map (λ r. r.0) (is_allowed path role d) ≡ some (permits rs segs role))
unfolding is_allowed
is_allowed-permits ks c d path role segs new done parts =
    let (rs, e, tree) = configure-rules ks c d done in
    let root : or_root d.path_root ≡ apply_all rs (new_path_node []) =
      tree ∙ ap (λ o. apply_all rs (or_root o)) new in
    (
      rs,
      e,
      rw parts (
          ap (λ n. some (decide_at (grant_of (find segs n)) role)) root
          ∙ ap some (decide_find rs segs role)),
    )
