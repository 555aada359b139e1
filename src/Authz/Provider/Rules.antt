-- ===== src/Authz/Provider/Rules.antt =====
-- The specification of `isAllowed` in xhttp/authz/authz.go: the calls that configure a provider as
-- rules, and what rules permit.
use mathlib.Core.Option
use dolly.Prelude.{Bool, true, false, not, ◌&&◌, ◌||◌, Option, some, List, [], ◌∷◌, Str, str_eq}
use dolly.Identity.{guest_role_name}
use dolly.Authz.Tree.{Grant}
use dolly.Authz.Tree.Laws.{path_eq, is_prefix}
use dolly.Authz.Tree.Deepest.{deepest}
use dolly.Authz.Provider.{
  Provider, path_segments, grant_any, grant_any_role, add_roles, allow_any, allow_any_role, allow,
}

-- A call that configures a provider.
pub data Call : Type 0 where
  any : Str → Call
  any_role : Str → Call
  roles : Str → List Str → Call

abbrev pub call : Call → Provider → Option Provider
call (any path) = allow_any path
call (any_role path) = allow_any_role path
call (roles path names) = allow path names

-- The calls in order; a panic ends them.
unfoldable pub configure : List Call → Provider → Option Provider
configure [] c = some c
configure (k ∷ ks) c = Option.bind (call k c) (configure ks)

-- What a call does, behind its path's segments.
pub data Rule : Type 0 where
  any_at : List Str → Rule
  any_role_at : List Str → Rule
  roles_at : List Str → List Str → Rule

abbrev pub rule_of : Call → Option Rule
rule_of (any path) = Option.map any_at (path_segments path)
rule_of (any_role path) = Option.map any_role_at (path_segments path)
rule_of (roles path names) = Option.map (λ p. roles_at p names) (path_segments path)

abbrev pub path_of : Rule → List Str
path_of (any_at p) = p
path_of (any_role_at p) = p
path_of (roles_at p names) = p

abbrev pub effect : Rule → Grant → Grant
effect (any_at p) = grant_any
effect (any_role_at p) = grant_any_role
effect (roles_at p names) = add_roles names

-- A role that is neither empty nor the guest's.
abbrev pub is_named : Str → Bool
is_named role = not (str_eq role [] || str_eq role guest_role_name)

abbrev pub member : Str → List Str → Bool
member role [] = false
member role (name ∷ names) = str_eq name role || member role names

-- Whether a rule lets a role in, at the rule's own path.
abbrev pub lets_in : Str → Rule → Bool
lets_in role (any_at p) = true
lets_in role (any_role_at p) = is_named role
lets_in role (roles_at p names) = is_named role && member role names

abbrev pub exists : (Rule → Bool) → List Rule → Bool
exists test [] = false
exists test (r ∷ rs) = test r || exists test rs

-- The specification: some call for the longest configured beginning of the path lets the role in. A
-- beginning is configured if some call's path starts with it.
abbrev pub configured : List Rule → List Str → Bool
configured rs p = exists (λ r. is_prefix p (path_of r)) rs

abbrev pub permits : List Rule → List Str → Str → Bool
permits rs segs role =
    let p = deepest (configured rs) [] segs in
    exists (λ r. path_eq p (path_of r) && lets_in role r) rs

-- The rules of the calls; `none` if the path of some call does not begin with a slash.
unfoldable pub rules : List Call → Option (List Rule)
rules [] = some []
rules (k ∷ ks) = Option.bind (rule_of k) (λ r. Option.map (λ rs. r ∷ rs) (rules ks))
