-- ===== src/Authz/Provider.antt =====
-- `Provider` of xhttp/authz/authz.go: its configuration, its decisions, and its handlers. A panic is
-- `none`. A gRPC context is its value for the
-- key of the request context. The configuration's log switches, and the log, are not modelled.
pub mod Rules
pub mod Grants
pub mod Decisions
pub mod Config
pub mod Handler
pub mod Cloned
pub mod Served
use mathlib.Core.Option
use dolly.Prelude.{
  ℕ, Bool, true, false, not, ◌&&◌, ◌||◌, Option, none, some, List, [], ◌∷◌, Str, codes, str_eq,
  lookup, insert, ◌==◌, if◌then◌else◌,
}
use dolly.Identity.{Request, RequestContext, guest_role_name}
use dolly.Authz.Tree.{
  AllowTypes, PathNode, new_path_node, Grant, grant_of, no_allow, segments, find, update,
}

pub record Provider : Type 0 where
  pub request_role_mapper : Option (Request → Str)
  pub grpc_role_mapper : Option (Option RequestContext → Str)
  pub path_root : Option PathNode

abbrev pub or_root : Option PathNode → PathNode
or_root none = new_path_node []
or_root (some n) = n

-- The check at the start of `walkPath`, and the path's segments.
unfoldable pub path_segments : Str → Option (List Str)
unfolding segments
path_segments [] = none
path_segments (c ∷ s) = if c == b'/' then some (segments s) else none

-- `c.walkPath(path, true)`, and the change of its node by the caller
unfoldable pub change_at : Str → (Grant → Grant) → Provider → Option Provider
unfolding update
change_at path f c =
    Option.map (λ segs. record c { path_root = some (update segs f (or_root c.path_root)) })
      (path_segments path)

abbrev pub grant_any : Grant → Grant
grant_any g = record g { allow = record { any = true; any_role = false } }

abbrev pub grant_any_role : Grant → Grant
grant_any_role g = record g { allow = record { any = g.allow.any; any_role = true } }

unfoldable pub add_roles : List Str → Grant → Grant
add_roles [] g = g
add_roles (role ∷ roles) g =
    if str_eq role []
    then add_roles roles g
    else add_roles roles (record g { roles = insert role true g.roles })

-- `AllowAny`
unfoldable pub allow_any : Str → Provider → Option Provider
allow_any path = change_at path grant_any

-- `AllowAnyRole`
unfoldable pub allow_any_role : Str → Provider → Option Provider
allow_any_role path = change_at path grant_any_role

-- `Allow`
unfoldable pub allow : Str → List Str → Provider → Option Provider
allow path roles = change_at path (add_roles roles)

abbrev has_role : Option Bool → Bool
has_role none = false
has_role (some allowed) = allowed

-- `allowRole`, on what a node grants
unfoldable pub allow_role : Grant → Str → Bool
allow_role g r =
    if str_eq r [] || str_eq r guest_role_name
    then false
    else g.allow.any_role || has_role (lookup r g.roles)

-- The decision of `isAllowed` at a node.
unfoldable pub decide_at : Grant → Str → Bool
unfolding allow_role
decide_at g role =
    let allow_role' = if not g.allow.any then allow_role g role else false in
    g.allow.any || allow_role'

-- `isAllowed`, which leaves a root behind where there was none
unfoldable pub is_allowed : Str → Str → Provider → Option (Bool × Provider)
unfolding decide_at find
is_allowed path role c =
    let root = or_root c.path_root in
    Option.map
      (λ segs. (decide_at (grant_of (find segs root)) role, record c { path_root = some root }))
      (path_segments path)
