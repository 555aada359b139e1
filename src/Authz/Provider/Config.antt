-- ===== src/Authz/Provider/Config.antt =====
-- `New` of xhttp/authz/authz.go, and `Clone`.
use mathlib.Core.Option
use dolly.Prelude.{◌||◌, Option, none, some, List, [], ◌∷◌, Str, ◌⊎◌, inl, inr, if◌then◌else◌}
use dolly.GoText.{split, is_empty}
use dolly.Identity.{Identity, Request, RequestContext, from_context, guest_role_name}
use dolly.Authz.Tree.{clone}
use dolly.Authz.Provider.{Provider, allow_any, allow_any_role, allow}

-- The lists of the source's `Config`.
pub record Config : Type 0 where
  pub allow : List Str
  pub allow_any : List Str
  pub allow_any_role : List Str

abbrev role_of : Option Identity → Str
role_of none = guest_role_name
role_of (some id) = id.role

-- `defaultRoleMapper`
unfoldable pub default_role_mapper : Request → Str
unfolding from_context
default_role_mapper r = role_of (from_context r.context).identity

-- `defaultGrpcRoleMapper`
unfoldable pub default_grpc_role_mapper : Option RequestContext → Str
unfolding from_context
default_grpc_role_mapper ctx = role_of (from_context ctx).identity

-- for _, s := range paths { call(s) }; a panic ends the loop.
unfoldable pub each : (Str → Provider → Option Provider) → List Str → Provider → Option Provider
each f [] az = some az
each f (s ∷ paths) az = Option.bind (f s az) (each f paths)

-- The parts of an entry of `cfg.Allow`, checked: the path and the roles
unfoldable pub allow_parts : List Str → Option (Str × List Str)
unfolding split
allow_parts [] = none
allow_parts (path ∷ []) = none
allow_parts (path ∷ roles ∷ []) =
    if is_empty path || is_empty roles then none else some (path, split roles b',')
allow_parts (path ∷ roles ∷ more ∷ parts) = none

-- The loop over `cfg.Allow`; the left is the entry that the error names.
unfoldable pub allow_entries : List Str → Provider → Option (Str ⊎ Provider)
unfolding split allow_parts
allow_entries [] az = some (inr az)
allow_entries (s ∷ entries) az = elim (allow_parts (split s b':')) [
  | none ↦ some (inl s)
  | some parts ↦ Option.bind (allow parts.0 parts.1 az) (allow_entries entries)
]

abbrev pub new_provider : Provider
new_provider = record {
  request_role_mapper = some default_role_mapper;
  grpc_role_mapper = some default_grpc_role_mapper;
  path_root = none;
}

-- `New`
unfoldable pub new : Config → Option (Str ⊎ Provider)
unfolding each allow_entries
new cfg =
    Option.bind (each allow_any cfg.allow_any new_provider)
      λ az. Option.bind (each allow_any_role cfg.allow_any_role az) (allow_entries cfg.allow)

-- `Clone`
unfoldable pub clone_provider : Provider → Provider
unfolding clone
clone_provider c = record c { path_root = Option.map clone c.path_root }
