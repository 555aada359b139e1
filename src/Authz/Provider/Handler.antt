-- ===== src/Authz/Provider/Handler.antt =====
-- The handler and the gRPC interceptor of xhttp/authz/authz.go. A panic is `none`. The text of the
-- errors is not modelled, but the role that they name.
use mathlib.Core.Option
use dolly.Prelude.{Bool, Option, none, some, [], Str, codes, str_eq, ◌⊎◌, inl, inr, if◌then◌else◌}
use dolly.Identity.{Request, RequestContext, guest_role_name}
use dolly.Authz.Provider.{Provider, is_allowed}
use dolly.Authz.Provider.Config.{clone_provider}

abbrev pub or_guest_role : Str → Str
or_guest_role role = if str_eq role [] then guest_role_name else role

-- The role that access is refused to, if it is.
abbrev verdict : Str → Bool × Provider → Option Str × Provider
verdict role (allowed, c) = (if allowed then none else some role, c)

unfoldable pub check_role : Str → Str → Provider → Option (Option Str × Provider)
unfolding is_allowed
check_role path role c = Option.map (verdict role) (is_allowed path role c)

-- `checkAccess`
unfoldable pub check_access : Request → Provider → Option (Option Str × Provider)
unfolding check_role
check_access r c =
    let checked =
      Option.bind c.request_role_mapper
        (λ mapper. check_role r.path (or_guest_role (mapper r)) c) in
    if str_eq r.method (codes "OPTIONS") then some (none, c) else checked

-- `delegated` leaves the request to the delegate or the RPC's handler. `refused` is the error:
-- unauthorized of the HTTP handler, permission denied of the interceptor.
pub data Response : Type 0 where
  delegated : Response
  refused : Str → Response

abbrev pub response : Option Str → Response
response none = delegated
response (some role) = refused role

abbrev answer : Option Str × Provider → Response × Provider
answer (err, c) = (response err, c)

pub data HandlerError : Type 0 where
  no_role_mapper_specified : HandlerError
  no_paths_configured : HandlerError

-- `NewHandler`: the handler's configuration
unfoldable pub new_handler : Provider → HandlerError ⊎ Provider
unfolding clone_provider
new_handler c = elim c.request_role_mapper [
  | none ↦ inl no_role_mapper_specified
  | some mapper ↦ elim c.path_root [
    | none ↦ inl no_paths_configured
    | some root ↦ inr (clone_provider c)
  ]
]

-- `(*authHandler).ServeHTTP`
unfoldable pub serve_http : Request → Provider → Option (Response × Provider)
unfolding check_access
serve_http r config = Option.map answer (check_access r config)

-- The interceptor of `NewUnaryInterceptor`
unfoldable pub unary_interceptor :
    Option RequestContext → Str → Provider → Option (Response × Provider)
unfolding check_role
unary_interceptor ctx full_method c =
    Option.bind c.grpc_role_mapper
      λ mapper. Option.map answer (check_role full_method (or_guest_role (mapper ctx)) c)
