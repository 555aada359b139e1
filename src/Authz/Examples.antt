-- ===== src/Authz/Examples.antt =====
-- Providers, handlers and interceptors at concrete inputs, and the theorems about them there.
use mathlib.Core.Option
use dolly.Prelude.{
  ◌≡◌, refl, Bool, true, false, Option, none, some, List, [], ◌∷◌, Str, codes, str_eq, lookup,
  insert, inl,
}
use dolly.Identity.{new_identity, RequestContext, Request}
use dolly.Authz.Tree.{new_path_node, child_at, put_child}
use dolly.Authz.Provider.{
  Provider, path_segments, is_allowed, allow_any, allow, add_roles, change_at,
}
use dolly.Authz.Provider.Config.{
  Config, new, new_provider, default_role_mapper, default_grpc_role_mapper, clone_provider,
}
use dolly.Authz.Provider.Handler.{or_guest_role, new_handler, serve_http, unary_interceptor}
use dolly.Authz.Provider.Rules.{Call, any, roles, configure, Rule, rules, permits}
use dolly.Authz.Provider.Decisions.{is_allowed-permits}
use dolly.Authz.Provider.Served.{answer_of, served_by_rules, intercepted_by_rules}

-- AllowAny("/"), Allow("/foo", "bob"), Allow("/foo/bar/baz", "barry")
abbrev pub calls : List Call
calls =
    any (codes "/")
    ∷ roles (codes "/foo") (codes "bob" ∷ [])
    ∷ roles (codes "/foo/bar/baz") (codes "barry" ∷ [])
    ∷ []

abbrev pub or_start : Option Provider → Provider
or_start none = new_provider
or_start (some c) = c

abbrev pub provider : Provider
provider = or_start (configure calls new_provider)

abbrev allowed : Str → Str → Option Bool
allowed path role = Option.map (λ r. r.0) (is_allowed path role provider)

-- The deepest node decides, also where it stands only on the way to another: what `AllowAny` grants at
-- the root does not reach `/foo/bar`.
decisions :
    (allowed (codes "/foo/x") (codes "bob") ≡ some true)
    × (allowed (codes "/foo/bar") (codes "bob") ≡ some false)
    × (allowed (codes "/foo/bar/baz/") (codes "barry") ≡ some true)
    × (allowed (codes "/food") (codes "guest") ≡ some true)
    × (allowed (codes "foo") (codes "bob") ≡ none)
unfolding is_allowed configure path_segments child_at Option.bind allow_any change_at allow
    new_path_node put_child str_eq add_roles lookup insert
decisions = (refl, refl, refl, refl, refl)

pub configured : configure calls new_provider ≡ some provider
unfolding configure Option.bind allow_any change_at path_segments allow
configured = refl

is_allowed-permits_example :
    (rs : List Rule) × (rules calls ≡ some rs)
    × (Option.map (λ r. r.0) (is_allowed (codes "/foo/x") (codes "bob") provider)
        ≡ some (permits rs (codes "foo" ∷ codes "x" ∷ []) (codes "bob")))
is_allowed-permits_example =
    is_allowed-permits calls new_provider provider (codes "/foo/x") (codes "bob")
      (codes "foo" ∷ codes "x" ∷ []) refl configured (unfold path_segments in refl)

abbrev bob : Option RequestContext
bob = some (record { identity = some (new_identity (codes "bob") [] []); correlation_id = [] })

abbrev request : Request
request = record {
  method = codes "GET";
  path = codes "/foo/x";
  headers = [];
  query = [];
  context = bob;
  remote_addr = [];
  host = [];
  url_host = [];
  tls = none;
}

served_by_rules_example :
    (rs : List Rule) × (rules calls ≡ some rs)
    × (Option.map (λ a. a.0) (serve_http request (clone_provider provider))
        ≡ some (
            answer_of rs
              (codes "foo" ∷ codes "x" ∷ [])
              (or_guest_role (default_role_mapper request))))
unfolding configure Option.bind allow_any change_at path_segments allow str_eq
served_by_rules_example =
    served_by_rules calls new_provider provider (clone_provider provider) default_role_mapper
      request (codes "foo" ∷ codes "x" ∷ []) refl configured (unfold new_handler in refl)
      (unfold clone_provider in refl) refl (unfold path_segments in refl)

intercepted_by_rules_example :
    (rs : List Rule) × (rules calls ≡ some rs)
    × (Option.map (λ a. a.0) (unary_interceptor bob (codes "/foo/x") provider)
        ≡ some (
            answer_of rs
              (codes "foo" ∷ codes "x" ∷ [])
              (or_guest_role (default_grpc_role_mapper bob))))
unfolding configure Option.bind allow_any change_at path_segments allow
intercepted_by_rules_example =
    intercepted_by_rules calls new_provider provider default_grpc_role_mapper bob (codes "/foo/x")
      (codes "foo" ∷ codes "x" ∷ []) refl configured refl (unfold path_segments in refl)

abbrev config : Config
config = record {
  allow = codes "/foo:bob" ∷ codes "/foo/bar/baz:barry" ∷ [];
  allow_any = codes "/" ∷ [];
  allow_any_role = [];
}

bad_config :
    new (record config { allow = codes "/foo:bob:alice" ∷ [] })
    ≡ some (inl (codes "/foo:bob:alice"))
unfolding new Option.bind allow_any change_at path_segments
bad_config = refl
