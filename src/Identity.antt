-- ===== src/Identity.antt =====
-- xhttp/identity: the caller's identity and the request's context (identity.go, ctx.go). Header names
-- are in canonical form. A nil identity or context is `none`. The host's name and the response's headers
-- are not modelled here.
pub mod Passed
pub mod Realip
pub mod ClientAddress
mod Examples
use dolly.Prelude.{
  Bool, not, Option, none, some, List, [], ◌++◌, Str, codes, str_eq, Assoc, lookup, ◌⊎◌, inl, inr,
  if◌then◌else◌,
}

pub record Identity : Type 0 where
  pub role : Str
  pub name : Str
  pub user_id : Str

abbrev pub guest_role_name : Str
guest_role_name = codes "guest"

-- `NewIdentity`
abbrev pub new_identity : Str → Str → Str → Identity
new_identity role name user_id = record { role = role; name = name; user_id = user_id }

-- `(identity).String`
unfoldable pub identity_string : Identity → Str
identity_string c = if not (str_eq c.role c.name) then c.role ++ codes "/" ++ c.name else c.role

abbrev pub guest_identity : Identity
guest_identity = new_identity guest_role_name [] []

pub record RequestContext : Type 0 where
  pub identity : Option Identity
  pub correlation_id : Str

-- What the handlers read of a request. `headers` and `query` have the first value of a key, `context`
-- is the value that its Go context has for the key `keyContext`, and `tls` has the common names of the
-- peer's certificates.
pub record Request : Type 0 where
  pub method : Str
  pub path : Str
  pub headers : Assoc Str
  pub query : Assoc Str
  pub context : Option RequestContext
  pub remote_addr : Str
  pub host : Str
  pub url_host : Str
  pub tls : Option (List Str)

-- `FromContext`, on the context's value for `keyContext`
unfoldable pub from_context : Option RequestContext → RequestContext
from_context none = record { identity = some guest_identity; correlation_id = [] }
from_context (some rctx) = rctx

-- `FromRequest`
abbrev pub from_request : Request → RequestContext
from_request r = from_context r.context

abbrev or_empty : Option Str → Str
or_empty none = []
or_empty (some s) = s

-- `Header.Get`
abbrev pub get : Str → Request → Str
get key r = or_empty (lookup key r.headers)

abbrev pub x_correlation_id : Str
x_correlation_id = codes "X-Correlation-Id"

abbrev pub x_device_id : Str
x_device_id = codes "X-Device-Id"

-- `extractCorrelationID`, given what `guid.MustCreate` would return
unfoldable pub extract_correlation_id : Str → Request → Str
extract_correlation_id guid req =
    let cor_id = get x_correlation_id req in
    let cor_id' = if str_eq cor_id [] then get x_device_id req else cor_id in
    if str_eq cor_id' [] then guid else cor_id'

-- The request with its context set from what the identity mapper has returned.
abbrev pub with_identity : Str → Request → Str ⊎ Option Identity → Str ⊎ Request
with_identity guid r (inl err) = inl err
with_identity guid r (inr id) = inr (record r {
  context = some (record { identity = id; correlation_id = extract_correlation_id guid r });
})

-- The handler of `NewContextHandler`: the request that it passes to its delegate, or the error that it
-- answers as unauthorized.
unfoldable pub context_handler : (Request → Str ⊎ Option Identity) → Str → Request → Str ⊎ Request
context_handler identity_mapper guid r = elim r.context [
  | none ↦ with_identity guid r (identity_mapper r)
  | some rctx ↦ inr r
]

abbrev pub or_guest : Option Identity → Option Identity
or_guest none = some guest_identity
or_guest (some id) = some id

-- The interceptor of `NewAuthUnaryInterceptor`: the context that it passes on, or the error
unfoldable pub auth_unary_interceptor :
    (Option RequestContext → Str ⊎ Option Identity)
    → Option RequestContext
    → Str ⊎ Option RequestContext
auth_unary_interceptor identity_mapper ctx = elim (identity_mapper ctx) [
  | inl err ↦ inl err
  | inr id ↦ inr (some (record { identity = or_guest id; correlation_id = [] }))
]
