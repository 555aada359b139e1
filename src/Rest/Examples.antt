-- ===== src/Rest/Examples.antt =====
-- A server at concrete inputs.
use mathlib.Core.Option
use dolly.Prelude.{
  ◌≡◌, refl, true, false, Option, none, some, List, [], ◌∷◌, ◌++◌, Str, codes, if◌then◌else◌,
  str_eq, ◌⊎◌, inr, arith,
}
use dolly.Http.{Writer, status, write}
use dolly.Retriable.{Response, replied, live, new_default_policy, should_retry}
use dolly.Rest.Refused.{received, refusals-should_retry}
use dolly.Identity.{Identity, Request, new_identity}
use dolly.Marshal.Examples.{zero_codec, same, plain_request}
use dolly.Authz.Examples.{calls, provider, configured}
use dolly.Authz.Provider.{path_segments, allow_any, allow, change_at}
use dolly.Authz.Provider.Config.{new_provider, clone_provider}
use dolly.Authz.Provider.Handler.{new_handler, or_guest_role}
use dolly.Authz.Provider.Rules.{configure, Rule, rules, permits}
use dolly.Rest.{
  Service, HttpServer, HttpServerConfig, new, with_authz, with_identity_provider, add_service,
  by_name, is_ready,
}
use dolly.Rest.Address.{get_server_url, get_server_base_url, base_url-bind_addr}
use dolly.Rest.Mux.{Env, ServerMux, built, new_mux, mux_authz, Handled, identity_headers, serve_mux}
use dolly.Rest.Guarded.{identified, guarded, mux_guarded}

abbrev pub config : HttpServerConfig
config = record {
  service_name = codes "api";
  bind_addr = codes "host:8080";
  allow_profiling = false;
  heartbeat_secs = 30;
}

base_url-bind_addr_example :
    let made = λ (addr : Str).
      new none (codes "node") (codes "1") [] (record config { bind_addr = addr }) none in
    ((get_server_base_url (made (codes "host:8080"))).host ≡ codes "host:8080")
    × ((get_server_url (made (codes "host:8080")) plain_request (codes "/v1")).host
        ≡ codes "host:8080")
    × ((get_server_base_url (made (codes "8080"))).host
        ≡ (if str_eq (codes "8080") [] then codes "node" else codes "8080") ++ codes ":443")
    × ((get_server_base_url (made (codes ":8080"))).host ≡ codes "node:8080")
base_url-bind_addr_example =
    base_url-bind_addr none (codes "node") (codes "1") [] (codes "host") (codes "8080") config none
      plain_request (codes "/v1") (cc) (refl, (refl, (refl, (refl, tt)))) refl refl

abbrev pub env : Env
env = record {
  encode = zero_codec;
  gzip = same;
  sprintf = same;
  quote = same;
  dispatch = λ routes r. some (some (write (codes "hello") ∷ []));
  guid = codes "id";
  node_name = codes "node";
  parse_ip = λ s. none;
  local_ip = none;
}

abbrev as_bob : Request → Str ⊎ Option Identity
as_bob r = inr (some (new_identity (codes "bob") [] []))

abbrev pub fresh : HttpServer
fresh = new none (codes "node") (codes "1") [] (config) none

abbrev pub health : Service
health = record { name = codes "health"; routes = []; ready = true }

abbrev server : HttpServer
server = with_authz provider (with_identity_provider as_bob (add_service health fresh))

abbrev mux : ServerMux
mux = built env server (some (clone_provider provider))

mux_made : new_mux env server ≡ some mux
unfolding new_mux mux_authz with_authz with_identity_provider add_service new_handler configure
    allow_any allow change_at path_segments Option.bind
mux_made = refl

abbrev asked : Request
asked = record plain_request { path = codes "/foo/x" }

mux_guarded_example :
    (rs : List Rule) × (rules calls ≡ some rs)
    × (Option.map (λ (x : Handled). x.calls) (serve_mux env mux server asked)
        ≡ Option.map
            (λ cs.
              identity_headers env mux (identified env asked (new_identity (codes "bob") [] []))
              ++ cs)
            (guarded env mux server
              (permits rs (codes "foo" ∷ codes "x" ∷ []) (or_guest_role (codes "bob")))
              (or_guest_role (codes "bob"))
              (identified env asked (new_identity (codes "bob") [] []))))
mux_guarded_example =
    mux_guarded env server server mux new_provider provider calls as_bob asked
      (new_identity (codes "bob") [] []) (codes "foo" ∷ codes "x" ∷ []) refl configured
      (unfold configure allow_any allow change_at path_segments Option.bind in refl)
      (unfold with_authz in refl) (unfold with_authz with_identity_provider in refl) mux_made refl
      refl (unfold str_eq in refl) (unfold path_segments in refl)

abbrev empty_response : Response
empty_response = record { header = []; status_code = 200; status = []; body = [] }

refusals-should_retry_example :
    (rs : List Rule) × (rules calls ≡ some rs)
    × (w : Writer) × (received (serve_mux env mux server asked) ≡ some w)
    × ((should_retry new_default_policy
          (replied (record empty_response { status_code = status w }))
          live
          4).retry
        ≡ permits rs (codes "foo" ∷ codes "x" ∷ []) (or_guest_role (codes "bob")))
refusals-should_retry_example =
    refusals-should_retry env server server mux new_provider provider calls as_bob asked
      (new_identity (codes "bob") [] []) (codes "foo" ∷ codes "x" ∷ []) empty_response 4 refl
      configured (unfold configure allow_any allow change_at path_segments Option.bind in refl)
      (unfold with_authz in refl) (unfold with_authz with_identity_provider in refl) mux_made refl
      refl (unfold str_eq in refl) (unfold path_segments in refl)
      (unfold new is_ready with_authz with_identity_provider add_service in refl) (omega arith)

named : by_name ((codes "id", codes "7") ∷ (codes "id", codes "8") ∷ []) (codes "id") ≡ codes "7"
unfolding by_name str_eq
named = refl
