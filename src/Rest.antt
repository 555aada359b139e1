-- ===== src/Rest.antt =====
-- rest/server.go and rest/config.go: the server's fields, its construction and registrations. A handler
-- of an event is known by a name, a service by what the server asks it. What the machine says
-- of itself is an argument. Not modelled: CORS and the auditor.
pub mod Address
pub mod Mux
pub mod Guarded
pub mod Refused
pub mod Lifecycle
pub mod Examples
use mathlib.Core.Option
use dolly.Prelude.{
  ℕ, ◌+◌, ◌*◌, Bool, true, false, not, ◌&&◌, Option, none, some, List, [], ◌∷◌, ◌++◌, Str, codes,
  str_eq, Assoc, lookup, insert, take, drop, ◌⊎◌, if◌then◌else◌,
}
use dolly.GoText.{last_index_byte}
use dolly.Http.{Call}
use dolly.Identity.{Identity, Request}
use dolly.Authz.Provider.{Provider}

abbrev pub Params : Type 0
Params = List (Str × Str)

-- `(Params).ByName`
unfoldable pub by_name : Params → Str → Str
by_name [] name = []
by_name ((key, val) ∷ ps) name = if str_eq key name then val else by_name ps name

-- A handle as it is registered: `(*proxy).GET` and its siblings.
pub record Route : Type 0 where
  pub method : Str
  pub path : Str
  pub handle : Request → Params → Option (List Call)

abbrev pub Handle : Type 0
Handle = Request → Params → Option (List Call)

unfoldable pub get_route : Str → Handle → Route
get_route path handle = record { method = codes "GET"; path = path; handle = handle }

unfoldable pub head_route : Str → Handle → Route
head_route path handle = record { method = codes "HEAD"; path = path; handle = handle }

unfoldable pub options_route : Str → Handle → Route
options_route path handle = record { method = codes "OPTIONS"; path = path; handle = handle }

unfoldable pub post_route : Str → Handle → Route
post_route path handle = record { method = codes "POST"; path = path; handle = handle }

unfoldable pub put_route : Str → Handle → Route
put_route path handle = record { method = codes "PUT"; path = path; handle = handle }

unfoldable pub patch_route : Str → Handle → Route
patch_route path handle = record { method = codes "PATCH"; path = path; handle = handle }

unfoldable pub delete_route : Str → Handle → Route
delete_route path handle = record { method = codes "DELETE"; path = path; handle = handle }

unfoldable pub connect_route : Str → Handle → Route
connect_route path handle = record { method = codes "CONNECT"; path = path; handle = handle }

-- `Service`: its name, the routes that `Register` makes, and whether it is ready
pub record Service : Type 0 where
  pub name : Str
  pub routes : List Route
  pub ready : Bool

pub data ClientAuthType : Type 0 where
  no_client_cert request_client_cert require_any_client_cert : ClientAuthType
  verify_client_cert_if_given require_and_verify_client_cert : ClientAuthType

-- `tlsClientAuthToStrMap`
unfoldable pub client_auth_text : ClientAuthType → Str
client_auth_text no_client_cert = codes "NoClientCert"
client_auth_text request_client_cert = codes "RequestClientCert"
client_auth_text require_any_client_cert = codes "RequireAnyClientCert"
client_auth_text verify_client_cert_if_given = codes "VerifyClientCertIfGiven"
client_auth_text require_and_verify_client_cert = codes "RequireAndVerifyClientCert"

pub data ServerEvent : Type 0 where
  started stopped stopping : ServerEvent

abbrev pub same_event : ServerEvent → ServerEvent → Bool
same_event started started = true
same_event stopped stopped = true
same_event stopping stopping = true
same_event _ _ = false

-- What the modelled code asks of `HTTPServerConfig`
pub record HttpServerConfig : Type 0 where
  pub service_name : Str
  pub bind_addr : Str
  pub allow_profiling : Bool
  pub heartbeat_secs : ℕ

pub record HttpServer : Type 0 where
  pub config : HttpServerConfig
  pub authz : Option Provider
  pub identity_mapper : Option (Request → Str ⊎ Option Identity)
  pub tls_config : Option ClientAuthType
  pub hostname : Str
  pub port : Str
  pub ipaddr : Str
  pub version : Str
  pub serving : Bool
  pub client_auth : Str
  pub has_scheduler : Bool
  pub services : Assoc Service
  pub evt_handlers : ServerEvent → List Str
  pub shutdown_timeout : ℕ

abbrev port_at : Str → Option ℕ → Str
port_at bind_addr none = codes "443"
port_at bind_addr (some i) = drop (i + 1) bind_addr

-- `GetPort`
unfoldable pub get_port : Str → Str
unfolding last_index_byte
get_port bind_addr = port_at bind_addr (last_index_byte bind_addr b':')

abbrev host_at : Str → Option ℕ → Str
host_at bind_addr none = bind_addr
host_at bind_addr (some i) = take i bind_addr

-- `GetHostName`, given the name of the machine
unfoldable pub get_host_name : Str → Str → Str
unfolding last_index_byte
get_host_name os_name bind_addr =
    let hn = host_at bind_addr (last_index_byte bind_addr b':') in
    if str_eq hn [] then os_name else hn

abbrev or_no_cert : Option ClientAuthType → ClientAuthType
or_no_cert none = no_client_cert
or_no_cert (some auth) = auth

abbrev or_loopback : Option Str → Str
or_loopback none = codes "127.0.0.1"
or_loopback (some ip) = ip

-- `New`, given what `GetLocalIP` and `os.Hostname` return; it never returns an error.
unfoldable pub new :
    Option Str → Str → Str → Str → HttpServerConfig → Option ClientAuthType → HttpServer
unfolding get_port get_host_name client_auth_text
new local_ip os_name version ipaddr config tls_config = record {
  config = config;
  authz = none;
  identity_mapper = none;
  tls_config = tls_config;
  hostname = get_host_name os_name config.bind_addr;
  port = get_port config.bind_addr;
  ipaddr = if str_eq ipaddr [] then or_loopback local_ip else ipaddr;
  version = version;
  serving = false;
  client_auth = client_auth_text (or_no_cert tls_config);
  has_scheduler = false;
  services = [];
  evt_handlers = λ evt. [];
  shutdown_timeout = 5 * 1000000000;
}

-- `WithAuthz`, `WithIdentityProvider`, `WithScheduler` and `WithShutdownTimeout`
unfoldable pub with_authz : Provider → HttpServer → HttpServer
with_authz authz s = record s { authz = some authz }

unfoldable pub with_identity_provider : (Request → Str ⊎ Option Identity) → HttpServer → HttpServer
with_identity_provider provider s = record s { identity_mapper = some provider }

unfoldable pub with_scheduler : HttpServer → HttpServer
with_scheduler s = record s { has_scheduler = true }

unfoldable pub with_shutdown_timeout : ℕ → HttpServer → HttpServer
with_shutdown_timeout timeout s = record s { shutdown_timeout = timeout }

-- `AddService`: a service of the same name is replaced.
unfoldable pub add_service : Service → HttpServer → HttpServer
add_service service s = record s { services = insert service.name service s.services }

-- `Service`
unfoldable pub get_service : Str → HttpServer → Option Service
get_service name s = lookup name s.services

-- `OnEvent`
unfoldable pub on_event : ServerEvent → Str → HttpServer → HttpServer
on_event evt handler s = record s {
  evt_handlers =
      λ e. if same_event e evt then s.evt_handlers e ++ handler ∷ [] else s.evt_handlers e;
}

-- `Protocol`
unfoldable pub protocol : HttpServer → Str
protocol s = elim s.tls_config [ none ↦ codes "http" | some auth ↦ codes "https" ]

unfoldable pub all_ready : Assoc Service → Bool
all_ready [] = true
all_ready ((name, service) ∷ services) = service.ready && all_ready services

-- `IsReady`
unfoldable pub is_ready : HttpServer → Bool
unfolding all_ready
is_ready s = s.serving && all_ready s.services
