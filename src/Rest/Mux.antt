-- ===== src/Rest/Mux.antt =====
-- `NewMux` of rest/server.go, with rest/ready and the handlers of xhttp that it puts round the router. The
-- router, the libraries and the machine are an `Env`.
use mathlib.Core.Option
use dolly.Prelude.{
  Bool, Option, none, some, List, [], ◌∷◌, ◌++◌, Str, codes, Assoc, ◌⊎◌, inl, inr, if◌then◌else◌,
}
use dolly.Http.{Call, set}
use dolly.Identity.{Identity, Request, context_handler, from_request}
use dolly.Identity.Realip.{guest_identity_mapper}
use dolly.Netutil.{IpAddress}
use dolly.HttpError.{Error}
use dolly.HttpError.Constructors.{with_unauthorized, with_not_found}
use dolly.HttpError.Answers.{Json}
use dolly.Marshal.{responder, api_error, write_json}
use dolly.Authz.Provider.{Provider}
use dolly.Authz.Provider.Handler.{Response, delegated, refused, new_handler, serve_http}
use dolly.Xhttp.{Metric, LogLine, LoggerConfig, request_metrics, request_log}
use dolly.Rest.{Route, Service, HttpServer, is_ready}

-- `encode` and `gzip` write JSON, `sprintf` is `fmt.Sprintf` of a format alone, `quote` its `%q`. `dispatch` is
-- the library's router: the handler that it runs for a request, if it does not call its `NotFound`. The rest is
-- the identifier that `guid` makes, the name of the node, what `net.ParseIP` reads and what `GetLocalIP` returns.
pub record Env : Type 0 where
  pub encode : Bool → Json → Str
  pub gzip : Str → Str
  pub sprintf : Str → Str
  pub quote : Str → Str
  pub dispatch : List Route → Request → Option (Option (List Call))
  pub guid : Str
  pub node_name : Str
  pub parse_ip : Str → Option IpAddress
  pub local_ip : Option Str

-- What `NewMux` builds: the routes, the copy of the authorization, and the rest of the configuration.
pub record ServerMux : Type 0 where
  pub routes : List Route
  pub authz : Option Provider
  pub identity_mapper : Request → Str ⊎ Option Identity
  pub logger : LoggerConfig

unfoldable pub routes_of : Assoc Service → List Route
routes_of [] = []
routes_of ((name, service) ∷ services) = service.routes ++ routes_of services

-- `serverExtraLogger`
abbrev pub extra_logger : Request → List Str
extra_logger r = (from_request r).correlation_id ∷ []

-- `NewHandler` of the authorization, whose error is a panic
unfoldable pub mux_authz : Option Provider → Option (Option Provider)
unfolding new_handler
mux_authz none = some none
mux_authz (some authz) = elim (new_handler authz) [
  | inl e ↦ none
  | inr handler ↦ some (some handler)
]

abbrev pub mapper_or_guest :
    Env → Option (Request → Str ⊎ Option Identity) → Request → Str ⊎ Option Identity
mapper_or_guest env none = guest_identity_mapper env.parse_ip env.local_ip
mapper_or_guest env (some mapper) = mapper

abbrev pub built : Env → HttpServer → Option Provider → ServerMux
built env s authz = record {
  routes = routes_of s.services;
  authz = authz;
  identity_mapper = mapper_or_guest env s.identity_mapper;
  logger = record {
    skip_paths = [];
    prefix = s.config.service_name;
    extractor = some extra_logger;
  };
}

-- `NewMux`; a panic is `none`.
unfoldable pub new_mux : Env → HttpServer → Option ServerMux
unfolding routes_of mux_authz guest_identity_mapper
new_mux env s = Option.map (built env s) (mux_authz s.authz)

-- The error of `ready.NewServiceStatusVerifier`
abbrev pub err_unavailable : Error
err_unavailable = record {
  http_status = 503;
  code = codes "not_ready";
  message = codes "the service is not ready yet";
  cause = none;
}

-- What a request has led to: the calls on the writer of the connection, the metrics and the log line.
pub record Handled : Type 0 where
  pub calls : List Call
  pub metrics : List Metric
  pub log : Option LogLine

-- A request whose identity is refused reaches neither the metrics nor the log.
abbrev pub refused_request : Str → List Call → Handled
refused_request node_name cs = record {
  calls = set (codes "X-HostName") node_name ∷ cs;
  metrics = [];
  log = none;
}

abbrev pub with_calls : List Call → Handled → Handled
with_calls cs h = record h { calls = cs ++ h.calls }

module _ (env : Env) (mux : ServerMux) where
  abbrev pub answer_error : Error → Request → Option (List Call)
  answer_error e r =
      write_json env.encode env.gzip env.sprintf (some r)
        (some (responder (api_error (some e))) ∷ [])

  -- `notFoundHandler`
  unfoldable pub not_found_handler : Request → Option (List Call)
  unfolding write_json with_not_found
  not_found_handler r = answer_error (with_not_found (env.sprintf r.path)) r

  unfoldable pub route : Request → Option (List Call)
  unfolding not_found_handler
  route r = elim (env.dispatch mux.routes r) [ none ↦ not_found_handler r | some calls ↦ calls ]

  -- `(*ServiceReadyVerifier).ServeHTTP`
  unfoldable pub verify_ready : HttpServer → Request → Option (List Call)
  unfolding is_ready route write_json
  verify_ready now r = if is_ready now then route r else answer_error err_unavailable r

  abbrev pub denied_text : Str → Str
  denied_text role = codes "the " ++ (env.quote role ++ codes " role is not allowed")

  abbrev pub on_verdict : HttpServer → Request → Response → Option (List Call)
  on_verdict now r delegated = verify_ready now r
  on_verdict now r (refused role) =
      answer_error (with_unauthorized (env.sprintf (denied_text role))) r

  -- The handler of the authorization, if there is one
  unfoldable pub authorize : HttpServer → Request → Option (List Call)
  unfolding verify_ready serve_http with_unauthorized write_json
  authorize now r = elim mux.authz [
    | none ↦ verify_ready now r
    | some config ↦ Option.bind (serve_http r config) (λ a. on_verdict now r a.0)
  ]

  -- The logger and the metrics round the rest
  unfoldable pub observe_request : HttpServer → Request → Option Handled
  unfolding authorize request_log request_metrics
  observe_request now r = Option.bind (authorize now r) (λ cs.
      Option.map (λ ms. record { calls = cs; metrics = ms; log = request_log mux.logger r cs })
        (request_metrics r cs))

  abbrev pub identity_headers : Request → List Call
  identity_headers r =
      set (codes "X-HostName") env.node_name
      ∷ set (codes "X-Correlation-ID") (from_request r).correlation_id
      ∷ []

  abbrev pub after_identity : HttpServer → Request → Str ⊎ Request → Option Handled
  after_identity now r (inl err) =
      Option.map (refused_request env.node_name)
        (answer_error (with_unauthorized (env.sprintf err)) r)
  after_identity now r (inr r') =
      Option.map (with_calls (identity_headers r')) (observe_request now r')

  -- The handler that `NewMux` returns: `now` is the server when the request comes.
  unfoldable pub serve_mux : HttpServer → Request → Option Handled
  unfolding observe_request context_handler with_unauthorized write_json
  serve_mux now r = after_identity now r (context_handler mux.identity_mapper env.guid r)
