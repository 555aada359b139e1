-- ===== src/Rest/Lifecycle.antt =====
-- `StartHTTP` and `StopHTTP` of rest/server.go, and the goroutine that serves, as steps of one system.
-- Other goroutines may register services and handlers between the steps. A server is started once,
-- as the comment of `StopHTTP` asks.
pub mod Progress
pub mod Invariant
pub mod Ready
pub mod Examples
use mathlib.Core.Option
use dolly.Prelude.{
  ◌≡◌, Bool, true, false, Option, none, some, List, [], ◌∷◌, ◌++◌, map, Str, codes, Assoc,
  if◌then◌else◌, ◌&&◌, ltb,
}
use dolly.Rest.{Service, ServerEvent, started, stopped, HttpServer, add_service, on_event}
use dolly.Rest.Mux.{Env, ServerMux, new_mux}

-- What the server has done to others
pub data Happening : Type 0 where
  called : ServerEvent → Str → Happening
  closed : Str → Happening
  audited : Str → Happening
  heartbeat_added : Happening

-- The goroutine of `StartHTTP`: the handlers of `ServerStartedEvent` that it has still to call; before, in
-- and after the call of `Serve` with the flag set, `returned true` if the error is `ErrServerClosed`; and its
-- end, which is a panic on another error
pub data Worker : Type 0 where
  not_started spawned : Worker
  notifying : List Str → Worker
  entering blocked : Worker
  returned : Bool → Worker
  ended panicked : Worker

-- `history` has the latest first. `has_http_server` tells that `httpServer` is not nil.
pub record Life : Type 0 where
  pub server : HttpServer
  pub has_http_server : Bool
  pub handler : Option ServerMux
  pub worker : Worker
  pub shut_down : Bool
  pub history : List Happening

abbrev pub new_life : HttpServer → Life
new_life s = record {
  server = s;
  has_http_server = false;
  handler = none;
  worker = not_started;
  shut_down = false;
  history = [];
}

abbrev pub evt_service_started : Str
evt_service_started = codes "service started"

abbrev pub evt_service_stopped : Str
evt_service_stopped = codes "service stopped"

pub data Started : Type 0 where
  running start_panic : Started
  start_error : Str → Started

abbrev listen_failure : HttpServer → Option Str → Option Str
listen_failure s listen_error = elim s.tls_config [ none ↦ none | some auth ↦ listen_error ]

abbrev profiler_failure : HttpServer → Option Str → Option Str
profiler_failure s profiler_error = if s.config.allow_profiling then profiler_error else none

-- The task of the heartbeat is added to the scheduler, and run once.
abbrev with_heartbeat : HttpServer → List Happening → List Happening
with_heartbeat s history =
    if s.has_scheduler && ltb 0 s.config.heartbeat_secs then heartbeat_added ∷ history else history

abbrev run_handler : Life → ServerMux → Option Str → Started × Life
run_handler l mux (some err) = (start_error err, l)
run_handler l mux none = (
  running,
  record l {
    handler = some mux;
    worker = spawned;
    history = audited evt_service_started ∷ with_heartbeat l.server l.history;
  },
)

abbrev run_mux : Life → Option Str → Option ServerMux → Started × Life
run_mux l profiler_error none = (start_panic, l)
run_mux l profiler_error (some mux) = run_handler l mux (profiler_failure l.server profiler_error)

abbrev after_listen : Env → Life → Option Str → Option Str → Started × Life
after_listen env l profiler_error (some err) = (start_error err, l)
after_listen env l profiler_error none = run_mux l profiler_error (new_mux env l.server)

-- `StartHTTP`, given the errors of `ResolveTCPAddr`, of `tls.Listen` and of the profiler; a server without
-- TLS listens in its goroutine. What comes after the goroutine is begun is taken in one step with it.
unfoldable pub start_http : Env → Option Str → Option Str → Option Str → Life → Started × Life
unfolding new_mux
start_http env (some err) listen_error profiler_error l = (start_error err, l)
start_http env none listen_error profiler_error l =
    after_listen env (record l { has_http_server = true }) profiler_error
      (listen_failure l.server listen_error)

unfoldable pub closed_services : Assoc Service → List Happening → List Happening
closed_services [] history = history
closed_services ((name, service) ∷ services) history =
    closed_services services (closed service.name ∷ history)

unfoldable pub called_handlers : ServerEvent → List Str → List Happening → List Happening
called_handlers evt [] history = history
called_handlers evt (handler ∷ handlers) history =
    called_handlers evt handlers (called evt handler ∷ history)

-- `StopHTTP`; `Shutdown` of a nil server panics.
unfoldable pub stop_http : Life → Option Life
unfolding closed_services called_handlers
stop_http l =
    let history = closed_services l.server.services l.history in
    if l.has_http_server
    then some (record l {
      shut_down = true;
      history =
          audited evt_service_stopped
          ∷ called_handlers stopped (l.server.evt_handlers stopped) history;
    })
    else none

-- The goroutine begins to range over the handlers, and calls one.
unfoldable pub begin_notify : Life → Life
begin_notify l = record l { worker = notifying (l.server.evt_handlers started) }

unfoldable pub notify : Str → List Str → Life → Life
notify handler handlers l = record l {
  worker = notifying handlers;
  history = called started handler ∷ l.history;
}

-- `serve` sets the flag, calls `Serve`, and returns from it; then the flag is cleared.
unfoldable pub begin_serve : Life → Life
begin_serve l = record l { worker = entering; server = record l.server { serving = true } }

unfoldable pub enter_serve : Life → Life
enter_serve l = record l { worker = blocked }

unfoldable pub return_serve : Bool → Life → Life
return_serve is_closed l = record l { worker = returned is_closed }

unfoldable pub end_serve : Bool → Life → Life
end_serve is_closed l = record l {
  worker = if is_closed then ended else panicked;
  server = record l.server { serving = false };
}

unfoldable pub register_service : Service → Life → Life
unfolding add_service
register_service service l = record l { server = add_service service l.server }

unfoldable pub register_handler : ServerEvent → Str → Life → Life
unfolding on_event
register_handler evt handler l = record l { server = on_event evt handler l.server }

module _ (env : Env) where
  pub data Step : Life → Life → Type 0 where
    starts :
        (l : Life) (resolve_error listen_error profiler_error : Option Str)
        → l.worker ≡ not_started
        → Step l (start_http env resolve_error listen_error profiler_error l).1
    stops : (l l' : Life) → stop_http l ≡ some l' → Step l l'
    begins_notify : (l : Life) → l.worker ≡ spawned → Step l (begin_notify l)
    notifies :
        (l : Life) (handler : Str) (handlers : List Str)
        → l.worker ≡ notifying (handler ∷ handlers)
        → Step l (notify handler handlers l)
    begins_serve : (l : Life) → l.worker ≡ notifying [] → Step l (begin_serve l)
    enters_serve : (l : Life) → l.worker ≡ entering → Step l (enter_serve l)
    returns_serve :
        (l : Life) (is_closed : Bool) → l.worker ≡ blocked → Step l (return_serve is_closed l)
    ends_serve :
        (l : Life) (is_closed : Bool)
        → l.worker ≡ returned is_closed
        → Step l (end_serve is_closed l)
    registers_service : (l : Life) (service : Service) → Step l (register_service service l)
    registers_handler :
        (l : Life) (evt : ServerEvent) (handler : Str) → Step l (register_handler evt handler l)

  pub data Reach (s : HttpServer) : Life → Type 0 where
    created : Reach s (new_life s)
    next : {l l' : Life} → Reach s l → Step l l' → Reach s l'
