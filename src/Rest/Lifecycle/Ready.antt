-- ===== src/Rest/Lifecycle/Ready.antt =====
-- What holds whenever a server is ready.
use dolly.Prelude.{
  ◌≡◌, refl, ap, sym, Bool, true, false, ◌&&◌, Option, none, some, ◌∷◌, if◌then◌else◌, ◌⊎◌, inl,
  inr,
}
use dolly.Rest.{started, stopped, HttpServer, all_ready, is_ready}
use dolly.Rest.Mux.{Env}
use dolly.Rest.Lifecycle.{
  audited, Worker, not_started, spawned, notifying, entering, blocked, returned, ended, panicked,
  evt_service_stopped, Life, closed_services, called_handlers, stop_http, Reach,
}
use dolly.Rest.Lifecycle.Progress.{AllCalled, HasFlag, Progress}
use dolly.Rest.Lifecycle.Invariant.{reach-Inv}

both : (a b : Bool) → (a && b) ≡ true → (a ≡ true) × (b ≡ true)
both true b h = (refl, h)
both false b h = absurd (cc h)

-- A server is created not serving. Whenever it is ready, however its start, its stop, its goroutine and registrations by others
-- are interleaved, each handler of `ServerStartedEvent` that was registered at the beginning has been
-- called, and the goroutine is about to call `Serve`, is inside of it, or has returned from it and not
-- yet cleared the flag.
pub ready_while_serving :
    (env : Env) (s : HttpServer) (l : Life)
    → s.serving ≡ false
    → Reach env s l
    → is_ready l.server ≡ true
    → AllCalled l.history (s.evt_handlers started)
      × ((l.worker ≡ entering) ⊎ (l.worker ≡ blocked) ⊎ ((b : Bool) × (l.worker ≡ returned b)))
unfolding is_ready
ready_while_serving env s l idle r h =
    let v = reach-Inv env s idle r in
    let (flag, services) = both l.server.serving (all_ready l.server.services) h in
    go l.worker refl (v.flag flag) v.progress
  where
    go :
        (w : Worker)
        → l.worker ≡ w
        → HasFlag w
        → Progress (s.evt_handlers started) l.history w
        → AllCalled l.history (s.evt_handlers started)
          × ((l.worker ≡ entering) ⊎ (l.worker ≡ blocked) ⊎ ((b : Bool) × (l.worker ≡ returned b)))
    go entering e f p = (p, inl e)
    go blocked e f p = (p, inr (inl e))
    go (returned b) e f p = (p, inr (inr (b, e)))
    go not_started e f p = absurd f
    go spawned e f p = absurd f
    go (notifying rest) e f p = absurd f
    go ended e f p = absurd f
    go panicked e f p = absurd f

-- `StopHTTP` does not take the server out of service first: it leaves readiness as it is, so until
-- `Serve` returns the server is ready, if the services say so, after its services are closed.
pub stop_http-is_ready :
    (l l' : Life) → stop_http l ≡ some l' → is_ready l'.server ≡ is_ready l.server
unfolding stop_http
stop_http-is_ready l l' h = go l.has_http_server h
  where
    go :
        (b : Bool)
        → (if b
            then some (record l {
              shut_down = true;
              history =
                  audited evt_service_stopped
                  ∷ called_handlers stopped
                      (l.server.evt_handlers stopped)
                      (closed_services l.server.services l.history);
            })
            else none)
          ≡ some l'
        → is_ready l'.server ≡ is_ready l.server
    go true e = ap (λ o. is_ready (server_of o)) (sym e)
      where
        server_of : Option Life → HttpServer
        server_of none = l.server
        server_of (some x) = x.server
    go false e = absurd (cc e)
