-- ===== src/Rest/Lifecycle/Examples.antt =====
-- A server that is started, serves, and is stopped.
use dolly.Prelude.{◌≡◌, ◌⊎◌, Bool, refl, none, [], codes, insert}
use dolly.Rest.{started, HttpServer, new, add_service, on_event, is_ready}
use dolly.Rest.Examples.{env, fresh, health}
use dolly.Rest.Mux.{new_mux, mux_authz}
use dolly.Rest.Lifecycle.{
  entering, blocked, returned, Life, new_life, start_http, begin_notify, notify, begin_serve,
  starts, begins_notify, notifies, begins_serve, Reach, created, next,
}
use dolly.Rest.Lifecycle.Progress.{AllCalled}
use dolly.Rest.Lifecycle.Ready.{ready_while_serving}

abbrev server : HttpServer
server = on_event started (codes "warm") (add_service health fresh)

abbrev opened : Life
opened = (start_http env none none none (new_life server)).1

abbrev notified : Life
notified = notify (codes "warm") [] (begin_notify opened)

abbrev serving : Life
serving = begin_serve notified

served : Reach env server serving
unfolding start_http begin_notify notify new_mux mux_authz on_event add_service new
served =
    next
      (next
        (next (next created (starts (new_life server) none none none refl))
          (begins_notify opened refl))
        (notifies (begin_notify opened) (codes "warm") [] refl))
      (begins_serve notified refl)

ready_while_serving_example :
    AllCalled serving.history (server.evt_handlers started)
    × ((serving.worker ≡ entering)
        ⊎ (serving.worker ≡ blocked)
        ⊎ ((b : Bool) × (serving.worker ≡ returned b)))
unfolding on_event add_service new is_ready begin_serve notify begin_notify start_http insert
ready_while_serving_example = ready_while_serving env server serving refl served refl
