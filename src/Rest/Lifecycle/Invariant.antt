-- ===== src/Rest/Lifecycle/Invariant.antt =====
-- The invariant of the steps of a server: its flag, its handlers, and the goroutine.
use mathlib.Core.List.{append_assoc, append-nil}
use mathlib.Core.Path.{subst}
use dolly.Prelude.{
  ◌≡◌, refl, ap, sym, ◌∙◌, Bool, true, false, Option, none, some, List, [], ◌∷◌, ◌++◌, Str, inl,
  inr, if◌then◌else◌,
}
use dolly.Rest.{Service, ServerEvent, started, stopped, stopping, HttpServer}
use dolly.Rest.Mux.{Env, ServerMux, new_mux}
use dolly.Rest.Lifecycle.{
  called, audited, Worker, not_started, spawned, notifying, entering, blocked, returned, ended,
  panicked, evt_service_stopped, Life, start_http, after_listen, run_mux, run_handler,
  profiler_failure, listen_failure, closed_services, called_handlers, stop_http, begin_notify,
  notify, begin_serve, enter_serve, return_serve, end_serve, register_service, register_handler,
  Step, starts, stops, begins_notify, notifies, begins_serve, enters_serve, returns_serve,
  enters_serve, returns_serve, ends_serve, registers_service, registers_handler, Reach, created,
  next,
}
use dolly.Rest.Lifecycle.Progress.{
  AllCalled, Extends, HasFlag, Progress, AllCalled-Extends, AllCalled-append, AllCalled-snoc,
  closed_services-Extends, called_handlers-Extends, Progress-Extends,
}

pub record Inv (early : List Str) (l : Life) : Type 0 where
  pub flag : l.server.serving ≡ true → HasFlag l.worker
  pub more : List Str
  pub kept : l.server.evt_handlers started ≡ early ++ more
  pub progress : Progress early l.history l.worker

module _ (early : List Str) (l : Life) (v : Inv early l) where
  -- A step that leaves the server and the goroutine alone.
  same-Inv :
      (l' : Life)
      → l'.server ≡ l.server
      → l'.worker ≡ l.worker
      → Extends l.history l'.history
      → Inv early l'
  same-Inv l' s w e = record {
    flag = λ h. subst HasFlag (sym w) (v.flag (ap (λ (x : HttpServer). x.serving) (sym s) ∙ h));
    more = v.more;
    kept = ap (λ (x : HttpServer). x.evt_handlers started) s ∙ v.kept;
    progress =
        subst (Progress early l'.history) (sym w)
          (Progress-Extends early l.history l'.history l.worker e v.progress);
  }

  -- The flag is not set before `serve`.
  not_yet : (w w' : Worker) → l.worker ≡ w → ¬ HasFlag w → l.server.serving ≡ true → HasFlag w'
  not_yet w w' e n h = absurd (n (subst HasFlag e (v.flag h)))

  begin_notify-Inv : l.worker ≡ spawned → Inv early (begin_notify l)
  unfolding begin_notify
  begin_notify-Inv w = record {
    flag = not_yet spawned (begin_notify l).worker w (λ x. x);
    more = v.more;
    kept = v.kept;
    progress = ([], v.more, v.kept, tt);
  }

  notify-Inv :
      (handler : Str) (handlers : List Str)
      → l.worker ≡ notifying (handler ∷ handlers)
      → Inv early (notify handler handlers l)
  unfolding notify
  notify-Inv handler handlers w =
      let (done, more, same, a) = subst (Progress early l.history) w v.progress in
      let here : AllCalled (called started handler ∷ l.history) done =
        AllCalled-Extends l.history (called started handler ∷ l.history) done (λ x o. inr o) a in
      record {
        flag =
            not_yet (notifying (handler ∷ handlers)) (notify handler handlers l).worker w (λ x. x);
        more = v.more;
        kept = v.kept;
        progress = (
          done ++ handler ∷ [],
          more,
          append_assoc done (handler ∷ []) handlers ∙ same,
          AllCalled-snoc (called started handler ∷ l.history) done handler here (inl refl),
        );
      }

  begin_serve-Inv : l.worker ≡ notifying [] → Inv early (begin_serve l)
  unfolding begin_serve
  begin_serve-Inv w =
      let (done, more, same, a) = subst (Progress early l.history) w v.progress in
      let all : AllCalled l.history (early ++ more) =
        subst (AllCalled l.history) (sym (append-nil done) ∙ same) a in
      record {
        flag = λ h. tt;
        more = v.more;
        kept = v.kept;
        progress = AllCalled-append l.history early more all;
      }

  enter_serve-Inv : l.worker ≡ entering → Inv early (enter_serve l)
  unfolding enter_serve
  enter_serve-Inv w = record {
    flag = λ h. tt;
    more = v.more;
    kept = v.kept;
    progress = subst (Progress early l.history) w v.progress;
  }

  return_serve-Inv : (is_closed : Bool) → l.worker ≡ blocked → Inv early (return_serve is_closed l)
  unfolding return_serve
  return_serve-Inv is_closed w = record {
    flag = λ h. tt;
    more = v.more;
    kept = v.kept;
    progress = subst (Progress early l.history) w v.progress;
  }

  end_serve-Inv :
      (is_closed : Bool) → l.worker ≡ returned is_closed → Inv early (end_serve is_closed l)
  unfolding end_serve
  end_serve-Inv is_closed w = record {
    flag = λ h. absurd (cc h);
    more = v.more;
    kept = v.kept;
    progress = go is_closed (subst (Progress early l.history) w v.progress);
  }
    where
      go :
          (b : Bool)
          → AllCalled l.history early
          → Progress early l.history (if b then ended else panicked)
      go true a = a
      go false a = a

  register_service-Inv : (service : Service) → Inv early (register_service service l)
  unfolding register_service
  register_service-Inv service = record {
    flag = v.flag;
    more = v.more;
    kept = v.kept;
    progress = v.progress;
  }

  register_handler-Inv :
      (evt : ServerEvent) (handler : Str) → Inv early (register_handler evt handler l)
  unfolding register_handler
  register_handler-Inv started handler = record {
    flag = v.flag;
    more = v.more ++ handler ∷ [];
    kept = ap (λ hs. hs ++ handler ∷ []) v.kept ∙ append_assoc early v.more (handler ∷ []);
    progress = v.progress;
  }
  register_handler-Inv stopped handler = record {
    flag = v.flag;
    more = v.more;
    kept = v.kept;
    progress = v.progress;
  }
  register_handler-Inv stopping handler = record {
    flag = v.flag;
    more = v.more;
    kept = v.kept;
    progress = v.progress;
  }

  stop_http-Inv : (l' : Life) → stop_http l ≡ some l' → Inv early l'
  unfolding stop_http
  stop_http-Inv l' h = go l.has_http_server h
    where
      stopped_life : Life
      stopped_life = record l {
        shut_down = true;
        history =
            audited evt_service_stopped
            ∷ called_handlers stopped (l.server.evt_handlers stopped)
                (closed_services l.server.services l.history);
      }

      go : (b : Bool) → (if b then some stopped_life else none) ≡ some l' → Inv early l'
      go true e = subst (Inv early) (cc e) (
          same-Inv stopped_life refl refl (λ x o. inr (
            called_handlers-Extends stopped (l.server.evt_handlers stopped)
              (closed_services l.server.services l.history) x
              (closed_services-Extends l.server.services l.history x o))))
      go false e = absurd (cc e)

  start_http-Inv :
      (env : Env) (resolve_error listen_error profiler_error : Option Str)
      → l.worker ≡ not_started
      → Inv early (start_http env resolve_error listen_error profiler_error l).1
  unfolding start_http
  start_http-Inv env (some err) listen_error profiler_error w = v
  start_http-Inv env none listen_error profiler_error w =
      listened (listen_failure l.server listen_error)
    where
      l₁ : Life
      l₁ = record l { has_http_server = true }

      opened : Inv early l₁
      opened = same-Inv l₁ refl refl (λ x o. o)

      handled : (mux : ServerMux) (o : Option Str) → Inv early (run_handler l₁ mux o).1
      handled mux (some err) = opened
      handled mux none = record {
        flag = not_yet not_started spawned w (λ x. x);
        more = v.more;
        kept = v.kept;
        progress = tt;
      }

      ran : (o : Option ServerMux) → Inv early (run_mux l₁ profiler_error o).1
      ran none = opened
      ran (some mux) = handled mux (profiler_failure l₁.server profiler_error)

      listened : (o : Option Str) → Inv early (after_listen env l₁ profiler_error o).1
      listened (some err) = opened
      listened none = ran (new_mux env l₁.server)

Step-Inv : (env : Env) (early : List Str) {l l' : Life} → Step env l l' → Inv early l → Inv early l'
Step-Inv env early (starts l resolve_error listen_error profiler_error w) v =
    start_http-Inv early l v env resolve_error listen_error profiler_error w
Step-Inv env early (stops l l' h) v = stop_http-Inv early l v l' h
Step-Inv env early (begins_notify l w) v = begin_notify-Inv early l v w
Step-Inv env early (notifies l handler handlers w) v = notify-Inv early l v handler handlers w
Step-Inv env early (begins_serve l w) v = begin_serve-Inv early l v w
Step-Inv env early (enters_serve l w) v = enter_serve-Inv early l v w
Step-Inv env early (returns_serve l is_closed w) v = return_serve-Inv early l v is_closed w
Step-Inv env early (ends_serve l is_closed w) v = end_serve-Inv early l v is_closed w
Step-Inv env early (registers_service l service) v = register_service-Inv early l v service
Step-Inv env early (registers_handler l evt handler) v = register_handler-Inv early l v evt handler

pub reach-Inv :
    (env : Env) (s : HttpServer)
    → s.serving ≡ false
    → {l : Life} → Reach env s l
    → Inv (s.evt_handlers started) l
reach-Inv env s idle created = record {
  flag = λ h. absurd (cc);
  more = [];
  kept = sym (append-nil (s.evt_handlers started));
  progress = tt;
}
reach-Inv env s idle (next r st) = Step-Inv env (s.evt_handlers started) st (reach-Inv env s idle r)
