-- ===== src/Rest/Guarded.antt =====
-- Which requests reach a service's handle through the handler of `NewMux`.
use mathlib.Core.Option
use dolly.Prelude.{
  ◌≡◌, refl, ap, sym, ◌∙◌, Bool, true, false, Option, none, some, List, ◌++◌, Str, codes, str_eq,
  map-some, ◌⊎◌, inl, inr, if◌then◌else◌,
}
use dolly.Http.{Call}
use dolly.Identity.{
  Identity, Request, RequestContext, context_handler, with_identity, extract_correlation_id,
  from_context,
}
use dolly.HttpError.Constructors.{with_unauthorized}
use dolly.Authz.Provider.{Provider, path_segments}
use dolly.Authz.Provider.Config.{default_role_mapper, clone_provider}
use dolly.Authz.Provider.Handler.{response, HandlerError, or_guest_role, new_handler, serve_http}
use dolly.Authz.Provider.Rules
use dolly.Authz.Provider.Rules.{configure, Rule, rules, permits}
use dolly.Authz.Provider.Served.{answer_of, served_by_rules, new_handler-clone}
use dolly.Xhttp.{request_metrics, request_log}
use dolly.Rest.{HttpServer, is_ready}
use dolly.Rest.Mux.{
  Env, ServerMux, mux_authz, built, mapper_or_guest, new_mux, err_unavailable, Handled, with_calls,
  answer_error, route, verify_ready, denied_text, on_verdict, authorize, observe_request,
  identity_headers, after_identity, serve_mux,
}

-- The request that the handlers inside see
abbrev pub identified : Env → Request → Identity → Request
identified env r id = record r {
  context =
      some (record { identity = some id; correlation_id = extract_correlation_id env.guid r });
}

-- Between the caller and the route: the rules on the role, and then the server's readiness
abbrev pub guarded : Env → ServerMux → HttpServer → Bool → Str → Request → Option (List Call)
guarded env mux now permitted role r =
    if permitted
    then (if is_ready now then route env mux r else answer_error env mux err_unavailable r)
    else answer_error env mux (with_unauthorized (env.sprintf (denied_text env mux role))) r

map-bind {ℓ} :
    {A B : Type ℓ} {P : Type ℓ} (o : Option (A × P)) (x : A) (f : A → Option B)
    → Option.map (λ a. a.0) o ≡ some x
    → Option.bind o (λ a. f a.0) ≡ f x
unfolding Option.bind
map-bind none x f h = absurd (cc h)
map-bind (some a) x f h = let e : a.0 ≡ x = cc h in ap f e

mux_authz-handler :
    (d : Provider) (o : Option Provider)
    → mux_authz (some d) ≡ some o
    → (h : Provider) × (new_handler d ≡ inr h) × (o ≡ some h)
unfolding mux_authz
mux_authz-handler d o e = go (new_handler d) refl e
  where
    go :
        (n : HandlerError ⊎ Provider)
        → new_handler d ≡ n
        → elim n as (λ n. Option (Option Provider)) [
          | inl e ↦ none
          | inr handler ↦ some (some handler)
        ]
          ≡ some o
        → (h : Provider) × (new_handler d ≡ inr h) × (o ≡ some h)
    go (inl x) k f = absurd (cc f)
    go (inr h) k f = (h, k, cc f)

-- What `NewMux` has taken from a server with an authorization and an identity mapper
mux_parts :
    (env : Env) (s : HttpServer) (mux : ServerMux) (d : Provider)
    (m : Request → Str ⊎ Option Identity)
    → s.authz ≡ some d
    → s.identity_mapper ≡ some m
    → new_mux env s ≡ some mux
    → (h : Provider) × (new_handler d ≡ inr h) × (mux.authz ≡ some h) × (mux.identity_mapper ≡ m)
unfolding new_mux
mux_parts env s mux d m e f made =
    let (o, found, same) = map-some (built env s) (mux_authz s.authz) mux made in
    let (h, handler, is_h) = mux_authz-handler d o (ap mux_authz (sym e) ∙ found) in
    (
      h,
      handler,
      ap (λ (x : ServerMux). x.authz) (sym same) ∙ is_h,
      ap (λ (x : ServerMux). x.identity_mapper) (sym same) ∙ ap (mapper_or_guest env) f,
    )

authorize-guarded :
    (env : Env) (mux : ServerMux) (now : HttpServer) (r : Request) (h : Provider) (rs : List Rule)
    (segs : List Str) (role : Str)
    → mux.authz ≡ some h
    → Option.map (λ a. a.0) (serve_http r h) ≡ some (answer_of rs segs role)
    → authorize env mux now r ≡ guarded env mux now (permits rs segs role) role r
unfolding authorize
authorize-guarded env mux now r h rs segs role e served = rw e (
    map-bind (serve_http r h) (answer_of rs segs role) (on_verdict env mux now r) served
    ∙ go (permits rs segs role))
  where
    go :
        (b : Bool)
        → on_verdict env mux now r (response (if b then none else some role))
          ≡ guarded env mux now b role r
    go true = unfold verify_ready in refl
    go false = refl

-- The role that the default mapper gives to a request with an identity
default_role :
    (env : Env) (r : Request) (id : Identity) → default_role_mapper (identified env r id) ≡ id.role
unfolding default_role_mapper from_context
default_role env r id = refl

identified-context :
    (env : Env) (m : Request → Str ⊎ Option Identity) (r : Request) (id : Identity)
    → r.context ≡ none
    → m r ≡ inr (some id)
    → context_handler m env.guid r ≡ inr (identified env r id)
unfolding context_handler
identified-context env m r id anonymous mapped = go r.context anonymous
  where
    go :
        (o : Option RequestContext)
        → o ≡ none
        → elim o as (λ o. Str ⊎ Request) [
          | none ↦ with_identity env.guid r (m r)
          | some rctx ↦ inr r
        ]
          ≡ inr (identified env r id)
    go none e = ap (with_identity env.guid r) mapped
    go (some rctx) e = absurd (cc e)

-- The logger and the metrics pass the calls on, if the request has an identity.
observe_request-calls :
    (env : Env) (mux : ServerMux) (now : HttpServer) (r : Request) (id : Identity) (hs : List Call)
    → Option.map
        (λ (x : Handled). x.calls)
        (Option.map (with_calls hs) (observe_request env mux now (identified env r id)))
      ≡ Option.map (λ cs. hs ++ cs) (authorize env mux now (identified env r id))
unfolding observe_request Option.bind request_metrics from_context
observe_request-calls env mux now r id hs = go (authorize env mux now (identified env r id))
  where
    r' : Request
    r' = identified env r id

    observed_by : List Call → Option Handled
    observed_by cs =
        Option.map (λ ms. record { calls = cs; metrics = ms; log = request_log mux.logger r' cs })
          (request_metrics r' cs)

    go :
        (o : Option (List Call))
        → Option.map
            (λ (x : Handled). x.calls)
            (Option.map (with_calls hs) (Option.bind o observed_by))
          ≡ Option.map (λ cs. hs ++ cs) o
    go none = refl
    go (some cs) = refl

-- A request reaches the routes of a server only with an identity, by the rules, and while the
-- server is ready. The handler is what `NewMux` makes of a server with an identity mapper and with an
-- authorization that calls with good paths have configured and whose roles are those of the identities. Take a
-- request without an identity of its own that is no OPTIONS request and whose path begins with a slash, and let
-- the mapper give it an identity. Then, after the headers of the node and the correlation, the calls on the
-- writer, or the panic, are those of the routes if the calls let in the identity's role (the
-- guest's, if it is empty) and the server is ready; of the error "not_ready" if they do and it is not; and
-- of the error "unauthorized" with this role if they do not.
pub mux_guarded :
    (env : Env) (s now : HttpServer) (mux : ServerMux) (c d : Provider) (ks : List Rules.Call)
    (m : Request → Str ⊎ Option Identity) (r : Request) (id : Identity) (segs : List Str)
    → c.path_root ≡ none
    → configure ks c ≡ some d
    → d.request_role_mapper ≡ some default_role_mapper
    → s.authz ≡ some d
    → s.identity_mapper ≡ some m
    → new_mux env s ≡ some mux
    → r.context ≡ none
    → m r ≡ inr (some id)
    → str_eq r.method (codes "OPTIONS") ≡ false
    → path_segments r.path ≡ some segs
    → (rs : List Rule) × (rules ks ≡ some rs)
      × (Option.map (λ (x : Handled). x.calls) (serve_mux env mux now r)
          ≡ Option.map
              (λ cs. identity_headers env mux (identified env r id) ++ cs)
              (guarded env mux now
                (permits rs segs (or_guest_role id.role))
                (or_guest_role id.role)
                (identified env r id)))
unfolding serve_mux
mux_guarded env s now mux c d ks m r id segs fresh done roles has_authz has_mapper made anonymous
      mapped verb parts =
    let (h, handler, is_h, is_m) = mux_parts env s mux d m has_authz has_mapper made in
    let r' = identified env r id in
    let mapper : h.request_role_mapper ≡ some default_role_mapper =
      ap (λ (p : Provider). p.request_role_mapper) (new_handler-clone d h handler)
      ∙ unfold clone_provider in roles in
    let (rs, e, served) =
      served_by_rules ks c d h default_role_mapper r' segs fresh done handler mapper verb parts in
    let verdict : Option.map (λ a. a.0) (serve_http r' h)
        ≡ some (answer_of rs segs (or_guest_role id.role)) =
      served ∙ ap (λ role. some (answer_of rs segs (or_guest_role role))) (default_role env r id) in
    let inside : serve_mux env mux now r
        ≡ Option.map (with_calls (identity_headers env mux r')) (observe_request env mux now r') =
      ap (after_identity env mux now r) (
        ap (λ f. context_handler f env.guid r) is_m
        ∙ identified-context env m r id anonymous mapped) in
    (
      rs,
      e,
      ap (Option.map (λ (x : Handled). x.calls)) inside
          ∙ observe_request-calls env mux now r id (identity_headers env mux r')
          ∙ ap (Option.map (λ cs. identity_headers env mux r' ++ cs))
              (authorize-guarded env mux now r' h rs segs (or_guest_role id.role) is_h verdict),
    )
