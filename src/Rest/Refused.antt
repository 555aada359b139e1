-- ===== src/Rest/Refused.antt =====
-- How a client with the default policy takes the refusals of a server.
use mathlib.Core.Option
use dolly.Prelude.{
  ℕ, ◌≤◌, ◌<◌, ◌≡◌, refl, ap, ◌∙◌, true, false, Option, none, some, List, [], ◌++◌, Str, str_eq,
  codes, arith, Bool, ◌⊎◌, inr,
}
use dolly.Http.{Header, Call, Writer, new_writer, body_allowed, set_value, call, run, status}
use dolly.Http.Written.{run_answer}
use dolly.Identity.{Identity, Request, from_request}
use dolly.HttpError.{Error}
use dolly.HttpError.Constructors.{with_unauthorized}
use dolly.HttpError.Answers.{error_json, content_type, application_json}
use dolly.Marshal.{responder, api_error, first_body, write_json}
use dolly.Marshal.Written.{pretty, error_calls}
use dolly.Retriable.{Response, replied, live, new_default_policy, should_retry}
use dolly.Rest.{HttpServer, is_ready}
use dolly.Rest.Mux.{
  Env, ServerMux, Handled, new_mux, serve_mux, answer_error, err_unavailable, identity_headers,
  denied_text,
}
use dolly.Rest.Guarded.{identified, guarded, mux_guarded}
use dolly.Authz.Provider.{Provider, path_segments}
use dolly.Authz.Provider.Config.{default_role_mapper}
use dolly.Authz.Provider.Handler.{or_guest_role}
use dolly.Authz.Provider.Rules
use dolly.Authz.Provider.Rules.{configure, Rule, rules, permits}

retried :
    (resp : Response) (n : ℕ)
    → n < 10
    → (should_retry new_default_policy (replied (record resp { status_code = 503 })) live n).retry
      ≡ true
unfolding should_retry new_default_policy
retried resp n few = ground arith

not_retried :
    (resp : Response) (n : ℕ)
    → (should_retry new_default_policy (replied (record resp { status_code = 401 })) live n).retry
      ≡ false
unfolding should_retry
not_retried resp n = refl

module _ (env : Env) (mux : ServerMux) (r : Request) where
  -- What the server sends for the calls behind the headers of the node and the correlation
  abbrev pub sent_by : Option (List Call) → Option Writer
  sent_by cs = Option.bind cs (λ cs. run (identity_headers env mux r ++ cs) new_writer)

  abbrev node_header : Header
  node_header =
      set_value (codes "X-Correlation-ID") (from_request r).correlation_id
        (set_value (codes "X-HostName") env.node_name [])

  abbrev json_header : Header
  json_header = set_value content_type application_json node_header

  error-status :
      (e : Error)
      → 100 ≤ e.http_status
      → e.http_status ≤ 999
      → body_allowed e.http_status ≡ true
      → (w : Writer) × (sent_by (answer_error env mux e r) ≡ some w) × (status w ≡ e.http_status)
  unfolding write_json first_body run call Option.bind
  error-status e low high allowed = (
    record {
      header = json_header;
      sent = some (e.http_status, json_header);
      body = env.encode (pretty r) (error_json e);
    },
    ap sent_by
          (error_calls env.encode env.gzip env.sprintf r (responder (api_error (some e))) e refl)
        ∙ run_answer content_type application_json e.http_status
            (env.encode (pretty r) (error_json e)) node_header low high allowed,
    refl,
  )

  -- What the server sends while it is not ready, and whether a client then retries
  refused :
      (now : HttpServer) (role : Str) (resp : Response) (n : ℕ)
      → is_ready now ≡ false
      → n < 10
      → (permitted : Bool)
      → (w : Writer) × (sent_by (guarded env mux now permitted role r) ≡ some w)
        × ((should_retry new_default_policy
              (replied (record resp { status_code = status w }))
              live
              n).retry
            ≡ permitted)
  unfolding body_allowed
  refused now role resp n unready few true =
      let (w, sent, is_503) = error-status err_unavailable (omega arith) (omega arith) refl in
      (w, rw unready sent, rw is_503 (retried resp n few))
  refused now role resp n unready few false =
      let e = with_unauthorized (env.sprintf (denied_text env mux role)) in
      let (w, sent, is_401) =
        error-status e (unfold with_unauthorized in omega arith)
          (unfold with_unauthorized in omega arith) (unfold with_unauthorized in refl) in
      (w, sent, rw is_401 (unfold with_unauthorized in not_retried resp n))

-- What the writer of the connection has after a request
abbrev pub received : Option Handled → Option Writer
received o = Option.bind (Option.map (λ (x : Handled). x.calls) o) (λ cs. run cs new_writer)

bind-map-append :
    (hs : List Call) (o : Option (List Call))
    → Option.bind (Option.map (λ cs. hs ++ cs) o) (λ cs. run cs new_writer)
      ≡ Option.bind o (λ cs. run (hs ++ cs) new_writer)
unfolding Option.bind
bind-map-append hs none = refl
bind-map-append hs (some cs) = refl

-- A client with the default policy, in whatever response it gets the status, waits for a server that
-- is not ready exactly if it may use it. The handler, the server and the request are as in
-- `mux_guarded`, and the server is not ready now. Then it does not panic, and as long as fewer than ten
-- retries have been made, the status that it sends is one on which the attempt is retried if the calls
-- let in the identity's role (the guest's, if it is empty), and one on which it is not if they do not.
pub refusals-should_retry :
    (env : Env) (s now : HttpServer) (mux : ServerMux) (c d : Provider) (ks : List Rules.Call)
    (m : Request → Str ⊎ Option Identity) (r : Request) (id : Identity) (segs : List Str)
    (resp : Response) (n : ℕ)
    → c.path_root ≡ none
    → configure ks c ≡ some d
    → d.request_role_mapper ≡ some default_role_mapper
    → s.authz ≡ some d
    → s.identity_mapper ≡ some m
    → new_mux env s ≡ some mux
    → r.context ≡ none
    → m r ≡ inr (some id)
    → str_eq r.method (codes "OPTIONS") ≡ false
    → path_segments r.path ≡ some segs
    → is_ready now ≡ false
    → n < 10
    → (rs : List Rule) × (rules ks ≡ some rs)
      × (w : Writer) × (received (serve_mux env mux now r) ≡ some w)
      × ((should_retry new_default_policy
            (replied (record resp { status_code = status w }))
            live
            n).retry
          ≡ permits rs segs (or_guest_role id.role))
refusals-should_retry env s now mux c d ks m r id segs resp n fresh done roles has_authz has_mapper
      made anonymous mapped verb parts unready few =
    let (rs, e, same) =
      mux_guarded env s now mux c d ks m r id segs fresh done roles has_authz has_mapper made
        anonymous mapped verb parts in
    let r' = identified env r id in
    let role = or_guest_role id.role in
    let (w, sent, verdict) =
      refused env mux r' now role resp n unready few (permits rs segs role) in
    (
      rs,
      e,
      w,
      ap (λ o. Option.bind o (λ cs. run cs new_writer)) same
          ∙ bind-map-append (identity_headers env mux r')
              (guarded env mux now (permits rs segs role) role r')
          ∙ sent,
      verdict,
    )
