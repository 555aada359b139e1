-- ===== src/Authz/Provider/Served.antt =====
-- The handler, the interceptor and `New` of xhttp/authz/authz.go against the calls that configured
-- the provider.
use mathlib.Core.Option
use dolly.Prelude.{
  ◌≡◌, refl, ap, sym, ◌∙◌, false, Option, none, some, List, [], ◌∷◌, ◌++◌, map, Str, codes, str_eq,
  ◌⊎◌, inl, inr, if◌then◌else◌, Option-cases, bind-some,
}
use dolly.GoText.{split}
use dolly.Identity.{Request, RequestContext}
use dolly.Authz.Tree.{PathNode, new_path_node, clone, clone_children, clone_roles, grant_of, find}
use dolly.Authz.Provider.{
  Provider, or_root, path_segments, is_allowed, decide_at, allow_any, allow_any_role, allow,
}
use dolly.Authz.Provider.Config.{
  Config, each, allow_parts, allow_entries, new, new_provider, clone_provider,
}
use dolly.Authz.Provider.Handler.{
  Response, response, HandlerError, no_role_mapper_specified, no_paths_configured, or_guest_role,
  check_role, check_access, new_handler, serve_http, unary_interceptor,
}
use dolly.Authz.Provider.Rules.{Call, any, any_role, roles, call, configure, Rule, rules, permits}
use dolly.Authz.Provider.Grants.{apply_all, decide_find}
use dolly.Authz.Provider.Decisions.{configure-rules}
use dolly.Authz.Provider.Cloned.{decide-clone}

-- The answer that the rules give a role.
abbrev pub answer_of : List Rule → List Str → Str → Response
answer_of rs segs role = response (if permits rs segs role then none else some role)

pub new_handler-clone : (d h : Provider) → new_handler d ≡ inr h → h ≡ clone_provider d
unfolding new_handler
new_handler-clone d h made = go d.request_role_mapper d.path_root made
  where
    go :
        (m : Option (Request → Str)) (root : Option PathNode)
        → elim m as (λ m. HandlerError ⊎ Provider) [
          | none ↦ inl no_role_mapper_specified
          | some mapper ↦ elim root as (λ r. HandlerError ⊎ Provider) [
            | none ↦ inl no_paths_configured
            | some n ↦ inr (clone_provider d)
          ]
        ]
          ≡ inr h
        → h ≡ clone_provider d
    go none root k = absurd (cc k)
    go (some m) none k = absurd (cc k)
    go (some m) (some n) k = cc k

or_root-clone : (d : Provider) → or_root (clone_provider d).path_root ≡ clone (or_root d.path_root)
unfolding clone_provider
or_root-clone d = go d.path_root
  where
    go : (o : Option PathNode) → or_root (Option.map clone o) ≡ clone (or_root o)
    go none = unfold clone new_path_node clone_children clone_roles in refl
    go (some n) = refl

-- A handler serves a request from its own copy of the configuration. `c` is a provider without a tree
-- that calls with good paths have configured, and `h` what `NewHandler` makes of it. A request whose
-- method is not OPTIONS and whose path begins with a slash is passed to the delegate if the calls let
-- in the role that the mapper gives it (the guest's if that is empty), and refused with the name of
-- this role if not.
pub served_by_rules :
    (ks : List Call) (c d h : Provider) (mapper : Request → Str) (r : Request) (segs : List Str)
    → c.path_root ≡ none
    → configure ks c ≡ some d
    → new_handler d ≡ inr h
    → h.request_role_mapper ≡ some mapper
    → str_eq r.method (codes "OPTIONS") ≡ false
    → path_segments r.path ≡ some segs
    → (rs : List Rule) × (rules ks ≡ some rs)
      × (Option.map (λ a. a.0) (serve_http r h)
          ≡ some (answer_of rs segs (or_guest_role (mapper r))))
unfolding serve_http check_access check_role is_allowed Option.bind
served_by_rules ks c d h mapper r segs fresh done made mapped verb parts =
    let (rs, e, tree) = configure-rules ks c d done in
    let role = or_guest_role (mapper r) in
    let root : or_root h.path_root ≡ clone (apply_all rs (new_path_node [])) =
      ap (λ p. or_root p.path_root) (new_handler-clone d h made)
      ∙ or_root-clone d
      ∙ ap clone (tree ∙ ap (λ o. apply_all rs (or_root o)) fresh) in
    (
      rs,
      e,
      rw (verb, mapped, parts)
          (ap
              (λ n.
                some
                  (response (if decide_at (grant_of (find segs n)) role then none else some role)))
              root
            ∙ ap (λ b. some (response (if b then none else some role)))
                (decide-clone rs segs role ∙ decide_find rs segs role)),
    )

-- The gRPC interceptor of a provider that calls have configured passes a call to its handler if the
-- calls let in the role that the mapper gives the context (the guest's if that is empty) at the path
-- that is the method's full name, and refuses it with the name of this role if not. The name begins
-- with a slash.
pub intercepted_by_rules :
    (ks : List Call) (c d : Provider) (mapper : Option RequestContext → Str)
    (ctx : Option RequestContext) (full_method : Str) (segs : List Str)
    → c.path_root ≡ none
    → configure ks c ≡ some d
    → d.grpc_role_mapper ≡ some mapper
    → path_segments full_method ≡ some segs
    → (rs : List Rule) × (rules ks ≡ some rs)
      × (Option.map (λ a. a.0) (unary_interceptor ctx full_method d)
          ≡ some (answer_of rs segs (or_guest_role (mapper ctx))))
unfolding unary_interceptor check_role is_allowed Option.bind
intercepted_by_rules ks c d mapper ctx full_method segs fresh done mapped parts =
    let (rs, e, tree) = configure-rules ks c d done in
    let role = or_guest_role (mapper ctx) in
    let root : or_root d.path_root ≡ apply_all rs (new_path_node []) =
      tree ∙ ap (λ o. apply_all rs (or_root o)) fresh in
    (
      rs,
      e,
      rw (mapped, parts)
          (ap
              (λ n.
                some
                  (response (if decide_at (grant_of (find segs n)) role then none else some role)))
              root
            ∙ ap (λ b. some (response (if b then none else some role))) (decide_find rs segs role)),
    )

-- The calls of `Allow` for the entries of a list, if each is a path and roles with a colon between.
abbrev pub entry_calls : List Str → Option (List Call)
entry_calls [] = some []
entry_calls (s ∷ entries) =
    Option.bind (allow_parts (split s b':'))
      (λ p. Option.map (λ ks. roles p.0 p.1 ∷ ks) (entry_calls entries))

configure-each :
    (f : Str → Call) (paths : List Str) (ks : List Call) (c d : Provider)
    → each (λ s. call (f s)) paths c ≡ some d
    → configure (map f paths ++ ks) c ≡ configure ks d
unfolding each configure Option.bind
configure-each f [] ks c d h = ap (configure ks) (cc h)
configure-each f (s ∷ paths) ks c d h = elim (Option-cases (call (f s) c)) [
  | inl e ↦
      let stuck : none ≡ some d =
        ap (λ o. Option.bind o (each (λ s. call (f s)) paths)) (sym e) ∙ h in
      absurd (cc stuck)
  | inr (b, e) ↦
      ap (λ o. Option.bind o (configure (map f paths ++ ks))) e
      ∙ configure-each f paths ks b d
          (ap (λ o. Option.bind o (each (λ s. call (f s)) paths)) (sym e) ∙ h)
]

entry_rejected :
    (s : Str) (entries : List Str) (c : Provider)
    → allow_parts (split s b':') ≡ none
    → allow_entries (s ∷ entries) c ≡ some (inl s)
unfolding allow_entries
entry_rejected s entries c e = rw (e, allow_entries)

entry_read :
    (s : Str) (entries : List Str) (c : Provider) (parts : Str × List Str)
    → allow_parts (split s b':') ≡ some parts
    → allow_entries (s ∷ entries) c ≡ Option.bind (allow parts.0 parts.1 c) (allow_entries entries)
unfolding allow_entries
entry_read s entries c parts e = rw (e, allow_entries)

entries-configure :
    (entries : List Str) (c d : Provider)
    → allow_entries entries c ≡ some (inr d)
    → (ks : List Call) × (entry_calls entries ≡ some ks) × (configure ks c ≡ some d)
unfolding allow_entries configure Option.bind
entries-configure [] c d h = ([], refl, cc h)
entries-configure (s ∷ entries) c d h = elim (Option-cases (allow_parts (split s b':'))) [
  | inl e ↦ absurd (cc (rejected e))
  | inr (parts, e) ↦
      let (b, first, later) =
        bind-some (allow parts.0 parts.1 c) (allow_entries entries) (inr d) (read parts e) in
      let (ks, f, done) = entries-configure entries b d later in
      (
        roles parts.0 parts.1 ∷ ks,
        ap (λ o. Option.bind o (λ p. Option.map (λ ks. roles p.0 p.1 ∷ ks) (entry_calls entries))) e
            ∙ ap (Option.map (λ ks. roles parts.0 parts.1 ∷ ks)) f,
        ap (λ o. Option.bind o (configure ks)) first ∙ done,
      )
]
  where
    rejected : allow_parts (split s b':') ≡ none → some (inl s) ≡ some (inr d)
    rejected e = sym (entry_rejected s entries c e) ∙ h

    read :
        (parts : Str × List Str)
        → allow_parts (split s b':') ≡ some parts
        → Option.bind (allow parts.0 parts.1 c) (allow_entries entries) ≡ some (inr d)
    read parts e = sym (entry_read s entries c parts e) ∙ h

-- If `New` returns a provider, then each entry of the configuration's `Allow` is a nonempty path and
-- a nonempty list of roles with one colon between, and the provider is what the calls of `AllowAny`,
-- `AllowAnyRole` and `Allow` for the three lists, in this order, make of one without a tree.
pub new-configure :
    (cfg : Config) (az : Provider)
    → new cfg ≡ some (inr az)
    → (ks : List Call) × (entry_calls cfg.allow ≡ some ks)
      × (configure (map any cfg.allow_any ++ (map any_role cfg.allow_any_role ++ ks)) new_provider
          ≡ some az)
unfolding new
new-configure cfg az h =
    let (b, first, rest) =
      bind-some (each allow_any cfg.allow_any new_provider)
        (λ az. Option.bind (each allow_any_role cfg.allow_any_role az) (allow_entries cfg.allow))
        (inr az) h in
    let (c, second, third) =
      bind-some (each allow_any_role cfg.allow_any_role b) (allow_entries cfg.allow) (inr az)
        rest in
    let (ks, e, done) = entries-configure cfg.allow c az third in
    (
      ks,
      e,
      configure-each any cfg.allow_any (map any_role cfg.allow_any_role ++ ks) new_provider b first
          ∙ configure-each any_role cfg.allow_any_role ks b c second
          ∙ done,
    )
