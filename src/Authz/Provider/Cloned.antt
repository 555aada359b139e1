-- ===== src/Authz/Provider/Cloned.antt =====
-- A clone of a configured tree decides as the tree does.
use mathlib.Core.Option
use dolly.Prelude.{
  ◌≡◌, ◌≢◌, refl, ap, sym, ◌∙◌, Bool, true, false, Option, none, some, List, [], ◌∷◌, ◌++◌, Str,
  str_eq, Assoc, insert, lookup, lookup-insert, if◌then◌else◌, arith, Bool-cases, inl, inr,
}
use dolly.GoText.{is_some}
use dolly.Authz.Tree.{
  PathNode, node, Children, nil, child, new_path_node, Grant, grant_of, children, child_at, find,
  clone, clone_children, clone_roles,
}
use dolly.Authz.Tree.Laws.{
  grant_at, grant_at-new, grant_at-cons, grant_below, changed, path_eq, is_prefix, or_no_grant,
}
use dolly.Authz.Tree.Deepest.{deepest, has_node, find_lem}
use dolly.Authz.Provider.{add_roles, allow_role, decide_at}
use dolly.Authz.Provider.Rules.{Rule, any_at, any_role_at, roles_at, path_of, effect}
use dolly.Authz.Provider.Grants.{after, apply_all, grant_at-apply_all, decide_opt, deepest-congr}

abbrev clone_grant : Grant → Grant
clone_grant g = record g { roles = clone_roles g.roles }

child_at-clone :
    (seg : Str) (cs : Children)
    → child_at seg (clone_children cs) ≡ Option.map clone (child_at seg cs)
unfolding child_at clone_children
child_at-clone seg nil = refl
child_at-clone seg (child k n cs) = ground (arith, child_at-clone seg cs)

children-clone : (n : PathNode) → children (clone n) ≡ clone_children (children n)
unfolding clone
children-clone (node v cs roles allow) = refl

grant_of-clone : (n : PathNode) → grant_of (clone n) ≡ clone_grant (grant_of n)
unfolding clone
grant_of-clone (node v cs roles allow) = refl

grant_at-clone :
    (p : List Str) (n : PathNode) → grant_at p (clone n) ≡ Option.map clone_grant (grant_at p n)
unfolding grant_at
grant_at-clone [] n = ap some (grant_of-clone n)
grant_at-clone (seg ∷ p) n =
    grant_at-cons seg p (clone n)
    ∙ ap (λ cs. grant_below p (child_at seg cs)) (children-clone n)
    ∙ ap (grant_below p) (child_at-clone seg (children n))
    ∙ below (child_at seg (children n)) (λ m. grant_at-clone p m)
    ∙ ap (Option.map clone_grant) (sym (grant_at-cons seg p n))
  where
    below :
        (o : Option PathNode)
        → ((m : PathNode) → grant_at p (clone m) ≡ Option.map clone_grant (grant_at p m))
        → grant_below p (Option.map clone o) ≡ Option.map clone_grant (grant_below p o)
    below none rec = refl
    below (some m) rec = rec m

lookup-clone_roles :
    (role : Str) (roles : Assoc Bool)
    → lookup role (clone_roles roles) ≡ Option.map (λ allowed. true) (lookup role roles)
unfolding clone_roles lookup
lookup-clone_roles role [] = refl
lookup-clone_roles role ((k, allowed) ∷ roles) =
    ground (arith, lookup-insert k role true (clone_roles roles), lookup-clone_roles role roles)

abbrev roles_of : Option Grant → Assoc Bool
roles_of none = []
roles_of (some g) = g.roles

-- A map of roles holds no false: that is what the clone relies on.
add_roles-true :
    (names : List Str) (role : Str) (g : Grant)
    → lookup role g.roles ≢ some false
    → lookup role (add_roles names g).roles ≢ some false
unfolding add_roles
add_roles-true [] role g h = h
add_roles-true (name ∷ names) role g h = elim (Bool-cases (str_eq name [])) [
  | inl e ↦ rw e (add_roles-true names role g h)
  | inr e ↦ rw e (
      add_roles-true names role (record g { roles = insert name true g.roles })
        (ground (arith, lookup-insert name role true g.roles)))
]

effect-true :
    (r : Rule) (role : Str) (g : Grant)
    → lookup role g.roles ≢ some false
    → lookup role (effect r g).roles ≢ some false
effect-true (any_at p) role g h = h
effect-true (any_role_at p) role g h = h
effect-true (roles_at p names) role g h = add_roles-true names role g h

after-true :
    (rs : List Rule) (p : List Str) (role : Str) (g : Option Grant)
    → lookup role (roles_of g) ≢ some false
    → lookup role (roles_of (after rs p g)) ≢ some false
unfolding after
after-true [] p role g h = h
after-true (r ∷ rs) p role g h =
    after-true rs p role (changed p (path_of r) (effect r) g)
      (here (path_eq p (path_of r)) (is_prefix p (path_of r)))
  where
    as_before :
        (o : Option Grant)
        → lookup role (roles_of o) ≢ some false
        → lookup role (or_no_grant o).roles ≢ some false
    as_before none k = k
    as_before (some f) k = k

    here :
        (a b : Bool)
        → lookup role (
            roles_of (
              if a
              then some (effect r (or_no_grant g))
              else (if b then some (or_no_grant g) else g)))
          ≢ some false
    here true b = effect-true r role (or_no_grant g) (as_before g h)
    here false true = as_before g h
    here false false = h

decide_opt-clone :
    (g : Option Grant) (role : Str)
    → lookup role (roles_of g) ≢ some false
    → decide_opt (Option.map clone_grant g) role ≡ decide_opt g role
unfolding decide_opt decide_at allow_role
decide_opt-clone none role h = refl
decide_opt-clone (some g) role h = ground (arith, lookup-clone_roles role g.roles)

pub decide-clone :
    (rs : List Rule) (segs : List Str) (role : Str)
    → decide_at (grant_of (find segs (clone (apply_all rs (new_path_node []))))) role
      ≡ decide_at (grant_of (find segs (apply_all rs (new_path_node [])))) role
unfolding decide_opt
decide-clone rs segs role =
    let root = apply_all rs (new_path_node []) in
    let p = deepest (has_node root) [] segs in
    let same : deepest (has_node (clone root)) [] segs ≡ p =
      deepest-congr (has_node (clone root)) (has_node root) [] segs λ q s.
        ap is_some (grant_at-clone (q ++ s ∷ []) root) ∙ kept (grant_at (q ++ s ∷ []) root) in
    ap (λ g. decide_opt g role)
      (sym (find_lem segs (clone root))
        ∙ ap (λ q. grant_at q (clone root)) same
        ∙ grant_at-clone p root)
    ∙ decide_opt-clone (grant_at p root) role (honest p)
    ∙ ap (λ g. decide_opt g role) (find_lem segs root)
  where
    kept : (g : Option Grant) → is_some (Option.map clone_grant g) ≡ is_some g
    kept none = refl
    kept (some g) = refl

    empty :
        (q : List Str) (b : Bool)
        → lookup role (roles_of (if b then some (or_no_grant none) else none)) ≢ some false
    empty q true = unfold lookup in ground arith
    empty q false = unfold lookup in ground arith

    honest :
        (q : List Str)
        → lookup role (roles_of (grant_at q (apply_all rs (new_path_node [])))) ≢ some false
    honest q = rw (grant_at-apply_all rs q (new_path_node [])) (
        after-true rs q role (grant_at q (new_path_node []))
          (unfold new_path_node in rw (grant_at-new [] q) (empty q (path_eq q []))))
