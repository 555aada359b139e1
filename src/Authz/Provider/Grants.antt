-- ===== src/Authz/Provider/Grants.antt =====
-- What the tree of xhttp/authz/authz.go grants after the rules of its calls.
use dolly.Prelude.{
  ◌≡◌, refl, ap, sym, ◌∙◌, Bool, true, false, ◌&&◌, ◌||◌, Option, none, some, List, [], ◌∷◌, ◌++◌,
  Str, str_eq, str_eq_iff, insert, lookup, lookup-insert, if◌then◌else◌, arith, Bool-cases, inl,
  inr,
}
use dolly.GoText.{is_some}
use dolly.Authz.Tree.{PathNode, new_path_node, Grant, grant_of, find, update, no_grant}
use dolly.Authz.Tree.Laws.{
  grant_at, grant_at-new, grant_at-update, changed, path_eq, is_prefix, or_no_grant,
}
use dolly.Authz.Tree.Deepest.{deepest, has_node, find_lem}
use dolly.Authz.Provider.{grant_any_role, add_roles, allow_role, decide_at}
use dolly.Authz.Provider.Rules.{
  Rule, path_of, effect, is_named, member, lets_in, exists, configured, permits, any_at,
  any_role_at, roles_at,
}

-- The grant at a path after the rules, from the grant before.
unfoldable pub after : List Rule → List Str → Option Grant → Option Grant
after [] p g = g
after (r ∷ rs) p g = after rs p (changed p (path_of r) (effect r) g)

unfoldable pub apply_all : List Rule → PathNode → PathNode
apply_all [] n = n
apply_all (r ∷ rs) n = apply_all rs (update (path_of r) (effect r) n)

pub grant_at-apply_all :
    (rs : List Rule) (p : List Str) (n : PathNode)
    → grant_at p (apply_all rs n) ≡ after rs p (grant_at p n)
unfolding apply_all after
grant_at-apply_all [] p n = refl
grant_at-apply_all (r ∷ rs) p n =
    grant_at-apply_all rs p (update (path_of r) (effect r) n)
    ∙ ap (after rs p) (grant_at-update p (path_of r) (effect r) n)

path_eq-is_prefix : (p q : List Str) → path_eq p q ≡ true → is_prefix p q ≡ true
path_eq-is_prefix [] q h = refl
path_eq-is_prefix (s ∷ p) [] h = ground arith
path_eq-is_prefix (s ∷ p) (t ∷ q) h = ground (arith, path_eq-is_prefix p q)

-- There is a node where there was one, or where a rule's path passes.
is_some-after :
    (rs : List Rule) (p : List Str) (g : Option Grant)
    → is_some (after rs p g) ≡ (is_some g || configured rs p)
unfolding after
is_some-after [] p none = refl
is_some-after [] p (some g) = refl
is_some-after (r ∷ rs) p g =
    is_some-after rs p (changed p (path_of r) (effect r) g)
    ∙ ground (arith, path_eq-is_prefix p (path_of r))

allow_role-insert :
    (name role : Str) (g : Grant)
    → is_named role ≡ true
    → allow_role (record g { roles = insert name true g.roles }) role
      ≡ (str_eq name role || allow_role g role)
unfolding allow_role
allow_role-insert name role g h = ground (arith, lookup-insert name role true g.roles)

add_roles-lookup :
    (names : List Str) (role : Str) (g : Grant)
    → is_named role ≡ true
    → allow_role (add_roles names g) role ≡ (allow_role g role || member role names)
unfolding add_roles
add_roles-lookup [] role g h = ground arith
add_roles-lookup (name ∷ names) role g h = elim (Bool-cases (str_eq name [])) [
  | inl e ↦ rw e (
      ground (
        arith,
        add_roles-lookup names role g h,
        str_eq_iff name [],
        str_eq_iff name role,
        str_eq_iff role [],
      ))
  | inr e ↦ rw e (
      ground (
        arith,
        add_roles-lookup names role (record g { roles = insert name true g.roles }) h,
        allow_role-insert name role g h,
      ))
]

add_roles-allow : (names : List Str) (g : Grant) → (add_roles names g).allow ≡ g.allow
unfolding add_roles
add_roles-allow [] g = refl
add_roles-allow (name ∷ names) g = ground (
  arith,
  add_roles-allow names g,
  add_roles-allow names (record g { roles = insert name true g.roles }),
)

allow_role-unnamed : (role : Str) (g : Grant) → is_named role ≡ false → allow_role g role ≡ false
unfolding allow_role
allow_role-unnamed role g h = ground arith

allow_role-any : (role : Str) (g : Grant) → allow_role (grant_any_role g) role ≡ is_named role
unfolding allow_role
allow_role-any role g = ground arith

decide_named : (role : Str) (g : Grant) → allow_role g role ≡ true → is_named role ≡ true
unfolding allow_role
decide_named role g h = ground arith

-- One rule at the path itself.
decide_at-effect :
    (r : Rule) (role : Str) (g : Grant)
    → decide_at (effect r g) role ≡ (decide_at g role || lets_in role r)
decide_at-effect (any_at p) role g = unfold decide_at in ground arith
decide_at-effect (any_role_at p) role g =
    unfold decide_at in
    ground (arith, allow_role-any role g, allow_role-unnamed role g, decide_named role g)
decide_at-effect (roles_at p names) role g =
    unfold decide_at in
    ground (
      arith,
      add_roles-lookup names role g,
      add_roles-allow names g,
      allow_role-unnamed role g,
      allow_role-unnamed role (add_roles names g),
    )

unfoldable pub decide_opt : Option Grant → Str → Bool
decide_opt none role = false
decide_opt (some g) role = decide_at g role

decide_at-or : (g : Option Grant) (role : Str) → decide_at (or_no_grant g) role ≡ decide_opt g role
unfolding decide_opt decide_at allow_role
decide_at-or none role = unfold lookup in ground arith
decide_at-or (some g) role = refl

or-false : (a : Bool) → a ≡ (a || false)
or-false true = refl
or-false false = refl

or_assoc : (a b c : Bool) → ((a || b) || c) ≡ (a || (b || c))
or_assoc true b c = refl
or_assoc false b c = refl

one_rule :
    (r : Rule) (p : List Str) (g : Option Grant) (role : Str)
    → decide_opt (changed p (path_of r) (effect r) g) role
      ≡ (decide_opt g role || (path_eq p (path_of r) && lets_in role r))
one_rule r p g role = elim (Bool-cases (path_eq p (path_of r))) [
  | inl e ↦ rw e (
      unfold decide_opt in
      decide_at-effect r role (or_no_grant g) ∙ ap (λ b. b || lets_in role r) (decide_at-or g role))
  | inr e ↦ rw e (not_here (is_prefix p (path_of r)))
]
  where
    not_here :
        (b : Bool)
        → decide_opt (if b then some (or_no_grant g) else g) role ≡ (decide_opt g role || false)
    not_here true = unfold decide_opt in decide_at-or g role ∙ or-false (decide_opt g role)
    not_here false = or-false (decide_opt g role)

-- The decision after the rules is the decision before them, or that of some rule at this path.
decide-after :
    (rs : List Rule) (p : List Str) (g : Option Grant) (role : Str)
    → decide_opt (after rs p g) role
      ≡ (decide_opt g role || exists (λ r. path_eq p (path_of r) && lets_in role r) rs)
unfolding after
decide-after [] p g role = ground arith
decide-after (r ∷ rs) p g role =
    decide-after rs p (changed p (path_of r) (effect r) g) role
    ∙ ap (λ b. b || exists (λ r. path_eq p (path_of r) && lets_in role r) rs) (one_rule r p g role)
    ∙ or_assoc (decide_opt g role) (path_eq p (path_of r) && lets_in role r)
        (exists (λ r. path_eq p (path_of r) && lets_in role r) rs)

pub deepest-congr :
    (t u : List Str → Bool) (before segs : List Str)
    → ((p : List Str) (s : Str) → t (p ++ s ∷ []) ≡ u (p ++ s ∷ []))
    → deepest t before segs ≡ deepest u before segs
unfolding deepest
deepest-congr t u before [] h = refl
deepest-congr t u before (s ∷ segs) h =
    ground (arith, h before s, deepest-congr t u (before ++ s ∷ []) segs h)

-- An empty root grants nothing, and has no node but itself.
pub below_root : (p : List Str) (s : Str) → grant_at (p ++ s ∷ []) (new_path_node []) ≡ none
unfolding new_path_node
below_root [] s = grant_at-new [] (s ∷ [])
below_root (t ∷ p) s = grant_at-new [] (t ∷ p ++ s ∷ [])

decide_root : (p : List Str) (role : Str) → decide_opt (grant_at p (new_path_node [])) role ≡ false
unfolding new_path_node
decide_root p role = ap (λ g. decide_opt g role) (grant_at-new [] p) ∙ nothing (path_eq p [])
  where
    nothing : (b : Bool) → decide_opt (if b then some no_grant else none) role ≡ false
    nothing true = unfold decide_opt decide_at allow_role lookup in ground arith
    nothing false = unfold decide_opt in refl

-- The decision at the node found in a tree that the rules have built.
pub decide_find :
    (rs : List Rule) (segs : List Str) (role : Str)
    → decide_at (grant_of (find segs (apply_all rs (new_path_node [])))) role ≡ permits rs segs role
decide_find rs segs role =
    let root = apply_all rs (new_path_node []) in
    let p = deepest (has_node root) [] segs in
    let same : p ≡ deepest (configured rs) [] segs =
      deepest-congr (has_node root) (configured rs) [] segs λ q s.
        ap is_some (grant_at-apply_all rs (q ++ s ∷ []) (new_path_node []))
        ∙ is_some-after rs (q ++ s ∷ []) (grant_at (q ++ s ∷ []) (new_path_node []))
        ∙ ap (λ g. is_some g || configured rs (q ++ s ∷ [])) (below_root q s) in
    let test = λ (q : List Str). exists (λ r. path_eq q (path_of r) && lets_in role r) rs in
    sym (opened (find segs root))
    ∙ ap (λ g. decide_opt g role)
        (sym (find_lem segs root) ∙ grant_at-apply_all rs p (new_path_node []))
    ∙ decide-after rs p (grant_at p (new_path_node [])) role
    ∙ ap (λ b. b || test p) (decide_root p role)
    ∙ ap test same
  where
    opened : (n : PathNode) → decide_opt (some (grant_of n)) role ≡ decide_at (grant_of n) role
    opened n = unfold decide_opt in refl
