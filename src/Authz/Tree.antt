-- ===== src/Authz/Tree.antt =====
-- The path tree of xhttp/authz/authz.go. `Children` is the map from segments to child nodes, and
-- `AllowTypes` the two bits of `allow`. A node that `walkPath` returns and its caller changes is
-- changed in place in the source: here `update` walks down and applies the change.
pub mod Laws
pub mod Deepest
use dolly.Prelude.{
  ℕ, Bool, true, false, ◌||◌, Option, none, some, List, [], ◌∷◌, Str, codes, str_eq, Assoc, lookup,
  insert, ◌==◌, if◌then◌else◌,
}
use dolly.GoText.{cons_head}

pub record AllowTypes : Type 0 where
  pub any : Bool
  pub any_role : Bool

mutual
  pub data PathNode : Type 0 where
    node : Str → Children → Assoc Bool → AllowTypes → PathNode

  pub data Children : Type 0 where
    nil : Children
    child : Str → PathNode → Children → Children

abbrev pub no_allow : AllowTypes
no_allow = record { any = false; any_role = false }

-- `newPathNode`
unfoldable pub new_path_node : Str → PathNode
new_path_node path_item = node path_item nil [] no_allow

abbrev pub children : PathNode → Children
children (node v cs roles allow) = cs

-- What a node grants: its roles and its bits.
pub record Grant : Type 0 where
  pub roles : Assoc Bool
  pub allow : AllowTypes

abbrev pub no_grant : Grant
no_grant = record { roles = []; allow = no_allow }

abbrev pub grant_of : PathNode → Grant
grant_of (node v cs roles allow) = record { roles = roles; allow = allow }

abbrev pub set_grant : Grant → PathNode → PathNode
set_grant g (node v cs roles allow) = node v cs g.roles g.allow

abbrev pub set_children : Children → PathNode → PathNode
set_children cs (node v old roles allow) = node v cs roles allow

-- `children[seg]`; nil is `none`.
unfoldable pub child_at : Str → Children → Option PathNode
child_at seg nil = none
child_at seg (child k n cs) = if str_eq k seg then some n else child_at seg cs

-- `children[seg] = n`
unfoldable pub put_child : Str → PathNode → Children → Children
put_child seg n nil = child seg n nil
put_child seg n (child k m cs) =
    let rest = put_child seg n cs in if str_eq k seg then child seg n cs else child k m rest

-- The segments that the loop of `walkPath` cuts from the path behind its first slash: a slash at the
-- end gives none.
unfoldable pub segments : Str → List Str
segments [] = []
segments (c ∷ s) = if c == b'/' then [] ∷ segments s else cons_head c (segments s)

-- The loop of `walkPath` with `create` false: the deepest node on the path.
unfoldable pub find : List Str → PathNode → PathNode
find [] n = n
find (seg ∷ segs) n = elim (child_at seg (children n)) [ none ↦ n | some m ↦ find segs m ]

abbrev pub or_new : Str → Option PathNode → PathNode
or_new seg none = node seg nil [] no_allow
or_new seg (some n) = n

-- The loop with `create` true, and the change that the caller makes to the node at the end.
unfoldable pub update : List Str → (Grant → Grant) → PathNode → PathNode
update [] f n = set_grant (f (grant_of n)) n
update (seg ∷ segs) f n =
    set_children
      (put_child seg (update segs f (or_new seg (child_at seg (children n)))) (children n)) n

-- for k := range n.allowedRoles { c.allowedRoles[k] = true }
unfoldable pub clone_roles : Assoc Bool → Assoc Bool
clone_roles [] = []
clone_roles ((k, allowed) ∷ roles) = insert k true (clone_roles roles)

unfoldable mutual
  -- `clone`
  pub clone : PathNode → PathNode
  clone (node v cs roles allow) = node v (clone_children cs) (clone_roles roles) allow

  -- for k, v := range n.children { c.children[k] = v.clone() }
  pub clone_children : Children → Children
  clone_children nil = nil
  clone_children (child k n cs) = child k (clone n) (clone_children cs)
