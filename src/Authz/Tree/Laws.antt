-- ===== src/Authz/Tree/Laws.antt =====
-- Reading the tree after a change: `grant_at` of an updated tree.
use dolly.Prelude.{
  ◌≡◌, refl, ap, sym, ◌∙◌, Bool, true, false, ◌&&◌, Option, none, some, List, [], ◌∷◌, Str, str_eq,
  str_eq_iff, if◌then◌else◌, arith, Bool-cases, inl, inr,
}
use dolly.Authz.Tree.{
  PathNode, node, Children, nil, child, Grant, grant_of, set_children, no_grant, children, child_at,
  put_child, or_new, update,
}

-- The node at the end of a path, where there is one.
abbrev pub node_at : List Str → PathNode → Option PathNode
node_at [] n = some n
node_at (seg ∷ segs) n = elim (child_at seg (children n)) [ none ↦ none | some m ↦ node_at segs m ]

abbrev grant_from : Option PathNode → Option Grant
grant_from none = none
grant_from (some n) = some (grant_of n)

-- What is granted at exactly this path.
unfoldable pub grant_at : List Str → PathNode → Option Grant
grant_at [] n = some (grant_of n)
grant_at (seg ∷ segs) n = elim (child_at seg (children n)) [
  | none ↦ none
  | some m ↦ grant_at segs m
]

abbrev pub path_eq : List Str → List Str → Bool
path_eq [] [] = true
path_eq [] (s ∷ q) = false
path_eq (s ∷ p) [] = false
path_eq (s ∷ p) (t ∷ q) = str_eq s t && path_eq p q

-- The first path is the second's beginning, or all of it.
abbrev pub is_prefix : List Str → List Str → Bool
is_prefix [] q = true
is_prefix (s ∷ p) [] = false
is_prefix (s ∷ p) (t ∷ q) = str_eq s t && is_prefix p q

abbrev pub or_no_grant : Option Grant → Grant
or_no_grant none = no_grant
or_no_grant (some g) = g

child_at-put_child :
    (k j : Str) (n : PathNode) (cs : Children)
    → child_at j (put_child k n cs) ≡ (if str_eq k j then some n else child_at j cs)
unfolding child_at put_child
child_at-put_child k j n nil = refl
child_at-put_child k j n (child i m cs) =
    ground (arith, str_eq_iff k j, str_eq_iff i k, str_eq_iff i j, child_at-put_child k j n cs)

-- A new node grants nothing and has no children.
pub grant_at-new :
    (seg : Str) (p : List Str)
    → grant_at p (or_new seg none) ≡ (if path_eq p [] then some no_grant else none)
unfolding grant_at child_at
grant_at-new seg [] = refl
grant_at-new seg (s ∷ p) = refl

abbrev pub grant_below : List Str → Option PathNode → Option Grant
grant_below p none = none
grant_below p (some m) = grant_at p m

-- The grant at `p` after a change at `q`, from the grant before.
abbrev pub changed : List Str → List Str → (Grant → Grant) → Option Grant → Option Grant
changed p q f g =
    if path_eq p q
    then some (f (or_no_grant g))
    else if is_prefix p q
    then some (or_no_grant g)
    else g

changed-new :
    (seg : Str) (p q : List Str) (f : Grant → Grant)
    → changed p q f (grant_at p (or_new seg none)) ≡ changed p q f none
changed-new seg [] q f = ground (arith, grant_at-new seg [])
changed-new seg (s ∷ p) q f = ground (arith, grant_at-new seg (s ∷ p))

pub grant_at-cons :
    (s : Str) (p : List Str) (n : PathNode)
    → grant_at (s ∷ p) n ≡ grant_below p (child_at s (children n))
unfolding grant_at
grant_at-cons s p n = go (child_at s (children n))
  where
    go :
        (o : Option PathNode)
        → elim o as (λ o. Option Grant) [ none ↦ none | some m ↦ grant_at p m ] ≡ grant_below p o
    go none = refl
    go (some m) = refl

update_below :
    (seg : Str) (p q : List Str) (f : Grant → Grant) (o : Option PathNode)
    → ((m : PathNode) → grant_at p (update q f m) ≡ changed p q f (grant_at p m))
    → grant_at p (update q f (or_new seg o)) ≡ changed p q f (grant_below p o)
update_below seg p q f none ih = ih (or_new seg none) ∙ changed-new seg p q f
update_below seg p q f (some m) ih = ih m

children-set_children : (cs : Children) (n : PathNode) → children (set_children cs n) ≡ cs
children-set_children cs (node v old roles allow) = refl

-- The grant at a path after an update: changed at the path of the update, empty at a path above it
-- that was new, and as before elsewhere.
pub grant_at-update :
    (p q : List Str) (f : Grant → Grant) (n : PathNode)
    → grant_at p (update q f n) ≡ changed p q f (grant_at p n)
unfolding update
grant_at-update [] [] f (node v cs roles allow) = unfold grant_at in refl
grant_at-update [] (t ∷ q) f (node v cs roles allow) = unfold grant_at in refl
grant_at-update (s ∷ p) [] f (node v cs roles allow) = unfold grant_at in refl
grant_at-update (s ∷ p) (t ∷ q) f n =
    let m = update q f (or_new t (child_at t (children n))) in
    let down : grant_at (s ∷ p) (set_children (put_child t m (children n)) n)
        ≡ grant_below p (if str_eq t s then some m else child_at s (children n)) =
      grant_at-cons s p (set_children (put_child t m (children n)) n)
      ∙ ap (λ cs. grant_below p (child_at s cs))
          (children-set_children (put_child t m (children n)) n)
      ∙ ap (grant_below p) (child_at-put_child t s m (children n)) in
    elim (Bool-cases (str_eq s t)) [
      | inr apart ↦ rw (down, grant_at-cons s p n) (ground (arith, str_eq_iff s t, str_eq_iff t s))
      | inl same ↦
          let back : str_eq t s ≡ true = ground (arith, str_eq_iff s t, str_eq_iff t s) in
          let e : child_at t (children n) ≡ child_at s (children n) =
            ap (λ k. child_at k (children n)) (sym ((str_eq_iff s t).0 same)) in
          rw (down, grant_at-cons s p n, same, back)
            (rw (sym e)
              (update_below t p q f (child_at t (children n)) (λ m. grant_at-update p q f m)))
    ]
