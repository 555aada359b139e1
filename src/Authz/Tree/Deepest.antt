-- ===== src/Authz/Tree/Deepest.antt =====
-- The node that `walkPath` finds is the deepest on the path.
use mathlib.Core.List.{append_assoc, append-nil}
use dolly.Prelude.{
  ◌≡◌, refl, ap, sym, ◌∙◌, Bool, none, some, List, [], ◌∷◌, ◌++◌, Str, if◌then◌else◌, Option-cases,
  inl, inr,
}
use dolly.GoText.{is_some}
use dolly.Authz.Tree.{PathNode, grant_of, children, child_at, find}
use dolly.Authz.Tree.Laws.{grant_at, grant_below, grant_at-cons}

-- The longest beginning of `before ++ segs` that is reached through paths for which the test holds.
unfoldable pub deepest : (List Str → Bool) → List Str → List Str → List Str
deepest test before [] = before
deepest test before (seg ∷ segs) =
    let longer = before ++ seg ∷ [] in
    let rest = deepest test longer segs in if test longer then rest else before

abbrev pub has_node : PathNode → List Str → Bool
has_node root p = is_some (grant_at p root)

find_next :
    (seg : Str) (segs : List Str) (n m : PathNode)
    → child_at seg (children n) ≡ some m
    → find (seg ∷ segs) n ≡ find segs m
unfolding find
find_next seg segs n m e = rw (e, find)

find_stop :
    (seg : Str) (segs : List Str) (n : PathNode)
    → child_at seg (children n) ≡ none
    → find (seg ∷ segs) n ≡ n
unfolding find
find_stop seg segs n e = rw (e, find)

find-deepest :
    (segs before : List Str) (n root : PathNode)
    → ((p : List Str) → grant_at (before ++ p) root ≡ grant_at p n)
    → grant_at (deepest (has_node root) before segs) root ≡ some (grant_of (find segs n))
unfolding deepest
find-deepest [] before n root h =
    ap (λ p. grant_at p root) (sym (append-nil before)) ∙ h [] ∙ (unfold grant_at find in refl)
find-deepest (seg ∷ segs) before n root h = elim (Option-cases (child_at seg (children n))) [
  | inl e ↦
      let gone : grant_at (before ++ seg ∷ []) root ≡ none =
        h (seg ∷ []) ∙ grant_at-cons seg [] n ∙ ap (grant_below []) e in
      rw (gone, find_stop seg segs n e)
        (ap (λ p. grant_at p root) (sym (append-nil before)) ∙ h [] ∙ (unfold grant_at in refl))
  | inr (m, e) ↦
      let there : grant_at (before ++ seg ∷ []) root ≡ some (grant_of m) =
        h (seg ∷ []) ∙ grant_at-cons seg [] n ∙ ap (grant_below []) e ∙ (unfold grant_at in refl) in
      rw (there, find_next seg segs n m e)
        (find-deepest segs (before ++ seg ∷ []) m root λ p.
          ap (λ q. grant_at q root) (append_assoc before (seg ∷ []) p)
          ∙ h (seg ∷ p)
          ∙ grant_at-cons seg p n
          ∙ ap (grant_below p) e)
]

-- The node that `find` returns grants what is granted at the longest beginning of the path that is
-- the path of a node.
pub find_lem :
    (segs : List Str) (root : PathNode)
    → grant_at (deepest (has_node root) [] segs) root ≡ some (grant_of (find segs root))
find_lem segs root = find-deepest segs [] root root (λ p. refl)
