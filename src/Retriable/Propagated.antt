-- ===== src/Retriable/Propagated.antt =====
-- The headers that `PropagateHeadersFromRequest` passes on from an incoming request.
use dolly.Prelude.{
  ◌≡◌, ◌≢◌, refl, ap, ◌∙◌, Bool, true, false, Option, List, [], ◌∷◌, ◌++◌, Str, str_eq, str_eq-nil,
  str_eq_iff, Assoc, insert, All, arith, if◌then◌else◌, ltb, length,
}
use mathlib.Core.Path.{subst}
use dolly.Http.{canonical, values}
use dolly.Identity
use dolly.Retriable.Client.{
  Client, Context, request_header, convert_header, propagated_values, propagate_headers,
}
use dolly.Retriable.Headers.{keep_if, matching, overriding}
use dolly.Retriable.Sent.{sent_header}

-- Every value of the list is `v`.
abbrev AllAre : Str → List Str → Type 0
AllAre v vals = All (λ val. val ≡ v) vals

keep_if-AllAre :
    (b : Bool) (val v : Str) (vals : List Str)
    → (b ≡ true → val ≡ v)
    → AllAre v vals
    → AllAre v (keep_if b val vals)
keep_if-AllAre true val v vals h a = (h refl, a)
keep_if-AllAre false val v vals h a = a

keep_if-AllAre_rest :
    (b : Bool) (val v : Str) (vals : List Str) → AllAre v (keep_if b val vals) → AllAre v vals
keep_if-AllAre_rest true val v vals a = a.1
keep_if-AllAre_rest false val v vals a = a

keep_if-AllAre_swap :
    (b : Bool) (val v : Str) (vals others : List Str)
    → AllAre v (keep_if b val vals)
    → AllAre v others
    → AllAre v (keep_if b val others)
keep_if-AllAre_swap true val v vals others a o = (a.0, o)
keep_if-AllAre_swap false val v vals others a o = o

matching-insert-AllAre :
    (k key val v : Str) (m : Assoc Str)
    → (str_eq (canonical key) k ≡ true → val ≡ v)
    → AllAre v (matching k m)
    → AllAre v (matching k (insert key val m))
unfolding matching insert
matching-insert-AllAre k key val v [] h a = keep_if-AllAre (str_eq (canonical key) k) val v [] h tt
matching-insert-AllAre k key val v ((j, old) ∷ m) h a =
    go (str_eq j key) (keep_if-AllAre (str_eq (canonical key) k) val v (matching k m) h rest) (
      keep_if-AllAre_swap (str_eq (canonical j) k) old v (matching k m) _ a
        (matching-insert-AllAre k key val v m h rest))
  where
    rest : AllAre v (matching k m)
    rest = keep_if-AllAre_rest (str_eq (canonical j) k) old v (matching k m) a

    go :
        (b : Bool)
        → AllAre v (keep_if (str_eq (canonical key) k) val (matching k m))
        → AllAre v (keep_if (str_eq (canonical j) k) old (matching k (insert key val m)))
        → AllAre v (matching k (if b then (key, val) ∷ m else (j, old) ∷ insert key val m))
    go true here later = here
    go false here later = later

abbrev NonEmpty : List Str → Type 0
NonEmpty [] = ⊥
NonEmpty (val ∷ vals) = Unit

keep_if-NonEmpty :
    (b : Bool) (val other : Str) (vals others : List Str)
    → NonEmpty (keep_if b other others)
    → (NonEmpty others → NonEmpty vals)
    → NonEmpty (keep_if b val vals)
keep_if-NonEmpty true val other vals others n keep = tt
keep_if-NonEmpty false val other vals others n keep = keep n

keep_if-NonEmpty-true :
    (b : Bool) (val : Str) (vals : List Str) → b ≡ true → NonEmpty (keep_if b val vals)
keep_if-NonEmpty-true b val vals e = rw e tt

keep_if-NonEmpty_rest :
    (b : Bool) (val : Str) (vals : List Str) → NonEmpty vals → NonEmpty (keep_if b val vals)
keep_if-NonEmpty_rest true val vals n = tt
keep_if-NonEmpty_rest false val vals n = n

matching-insert_self :
    (k key val : Str) (m : Assoc Str)
    → str_eq (canonical key) k ≡ true
    → NonEmpty (matching k (insert key val m))
unfolding matching insert
matching-insert_self k key val [] e = rw e tt
matching-insert_self k key val ((j, old) ∷ m) e =
    go (str_eq j key)
      (keep_if-NonEmpty_rest (str_eq (canonical j) k) old _ (matching-insert_self k key val m e))
  where
    go :
        (b : Bool)
        → NonEmpty (keep_if (str_eq (canonical j) k) old (matching k (insert key val m)))
        → NonEmpty (matching k (if b then (key, val) ∷ m else (j, old) ∷ insert key val m))
    go true later = keep_if-NonEmpty-true (str_eq (canonical key) k) val (matching k m) e
    go false later = later

matching-insert-NonEmpty :
    (k key val : Str) (m : Assoc Str)
    → NonEmpty (matching k m)
    → NonEmpty (matching k (insert key val m))
unfolding matching insert
matching-insert-NonEmpty k key val [] n = absurd n
matching-insert-NonEmpty k key val ((j, old) ∷ m) n = go (str_eq j key) refl (
    keep_if-NonEmpty (str_eq (canonical j) k) old old _ (matching k m) n
      (matching-insert-NonEmpty k key val m))
  where
    go :
        (b : Bool)
        → str_eq j key ≡ b
        → NonEmpty (keep_if (str_eq (canonical j) k) old (matching k (insert key val m)))
        → NonEmpty (matching k (if b then (key, val) ∷ m else (j, old) ∷ insert key val m))
    go true e later =
        keep_if-NonEmpty (str_eq (canonical key) k) val old (matching k m) (matching k m)
          (subst (λ x. NonEmpty (keep_if (str_eq (canonical x) k) old (matching k m)))
            ((str_eq_iff j key).0 e) n)
          (λ h. h)
    go false e later = later

overriding-AllAre :
    (v : Str) (vals old : List Str) → AllAre v vals → NonEmpty vals → overriding vals old ≡ v ∷ []
unfolding overriding
overriding-AllAre v [] old a n = absurd n
overriding-AllAre v (val ∷ []) old a n = ap (λ x. x ∷ []) a.0
overriding-AllAre v (val ∷ w ∷ vals) old a n = overriding-AllAre v (w ∷ vals) (val ∷ []) a.1 tt

module _ (r : Identity.Request) (k : Str) where
  abbrev given : Str
  given = Identity.get k r

  propagated-AllAre :
      (names : List Str) (m : Assoc Str)
      → AllAre given (matching k m)
      → AllAre given (matching k (propagated_values r names m))
  unfolding propagated_values
  propagated-AllAre [] m a = a
  propagated-AllAre (name ∷ names) m a =
      propagated-AllAre names _ (go (str_eq (Identity.get (canonical name) r) []))
    where
      go :
          (b : Bool)
          → AllAre given
              (matching k (if b then m else insert name (Identity.get (canonical name) r) m))
      go true = a
      go false =
          matching-insert-AllAre k name (Identity.get (canonical name) r) given m
            (λ e. ap (λ x. Identity.get x r) ((str_eq_iff (canonical name) k).0 e)) a

  propagated-NonEmpty :
      (names : List Str) (m : Assoc Str)
      → NonEmpty (matching k m)
      → NonEmpty (matching k (propagated_values r names m))
  unfolding propagated_values
  propagated-NonEmpty [] m n = n
  propagated-NonEmpty (name ∷ names) m n =
      propagated-NonEmpty names _ (go (str_eq (Identity.get (canonical name) r) []))
    where
      go :
          (b : Bool)
          → NonEmpty (matching k (if b then m else insert name (Identity.get (canonical name) r) m))
      go true = n
      go false = matching-insert-NonEmpty k name (Identity.get (canonical name) r) m n

  propagated-found :
      (before after : List Str) (name : Str) (m : Assoc Str)
      → canonical name ≡ k
      → str_eq given [] ≡ false
      → NonEmpty (matching k (propagated_values r (before ++ name ∷ after) m))
  unfolding propagated_values
  propagated-found [] after name m e given_ne =
      propagated-NonEmpty after _ (
        rw (e, given_ne)
          (matching-insert_self k name given m ((str_eq_iff (canonical name) k).1 e)))
  propagated-found (other ∷ before) after name m e given_ne =
      propagated-found before after name _ e given_ne

matching-length : (k : Str) (m : Assoc Str) → NonEmpty (matching k m) → ltb 0 (length m) ≡ true
unfolding matching
matching-length k [] n = absurd n
matching-length k (e ∷ m) n = ground arith

-- A header that the service passes on: if the name of a header is among those given to
-- `PropagateHeadersFromRequest` and the incoming request has a value for it that is not empty, then a
-- request that the client makes with the resulting context has exactly this value for it, whatever the
-- client's own headers, the context before, and the other names are.
pub propagated_header :
    (c : Client) (ctx : Option Context) (r : Identity.Request) (before after : List Str)
    (name : Str)
    → Identity.get (canonical name) r ≢ []
    → values name
        (convert_header (request_header c (propagate_headers ctx r (before ++ name ∷ after))))
      ≡ Identity.get (canonical name) r ∷ []
unfolding propagate_headers matching
propagated_header c ctx r before after name given_ne =
    let k = canonical name in
    let m = propagated_values r (before ++ name ∷ after) [] in
    let found =
      propagated-found r k before after name [] refl (str_eq-nil (Identity.get k r) given_ne) in
    sent_header c (propagate_headers ctx r (before ++ name ∷ after)) name
    ∙ rw (matching-length k m found) (
        overriding-AllAre (Identity.get k r) (matching k m) _
          (propagated-AllAre r k (before ++ name ∷ after) [] tt) found)
