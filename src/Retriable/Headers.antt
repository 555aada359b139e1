-- ===== src/Retriable/Headers.antt =====
-- The headers that a request of the client has: its own, those of its context, and those that
-- `PropagateHeadersFromRequest` has put there.
use mathlib.Core.List.{append_assoc, append-nil}
use dolly.Prelude.{
  ◌≡◌, refl, ap, sym, ◌∙◌, Bool, true, false, Option, none, some, List, [], ◌∷◌, ◌++◌, Str, str_eq,
  str_eq_iff, Assoc, lookup, insert, lookup-insert, arith, if◌then◌else◌, inl, inr, Bool-cases,
}
use dolly.Http.{Header, canonical, or_nil, values, add_value, set_value}
use dolly.Retriable.Client.{Client, Context, add_values, set_values, set_given, request_header}

abbrev pub keep_if : Bool → Str → List Str → List Str
keep_if b val vals = if b then val ∷ vals else vals

-- The values that a map gives the header with the canonical name `k`, under whatever spellings
unfoldable pub matching : Str → Assoc Str → List Str
matching k [] = []
matching k ((key, val) ∷ m) = keep_if (str_eq (canonical key) k) val (matching k m)

abbrev pub matching_given : Str → Option (Assoc Str) → List Str
matching_given k none = []
matching_given k (some m) = matching k m

-- The last of the values alone, or what was there if there are none
unfoldable pub overriding : List Str → List Str → List Str
overriding [] old = old
overriding (val ∷ vals) old = overriding vals (val ∷ [])

abbrev pub at : Str → Header → List Str
at k h = or_nil (lookup k h)

at-insert :
    (key k : Str) (vals : List Str) (h : Header)
    → at k (insert key vals h) ≡ (if str_eq key k then vals else at k h)
at-insert key k vals h = ground (arith, lookup-insert key k vals h)

pub at-add_value :
    (key val k : Str) (h : Header)
    → at k (add_value key val h) ≡ at k h ++ (if str_eq (canonical key) k then val ∷ [] else [])
unfolding add_value lookup
at-add_value key val k h = elim (Bool-cases (str_eq (canonical key) k)) [
  | inl e ↦
      let same : canonical key ≡ k = (str_eq_iff (canonical key) k).0 e in
      at-insert (canonical key) k (values key h ++ val ∷ []) h
      ∙ rw (e) (ap (λ j. at j h ++ val ∷ []) same)
  | inr e ↦
      at-insert (canonical key) k (values key h ++ val ∷ []) h ∙ rw (e) (sym (append-nil (at k h)))
]

at-add_values :
    (k : Str) (m : Assoc Str) (h : Header) → at k (add_values m h) ≡ at k h ++ matching k m
unfolding add_values matching
at-add_values k [] h = sym (append-nil (at k h))
at-add_values k ((key, val) ∷ m) h =
    at-add_values k m (add_value key val h)
    ∙ ap (λ s. s ++ matching k m) (at-add_value key val k h)
    ∙ append_assoc (at k h) (if str_eq (canonical key) k then val ∷ [] else []) (matching k m)
    ∙ ap (λ s. at k h ++ s) (kept (str_eq (canonical key) k) (matching k m))
  where
    kept : (b : Bool) (vals : List Str) → (if b then val ∷ [] else []) ++ vals ≡ keep_if b val vals
    kept true vals = refl
    kept false vals = refl

at-set_values :
    (k : Str) (m : Assoc Str) (h : Header)
    → at k (set_values m h) ≡ overriding (matching k m) (at k h)
unfolding set_values matching overriding set_value
at-set_values k [] h = refl
at-set_values k ((key, val) ∷ m) h =
    at-set_values k m (set_value key val h)
    ∙ ap (overriding (matching k m)) (at-insert (canonical key) k (val ∷ []) h)
    ∙ kept (str_eq (canonical key) k) (matching k m)
  where
    kept :
        (b : Bool) (vals : List Str)
        → overriding vals (if b then val ∷ [] else at k h)
          ≡ overriding (keep_if b val vals) (at k h)
    kept true vals = refl
    kept false vals = refl

at-set_given :
    (k : Str) (m : Option (Assoc Str)) (h : Header)
    → at k (set_given m h) ≡ overriding (matching_given k m) (at k h)
unfolding overriding
at-set_given k none h = refl
at-set_given k (some m) h = at-set_values k m h

pub at-request_header :
    (c : Client) (ctx : Context) (k : Str)
    → at k (request_header c ctx) ≡ overriding (matching_given k ctx.headers) (matching k c.headers)
unfolding request_header lookup
at-request_header c ctx k =
    at-set_given k ctx.headers (add_values c.headers [])
    ∙ ap (overriding (matching_given k ctx.headers)) (at-add_values k c.headers [])
