-- ===== src/Retriable/Sent.antt =====
-- The headers of the request that `Do` gives to net/http: `convertRequest` copies those that `doHTTP` has
-- put.
use mathlib.Core.List.{append_assoc, append-nil}
use dolly.Prelude.{
  ◌≡◌, refl, ap, sym, ◌∙◌, Bool, true, false, Option, none, some, List, [], ◌∷◌, ◌++◌, Str, str_eq,
  str_eq_iff, Assoc, lookup, insert, lookup-insert, if◌then◌else◌,
}
use dolly.Http.{Header, canonical, or_nil, values, add_value, set_value}
use dolly.Http.Canonical.{canonical_idempotent}
use dolly.Retriable.Client.{
  Client, Context, add_values, set_values, set_given, request_header, add_each, add_entries,
  convert_header,
}
use dolly.Retriable.Headers.{
  matching, matching_given, overriding, at, at-add_value, at-request_header,
}

-- A header map as the functions of net/http build it: each name is canonical and stands once.
pub IsTidy : Header → Type 0
IsTidy [] = Unit
IsTidy ((key, vals) ∷ h) = (canonical key ≡ key) × (lookup key h ≡ none) × IsTidy h

insert-absent :
    (key j : Str) (vals : List Str) (h : Header)
    → str_eq key j ≡ false
    → lookup j h ≡ none
    → lookup j (insert key vals h) ≡ none
insert-absent key j vals h e absent = lookup-insert key j vals h ∙ rw e absent

insert-IsTidy :
    (key : Str) (vals : List Str) (h : Header)
    → canonical key ≡ key
    → IsTidy h
    → IsTidy (insert key vals h)
unfolding IsTidy insert lookup
insert-IsTidy key vals [] c t = (c, refl, tt)
insert-IsTidy key vals ((j, old) ∷ h) c t = go (str_eq j key) refl (insert-IsTidy key vals h c t.2)
  where
    go :
        (b : Bool)
        → str_eq j key ≡ b
        → IsTidy (insert key vals h)
        → IsTidy (if b then (key, vals) ∷ h else (j, old) ∷ insert key vals h)
    go true e later =
        let same : j ≡ key = (str_eq_iff j key).0 e in
        (c, ap (λ x. lookup x h) (sym same) ∙ t.1, t.2)
    go false e later = (t.0, insert-absent key j vals h (other (str_eq key j) refl) t.1, later)
      where
        other : (b : Bool) → str_eq key j ≡ b → str_eq key j ≡ false
        other false f = f
        other true f =
            let back : str_eq j key ≡ true = (str_eq_iff j key).1 (sym ((str_eq_iff key j).0 f)) in
            absurd (cc)

add_values-IsTidy : (m : Assoc Str) (h : Header) → IsTidy h → IsTidy (add_values m h)
unfolding add_values add_value
add_values-IsTidy [] h t = t
add_values-IsTidy ((key, val) ∷ m) h t =
    add_values-IsTidy m (add_value key val h)
      (insert-IsTidy (canonical key) _ h (canonical_idempotent key) t)

set_values-IsTidy : (m : Assoc Str) (h : Header) → IsTidy h → IsTidy (set_values m h)
unfolding set_values set_value
set_values-IsTidy [] h t = t
set_values-IsTidy ((key, val) ∷ m) h t =
    set_values-IsTidy m (set_value key val h)
      (insert-IsTidy (canonical key) _ h (canonical_idempotent key) t)

request_header-IsTidy : (c : Client) (ctx : Context) → IsTidy (request_header c ctx)
unfolding request_header IsTidy
request_header-IsTidy c ctx = go ctx.headers (add_values-IsTidy c.headers [] tt)
  where
    go :
        (m : Option (Assoc Str))
        → IsTidy (add_values c.headers [])
        → IsTidy (set_given m (add_values c.headers []))
    go none t = t
    go (some m) t = set_values-IsTidy m (add_values c.headers []) t

at-add_each :
    (key k : Str) (vals : List Str) (h : Header)
    → at k (add_each key vals h) ≡ at k h ++ (if str_eq (canonical key) k then vals else [])
unfolding add_each
at-add_each key k [] h = go (str_eq (canonical key) k)
  where
    go : (b : Bool) → at k h ≡ at k h ++ (if b then [] else [])
    go true = sym (append-nil (at k h))
    go false = sym (append-nil (at k h))
at-add_each key k (val ∷ vals) h =
    at-add_each key k vals (add_value key val h)
    ∙ ap (λ s. s ++ (if str_eq (canonical key) k then vals else [])) (at-add_value key val k h)
    ∙ go (str_eq (canonical key) k)
  where
    go :
        (b : Bool)
        → (at k h ++ (if b then val ∷ [] else [])) ++ (if b then vals else [])
          ≡ at k h ++ (if b then val ∷ vals else [])
    go true = append_assoc (at k h) (val ∷ []) vals
    go false = append_assoc (at k h) [] []

at-add_entries : (k : Str) (m h : Header) → IsTidy m → at k (add_entries m h) ≡ at k h ++ at k m
unfolding add_entries IsTidy lookup
at-add_entries k [] h t = sym (append-nil (at k h))
at-add_entries k ((key, vals) ∷ m) h t =
    at-add_entries k m (add_each key vals h) t.2
    ∙ ap (λ s. s ++ at k m) (at-add_each key k vals h)
    ∙ ap (λ j. (at k h ++ (if str_eq j k then vals else [])) ++ at k m) t.0
    ∙ go (str_eq key k) refl
  where
    go :
        (b : Bool)
        → str_eq key k ≡ b
        → (at k h ++ (if b then vals else [])) ++ at k m
          ≡ at k h ++ or_nil (if b then some vals else lookup k m)
    go true e =
        append_assoc (at k h) vals (at k m)
        ∙ ap (λ o. at k h ++ (vals ++ or_nil o))
            (ap (λ j. lookup j m) (sym ((str_eq_iff key k).0 e)) ∙ t.1)
        ∙ ap (λ s. at k h ++ s) (append-nil vals)
    go false e = append_assoc (at k h) [] (at k m)

-- The values of that request for a header, by whatever name, in the order in which the maps of the
-- client and its context are walked: the last that the context gives, alone, or else all of the client's.
pub sent_header :
    (c : Client) (ctx : Context) (name : Str)
    → values name (convert_header (request_header c ctx))
      ≡ overriding
          (matching_given (canonical name) ctx.headers)
          (matching (canonical name) c.headers)
unfolding convert_header lookup
sent_header c ctx name =
    at-add_entries (canonical name) (request_header c ctx) [] (request_header-IsTidy c ctx)
    ∙ at-request_header c ctx (canonical name)
