-- ===== src/Retriable/Walked.antt =====
-- The headers that `Do` gives to net/http, in whatever order Go walks the maps of the client and of its
-- context.
use mathlib.Core.List.{Perm, filter_map, Mem}
use mathlib.Core.List.{mem-cons_self, mem-cons_of_mem}
use mathlib.Core.List.Perm
use mathlib.Core.Option.{Option-elim}
use mathlib.Core.Path.{subst}
use dolly.Prelude.{
  ◌≡◌, refl, ap, sym, ◌∙◌, Bool, true, false, Option, none, some, List, [], ◌∷◌, Str, str_eq, Assoc,
  ◌⊎◌, inl, inr, if◌then◌else◌,
}
use dolly.Http.{canonical, values}
use dolly.Retriable.Client.{Client, Context, request_header, convert_header}
use dolly.Retriable.Headers.{matching, matching_given, overriding, keep_if}
use dolly.Retriable.Sent.{sent_header}

value_of : Str → Str × Str → Option Str
value_of k (key, val) = if str_eq (canonical key) k then some val else none

matching-filter_map : (k : Str) (m : Assoc Str) → matching k m ≡ filter_map (value_of k) m
unfolding matching value_of filter_map Option-elim
matching-filter_map k [] = refl
matching-filter_map k ((key, val) ∷ m) = go (str_eq (canonical key) k) (matching-filter_map k m)
  where
    go :
        (b : Bool)
        → matching k m ≡ filter_map (value_of k) m
        → keep_if b val (matching k m)
          ≡ Option-elim
              (if b then some val else none)
              (filter_map (value_of k) m)
              (λ v. v ∷ filter_map (value_of k) m)
    go true h = ap (λ vs. val ∷ vs) h
    go false h = h

matching-Perm : (k : Str) (m n : Assoc Str) → Perm m n → Perm (matching k m) (matching k n)
matching-Perm k m n p =
    rw (matching-filter_map k m, matching-filter_map k n) (Perm.filter_map (value_of k) p)

overriding-last :
    (v : Str) (vals : List Str) → (w : Str) × Mem w (v ∷ vals) × (overriding vals (v ∷ []) ≡ w ∷ [])
unfolding overriding
overriding-last v [] = (v, mem-cons_self, refl)
overriding-last v (u ∷ vals) = let (w, m, e) = overriding-last u vals in (w, mem-cons_of_mem v m, e)

-- The entries that the context has
abbrev pub entries_of : Option (Assoc Str) → Assoc Str
entries_of none = []
entries_of (some m) = m

matching_given-entries_of :
    (k : Str) (o : Option (Assoc Str)) → matching_given k o ≡ matching k (entries_of o)
unfolding matching
matching_given-entries_of k none = refl
matching_given-entries_of k (some m) = refl

-- The values for a header, by whatever name, of the request that `Do` gives to net/http. Let `own` and
-- `given` be the entries of the client's headers and of the context's, each map being walked in any
-- order. If the context gives the header a value, the request has exactly one, which is one that
-- the context gives; if not, it has all the values that the client's own headers give it, in some order.
-- Names that differ only in case are one header.
pub sent_values :
    (c : Client) (ctx : Context) (own given : Assoc Str) (name : Str)
    → Perm c.headers own
    → Perm (entries_of ctx.headers) given
    → ((matching (canonical name) given ≡ [])
        × Perm
            (values name (convert_header (request_header c ctx)))
            (matching (canonical name) own))
      ⊎ ((v : Str) × Mem v (matching (canonical name) given)
          × (values name (convert_header (request_header c ctx)) ≡ v ∷ []))
unfolding overriding
sent_values c ctx own given name same_own same_given =
    go (matching k (entries_of ctx.headers))
      (sent_header c ctx name
        ∙ ap (λ vs. overriding vs (matching k c.headers)) (matching_given-entries_of k ctx.headers))
      (matching-Perm k (entries_of ctx.headers) given same_given)
  where
    k : Str
    k = canonical name

    go :
        (vals : List Str)
        → values name (convert_header (request_header c ctx))
          ≡ overriding vals (matching k c.headers)
        → Perm vals (matching k given)
        → ((matching k given ≡ [])
            × Perm (values name (convert_header (request_header c ctx))) (matching k own))
          ⊎ ((v : Str) × Mem v (matching k given)
              × (values name (convert_header (request_header c ctx)) ≡ v ∷ []))
    go [] e p = inl (
      sym (Perm.nil-eq p),
      subst (λ vs. Perm vs (matching k own)) (sym e) (matching-Perm k c.headers own same_own),
    )
    go (v ∷ vals) e p =
        let (w, m, one) = overriding-last v vals in inr (w, (Perm.mem_iff p).0 m, e ∙ one)
