-- ===== src/Http/Canonical.antt =====
-- Canonical header names: `CanonicalMIMEHeaderKey` of a canonical name.
use dolly.Prelude.{
  ℕ, ◌≡◌, refl, Bool, true, false, ◌&&◌, inl, inr, [], ◌∷◌, Str, arith, ◌==◌, Bool-cases,
}
use dolly.Http.{is_token, all_tokens, in_case, cased, canonical}

in_case-token : (b : Bool) (c : ℕ) → is_token c ≡ true → is_token (in_case b c) ≡ true
unfolding is_token
in_case-token true c h = ground arith
in_case-token false c h = ground arith

in_case_twice : (b : Bool) (c : ℕ) → in_case b (in_case b c) ≡ in_case b c
in_case_twice true c = ground arith
in_case_twice false c = ground arith

all_tokens-cased : (b : Bool) (s : Str) → all_tokens s ≡ true → all_tokens (cased b s) ≡ true
unfolding all_tokens cased
all_tokens-cased b [] h = refl
all_tokens-cased b (c ∷ s) h =
    let (first, rest) = split (is_token c) (all_tokens s) h in
    rw (in_case-token b c first, all_tokens-cased (in_case b c == b'-') s rest)
  where
    split : (p q : Bool) → (p && q) ≡ true → (p ≡ true) × (q ≡ true)
    split true q e = (refl, e)
    split false q e = absurd (cc e)

cased_twice : (b : Bool) (s : Str) → cased b (cased b s) ≡ cased b s
unfolding cased
cased_twice b [] = refl
cased_twice b (c ∷ s) = rw (in_case_twice b c, cased_twice (in_case b c == b'-') s)

pub canonical_idempotent : (s : Str) → canonical (canonical s) ≡ canonical s
unfolding canonical
canonical_idempotent s = elim (Bool-cases (all_tokens s)) [
  | inl e ↦ rw (e, all_tokens-cased true s e, cased_twice true s)
  | inr e ↦ rw (e, e)
]
