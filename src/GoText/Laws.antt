-- ===== src/GoText/Laws.antt =====
-- Laws of the functions of `strings` and `bytes`.
use dolly.Prelude.{
  ℕ, ◌+◌, ◌-◌, ◌≤◌, ◌≡◌, ◌≢◌, refl, ap, ◌∙◌, true, false, ◌==◌, All, some, List, [], ◌∷◌, ◌++◌, Str,
  arith, length, drop,
}
use dolly.GoText.{has_prefix, index, split, join, cons_head}

pub has_prefix_sound : (s p : Str) → has_prefix s p ≡ true → s ≡ p ++ drop (length p) s
unfolding has_prefix
has_prefix_sound s [] h = refl
has_prefix_sound [] (d ∷ p) h = ground arith
has_prefix_sound (c ∷ s) (d ∷ p) h = ground (arith, has_prefix_sound s p)

pub has_prefix-append : (p t : Str) → has_prefix (p ++ t) p ≡ true
unfolding has_prefix
has_prefix-append [] t = refl
has_prefix-append (c ∷ p) t = ground (arith, has_prefix-append p t)

pub has_prefix-le : (s p : Str) → has_prefix s p ≡ true → length p ≤ length s
unfolding has_prefix
has_prefix-le s [] h = omega arith
has_prefix-le [] (d ∷ p) h = ground arith
has_prefix-le (c ∷ s) (d ∷ p) h = ground (arith, has_prefix-le s p)

-- An index that is found splits the text there.
pub index-le-length : (s p : Str) (i : ℕ) → index s p ≡ some i → i + length p ≤ length s
unfolding index
index-le-length [] p i h = ground (arith, has_prefix-le [] p)
index-le-length (c ∷ s) p i h = ground (arith, has_prefix-le (c ∷ s) p, index-le-length s p (i - 1))

pub split-ne-nil : (s : Str) (b : ℕ) → split s b ≢ []
unfolding split
split-ne-nil [] b = ground arith
split-ne-nil (c ∷ s) b = ground arith

pub join-cons_head : (c b : ℕ) (ps : List Str) → ps ≢ [] → join (cons_head c ps) b ≡ c ∷ join ps b
unfolding join
join-cons_head c b [] h = absurd (h refl)
join-cons_head c b (p ∷ []) h = refl
join-cons_head c b (p ∷ q ∷ ps) h = refl

join-cons : (p : Str) (ps : List Str) (b : ℕ) → ps ≢ [] → join (p ∷ ps) b ≡ p ++ b ∷ join ps b
unfolding join
join-cons p [] b h = absurd (h refl)
join-cons p (q ∷ ps) b h = refl

pub join-split : (s : Str) (b : ℕ) → join (split s b) b ≡ s
unfolding split
join-split [] b = unfold join in refl
join-split (c ∷ s) b = ground (
  arith,
  join-split s b,
  split-ne-nil s b,
  join-cons_head c b (split s b),
  join-cons [] (split s b) b,
)

-- A text without the separator
abbrev pub IsWhole : ℕ → Str → Type 0
IsWhole b s = All (λ c. (c == b) ≡ false) s

split-whole : (s : Str) (b : ℕ) → IsWhole b s → split s b ≡ s ∷ []
unfolding split
split-whole [] b h = refl
split-whole (c ∷ s) b (first, h) = rw (first, split-whole s b h) refl

split-append : (s t : Str) (b : ℕ) → IsWhole b s → split (s ++ b ∷ t) b ≡ s ∷ split t b
unfolding split
split-append [] t b h = ground arith
split-append (c ∷ s) t b (first, h) = rw (first, split-append s t b h) refl

-- Texts without the separator are what their joined text splits into.
pub split-join :
    (p : Str) (ps : List Str) (b : ℕ)
    → All (IsWhole b) (p ∷ ps)
    → split (join (p ∷ ps) b) b ≡ p ∷ ps
unfolding join
split-join p [] b (h, tt) = split-whole p b h
split-join p (q ∷ ps) b (h, rest) =
    split-append p (join (q ∷ ps) b) b h ∙ ap (λ r. p ∷ r) (split-join q ps b rest)
