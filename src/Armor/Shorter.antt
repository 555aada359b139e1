-- ===== src/Armor/Shorter.antt =====
-- The steps of `Decode` of xpki/armor/armor.go leave less than they are given, so its loops end.
use mathlib.Core.Path.{subst}
use dolly.Prelude.{
  ℕ, zero, suc, ◌+◌, ◌-◌, ◌≤◌, ◌<◌, ◌≡◌, refl, sym, ◌∙◌, none, some, List, [], ◌∷◌, Str, Assoc,
  insert, length, take, drop, arith, Option-cases, Bool-cases, inl, inr,
}
use dolly.GoText.{has_prefix, index, index_byte, trim_space}
use dolly.GoText.Laws.{has_prefix-le, index-le-length}
use dolly.Armor.Decoder.{get_line, pem_start, find_start, Headed, ended, headed, header_loop}

pub length-drop {ℓ} : {A : Type ℓ} (n : ℕ) (xs : List A) → length (drop n xs) ≡ length xs - n
length-drop zero xs = omega arith
length-drop (suc n) [] = omega arith
length-drop (suc n) (x ∷ xs) = omega (arith, length-drop n xs)

-- `getLine` leaves less than it is given, if it is given something.
pub get_line-shorter : (input : Str) → length (get_line input).1 ≤ length input - 1
unfolding get_line
get_line-shorter input = elim (Option-cases (index_byte input 10)) [
  | inl e ↦ rw (e, get_line) (omega arith)
  | inr (i, e) ↦ rw (e, get_line) (omega (arith, length-drop (i + 1) input))
]

abbrev pub headed_length : Headed → ℕ
headed_length ended = 0
headed_length (headed headers rest) = length rest

-- Fuel for each byte and one more is enough for the loop over the headers.
pub header_loop_ends :
    (fuel : ℕ) (headers : Assoc Str) (rest : Str)
    → length rest < fuel
    → (h : Headed) × (header_loop fuel headers rest ≡ some h) × (headed_length h ≤ length rest)
unfolding header_loop
header_loop_ends zero headers rest h = absurd (omega arith)
header_loop_ends (suc fuel) headers [] h = (ended, refl, omega arith)
header_loop_ends (suc fuel) headers (c ∷ s) h =
    let line = (get_line (c ∷ s)).0 in
    let next = (get_line (c ∷ s)).1 in
    let less : length next ≤ length s = omega (arith, get_line-shorter (c ∷ s)) in
    elim (Option-cases (index_byte line b':')) [
      | inl e ↦ (headed headers (c ∷ s), rw (e, header_loop), omega arith)
      | inr (i, e) ↦
          let (r, f, k) =
            header_loop_ends fuel
              (insert (trim_space (take i line)) (trim_space (drop (i + 1) line)) headers) next
              (omega arith) in
          (r, rw (e, header_loop) f, omega arith)
    ]

pub find_start-shorter : (input s : Str) → find_start input ≡ some s → length s < length input
unfolding find_start
find_start-shorter input s h = elim (Bool-cases (has_prefix input (drop 1 pem_start))) [
  | inl e ↦
      let found : some (drop 11 input) ≡ some s = sym (rw (e, find_start) refl) ∙ h in
      let same : drop 11 input ≡ s = cc found in
      let less : length (drop 11 input) < length input =
        omega (arith, has_prefix-le input (drop 1 pem_start) e, length-drop 11 input) in
      subst (λ t. length t < length input) same less
  | inr e ↦ elim (Option-cases (index input pem_start)) [
    | inl f ↦
        let missed : none ≡ some s = sym (rw (e, f, find_start) refl) ∙ h in absurd (cc missed)
    | inr (i, f) ↦
        let found : some (drop (i + 12) input) ≡ some s = sym (rw (e, f, find_start) refl) ∙ h in
        let same : drop (i + 12) input ≡ s = cc found in
        let less : length (drop (i + 12) input) < length input =
          omega (arith, index-le-length input pem_start i f, length-drop (i + 12) input) in
        subst (λ t. length t < length input) same less
  ]
]
