-- ===== src/Armor/Decoded.antt =====
-- What `Decode` of xpki/armor/armor.go returns.
use mathlib.Core.Option
use dolly.Prelude.{
  ℕ, zero, suc, ◌+◌, ◌-◌, ◌%◌, ◌^◌, ◌≤◌, ◌<◌, ◌≡◌, refl, Bool, true, false, not, ◌||◌, Option, none,
  some, [], Str, Assoc, ltb, ==_iff, if◌then◌else◌, length, take, drop, get_elem?, arith,
  Bool-cases, bind-some, inl, inr,
}
use dolly.GoText.{has_suffix}
use dolly.Armor.Base64.{base64_decode}
use dolly.Armor.Crc.{crc24, crc24_init}
use dolly.Armor.Decoder.{
  Block, get_line, remove_whitespace, pem_end, pem_end_of_line, find_start, Headed, ended, headed,
  find_end, good_trailer, checksum, checked, parse_body, Attempt, no_start, unended, rejected,
  decoded, behind_end, with_body, with_end, with_headers, with_type, with_start, attempt, or_input,
  decode, is_byte,
}
use dolly.Armor.Shorter.{
  length-drop, get_line-shorter, headed_length, header_loop_ends, find_start-shorter,
}

abbrev pub IsSound : Block → Type 0
IsSound b = b.crc ≡ crc24 crc24_init b.bytes % 2 ^ 24

checked-IsSound :
    (kind : Str) (headers : Assoc Str) (crc : ℕ) (bytes : Str) (b : Block)
    → checked kind headers crc bytes ≡ some b
    → IsSound b
unfolding checked
checked-IsSound kind headers crc bytes b h =
    ground (arith, ==_iff crc (crc24 crc24_init bytes % 2 ^ 24))

if_none {ℓ} :
    {A : Type ℓ} (bad : Bool) (o : Option A) (a : A)
    → (if bad then none else o) ≡ some a
    → o ≡ some a
if_none true o a h = absurd (cc h)
if_none false o a h = h

parse_body-IsSound :
    (kind : Str) (headers : Assoc Str) (body : Str) (b : Block)
    → parse_body kind headers body ≡ some b
    → IsSound b
unfolding parse_body
parse_body-IsSound kind headers body b h =
    let block = remove_whitespace body in
    let n = length block in
    let chain =
      if_none (ltb n 5 || not (is_byte (get_elem? block (n - 5)) b'=')) (parts block n) b h in
    let (crc, first, later) =
      bind-some (Option.bind (base64_decode (drop (n - 4) block)) checksum) (rest block n) b
        chain in
    let (bytes, second, last) =
      bind-some (base64_decode (remove_whitespace (take (n - 5) block))) (checked kind headers crc)
        b later in
    checked-IsSound kind headers crc bytes b last
  where
    rest : Str → ℕ → ℕ → Option Block
    rest block n crc =
        Option.bind (base64_decode (remove_whitespace (take (n - 5) block)))
          (checked kind headers crc)

    parts : Str → ℕ → Option Block
    parts block n =
        Option.bind (Option.bind (base64_decode (drop (n - 4) block)) checksum) (rest block n)

-- An attempt leaves less than `n` bytes, and a block of it has the right checksum.
abbrev IsGood : ℕ → Attempt → Type 0
IsGood n no_start = Unit
IsGood n unended = Unit
IsGood n (rejected rest) = length rest < n
IsGood n (decoded b rest) = (length rest < n) × IsSound b

behind_end-shorter : (i : ℕ) (rest : Str) → length (behind_end i rest) ≤ length rest
unfolding behind_end
behind_end-shorter i rest = omega (
  arith,
  get_line-shorter (drop (i + length pem_end - 1) rest),
  length-drop (i + length pem_end - 1) rest,
)

with_end-IsGood :
    (kind : Str) (headers : Assoc Str) (rest : Str) (e : Option (ℕ × ℕ)) (n : ℕ)
    → length rest < n
    → IsGood n (with_end kind headers rest e)
unfolding with_end with_body
with_end-IsGood kind headers rest none n h = h
with_end-IsGood kind headers rest (some (i, trailer)) n h =
    cases (good_trailer kind (drop trailer rest)) (parse_body kind headers (take i rest)) refl
  where
    cases :
        (good : Bool) (o : Option Block)
        → parse_body kind headers (take i rest) ≡ o
        → IsGood n (if good then with_body rest i o else rejected rest)
    cases false o e = h
    cases true none e = h
    cases true (some b) e = (
      omega (arith, behind_end-shorter i rest),
      parse_body-IsSound kind headers (take i rest) b e,
    )

with_headers-IsGood :
    (kind : Str) (h : Headed) (n : ℕ) → headed_length h < n → IsGood n (with_headers kind h)
unfolding with_headers
with_headers-IsGood kind ended n k = tt
with_headers-IsGood kind (headed headers rest) n k =
    with_end-IsGood kind headers rest (find_end headers rest) n k

with_type-IsGood :
    (type_line rest : Str) (n : ℕ)
    → length rest < n
    → (a : Attempt) × (with_type type_line rest ≡ some a) × IsGood n a
with_type-IsGood type_line rest n h = elim (Bool-cases (has_suffix type_line pem_end_of_line)) [
  | inl e ↦
      let (hd, f, k) = header_loop_ends (suc (length rest)) [] rest (omega arith) in
      let kind = take (length type_line - length pem_end_of_line) type_line in
      (
        with_headers kind hd,
        (unfold with_type in rw (e, f) refl),
        with_headers-IsGood kind hd n (omega arith),
      )
  | inr e ↦ (rejected rest, (unfold with_type in rw e refl), h)
]

attempt-IsGood : (input : Str) → (a : Attempt) × (attempt input ≡ some a) × IsGood (length input) a
unfolding attempt
attempt-IsGood input = go (find_start input) refl
  where
    go :
        (o : Option Str)
        → find_start input ≡ o
        → (a : Attempt) × (with_start o ≡ some a) × IsGood (length input) a
    go none e = (no_start, refl, tt)
    go (some s) e =
        with_type-IsGood (get_line s).0 (get_line s).1 (length input)
          (omega (arith, get_line-shorter s, find_start-shorter input s e))

-- Without a block the whole input is given back. With one there is less left, and the block's
-- checksum is that of its bytes.
abbrev pub IsAnswer : Str → Option Block × Str → Type 0
IsAnswer input (none, rest) = rest ≡ input
IsAnswer input (some b, rest) = (length rest < length input) × IsSound b

IsAnswer-or_input :
    (input rest : Str) (r : Option Block × Str)
    → length rest < length input
    → IsAnswer rest r
    → IsAnswer input (or_input input r)
IsAnswer-or_input input rest (none, left) less h = refl
IsAnswer-or_input input rest (some b, left) less (shorter, sound) = (omega arith, sound)

decode-IsAnswer :
    (fuel : ℕ) (input : Str)
    → length input < fuel
    → (r : Option Block × Str) × (decode fuel input ≡ some r) × IsAnswer input r
unfolding decode
decode-IsAnswer zero input h = absurd (omega arith)
decode-IsAnswer (suc fuel) input h =
    go (attempt-IsGood input) (λ rest less. decode-IsAnswer fuel rest less)
  where
    go :
        (a : Attempt) × (attempt input ≡ some a) × IsGood (length input) a
        → ((rest : Str)
            → length rest < fuel
            → (r : Option Block × Str) × (decode fuel rest ≡ some r) × IsAnswer rest r)
        → (r : Option Block × Str) × (decode (suc fuel) input ≡ some r) × IsAnswer input r
    go (no_start, e, g) rec = ((none, input), rw (e, decode) refl, refl)
    go (unended, e, g) rec = ((none, input), rw (e, decode) refl, refl)
    go (rejected rest, e, g) rec =
        let (r, f, answer) = rec rest (omega arith) in
        (or_input input r, rw (e, f, decode) refl, IsAnswer-or_input input rest r g answer)
    go (decoded b rest, e, g) rec = ((some b, rest), rw (e, decode) refl, g)

-- `Decode` ends on every input: one try more than the input has bytes is enough, and each loop over
-- headers ends too. If it finds no block it gives back the whole input; if it finds one, less than
-- the input is left, and the checksum of the block is the CRC-24 of its bytes.
pub decode_ends :
    (input : Str)
    → (r : Option Block × Str) × (decode (suc (length input)) input ≡ some r) × IsAnswer input r
decode_ends input = decode-IsAnswer (suc (length input)) input (omega arith)
