-- ===== src/Identity/ClientAddress.antt =====
-- The address of a client that its request gives: `ClientIPFromRequest`.
use mathlib.Core.Option
use mathlib.Core.Option.{none-ne-some}
use mathlib.Core.List.{append-nil}
use mathlib.Core.Path.{subst}
use dolly.Prelude.{
  ◌≡◌, ◌≢◌, refl, ap, sym, ◌∙◌, Bool, true, false, ◌&&◌, Option, none, some, List, [], ◌∷◌, ◌++◌,
  Str, str_eq, All, lookup, if◌then◌else◌,
}
use dolly.GoText.{split, join, trim_space, is_empty}
use dolly.GoText.Laws.{IsWhole, split-join}
use dolly.Netutil.{IpAddress, cidrs, in_blocks, is_private_address}
use dolly.Netutil.Blocks.{IsPrivate, in_blocks-IsPrivate, IsPrivate-in_blocks}
use dolly.Identity.{Request}
use dolly.Identity.Realip.{
  x_real_ip, x_forwarded_for, is_public, remote_ip, first_public, client_ip_from_request,
}

-- What is read of a text is no address, or a private one.
abbrev pub IsHidden : Option IpAddress → Type 0
IsHidden none = Unit
IsHidden (some ip) = IsPrivate ip

-- A request with the two headers, the second a list of texts with commas between
abbrev pub with_headers : Str → List Str → Request → Request
with_headers real texts r = record r {
  headers = (x_real_ip, real) ∷ (x_forwarded_for, join texts b',') ∷ r.headers;
}

separated : (p t : Str) → p ++ b',' ∷ t ≢ []
separated [] t e = absurd (cc e)
separated (c ∷ p) t e = absurd (cc e)

str_eq-is_empty : (s : Str) → str_eq s [] ≡ is_empty s
unfolding str_eq
str_eq-is_empty [] = refl
str_eq-is_empty (c ∷ s) = refl

is_empty-ne-nil : (s : Str) → s ≢ [] → is_empty s ≡ false
is_empty-ne-nil [] n = absurd (n refl)
is_empty-ne-nil (c ∷ s) n = refl

not_both : (b : Bool) (x y : Str) → (if b && false then x else y) ≡ y
not_both true x y = refl
not_both false x y = refl

-- What the header says again
listed :
    (before : List Str) (address : Str) (after : List Str)
    → All (IsWhole b',') (before ++ address ∷ after)
    → split (join (before ++ address ∷ after) b',') b',' ≡ before ++ address ∷ after
listed [] address after h = split-join address after b',' h
listed (p ∷ before) address after h = split-join p (before ++ address ∷ after) b',' h

All-before :
    (before rest : List Str) → All (IsWhole b',') (before ++ rest) → All (IsWhole b',') before
All-before [] rest h = tt
All-before (p ∷ before) rest (h, hs) = (h, All-before before rest hs)

module _ (parse_ip : Str → Option IpAddress) (local_ip : Option Str) where
  hidden : (o : Option IpAddress) → IsHidden o → is_public (Option.map (in_blocks cidrs) o) ≡ false
  hidden none h = refl
  hidden (some ip) h = rw (in_blocks-IsPrivate ip h) refl

  shown : (ip : IpAddress) → ¬ IsPrivate ip → is_public (some (in_blocks cidrs ip)) ≡ true
  shown ip n = go (in_blocks cidrs ip) refl
    where
      go : (b : Bool) → in_blocks cidrs ip ≡ b → is_public (some b) ≡ true
      go true e = absurd (n (IsPrivate-in_blocks ip e))
      go false e = refl

  abbrev AreHidden : List Str → Type 0
  AreHidden texts = All (λ text. IsHidden (parse_ip (trim_space text))) texts

  first_public-append :
      (before rest : List Str) (real : Str)
      → AreHidden before
      → first_public parse_ip (before ++ rest) real ≡ first_public parse_ip rest real
  unfolding first_public is_private_address
  first_public-append [] rest real h = refl
  first_public-append (text ∷ before) rest real (h, hs) =
      rw (hidden (parse_ip (trim_space text)) h) (first_public-append before rest real hs)

  first_public-found :
      (address : Str) (after : List Str) (real : Str) (ip : IpAddress)
      → parse_ip (trim_space address) ≡ some ip
      → ¬ IsPrivate ip
      → first_public parse_ip (address ∷ after) real ≡ trim_space address
  unfolding first_public is_private_address
  first_public-found address after real ip e n = rw (e, shown ip n) refl

  chosen :
      (real : Str) (texts listed : List Str) (r : Request)
      → split (join texts b',') b',' ≡ listed
      → client_ip_from_request parse_ip local_ip (with_headers real texts r) ≡ (
          if is_empty real && is_empty (join texts b',')
          then remote_ip local_ip r
          else first_public parse_ip listed real)
  unfolding client_ip_from_request lookup str_eq
  chosen real texts listed r same =
      rw (same, str_eq-is_empty real, str_eq-is_empty (join texts b',')) refl

  not_blank :
      (before after : List Str) (address : Str) (ip : IpAddress)
      → parse_ip [] ≡ none
      → parse_ip (trim_space address) ≡ some ip
      → join (before ++ address ∷ after) b',' ≢ []
  unfolding join trim_space
  not_blank [] [] (c ∷ address) ip blank e same = absurd (cc same)
  not_blank [] [] [] ip blank e same =
      absurd (none-ne-some ip (sym blank ∙ ap (λ t. parse_ip (trim_space t)) (sym same) ∙ e))
  not_blank [] (q ∷ after) address ip blank e same = separated address (join (q ∷ after) b',') same
  not_blank (p ∷ []) after address ip blank e same = separated p (join (address ∷ after) b',') same
  not_blank (p ∷ q ∷ before) after address ip blank e same =
      separated p (join (q ∷ before ++ address ∷ after) b',') same

  first_public-AreHidden :
      (before : List Str) (real : Str) → AreHidden before → first_public parse_ip before real ≡ real
  unfolding first_public
  first_public-AreHidden before real hs =
      ap (λ texts. first_public parse_ip texts real) (sym (append-nil before))
      ∙ first_public-append before [] real hs

  unlisted :
      (r : Request) (real : Str) (before : List Str)
      → parse_ip [] ≡ none
      → All (IsWhole b',') before
      → AreHidden before
      → client_ip_from_request parse_ip local_ip (with_headers real before r)
        ≡ (if is_empty real && is_empty (join before b',') then remote_ip local_ip r else real)
  unfolding join split trim_space
  unlisted r real [] blank whole hs =
      chosen real [] ([] ∷ []) r refl
      ∙ rw (first_public-AreHidden ([] ∷ []) real (subst IsHidden (sym blank) tt, tt)) refl
  unlisted r real (p ∷ before) blank whole hs =
      chosen real (p ∷ before) (p ∷ before) r (split-join p before b',' whole)
      ∙ rw (first_public-AreHidden (p ∷ before) real hs) refl

  -- The address of a client is the first in `X-Forwarded-For` that is public. Let the header list texts
  -- without commas, and let `ParseIP` read nothing from the empty text. If the first texts have, without the
  -- white space round them, no address or a private one, and the next has one that is in none of the
  -- private ranges, this text is the client's address, whatever follows and whatever `X-Real-Ip` is.
  -- If the first texts are the whole header, it is what `X-Real-Ip` says, also if that is empty, except that
  -- the address of the connection is taken if both headers are empty.
  pub client_ip-with_headers :
      (r : Request) (real address : Str) (before after : List Str) (ip : IpAddress)
      → parse_ip [] ≡ none
      → All (IsWhole b',') (before ++ address ∷ after)
      → AreHidden before
      → parse_ip (trim_space address) ≡ some ip
      → ¬ IsPrivate ip
      → (client_ip_from_request parse_ip local_ip (with_headers real (before ++ address ∷ after) r)
          ≡ trim_space address)
        × (client_ip_from_request parse_ip local_ip (with_headers real before r)
            ≡ (if is_empty real && is_empty (join before b',') then remote_ip local_ip r else real))
  client_ip-with_headers r real address before after ip blank whole hs e n = (
    chosen real (before ++ address ∷ after) (before ++ address ∷ after) r
          (listed before address after whole)
        ∙ rw (is_empty-ne-nil _ (not_blank before after address ip blank e)) (
            not_both (is_empty real) _ _
            ∙ first_public-append before (address ∷ after) real hs
            ∙ first_public-found address after real ip e n),
    unlisted r real before blank (All-before before (address ∷ after) whole) hs,
  )
