-- ===== src/Prelude/Results.antt =====
-- What a Go function returns beside an error: a value, an error known by its text, or a panic.
use mathlib.Core.Path.{◌≡◌, refl}
use mathlib.Core.Bool.{Bool, true, false}
use mathlib.Core.Option.{Option, none, some}
use dolly.Prelude.Text.{Str}

pub data Result {ℓ} (A : Type ℓ) : Type ℓ where
  ok : A → Result A
  err : Str → Result A
  panic : Result A

infixl 5 ◌>>=◌ ◌>>◌
abbrev pub ◌>>=◌ {ℓ κ} : {A : Type ℓ} {B : Type κ} → Result A → (A → Result B) → Result B
ok a >>= f = f a
err e >>= f = err e
panic >>= f = panic

abbrev pub ◌>>◌ {ℓ} : {B : Type ℓ} → Result (Unit {0}) → Result B → Result B
m >> k = m >>= λ _. k

-- if !test { return errors.New(text) }
abbrev pub guard : Bool → Str → Result (Unit {0})
guard true text = ok tt
guard false text = err text

abbrev pub or_err {ℓ} : {A : Type ℓ} → Str → Option A → Result A
or_err text none = err text
or_err text (some a) = ok a

pub bind-ok {ℓ κ} :
    {A : Type ℓ} {B : Type κ} (m : Result A) (f : A → Result B) (b : B)
    → (m >>= f) ≡ ok b
    → (a : A) × (m ≡ ok a) × (f a ≡ ok b)
bind-ok (ok a) f b h = (a, refl, h)
bind-ok (err e) f b h = absurd (cc h)
bind-ok panic f b h = absurd (cc h)

pub guard-ok : (test : Bool) (text : Str) (u : Unit {0}) → guard test text ≡ ok u → test ≡ true
guard-ok true text u h = refl
guard-ok false text u h = absurd (cc h)

pub or_err-ok {ℓ} :
    {A : Type ℓ} (text : Str) (o : Option A) (a : A) → or_err text o ≡ ok a → o ≡ some a
or_err-ok text none a h = absurd (cc h)
or_err-ok text (some b) a h = cc h
