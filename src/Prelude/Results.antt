-- ===== src/Prelude/Results.antt =====
-- Results: with the error as a text (`Result<_, String>`, and an `anyhow::Result` by its message),
-- and with an error of the caller's type, with `?` and early returns.
use Prim.Native.String.{String}
use mathlib.Core.Path.{◌≡◌, refl}
use mathlib.Core.Bool.{Bool, true, false}
use mathlib.Core.Logic.{◌⊎◌, inl, inr}
use native.Mathlib.Omega.{arith}

pub data Fallible (A : Type 0) : Type 0 where
  success : A → Fallible A
  error : String → Fallible A

pub data Result (E A : Type 0) : Type 0 where
  ok : A → Result E A
  err : E → Result E A

infixl 5 ◌>>=◌ ◌>>◌
abbrev pub ◌>>=◌ : {E A B : Type 0} → Result E A → (A → Result E B) → Result E B
ok a >>= f = f a
err e >>= f = err e

abbrev pub ◌>>◌ : {E B : Type 0} → Result E (Unit {0}) → Result E B → Result E B
m >> k = m >>= λ _. k

-- `map_err`.
abbrev pub map_err : {E F A : Type 0} → (E → F) → Result E A → Result F A
map_err f (ok a) = ok a
map_err f (err e) = err (f e)

-- An early return unless the test holds.
abbrev pub require : {E : Type 0} → Bool → E → Result E (Unit {0})
require true e = ok tt
require false e = err e

pub bind-ok :
    {E A B : Type 0} (m : Result E A) (f : A → Result E B) {b : B}
    → (m >>= f) ≡ ok b
    → (a : A) × (m ≡ ok a) × (f a ≡ ok b)
bind-ok (ok a) f h = (a, refl, h)
bind-ok (err e) f h = absurd (cc)

pub require-ok : {E : Type 0} (t : Bool) (e : E) {u : Unit {0}} → require t e ≡ ok u → t ≡ true
require-ok true e h = refl
require-ok false e h = absurd (cc)

-- What comes after a test that the whole chain passed.
pub require-bind :
    {E B : Type 0} (t : Bool) (e : E) (k : Result E B) {b : B}
    → (require t e >> k) ≡ ok b
    → (t ≡ true) × (k ≡ ok b)
require-bind true e k h = (refl, h)
require-bind false e k h = absurd (cc)

pub map_err-ok :
    {E F A : Type 0} (f : E → F) (r : Result E A) {a : A} → map_err f r ≡ ok a → r ≡ ok a
map_err-ok f (ok a) h = ground arith
map_err-ok f (err e) h = absurd (cc)

pub Fallible-cases :
    {A : Type 0} (x : Fallible A) → ((a : A) × (x ≡ success a)) ⊎ ((why : String) × (x ≡ error why))
Fallible-cases (success a) = inl (a, refl)
Fallible-cases (error why) = inr (why, refl)
