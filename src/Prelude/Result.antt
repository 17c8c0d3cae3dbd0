-- ===== src/Prelude/Result.antt =====
-- Functions that may raise and change no state.
use mathlib.Core.Bool.{Bool, true, false}
use mathlib.Core.Option.{Option, none, some}
use mathlib.Core.Path.{◌≡◌, refl}
use diracx.Prelude.Outcome.{Error, Result, ok, err}

-- `if not b: raise e`
abbrev pub require : Bool → Error → Result (Unit {0})
require false e = err e
require true _ = ok tt

pub require-eq-ok : (b : Bool) (e : Error) {u : Unit {0}} → require b e ≡ ok u → b ≡ true
require-eq-ok true e h = refl
require-eq-ok false e h = cc

-- a lookup that may raise
abbrev pub get_or {ℓ} : {A : Type ℓ} → Error → Option A → Result A
get_or e none = err e
get_or e (some a) = ok a

pub get_or-eq-ok {ℓ} :
    {A : Type ℓ} (e : Error) (o : Option A) {a : A} → get_or e o ≡ ok a → o ≡ some a
get_or-eq-ok e none h = cc
get_or-eq-ok e (some a) h = cc

module _ {ℓ κ} {A : Type ℓ} {B : Type κ} where
  infixl 5 ◌>>=◌
  abbrev pub ◌>>=◌ : Result A → (A → Result B) → Result B
  r >>= next = elim r [ err raised ↦ err raised | ok value ↦ next value ]

  -- a block that is `ok` has passed through the value of its first step
  pub >>=-eq-ok :
      (r : Result A) (next : A → Result B) {b : B}
      → (r >>= next) ≡ ok b
      → (value : A) × (r ≡ ok value) × (next value ≡ ok b)
  >>=-eq-ok (err raised) next h = cc
  >>=-eq-ok (ok value) next h = (value, refl, h)

module _ {κ} {B : Type κ} where
  infixl 5 ◌>>◌
  abbrev pub ◌>>◌ : Result (Unit {0}) → Result B → Result B
  check >> rest = check >>= λ _. rest
