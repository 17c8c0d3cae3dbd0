-- ===== src/Prelude/Keeps.antt =====
-- Invariants of actions, by one rule for each way to build an action.
use mathlib.Core.Bool.{Bool, true, false}
use mathlib.Core.Option.{Option, none, some}
use mathlib.Core.List.{List, [], ◌∷◌}
use mathlib.Core.Path.{◌≡◌, refl, subst}
use diracx.Prelude.Tests.{if◌then◌else◌}
use diracx.Prelude.Outcome.{
  Error, Result, ok, err, Outcome, returns, raises, Action, pure, raise, lift, get_or_raise, one,
  handled, handle, ensure, state_of, after, ◌>>=◌, >>=-eq-returns, pure-eq-returns,
}

-- `m` leaves a state with `P`, whether it returns or raises.
pub record Keeps {ℓ} {S A : Type ℓ} (P : S → Type ℓ) (m : Action S A) : Type ℓ where
  pub at : (s : S) → P s → P (state_of (m s))

module _ {ℓ} {S A : Type ℓ} where
  pub state_of-one : (l : List A) (s : S) → state_of (one l s) ≡ s
  unfolding ◌>>=◌
  state_of-one [] s = refl
  state_of-one (a ∷ []) s = refl
  state_of-one (_ ∷ _ ∷ _) s = refl

module _ {ℓ} {S A : Type ℓ} {P : S → Type ℓ} where
  pub Keeps-pure : (a : A) → Keeps P (pure a)
  unfolding ◌>>=◌
  Keeps-pure a = record { at = λ s h. h }

  pub Keeps-raise : (e : Error) → Keeps P (raise {A = A} e)
  unfolding ◌>>=◌
  Keeps-raise e = record { at = λ s h. h }

  pub Keeps-lift : (r : Result A) → Keeps P (lift r)
  unfolding ◌>>=◌
  Keeps-lift (ok a) = record { at = λ s h. h }
  Keeps-lift (err e) = record { at = λ s h. h }

  pub Keeps-get_or_raise : (e : Error) (o : Option A) → Keeps P (get_or_raise e o)
  unfolding ◌>>=◌
  Keeps-get_or_raise e none = record { at = λ s h. h }
  Keeps-get_or_raise e (some a) = record { at = λ s h. h }

  Keeps-handled :
      (o : Outcome S A) (h : Error → Action S A)
      → P (state_of o)
      → ((e : Error) → Keeps P (h e))
      → P (state_of (handled o h))
  Keeps-handled (returns a s) h p k = p
  Keeps-handled (raises e s) h p k = (k e).at s p

  pub Keeps-handle :
      (m : Action S A) (h : Error → Action S A)
      → Keeps P m
      → ((e : Error) → Keeps P (h e))
      → Keeps P (handle m h)
  unfolding ◌>>=◌
  Keeps-handle m h km kh = record { at = λ s p. Keeps-handled (m s) h (km.at s p) kh }

  pub Keeps-if :
      (b : Bool) (m n : Action S A) → Keeps P m → Keeps P n → Keeps P (if b then m else n)
  Keeps-if true m n km kn = km
  Keeps-if false m n km kn = kn

pub Keeps-ensure {ℓ} : {S : Type ℓ} {P : S → Type ℓ} (b : Bool) (e : Error) → Keeps P (ensure b e)
unfolding ◌>>=◌
Keeps-ensure true e = record { at = λ s h. h }
Keeps-ensure false e = record { at = λ s h. h }

module _ {ℓ} {S A B : Type ℓ} {P : S → Type ℓ} where
  Keeps-after :
      (o : Outcome S A) (f : A → Action S B)
      → P (state_of o)
      → ((a : A) → Keeps P (f a))
      → P (state_of (after o f))
  Keeps-after (returns a s) f p k = (k a).at s p
  Keeps-after (raises e s) f p k = p

  pub Keeps-bind :
      (m : Action S A) (f : A → Action S B)
      → Keeps P m
      → ((a : A) → Keeps P (f a))
      → Keeps P (m >>= f)
  unfolding ◌>>=◌
  Keeps-bind m f km kf = record { at = λ s p. Keeps-after (m s) f (km.at s p) kf }

module _ {ℓ} {S A : Type ℓ} where
  pub Keeps-returns :
      (P : S → Type ℓ) (m : Action S A) (s : S) {a : A} {s' : S}
      → Keeps P m
      → m s ≡ returns a s'
      → P s
      → P s'
  Keeps-returns P m s k e p = subst (λ (o : Outcome S A). P (state_of o)) e (k.at s p)

-- `m` leaves a state with `P` when it returns.
pub record Preserves {ℓ} {S A : Type ℓ} (P : S → Type ℓ) (m : Action S A) : Type ℓ where
  pub after_return : (s : S) {a : A} {s' : S} → m s ≡ returns a s' → P s → P s'

module _ {ℓ} {S A : Type ℓ} where
  pub Preserves-of_Keeps : (P : S → Type ℓ) (m : Action S A) → Keeps P m → Preserves P m
  Preserves-of_Keeps P m k = record { after_return = λ s e p. Keeps-returns P m s k e p }

pub Preserves-bind {ℓ} :
    {S A B : Type ℓ} {P : S → Type ℓ} (m : Action S A) (f : A → Action S B)
    → Preserves P m
    → ((a : A) → Preserves P (f a))
    → Preserves P (m >>= f)
Preserves-bind m f km kf = record {
  after_return = λ s e p.
      let (a, s1, e1, k1) = >>=-eq-returns m f s e in
      (kf a).after_return s1 k1 (km.after_return s e1 p);
}

pub ruleset keeps_rules = (
  Keeps-pure, Keeps-raise, Keeps-lift, Keeps-get_or_raise, Keeps-handle, Keeps-if, Keeps-ensure,
  Keeps-bind,
)

-- `m` returns only values with `P`.
pub record Gives {ℓ} {S A : Type ℓ} (P : A → Type ℓ) (m : Action S A) : Type ℓ where
  pub value_of : (s : S) {a : A} {s' : S} → m s ≡ returns a s' → P a

pub Gives-bind {ℓ} :
    {S A B : Type ℓ} {P : B → Type ℓ} (m : Action S A) (f : A → Action S B)
    → ((a : A) → Gives P (f a))
    → Gives P (m >>= f)
Gives-bind m f k = record {
  value_of = λ s e. let (a, s1, e1, k1) = >>=-eq-returns m f s e in (k a).value_of s1 k1;
}

pub Gives-pure {ℓ} : {S A : Type ℓ} {P : A → Type ℓ} (a : A) → P a → Gives {S = S} P (pure a)
Gives-pure {P} a p = record { value_of = λ s e. subst P (pure-eq-returns a s e).0 p }
