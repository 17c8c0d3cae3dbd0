-- ===== src/Prelude/Outcome.antt =====
-- A coroutine over a state `S`: it returns a value or raises, and the state comes back either way.
use mathlib.Core.Option.{Option, none, some}
use mathlib.Core.List.{List, [], ◌∷◌}
use mathlib.Core.Bool.{Bool, true, false}
use mathlib.Core.Path.{◌≡◌, refl}

-- The exceptions, without their messages.
pub data Error : Type 0 where
  value_error key_error index_error assertion_error permission_error not_implemented_error : Error
  no_result_found multiple_results_found integrity_error : Error
  authorization_error pending_authorization_error invalid_credentials_error : Error
  token_not_found_error sandbox_not_found_error : Error
  sandbox_already_inserted_error sandbox_already_assigned_error : Error
  not_ready_error type_error decode_error runtime_error http_forbidden : Error
  zero_division_error invalid_query_error statement_error validation_error : Error

pub data Result {ℓ} (A : Type ℓ) : Type ℓ where
  ok : A → Result A
  err : Error → Result A

pub ok_inj {ℓ} : {A : Type ℓ} {a b : A} → ok a ≡ ok b → a ≡ b
ok_inj h = cc

pub data Outcome {ℓ} (S A : Type ℓ) : Type ℓ where
  returns : A → S → Outcome S A
  raises : Error → S → Outcome S A

abbrev pub Action {ℓ} : Type ℓ → Type ℓ → Type ℓ
Action S A = S → Outcome S A

pub returns_state {ℓ} : {S A : Type ℓ} {a b : A} {s s' : S} → returns a s ≡ returns b s' → s ≡ s'
returns_state h = cc

pub returns_value {ℓ} : {S A : Type ℓ} {a b : A} {s s' : S} → returns a s ≡ returns b s' → a ≡ b
returns_value h = cc

-- The building blocks are shut, so that proofs can go by rules; to open `>>=` opens them all.
module _ {ℓ} {S A : Type ℓ} where
  unfoldable pub pure : A → Action S A
  pure a s = returns a s

  -- a query, which changes nothing
  unfoldable pub query : (S → A) → Action S A
  query f s = returns (f s) s

  unfoldable pub raise : Error → Action S A
  raise e s = raises e s

  unfoldable pub lift : Result A → Action S A
  lift (ok a) s = returns a s
  lift (err e) s = raises e s

  unfoldable pub get_or_raise : Error → Option A → Action S A
  get_or_raise e none s = raises e s
  get_or_raise e (some a) s = returns a s

  -- `scalar_one()`, `one()`
  unfoldable pub one : List A → Action S A
  one [] s = raises no_result_found s
  one (a ∷ []) s = returns a s
  one (_ ∷ _ ∷ _) s = raises multiple_results_found s

  -- `scalar_one_or_none()`
  unfoldable pub one_or_none : List A → Action S (Option A)
  one_or_none [] s = returns none s
  one_or_none (a ∷ []) s = returns (some a) s
  one_or_none (_ ∷ _ ∷ _) s = raises multiple_results_found s

  abbrev pub handled : Outcome S A → (Error → Action S A) → Outcome S A
  handled (returns a s) h = returns a s
  handled (raises e s) h = h e s

  -- `try: m; except E: handler`
  unfoldable pub handle : Action S A → (Error → Action S A) → Action S A
  handle m h s = handled (m s) h

  -- the state that an outcome leaves
  abbrev pub state_of : Outcome S A → S
  state_of (returns a s) = s
  state_of (raises e s) = s

  abbrev pub error_of : Outcome S A → Option Error
  error_of (returns a s) = none
  error_of (raises e s) = some e

  abbrev pub has_returned : Outcome S A → Bool
  has_returned (returns a s) = true
  has_returned (raises e s) = false

-- `if not b: raise e`
unfoldable pub ensure {ℓ} : {S : Type ℓ} → Bool → Error → S → Outcome S (Unit {ℓ})
ensure true e s = returns tt s
ensure false e s = raises e s

module _ {ℓ} {S A B : Type ℓ} where
  abbrev pub after : Outcome S A → (A → Action S B) → Outcome S B
  after (returns a s) f = f a s
  after (raises e s) f = raises e s

  infixl 5 ◌>>=◌ ◌>>◌
  unfoldable pub ◌>>=◌ : Action S A → (A → Action S B) → Action S B
  unfolding pure query raise lift get_or_raise one one_or_none handle ensure
  ◌>>=◌ m f s = after (m s) f

  abbrev pub ◌>>◌ : Action S A → Action S B → Action S B
  m >> n = m >>= λ _. n

  after-eq-returns :
      (o : Outcome S A) (f : A → Action S B) {b : B} {s' : S}
      → after o f ≡ returns b s'
      → (a : A) × (s : S) × (o ≡ returns a s) × (f a s ≡ returns b s')
  after-eq-returns (returns a s) f h = (a, s, refl, h)
  after-eq-returns (raises e s) f h = cc

  -- what a block has done when it returns
  pub >>=-eq-returns :
      (m : Action S A) (f : A → Action S B) (s : S) {b : B} {s'' : S}
      → (m >>= f) s ≡ returns b s''
      → (a : A) × (s' : S) × (m s ≡ returns a s') × (f a s' ≡ returns b s'')
  unfolding ◌>>=◌
  >>=-eq-returns m f s h = after-eq-returns (m s) f h

module _ {ℓ} {S A : Type ℓ} where
  pub one-eq-returns :
      (l : List A) (s : S) {a : A} {s' : S} → one l s ≡ returns a s' → (l ≡ a ∷ []) × (s ≡ s')
  unfolding ◌>>=◌
  one-eq-returns [] s h = cc
  one-eq-returns (a ∷ []) s h = (cc, cc)
  one-eq-returns (_ ∷ _ ∷ _) s h = cc

  pub pure-eq-returns :
      (a : A) (s : S) {b : A} {s' : S} → pure a s ≡ returns b s' → (a ≡ b) × (s ≡ s')
  unfolding ◌>>=◌
  pure-eq-returns a s h = (cc, cc)

  pub query-eq-returns :
      (f : S → A) (s : S) {a : A} {s' : S} → query f s ≡ returns a s' → (f s ≡ a) × (s ≡ s')
  unfolding ◌>>=◌
  query-eq-returns f s h = (returns_value h, returns_state h)

  pub lift-eq-returns :
      (r : Result A) (s : S) {a : A} {s' : S} → lift r s ≡ returns a s' → (r ≡ ok a) × (s ≡ s')
  unfolding ◌>>=◌
  lift-eq-returns (ok a) s h = (cc, cc)
  lift-eq-returns (err e) s h = cc

  pub get_or_raise-eq-returns :
      (e : Error) (o : Option A) (s : S) {a : A} {s' : S}
      → get_or_raise e o s ≡ returns a s'
      → (o ≡ some a) × (s ≡ s')
  unfolding ◌>>=◌
  get_or_raise-eq-returns e none s h = cc
  get_or_raise-eq-returns e (some a) s h = (cc, cc)

pub ensure-eq-returns {ℓ} :
    {S : Type ℓ} (b : Bool) (e : Error) (s : S) {u : Unit {ℓ}} {s' : S}
    → ensure b e s ≡ returns u s'
    → (b ≡ true) × (s ≡ s')
unfolding ◌>>=◌
ensure-eq-returns true e s h = (refl, cc)
ensure-eq-returns false e s h = cc

pub Outcome-cases {ℓ} :
    {S A : Type ℓ} (o : Outcome S A) → has_returned o ≡ true → (a : A) × (s : S) × (o ≡ returns a s)
Outcome-cases (returns a s) h = (a, s, refl)
Outcome-cases (raises e s) h = cc
