-- ===== src/Prelude/Table/Laws.antt =====
-- What the statements keep of the rows.
use diracx.Prelude.Tests.{Bool-cases}
use diracx.Prelude.Lists.{all}
use mathlib.Core.Path.{◌≡◌, refl}
use mathlib.Core.Logic.{inl, inr}
use mathlib.Core.Bool.{Bool, true, ◌&&◌, ◌||◌}
use mathlib.Core.List.{List, [], ◌∷◌, ◌++◌}
use native.Mathlib.Omega.{arith}
use diracx.Prelude.Table.{select, update, delete, exists}

module _ {ℓ} {A : Type ℓ} where
  pub all-append : (q : A → Bool) (t u : List A) → all q (t ++ u) ≡ (all q t && all q u)
  all-append q [] u = refl
  all-append q (r ∷ t) u = ground (arith, all-append q t u)

  pub all-update :
      (q p : A → Bool) (f : A → A) (t : List A)
      → ((r : A) → p r ≡ true → q r ≡ true → q (f r) ≡ true)
      → all q t ≡ true
      → all q (update p f t) ≡ true
  unfolding update
  all-update q p f [] k h = refl
  all-update q p f (r ∷ t) k h = ground (arith, k r, all-update q p f t k)

  pub all-delete : (q p : A → Bool) (t : List A) → all q t ≡ true → all q (delete p t) ≡ true
  unfolding delete
  all-delete q p [] h = refl
  all-delete q p (r ∷ t) h = ground (arith, all-delete q p t)

  pub exists-append : (q : A → Bool) (t u : List A) → exists q (t ++ u) ≡ (exists q t || exists q u)
  unfolding exists
  exists-append q [] u = refl
  exists-append q (r ∷ t) u = ground (arith, exists-append q t u)

  pub exists-update :
      (q p : A → Bool) (f : A → A) (t : List A)
      → ((r : A) → q (f r) ≡ q r)
      → exists q (update p f t) ≡ exists q t
  unfolding exists update
  exists-update q p f [] k = refl
  exists-update q p f (r ∷ t) k = ground (arith, k r, exists-update q p f t k)

  pub exists_mono :
      (q p : A → Bool) (t : List A)
      → ((r : A) → q r ≡ true → p r ≡ true)
      → exists q t ≡ true
      → exists p t ≡ true
  unfolding exists
  exists_mono q p [] k h = cc
  exists_mono q p (r ∷ t) k h = ground (arith, k r, exists_mono q p t k)

  -- a row that a query returns first satisfies its condition, and what holds of all rows
  pub select-head :
      (q p : A → Bool) (t : List A) (r : A) (rest : List A)
      → all q t ≡ true
      → select p t ≡ r ∷ rest
      → (p r ≡ true) × (q r ≡ true)
  unfolding select
  select-head q p [] r rest h e = cc
  select-head q p (x ∷ t) r rest h e = elim (Bool-cases (p x)) [
    | inl hit ↦ ground arith
    | inr miss ↦ select-head q p t r rest (ground arith) (ground arith)
  ]

  pub exists-select :
      (p : A → Bool) (t : List A) (r : A) (rest : List A)
      → select p t ≡ r ∷ rest
      → exists p t ≡ true
  unfolding select exists
  exists-select p [] r rest e = cc
  exists-select p (x ∷ t) r rest e = ground (arith, exists-select p t r rest)
