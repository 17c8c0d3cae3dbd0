-- ===== src/Prelude/Table/Counts.antt =====
-- The counts of statements, and the rows that a deletion leaves.
use diracx.Prelude.Tests.{Bool-cases}
use Prim.Native.Nat.{◌+◌, ◌≤◌}
use mathlib.Core.Path.{◌≡◌, refl, sym, ◌∙◌}
use mathlib.Core.Logic.{inl, inr}
use mathlib.Core.Bool.{Bool, true, false}
use mathlib.Core.List.{List, [], ◌∷◌, ◌++◌}
use native.Mathlib.Omega.{arith}
use diracx.Prelude.Table.{select, update, delete, exists, rowcount}

module _ {ℓ} {A : Type ℓ} where
  pub rowcount_zero : (p : A → Bool) (t : List A) → exists p t ≡ false → rowcount p t ≡ 0
  unfolding exists rowcount
  rowcount_zero p [] h = refl
  rowcount_zero p (x ∷ t) h = ground (arith, rowcount_zero p t)

  pub exists_of_rowcount_zero : (p : A → Bool) (t : List A) → rowcount p t ≡ 0 → exists p t ≡ false
  unfolding exists rowcount
  exists_of_rowcount_zero p [] h = refl
  exists_of_rowcount_zero p (x ∷ t) h = ground (arith, exists_of_rowcount_zero p t)

  pub rowcount-append :
      (p : A → Bool) (t u : List A) → rowcount p (t ++ u) ≡ rowcount p t + rowcount p u
  unfolding rowcount
  rowcount-append p [] u = omega arith
  rowcount-append p (x ∷ t) u = ground (arith, rowcount-append p t u)

  pub rowcount-update :
      (p q : A → Bool) (f : A → A) (t : List A)
      → ((r : A) → p (f r) ≡ p r)
      → rowcount p (update q f t) ≡ rowcount p t
  unfolding rowcount update
  rowcount-update p q f [] k = refl
  rowcount-update p q f (x ∷ t) k = ground (arith, k x, rowcount-update p q f t k)

  pub rowcount-delete-le : (p q : A → Bool) (t : List A) → rowcount p (delete q t) ≤ rowcount p t
  unfolding rowcount delete
  rowcount-delete-le p q [] = omega arith
  rowcount-delete-le p q (x ∷ t) = ground (arith, rowcount-delete-le p q t)

  pub exists-delete-false :
      (p q : A → Bool) (t : List A) → exists p t ≡ false → exists p (delete q t) ≡ false
  unfolding exists delete
  exists-delete-false p q [] h = refl
  exists-delete-false p q (x ∷ t) h = ground (arith, exists-delete-false p q t)

  -- the rows that a deletion does not reach
  pub select-delete :
      (p q : A → Bool) (t : List A)
      → ((r : A) → p r ≡ true → q r ≡ false)
      → select p (delete q t) ≡ select p t
  unfolding select delete
  select-delete p q [] k = refl
  select-delete p q (x ∷ t) k = ground (arith, k x, select-delete p q t k)

  pub exists-is-select :
      (p : A → Bool) (t u : List A) → select p t ≡ select p u → exists p t ≡ exists p u
  unfolding select exists
  exists-is-select p [] [] h = refl
  exists-is-select p [] (y ∷ u) h = ground (arith, exists-is-select p [] u)
  exists-is-select p (x ∷ t) u h = elim (Bool-cases (p x)) [
    | inl hit ↦ rw hit (sym (exists-of-select u (select p t) x (sym h ∙ first hit)))
    | inr miss ↦ rw miss (exists-is-select p t u (sym (skip miss) ∙ h))
  ]
    where
      first : p x ≡ true → select p (x ∷ t) ≡ x ∷ select p t
      first hit = ground arith

      skip : p x ≡ false → select p (x ∷ t) ≡ select p t
      skip miss = ground arith

      exists-of-select : (u rest : List A) (y : A) → select p u ≡ y ∷ rest → exists p u ≡ true
      exists-of-select [] rest y e = cc
      exists-of-select (z ∷ u) rest y e = ground (arith, exists-of-select u rest y)
