-- ===== src/Prelude/Table.antt =====
-- SQL statements over a table, which is the list of its rows in the order of insertion.
pub mod Laws
pub mod Counts
use diracx.Prelude.Tests.{if◌then◌else◌}
use Prim.Native.Nat.{ℕ, suc}
use mathlib.Core.Bool.{Bool, false, ◌||◌}
use mathlib.Core.List.{List, [], ◌∷◌, ◌++◌, map}

module _ {ℓ} {A : Type ℓ} where
  -- `select(t).where(p)`
  unfoldable pub select : (A → Bool) → List A → List A
  select p [] = []
  select p (x ∷ xs) = let rest = select p xs in if p x then x ∷ rest else rest

  -- `update(t).where(p).values(...)`
  unfoldable pub update : (A → Bool) → (A → A) → List A → List A
  update p f [] = []
  update p f (x ∷ xs) = (if p x then f x else x) ∷ update p f xs

  -- `delete(t).where(p)`
  unfoldable pub delete : (A → Bool) → List A → List A
  delete p [] = []
  delete p (x ∷ xs) = let rest = delete p xs in if p x then rest else x ∷ rest

  -- the `rowcount` of a statement with the condition `p`
  unfoldable pub rowcount : (A → Bool) → List A → ℕ
  rowcount p [] = 0
  rowcount p (x ∷ xs) = let n = rowcount p xs in if p x then suc n else n

  -- `exists().where(p)`
  unfoldable pub exists : (A → Bool) → List A → Bool
  exists p [] = false
  exists p (x ∷ xs) = p x || exists p xs

module _ {ℓ} {A B : Type ℓ} where
  -- `select(t).join(u, on)`, in the order of `t`
  unfoldable pub join_on : (A → B → Bool) → List A → List B → List (A × B)
  unfolding select
  join_on p [] u = []
  join_on p (x ∷ xs) u = map (λ y. (x, y)) (select (p x) u) ++ join_on p xs u
