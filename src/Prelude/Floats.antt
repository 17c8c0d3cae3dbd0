-- ===== src/Prelude/Floats.antt =====
-- Python's `float` and the `Float` columns: what the code does with them is a parameter. The laws
-- are those of numbers that are not NaN.
use diracx.Prelude.Tests.{if◌then◌else◌, leb, ltb, nat_eq}
use Prim.Native.Nat.{ℕ, ◌+◌, ◌*◌, ◌/◌}
use mathlib.Core.Path.{◌≡◌}
use mathlib.Core.Bool.{Bool, true, false}
use mathlib.Core.List.{List, [], ◌∷◌}
use native.Mathlib.Omega.{arith}

pub record Float {ℓ} (W : Type ℓ) : Type ℓ where
  pub of_nat : ℕ → W
  -- the fraction of two numbers, for the literals of the code
  pub ratio : ℕ → ℕ → W
  pub add : W → W → W
  pub mul : W → W → W
  pub div : W → W → W
  pub le : W → W → Bool
  pub lt : W → W → Bool
  pub eq : W → W → Bool

module _ {ℓ} {W : Type ℓ} ⦃f : Float W⦄ where
  -- `sum(xs)`, from the left
  abbrev pub sum_from : W → List W → W
  sum_from acc [] = acc
  sum_from acc (x ∷ xs) = sum_from (f.add acc x) xs

  abbrev pub sum : List W → W
  sum xs = sum_from (f.of_nat 0) xs

  -- `max(x, y)`
  abbrev pub max : W → W → W
  max x y = if f.lt x y then y else x

infix 4 ◌≼◌
abbrev pub ◌≼◌ {ℓ} : {W : Type ℓ} ⦃f : Float W⦄ → W → W → Type 0
◌≼◌ ⦃f⦄ x y = f.le x y ≡ true

-- what the proofs need of the order and of the sum
pub record IsOrdered {ℓ} (W : Type ℓ) ⦃f : Float W⦄ : Type ℓ where
  pub le_refl : (x : W) → x ≼ x
  pub le_of_not_lt : (x y : W) → f.lt x y ≡ false → y ≼ x
  pub zero_add : (x : W) → f.add (f.of_nat 0) x ≡ x
  pub le-add : (x y z : W) → f.of_nat 0 ≼ z → x ≼ y → x ≼ f.add y z
  pub le_trans : (x y z : W) → x ≼ y → y ≼ z → x ≼ z
  pub ratio_nonneg : (a b : ℕ) → f.of_nat 0 ≼ f.ratio a b

-- The laws can be met: numbers of thousandths, rounded down.
instance abbrev pub thousandths : Float ℕ
thousandths = record {
  of_nat = λ n. n * 1000;
  ratio = λ a b. a * 1000 / b;
  add = λ x y. x + y;
  mul = λ x y. x * y / 1000;
  div = λ x y. x * 1000 / y;
  le = leb;
  lt = ltb;
  eq = nat_eq;
}

pub thousandths-IsOrdered : IsOrdered ℕ
thousandths-IsOrdered = ground arith
