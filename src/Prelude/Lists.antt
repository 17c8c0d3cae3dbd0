-- ===== src/Prelude/Lists.antt =====
-- Lists over the native numbers, membership tests, and association lists for Python's `dict`.
use Prim.Native.Nat.{ℕ, zero, suc}
use Prim.Native.String.{String}
use mathlib.Core.Path.{◌≡◌, refl}
use mathlib.Core.Bool.{Bool, true, false, ◌&&◌, ◌||◌}
use mathlib.Core.Option.{Option, none, some}
use mathlib.Core.List.{List, [], ◌∷◌, ◌++◌}
use native.Mathlib.Omega.{arith}
use text.Mathlib.Text.{◌==◌}
use text.Mathlib.TextEquality.{eq_iff}
use diracx.Prelude.Tests.{nat_eq, if◌then◌else◌}

module _ {ℓ} {A : Type ℓ} where
  abbrev pub length : List A → ℕ
  length [] = 0
  length (_ ∷ xs) = suc (length xs)

  abbrev pub take : ℕ → List A → List A
  take zero _ = []
  take (suc n) [] = []
  take (suc n) (x ∷ xs) = x ∷ take n xs

  abbrev pub is_empty : List A → Bool
  is_empty [] = true
  is_empty (_ ∷ _) = false

  -- `all(p(x) for x in xs)`
  abbrev pub all : (A → Bool) → List A → Bool
  all p [] = true
  all p (x ∷ xs) = p x && all p xs

  abbrev pub any : (A → Bool) → List A → Bool
  any p [] = false
  any p (x ∷ xs) = p x || any p xs

module _ {ℓ κ} {A : Type ℓ} (P : A → Type κ) where
  abbrev pub All : List A → Type κ
  All [] = Unit
  All (x ∷ xs) = P x × All xs

  pub All-append : (xs ys : List A) → All xs → All ys → All (xs ++ ys)
  All-append [] ys _ k = k
  All-append (x ∷ xs) ys (p, h) k = (p, All-append xs ys h k)

-- `x in xs`
abbrev pub mem : String → List String → Bool
mem s [] = false
mem s (x ∷ xs) = x == s || mem s xs

-- `n in ns`, `n.in_(ns)`
abbrev pub is_in : List ℕ → ℕ → Bool
is_in ns n = any (λ m. nat_eq m n) ns

-- `set(xs).issubset(ys)`
abbrev pub is_subset : List String → List String → Bool
is_subset [] ys = true
is_subset (x ∷ xs) ys = mem x ys && is_subset xs ys

-- `set(xs)`: the last occurrence of each text
abbrev pub dedup : List String → List String
dedup [] = []
dedup (x ∷ xs) = let rest = dedup xs in if mem x rest then rest else x ∷ rest

module _ {ℓ} {V : Type ℓ} where
  -- `d.get(k)`
  abbrev pub lookup : String → List (String × V) → Option V
  lookup k [] = none
  lookup k ((j, v) ∷ m) = if j == k then some v else lookup k m

  abbrev pub has_key : String → List (String × V) → Bool
  has_key k m = elim (lookup k m) [ none ↦ false | some _ ↦ true ]

pub mem-is_subset :
    (s : String) (xs ys : List String) → is_subset xs ys ≡ true → mem s xs ≡ true → mem s ys ≡ true
mem-is_subset s [] ys h m = ground arith
mem-is_subset s (x ∷ xs) ys h m = ground (arith, eq_iff x s, mem-is_subset s xs ys)

pub mem-dedup : (s : String) (xs : List String) → mem s (dedup xs) ≡ mem s xs
mem-dedup s [] = refl
mem-dedup s (x ∷ xs) = ground (arith, eq_iff x s, mem-dedup s xs)

pub mem-append : (s : String) (xs ys : List String) → mem s (xs ++ ys) ≡ (mem s xs || mem s ys)
mem-append s [] ys = refl
mem-append s (x ∷ xs) ys = ground (arith, mem-append s xs ys)
