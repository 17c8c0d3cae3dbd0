-- ===== src/Utils/Batched.antt =====
-- `batched_async` (diracx-core/src/diracx/core/utils.py), over the list of what the iterable yields.
pub mod Laws
use diracx.Prelude.{
  ℕ, Bool, true, false, not, ◌&&◌, List, [], ◌∷◌, ◌++◌, nat_eq, ltb, length, if◌then◌else◌,
  is_empty,
}
use diracx.Prelude.Outcome.{value_error, Result, ok, err}

-- What an iteration yields, and how it ends.
pub record Batches {ℓ} (A : Type ℓ) : Type ℓ where
  pub yielded : List (List A)
  pub ended : Result (Unit {0})

module _ {ℓ} {A : Type ℓ} (n : ℕ) (strict : Bool) where
  abbrev pub last_batch : List A → Batches A
  last_batch batch =
      if is_empty batch
      then record { yielded = []; ended = ok tt }
      else if strict && not (nat_eq (length batch) n)
      then record { yielded = []; ended = err value_error }
      else record { yielded = batch ∷ []; ended = ok tt }

  abbrev pub yield : List A → Batches A → Batches A
  yield batch b = record b { yielded = batch ∷ b.yielded }

  -- the loop, with the batch that it fills
  unfoldable pub batches : List A → List A → Batches A
  batches batch [] = last_batch batch
  batches batch (item ∷ items) = elim (nat_eq (length (batch ++ item ∷ [])) n) [
    | true ↦ yield (batch ++ item ∷ []) (batches [] items)
    | false ↦ batches (batch ++ item ∷ []) items
  ]

  unfoldable pub batched_async : List A → Batches A
  unfolding batches
  batched_async iterable =
      if ltb n 1 then record { yielded = []; ended = err value_error } else batches [] iterable
