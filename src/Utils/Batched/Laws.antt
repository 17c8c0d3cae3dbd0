-- ===== src/Utils/Batched/Laws.antt =====
-- What `batched_async` yields (diracx-core/src/diracx/core/utils.py).
use diracx.Prelude.{
  ℕ, ◌+◌, ◌<◌, Bool, true, false, ◌&&◌, ◌≡◌, refl, sym, ap, ◌∙◌, List, [], ◌∷◌, ◌++◌, arith, nat_eq,
  nat_eq_iff, leb, ltb, length, Bool-cases, inl, inr,
}
use mathlib.Core.Path.{subst₂}
use mathlib.Core.List.{append_assoc, append-nil}
use diracx.Prelude.Outcome.{ok}
use diracx.Utils.Batched.{Batches, last_batch, yield, batches, batched_async}

module _ {ℓ} {A : Type ℓ} where
  pub concat : List (List A) → List A
  concat [] = []
  concat (batch ∷ rest) = batch ++ concat rest

  -- all batches but the last have `n` items, and the last has between one and `n`
  abbrev pub are_full : ℕ → List (List A) → Bool
  are_full n [] = true
  are_full n (batch ∷ []) = ltb 0 (length batch) && leb (length batch) n
  are_full n (batch ∷ next ∷ rest) = nat_eq (length batch) n && are_full n (next ∷ rest)

  length-append : (xs ys : List A) → length (xs ++ ys) ≡ length xs + length ys
  length-append [] ys = omega arith
  length-append (x ∷ xs) ys = omega (arith, length-append xs ys)

  last_batch-concat : (n : ℕ) (batch : List A) → concat (last_batch n false batch).yielded ≡ batch
  unfolding concat
  last_batch-concat n [] = refl
  last_batch-concat n (x ∷ xs) = append-nil (x ∷ xs)

  last_batch-are_full :
      (n : ℕ) (batch : List A)
      → length batch < n
      → are_full n (last_batch n false batch).yielded ≡ true
  last_batch-are_full n [] p = refl
  last_batch-are_full n (x ∷ xs) p = ground arith

  last_batch-ended : (n : ℕ) (batch : List A) → (last_batch n false batch).ended ≡ ok tt
  last_batch-ended n [] = refl
  last_batch-ended n (x ∷ xs) = refl

  batches-full :
      (n : ℕ) (batch : List A) (item : A) (items : List A)
      → nat_eq (length (batch ++ item ∷ [])) n ≡ true
      → batches n false batch (item ∷ items)
        ≡ yield n false (batch ++ item ∷ []) (batches n false [] items)
  unfolding batches
  batches-full n batch item items h = ground arith

  batches-room :
      (n : ℕ) (batch : List A) (item : A) (items : List A)
      → nat_eq (length (batch ++ item ∷ [])) n ≡ false
      → batches n false batch (item ∷ items) ≡ batches n false (batch ++ item ∷ []) items
  unfolding batches
  batches-room n batch item items h = ground arith

  are_full-cons :
      (n : ℕ) (batch : List A) (rest : List (List A))
      → length batch ≡ n
      → 0 < n
      → are_full n rest ≡ true
      → are_full n (batch ∷ rest) ≡ true
  are_full-cons n batch [] e p h = ground arith
  are_full-cons n batch (next ∷ rest) e p h = ground arith

  -- what the loop yields, from a batch that is not full
  IsChunked : ℕ → List A → Batches A → Type ℓ
  IsChunked n items b =
      (concat b.yielded ≡ items) × (are_full n b.yielded ≡ true) × (b.ended ≡ ok tt)

  IsChunked-yield :
      (n : ℕ) (batch items : List A) (b : Batches A)
      → length batch ≡ n
      → 0 < n
      → IsChunked n items b
      → IsChunked n (batch ++ items) (yield n false batch b)
  unfolding IsChunked concat
  IsChunked-yield n batch items b e p (joined, full, ended) =
      (ap (λ (l : List A). batch ++ l) joined, are_full-cons n batch b.yielded e p full, ended)

  batches-IsChunked :
      (n : ℕ) (batch items : List A)
      → length batch < n
      → IsChunked n (batch ++ items) (batches n false batch items)
  unfolding IsChunked batches
  batches-IsChunked n batch [] p = (
    last_batch-concat n batch ∙ sym (append-nil batch),
    last_batch-are_full n batch p,
    last_batch-ended n batch,
  )
  batches-IsChunked n batch (item ∷ items) p =
      let grown = length-append batch (item ∷ []) in
      elim (Bool-cases (nat_eq (length (batch ++ item ∷ [])) n)) [
        | inl full ↦
            subst₂ (IsChunked n) (append_assoc batch (item ∷ []) items)
              (sym (batches-full n batch item items full))
              (IsChunked-yield n (batch ++ item ∷ []) items _ ((nat_eq_iff _ n).0 full)
                (omega (arith, p)) (batches-IsChunked n [] items (omega (arith, p))))
        | inr room ↦
            subst₂ (IsChunked n) (append_assoc batch (item ∷ []) items)
              (sym (batches-room n batch item items room))
              (batches-IsChunked n (batch ++ item ∷ []) items
                (ground (arith, grown, nat_eq_iff (length (batch ++ item ∷ [])) n)))
      ]

  -- For a positive size and without `strict`, the batches in their order are the items, all but the last have the
  -- size, the last is not empty nor larger, and no error is raised.
  pub batched_async-chunks :
      (n : ℕ) (items : List A)
      → 0 < n
      → (concat (batched_async n false items).yielded ≡ items)
        × (are_full n (batched_async n false items).yielded ≡ true)
        × ((batched_async n false items).ended ≡ ok tt)
  unfolding batched_async IsChunked
  batched_async-chunks n items p =
      let size : ltb n 1 ≡ false = ground arith in rw size (batches-IsChunked n [] items p)
