-- ===== src/Search/Rows.antt =====
-- What the order, the distinction and the pages of a search keep (diracx-db/src/diracx/db/sql/utils/base.py).
use diracx.Prelude.{
  ℕ, zero, suc, ◌*◌, ◌≤◌, String, Bool, true, false, some, List, [], ◌∷◌, ◌≡◌, refl, subst, All,
  take, length, arith, inl, inr, Bool-cases, if◌then◌else◌,
}
use mathlib.Core.List.{Memᴰ}
use diracx.Prelude.Table.{select}
use diracx.Prelude.Outcome.{ok, ok_inj}
use diracx.Jobs.Db.{Attributes, JobRow}
use diracx.Search.Filters.{Sql}
use diracx.Search.Query.{
  SortDirection, insert_row, sort_rows, row_precedes, has_row, distinct_rows, distinct_if, offset,
  paginate,
}

All-if :
    {A : Type 0} (P : A → Type 0) (b : Bool) (xs ys : List A)
    → All P xs
    → All P ys
    → All P (if b then xs else ys)
All-if P true xs ys h k = h
All-if P false xs ys h k = k

module _ {A : Type 0} (P : A → Type 0) where
  -- the selected rows are among the rows
  pub All-select :
      (p : A → Bool) (rows : List A)
      → ((r : A) → Memᴰ r rows → p r ≡ true → P r)
      → All P (select p rows)
  unfolding select
  All-select p [] h = tt
  All-select p (r ∷ rows) h =
      let rest = All-select p rows λ x m. h x (Memᴰ.tail m) in
      elim (Bool-cases (p r)) [
        | inl hit ↦ rw hit (h r (Memᴰ.head refl) hit, rest)
        | inr miss ↦ rw miss rest
      ]

  pub All-offset : (n : ℕ) (rows : List A) → All P rows → All P (offset n rows)
  unfolding offset
  All-offset zero rows h = h
  All-offset (suc n) [] h = h
  All-offset (suc n) (r ∷ rows) (_, h) = All-offset n rows h

  pub All-take : (n : ℕ) (rows : List A) → All P rows → All P (take n rows)
  All-take zero rows h = tt
  All-take (suc n) [] h = h
  All-take (suc n) (r ∷ rows) (p, h) = (p, All-take n rows h)

pub length-take-le : {A : Type 0} (n : ℕ) (rows : List A) → length (take n rows) ≤ n
length-take-le zero rows = omega arith
length-take-le (suc n) [] = omega arith
length-take-le (suc n) (r ∷ rows) = let rest = length-take-le n rows in omega arith

module _ (P : JobRow → Type 0) (sql : Sql) (sorts : List (String × SortDirection)) where
  All-insert_row :
      (r : JobRow) (rows : List JobRow) → P r → All P rows → All P (insert_row sql sorts r rows)
  unfolding insert_row
  All-insert_row r [] p h = (p, h)
  All-insert_row r (t ∷ rows) p (q, h) =
      All-if P (row_precedes sql sorts t r) (t ∷ insert_row sql sorts r rows) (r ∷ t ∷ rows)
        (q, All-insert_row r rows p h) (p, (q, h))

  pub All-sort_rows : (rows : List JobRow) → All P rows → All P (sort_rows sql sorts rows)
  unfolding sort_rows
  All-sort_rows [] h = h
  All-sort_rows (r ∷ rows) (p, h) =
      All-insert_row r (sort_rows sql sorts rows) p (All-sort_rows rows h)

module _ (P : Attributes → Type 0) where
  All-distinct_rows : (seen rows : List Attributes) → All P rows → All P (distinct_rows seen rows)
  unfolding distinct_rows
  All-distinct_rows seen [] h = h
  All-distinct_rows seen (x ∷ rows) (p, h) =
      All-if P (has_row x seen) (distinct_rows seen rows) (x ∷ distinct_rows (x ∷ seen) rows)
        (All-distinct_rows seen rows h) (p, All-distinct_rows (x ∷ seen) rows h)

  pub All-distinct_if :
      (b : Bool) (rows : List Attributes) → All P rows → All P (distinct_if b rows)
  All-distinct_if true rows h = All-distinct_rows [] rows h
  All-distinct_if false rows h = h

  pub paginate-page :
      (per_page page : ℕ) (rows : List Attributes) {out : List Attributes}
      → paginate per_page (some page) rows ≡ ok out
      → All P rows
      → All P out × (length out ≤ per_page)
  unfolding paginate
  paginate-page n zero rows e h = cc
  paginate-page zero (suc page) rows e h = cc
  paginate-page (suc n) (suc page) rows e h =
      subst (λ out. All P out × (length out ≤ suc n)) (ok_inj e)
        (
          All-take P (suc n) (offset (page * suc n) rows) (All-offset P (page * suc n) rows h),
          length-take-le (suc n) (offset (page * suc n) rows),
        )
