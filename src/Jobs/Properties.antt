-- ===== src/Jobs/Properties.antt =====
-- `JobDB.set_properties` (diracx-db/src/diracx/db/sql/job/db.py), for properties other than the identifier.
use diracx.Prelude.{
  ℕ, ◌+◌, String, Bool, true, false, not, ◌&&◌, some, none, List, [], ◌∷◌, map, all, mem, lookup,
  is_subset, is_empty, if◌then◌else◌,
}
use diracx.Prelude.Table.{update, rowcount}
use diracx.Prelude.Outcome.{
  not_implemented_error, statement_error, invalid_query_error, returns, raises, Action,
}
use diracx.Jobs.Db.{ColumnValue, time, Attributes, JobRow, JobDb, is_job, job_columns}

-- the jobs have the same set of properties
abbrev pub same_keys : Attributes → Attributes → Bool
same_keys a b =
    is_subset (map (λ (x : String × ColumnValue). x.0) a)
      (map (λ (x : String × ColumnValue). x.0) b)
    && is_subset (map (λ (x : String × ColumnValue). x.0) b)
        (map (λ (x : String × ColumnValue). x.0) a)

abbrev pub all_same_keys : Attributes → List (ℕ × Attributes) → Bool
all_same_keys a = all λ (x : ℕ × Attributes). same_keys a x.1

-- the values of one execution of the statement
abbrev pub with_properties : Attributes → JobRow → JobRow
with_properties attrs r = record r {
  columns = λ column. elim (lookup column attrs) [ some v ↦ v | none ↦ r.columns column ];
}

abbrev pub with_timestamp : Bool → ℕ → Attributes → Attributes
with_timestamp true now attrs = ("LastUpdateTime", time now) ∷ attrs
with_timestamp false now attrs = attrs

-- one execution for each job, with the sum of the row counts
unfoldable pub execute_many : Bool → ℕ → List (ℕ × Attributes) → List JobRow → ℕ × List JobRow
unfolding update rowcount
execute_many update_timestamp now [] rows = (0, rows)
execute_many update_timestamp now ((job_id, attrs) ∷ properties) rows =
    let rest =
      execute_many update_timestamp now properties (
        update (is_job job_id) (with_properties (with_timestamp update_timestamp now attrs))
          rows) in
    (rowcount (is_job job_id) rows + rest.0, rest.1)

-- Without a property the columns would be all of them, of which the values are missing.
unfoldable pub set_properties : List (ℕ × Attributes) → Bool → ℕ → Action JobDb ℕ
unfolding execute_many
set_properties [] update_timestamp now s = raises not_implemented_error s
set_properties ((job_id, attrs) ∷ properties) update_timestamp now s =
    let result = execute_many update_timestamp now ((job_id, attrs) ∷ properties) s.jobs in
    if not (all_same_keys attrs properties)
    then raises not_implemented_error s
    else if is_empty attrs
    then raises statement_error s
    else if all (λ (x : String × ColumnValue). mem x.0 job_columns) attrs
    then returns result.0 (record s { jobs = result.1 })
    else raises invalid_query_error s
