-- ===== src/Jobs/View.antt =====
-- The attributes of the jobs as a function, and the changes of it that the methods of `JobDB` stand for
-- (diracx-db/src/diracx/db/sql/job/db.py).
use diracx.Prelude.{
  ℕ, String, Option, none, some, List, [], ◌∷◌, nat_eq, lookup, is_in, mem, if◌then◌else◌,
}
use diracx.Jobs.Db.{ColumnValue, Attributes, JobRow, JobDb, value_or_default, names_of, stamp}

-- the columns of each job that there is
abbrev pub View : Type 0
View = ℕ → Option (String → ColumnValue)

unfoldable pub find_job : List JobRow → View
find_job [] k = none
find_job (r ∷ rows) k =
    let rest = find_job rows k in if nat_eq r.job_id k then some r.columns else rest

abbrev pub view : JobDb → View
view s = find_job s.jobs

abbrev pub override : Attributes → (String → ColumnValue) → String → ColumnValue
override attrs columns column = elim (lookup column attrs) [ some v ↦ v | none ↦ columns column ]

abbrev pub map_columns :
    ((String → ColumnValue) → String → ColumnValue)
    → Option (String → ColumnValue)
    → Option (String → ColumnValue)
map_columns f none = none
map_columns f (some columns) = some (f columns)

-- one job gets some attributes
abbrev pub assign : ℕ → Attributes → View → View
assign job_id attrs v k = if nat_eq job_id k then map_columns (override attrs) (v k) else v k

-- the jobs get their attributes one after the other, from the last to the first
abbrev pub assign_all : ℕ → List (ℕ × Attributes) → View → View
assign_all now [] v = v
assign_all now ((job_id, attrs) ∷ job_data) v =
    assign job_id (stamp now attrs) (assign_all now job_data v)

abbrev pub remove_all : List ℕ → View → View
remove_all job_ids v k = if is_in job_ids k then none else v k

-- the values of a job in the columns that are inserted, and the defaults in the others
abbrev pub value_among : List String → Attributes → String → ColumnValue
value_among columns attrs column =
    if mem column columns then value_or_default attrs column else value_or_default [] column

-- one job is added after the other
abbrev pub add_all : List String → List (ℕ × Attributes) → View → View
add_all columns [] v = v
add_all columns ((job_id, attrs) ∷ jobs_to_update) v =
    add_all columns jobs_to_update
      λ k. if nat_eq job_id k then some (value_among columns attrs) else v k

-- the columns are those of the first job
abbrev pub add_jobs : List (ℕ × Attributes) → View → View
add_jobs [] v = v
add_jobs (d ∷ jobs_to_update) v = add_all (names_of d.1) (d ∷ jobs_to_update) v
