-- ===== src/Search/Query.antt =====
-- The search of jobs: `_search` (diracx-db/src/diracx/db/sql/utils/base.py) on the table `Jobs`, and `search`
-- (diracx-logic/src/diracx/logic/jobs/query.py).
use diracx.Prelude.{
  ℕ, zero, suc, ◌*◌, String, Bool, true, false, not, ◌&&◌, ◌||◌, Option, none, some, List, [], ◌∷◌,
  ◌++◌, ◌==◌, ltb, map, all, mem, take, length, lookup, if◌then◌else◌,
}
use diracx.Prelude.Table.{select}
use diracx.Prelude.Outcome.{invalid_query_error, key_error, Result, ok, err}
use diracx.Prelude.Result.{require, get_or, ◌>>=◌, ◌>>◌}
use diracx.Config.{OperationsConfig}
use diracx.JobLogging.{LoggingInfo, JobStatusReturn, get_records}
use diracx.Jobs.Db.{ColumnValue, text, number, Attributes, JobRow, job_columns}
use diracx.Search.Filters.{
  equal, SearchSpec, scalar, Sql, is_column, value_at, same_value, is_null, apply_search_filters,
}

-- `_get_columns`, without the check of the names
abbrev pub column_names : Option (List String) → List String
column_names none = "JobID" ∷ job_columns
column_names (some []) = "JobID" ∷ job_columns
column_names (some (p ∷ ps)) = select (λ c. mem c (p ∷ ps)) ("JobID" ∷ job_columns)

abbrev pub are_columns : Option (List String) → Bool
are_columns none = true
are_columns (some ps) = all is_column ps

-- a row of the answer
abbrev pub project : List String → JobRow → Attributes
project names r = map (λ c. (c, value_at r c)) names

pub data SortDirection : Type 0 where
  asc desc : SortDirection

abbrev pub precedes : Sql → SortDirection → ColumnValue → ColumnValue → Bool
precedes sql asc v w = sql.sorts_before v w
precedes sql desc v w = sql.sorts_before w v

-- the order of the rows by the columns, of which the first one decides where it can
abbrev pub row_precedes : Sql → List (String × SortDirection) → JobRow → JobRow → Bool
row_precedes sql [] r t = false
row_precedes sql ((c, d) ∷ sorts) r t =
    let rest = row_precedes sql sorts r t in
    precedes sql d (value_at r c) (value_at t c)
    || not (precedes sql d (value_at t c) (value_at r c)) && rest

unfoldable pub insert_row : Sql → List (String × SortDirection) → JobRow → List JobRow → List JobRow
insert_row sql sorts r [] = r ∷ []
insert_row sql sorts r (t ∷ rows) =
    let rest = insert_row sql sorts r rows in
    if row_precedes sql sorts t r then t ∷ rest else r ∷ t ∷ rows

-- `order_by`
unfoldable pub sort_rows : Sql → List (String × SortDirection) → List JobRow → List JobRow
unfolding insert_row
sort_rows sql sorts [] = []
sort_rows sql sorts (r ∷ rows) = insert_row sql sorts r (sort_rows sql sorts rows)

abbrev pub same_row : Attributes → Attributes → Bool
same_row [] [] = true
same_row ((c, v) ∷ xs) ((d, w) ∷ ys) =
    let rest = same_row xs ys in (same_value v w || is_null v && is_null w) && rest
same_row _ _ = false

abbrev pub has_row : Attributes → List Attributes → Bool
has_row x [] = false
has_row x (y ∷ ys) = same_row y x || has_row x ys

-- `distinct()`: the first of the rows that are alike
unfoldable pub distinct_rows : List Attributes → List Attributes → List Attributes
distinct_rows seen [] = []
distinct_rows seen (x ∷ xs) =
    let fresh = distinct_rows (x ∷ seen) xs in
    let rest = distinct_rows seen xs in if has_row x seen then rest else x ∷ fresh

-- `offset(n)`
unfoldable pub offset {ℓ} : {A : Type ℓ} → ℕ → List A → List A
offset zero xs = xs
offset (suc n) [] = []
offset (suc n) (x ∷ xs) = offset n xs

pub record SearchParams : Type 0 where
  pub parameters : Option (List String)
  pub search : List SearchSpec
  pub sort : List (String × SortDirection)
  pub distinct : Bool

-- the page that is asked for, or all rows
unfoldable pub paginate : ℕ → Option ℕ → List Attributes → Result (List Attributes)
unfolding offset
paginate per_page none rows = ok rows
paginate per_page (some zero) rows = err invalid_query_error
paginate zero (some (suc page)) rows = err invalid_query_error
paginate (suc n) (some (suc page)) rows = ok (take (suc n) (offset (page * suc n) rows))

abbrev pub distinct_if : Bool → List Attributes → List Attributes
distinct_if true rows = distinct_rows [] rows
distinct_if false rows = rows

-- the rows before the page
unfoldable pub answer : Sql → SearchParams → (JobRow → Bool) → List JobRow → List Attributes
unfolding sort_rows distinct_rows select
answer sql body p rows =
    distinct_if body.distinct
      (map (project (column_names body.parameters)) (sort_rows sql body.sort (select p rows)))

-- `JobDB.search`: the number of rows, and those of the page
unfoldable pub search_db :
    Sql → SearchParams → ℕ → Option ℕ → List JobRow → Result (ℕ × List Attributes)
unfolding apply_search_filters answer paginate
search_db sql body per_page page rows = do
  require (are_columns body.parameters) invalid_query_error
  p ← apply_search_filters sql body.search
  require (all (λ (x : String × SortDirection). is_column x.0) body.sort) invalid_query_error
  jobs ← paginate per_page page (answer sql body p rows)
  ok (length (answer sql body p rows), jobs)

abbrev pub max_per_page : ℕ
max_per_page = 10000

-- `parameters.remove(name)`
abbrev pub remove_first : String → List String → List String
remove_first name [] = []
remove_first name (p ∷ ps) = let rest = remove_first name ps in if p == name then ps else p ∷ rest

abbrev pub with_job_id : List String → Option (List String)
with_job_id [] = none
with_job_id (p ∷ ps) = some ("JobID" ∷ p ∷ ps)

-- whether the logging is asked for
abbrev pub asks_logging : Option (List String) → Bool
asks_logging none = false
asks_logging (some ps) = mem "LoggingInfo" ps

abbrev pub without_logging : Option (List String) → Option (List String)
without_logging none = none
without_logging (some ps) =
    if mem "LoggingInfo" ps then with_job_id (remove_first "LoggingInfo" ps) else some ps

-- the filter on the owner, where the VO does not show all jobs and the user has a name
abbrev pub owner_filter : Bool → Option String → List SearchSpec
owner_filter true _ = []
owner_filter false none = []
owner_filter false (some user) = if user == "" then [] else scalar "Owner" equal (text user) ∷ []

abbrev pub capped : ℕ → ℕ
capped per_page = if ltb max_per_page per_page then max_per_page else per_page

abbrev pub own_body : Bool → Option String → SearchParams → SearchParams
own_body global_jobs_info user body = record body {
  parameters = without_logging body.parameters;
  search = body.search ++ owner_filter global_jobs_info user;
}

-- a job of the answer, with its logging where that is asked for
pub record FoundJob : Type 0 where
  pub columns : Attributes
  pub logging_info : Option (List JobStatusReturn)

abbrev pub id_of : Attributes → ℕ
id_of job = elim (lookup "JobID" job) [ some (number n) ↦ n | _ ↦ 0 ]

-- the histories of the jobs, where the logging is asked for
unfoldable pub histories :
    Bool → List Attributes → List LoggingInfo → Result (ℕ → Option (List JobStatusReturn))
histories false jobs logging = ok (λ i. none)
histories true jobs logging = do
  records ← get_records (map id_of jobs) logging
  ok (λ i. some (records i))

abbrev pub found_job : (ℕ → Option (List JobStatusReturn)) → Attributes → FoundJob
found_job infos job = record { columns = job; logging_info = infos (id_of job) }

unfoldable pub search :
    Sql
    → List (String × OperationsConfig)
    → Option String
    → String
    → ℕ
    → ℕ
    → SearchParams
    → List JobRow
    → List LoggingInfo
    → Result (ℕ × List FoundJob)
unfolding search_db histories
search sql operations user vo page per_page body rows logging = do
  ops ← get_or key_error (lookup vo operations)
  x ← search_db sql (own_body ops.global_jobs_info user body) (capped per_page) (some page) rows
  infos ← histories (asks_logging body.parameters) x.1 logging
  ok (x.0, map (found_job infos) x.1)
