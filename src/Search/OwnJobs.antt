-- ===== src/Search/OwnJobs.antt =====
-- Whose jobs a search shows (diracx-logic/src/diracx/logic/jobs/query.py).
use diracx.Prelude.{
  ℕ, suc, ◌≤◌, String, Bool, true, false, ◌&&◌, some, List, [], ◌∷◌, ◌++◌, ◌≡◌, refl, sym, ap, ◌∙◌,
  some_inj, subst, Option, map, All, all, length, lookup, arith, ◌==◌,
}
use mathlib.Core.List.{Memᴰ}
use diracx.Prelude.Table.{select}
use diracx.Prelude.Outcome.{invalid_query_error, key_error, ok, ok_inj}
use diracx.Prelude.Result.{require, get_or, get_or-eq-ok, >>=-eq-ok}
use diracx.Config.{OperationsConfig}
use diracx.JobLogging.{LoggingInfo, JobStatusReturn}
use diracx.Jobs.Db.{text, Attributes, JobRow}
use diracx.Search.Filters.{
  SearchSpec, scalar, equal, Sql, is_column, same_value, filter_of, apply_search_filters,
}
use diracx.Search.Rows.{All-select, All-sort_rows, All-distinct_if, paginate-page}
use diracx.Search.Query.{
  SortDirection, SearchParams, FoundJob, column_names, without_logging, project, sort_rows,
  are_columns, paginate, answer, search_db, own_body, capped, max_per_page, found_job, histories,
  asks_logging, search,
}

-- the row is the user's own
abbrev pub IsOwn : String → JobRow → Type 0
IsOwn user r = same_value (r.columns "Owner") (text user) ≡ true

-- the row is stored and the user's own
pub record IsStoredOwn (rows : List JobRow) (user : String) (r : JobRow) : Type 0 where
  pub is_stored : Memᴰ r rows
  pub is_own : IsOwn user r

-- the job of the answer shows the columns of a stored row that is the user's own
pub record ShowsOwn (rows : List JobRow) (user : String) (names : List String) (job : Attributes)
    : Type 0 where
  pub row : JobRow
  pub is_shown : job ≡ project names row
  pub is_stored_own : IsStoredOwn rows user row

All-project :
    (stored : List JobRow) (user : String) (names : List String) (rows : List JobRow)
    → All (IsStoredOwn stored user) rows
    → All (ShowsOwn stored user names) (map (project names) rows)
All-project stored user names [] h = tt
All-project stored user names (r ∷ rows) (p, h) =
    (record { row = r; is_shown = refl; is_stored_own = p }, All-project stored user names rows h)

-- the last of the filters holds of the rows that pass all of them
filters-last :
    (sql : Sql) (filters : List SearchSpec) (query : SearchSpec) {p : JobRow → Bool}
    → apply_search_filters sql (filters ++ query ∷ []) ≡ ok p
    → (q : JobRow → Bool) × (filter_of sql query ≡ ok q) × ((r : JobRow) → p r ≡ true → q r ≡ true)
unfolding apply_search_filters
filters-last sql [] query h =
    let (q, e1, k1) = >>=-eq-ok (filter_of sql query) _ h in
    (
      q,
      e1,
      subst (λ p. (r : JobRow) → p r ≡ true → q r ≡ true) {x = λ r. q r && true} (ok_inj k1)
          λ r e. ground arith,
    )
filters-last sql (f ∷ filters) query h =
    let (g, e1, k1) = >>=-eq-ok (filter_of sql f) _ h in
    let (rest, e2, k2) = >>=-eq-ok (apply_search_filters sql (filters ++ query ∷ [])) _ k1 in
    let (q, known, implies) = filters-last sql filters query e2 in
    (
      q,
      known,
      subst (λ p. (r : JobRow) → p r ≡ true → q r ≡ true) {x = λ r. g r && rest r} (ok_inj k2)
          λ r e. implies r (ground arith),
    )

-- the filter on the owner
owner_filter-IsOwn :
    (sql : Sql) (user : String) {q : JobRow → Bool}
    → filter_of sql (scalar "Owner" equal (text user)) ≡ ok q
    → (r : JobRow) → q r ≡ true
    → IsOwn user r
unfolding filter_of
owner_filter-IsOwn sql user h =
    subst (λ q. (r : JobRow) → q r ≡ true → IsOwn user r) (ok_inj h) λ r e. e

search_db_own :
    (sql : Sql) (user : String) (body : SearchParams) (per_page page : ℕ) (rows : List JobRow)
    {total : ℕ} {jobs : List Attributes}
    → search_db sql
        (record body { search = body.search ++ scalar "Owner" equal (text user) ∷ [] })
        per_page
        (some page)
        rows
      ≡ ok (total, jobs)
    → All (ShowsOwn rows user (column_names body.parameters)) jobs × (length jobs ≤ per_page)
unfolding search_db answer
search_db_own sql user body per_page page rows h =
    let own = record body { search = body.search ++ scalar "Owner" equal (text user) ∷ [] } in
    let (u, e1, k1) = >>=-eq-ok (require (are_columns body.parameters) invalid_query_error) _ h in
    let (p, e2, k2) = >>=-eq-ok (apply_search_filters sql own.search) _ k1 in
    let (v, e3, k3) =
      >>=-eq-ok
        (require (all (λ (x : String × SortDirection). is_column x.0) body.sort)
          invalid_query_error)
        _ k2 in
    let (out, e4, k4) = >>=-eq-ok (paginate per_page (some page) (answer sql own p rows)) _ k3 in
    let (q, known, implies) = filters-last sql body.search (scalar "Owner" equal (text user)) e2 in
    let own_rows = All-select (IsStoredOwn rows user) p rows λ r stored hit. record {
      is_stored = stored;
      is_own = owner_filter-IsOwn sql user known r (implies r hit);
    } in
    let names = column_names body.parameters in
    let shown = All-distinct_if (ShowsOwn rows user names) body.distinct _ (
      All-project rows user names (sort_rows sql body.sort (select p rows))
        (All-sort_rows (IsStoredOwn rows user) sql body.sort (select p rows) own_rows)) in
    subst
      (λ (jobs : List Attributes). All (ShowsOwn rows user names) jobs × (length jobs ≤ per_page))
      (ap (λ (x : ℕ × List Attributes). x.1) (ok_inj k4))
      (paginate-page (ShowsOwn rows user names) per_page page (answer sql own p rows) e4 shown)

-- the body of the search of a user who may not see all jobs
abbrev filtered : String → SearchParams → SearchParams
filtered user body = record body {
  parameters = without_logging body.parameters;
  search = body.search ++ scalar "Owner" equal (text user) ∷ [];
}

own_body-filtered :
    (o : OperationsConfig) (user : String) (body : SearchParams)
    → o.global_jobs_info ≡ false
    → (user == "") ≡ false
    → own_body o.global_jobs_info (some user) body ≡ filtered user body
own_body-filtered o user body g u = rw (g, u) refl

capped-le : (n : ℕ) → (capped n ≤ n) × (capped n ≤ max_per_page)
capped-le n = ground arith

length-map : {A B : Type 0} (f : A → B) (xs : List A) → length (map f xs) ≡ length xs
length-map f [] = refl
length-map f (x ∷ xs) = ap suc (length-map f xs)

All-found_job :
    (P : Attributes → Type 0) (infos : ℕ → Option (List JobStatusReturn)) (jobs : List Attributes)
    → All P jobs
    → All (λ (j : FoundJob). P j.columns) (map (found_job infos) jobs)
All-found_job P infos [] h = tt
All-found_job P infos (x ∷ jobs) (p, h) = (p, All-found_job P infos jobs h)

-- In a VO that does not show all jobs, each job that a search by a user with a name returns shows the columns asked
-- for of a row of the table whose Owner is that name, whatever filters, order, columns and page are asked for, and a
-- page has at most as many jobs as asked for and at most 10000.
pub search-own :
    (sql : Sql) (operations : List (String × OperationsConfig)) (user vo : String)
    (page per_page : ℕ) (body : SearchParams) (rows : List JobRow) (logging : List LoggingInfo)
    (ops : OperationsConfig) {total : ℕ} {jobs : List FoundJob}
    → lookup vo operations ≡ some ops
    → ops.global_jobs_info ≡ false
    → (user == "") ≡ false
    → search sql operations (some user) vo page per_page body rows logging ≡ ok (total, jobs)
    → All
        (λ (j : FoundJob).
          ShowsOwn rows user (column_names (without_logging body.parameters)) j.columns)
        jobs
      × (length jobs ≤ per_page)
      × (length jobs ≤ max_per_page)
unfolding search
search-own sql operations user vo page per_page body rows logging ops known private named h =
    let (o, e1, k1) = >>=-eq-ok (get_or key_error (lookup vo operations)) _ h in
    let same = some_inj o ops (sym (get_or-eq-ok _ _ e1) ∙ known) in
    let o_private =
      subst (λ (q : OperationsConfig). q.global_jobs_info ≡ false) (sym same) private in
    let (x, e2, k2) =
      >>=-eq-ok
        (search_db sql (own_body o.global_jobs_info (some user) body) (capped per_page) (some page)
          rows)
        _ k1 in
    let (own, short) =
      search_db_own sql user (record body { parameters = without_logging body.parameters })
        (capped per_page) page rows
        (subst (λ b. search_db sql b (capped per_page) (some page) rows ≡ ok x)
          (own_body-filtered o user body o_private named) e2) in
    let names = column_names (without_logging body.parameters) in
    let (infos, e3, k3) = >>=-eq-ok (histories (asks_logging body.parameters) x.1 logging) _ k2 in
    let (le_page, le_max) = capped-le per_page in
    let counted = length-map (found_job infos) x.1 in
    subst
      (λ (jobs : List FoundJob).
        All (λ (j : FoundJob). ShowsOwn rows user names j.columns) jobs
        × (length jobs ≤ per_page)
        × (length jobs ≤ max_per_page))
      (ap (λ (y : ℕ × List FoundJob). y.1) (ok_inj k3))
      (All-found_job (ShowsOwn rows user names) infos x.1 own, omega arith, omega arith)
