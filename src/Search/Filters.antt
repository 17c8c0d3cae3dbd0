-- ===== src/Search/Filters.antt =====
-- The filters and the order of a search (diracx-db/src/diracx/db/sql/utils/base.py). A comparison with
-- null selects no row, and patterns match texts only.
use diracx.Prelude.{
  ℕ, String, Bool, true, false, not, ◌&&◌, ◌||◌, Option, none, some, List, [], ◌∷◌, ◌==◌, nat_eq,
  ltb, map, any, all, mem, if◌then◌else◌,
}
use diracx.Prelude.Outcome.{invalid_query_error, type_error, Result, ok, err}
use diracx.Prelude.Result.{require, get_or, ◌>>=◌, ◌>>◌}
use diracx.Jobs.Db.{ColumnValue, null, text, number, time, flag, JobRow, job_columns}
use diracx.Search.Times.{Resolution, year, month, day, hour, minute, second, find_time_resolution}

pub data ScalarOperator : Type 0 where
  equal not_equal greater_than less_than like not_like regex : ScalarOperator

pub data VectorOperator : Type 0 where
  is_one_of is_none_of : VectorOperator

-- a filter of a search
pub data SearchSpec : Type 0 where
  scalar : String → ScalarOperator → ColumnValue → SearchSpec
  vector : String → VectorOperator → List ColumnValue → SearchSpec

-- What the database does with texts, and the check of a regular expression by Python.
pub record Sql : Type 0 where
  pub text_less : String → String → Bool
  pub matches_like : String → String → Bool
  pub matches_regex : String → String → Bool
  pub is_regex : String → Bool
  -- `date_trunc` of a time, as a text
  pub date_trunc : Resolution → ℕ → String
  -- the order of the values of a column
  pub sorts_before : ColumnValue → ColumnValue → Bool

abbrev pub time_columns : List String
time_columns =
    "SubmissionTime" ∷ "RescheduleTime" ∷ "LastUpdateTime" ∷ "StartExecTime" ∷ "HeartBeatTime"
    ∷ "EndExecTime" ∷ []

abbrev pub is_column : String → Bool
is_column parameter = parameter == "JobID" || mem parameter job_columns

abbrev pub value_at : JobRow → String → ColumnValue
value_at r parameter = if parameter == "JobID" then number r.job_id else r.columns parameter

abbrev pub same_value : ColumnValue → ColumnValue → Bool
same_value (text s) (text t) = s == t
same_value (number m) (number n) = nat_eq m n
same_value (time m) (time n) = nat_eq m n
same_value (flag true) (flag b) = b
same_value (flag false) (flag b) = not b
same_value _ _ = false

abbrev pub is_null : ColumnValue → Bool
is_null null = true
is_null _ = false

abbrev pub same_resolution : Option Resolution → Option Resolution → Bool
same_resolution none none = true
same_resolution (some year) (some year) = true
same_resolution (some month) (some month) = true
same_resolution (some day) (some day) = true
same_resolution (some hour) (some hour) = true
same_resolution (some minute) (some minute) = true
same_resolution (some second) (some second) = true
same_resolution _ _ = false

-- `find_time_resolution` of a value of a time column
unfoldable pub resolve : ColumnValue → Result (Option Resolution × ColumnValue)
unfolding find_time_resolution
resolve (time t) = ok (none, time t)
resolve (text s) = do
  found ← get_or invalid_query_error (find_time_resolution s)
  ok (some found.0, text found.1)
resolve _ = err type_error

-- only a text is resolved in a scalar filter
abbrev pub resolve_scalar : String → ColumnValue → Result (Option Resolution × ColumnValue)
resolve_scalar parameter (text s) =
    if mem parameter time_columns then resolve (text s) else ok (none, text s)
resolve_scalar parameter v = ok (none, v)

unfoldable pub resolve_all : List ColumnValue → Result (List (Option Resolution × ColumnValue))
unfolding resolve
resolve_all [] = ok []
resolve_all (v ∷ values) = do x ← resolve v; rest ← resolve_all values; ok (x ∷ rest)

-- the resolution of all the values, which may not differ
abbrev pub common :
    List (Option Resolution × ColumnValue) → Result (Option Resolution × List ColumnValue)
common [] = ok (none, [])
common (x ∷ xs) = do
  require (all (λ (y : Option Resolution × ColumnValue). same_resolution x.0 y.0) xs)
      invalid_query_error
  ok (x.0, map (λ (y : Option Resolution × ColumnValue). y.1) (x ∷ xs))

abbrev pub resolve_vector :
    String → List ColumnValue → Result (Option Resolution × List ColumnValue)
resolve_vector parameter values =
    if mem parameter time_columns then resolve_all values >>= common else ok (none, values)

module _ (sql : Sql) where
  -- the column, which is cut off at the resolution
  abbrev pub truncated : Option Resolution → ColumnValue → ColumnValue
  truncated (some r) (time t) = text (sql.date_trunc r t)
  truncated _ v = v

  abbrev pub less : ColumnValue → ColumnValue → Bool
  less (text s) (text t) = sql.text_less s t
  less (number m) (number n) = ltb m n
  less (time m) (time n) = ltb m n
  less _ _ = false

  abbrev pub with_texts : (String → String → Bool) → ColumnValue → ColumnValue → Bool
  with_texts f (text s) (text t) = f s t
  with_texts f _ _ = false

  abbrev pub compare_scalar : ScalarOperator → ColumnValue → ColumnValue → Bool
  compare_scalar equal v w = same_value v w
  compare_scalar not_equal v w = not (is_null v) && not (is_null w) && not (same_value v w)
  compare_scalar greater_than v w = less w v
  compare_scalar less_than v w = less v w
  compare_scalar like v w = with_texts (λ s t. sql.matches_like s t) v w
  compare_scalar not_like v w = with_texts (λ s t. not (sql.matches_like s t)) v w
  compare_scalar regex v w = with_texts (λ s t. sql.matches_regex s t) v w

  abbrev pub compare_vector : VectorOperator → ColumnValue → List ColumnValue → Bool
  compare_vector is_one_of v values = any (same_value v) values
  compare_vector is_none_of v [] = true
  compare_vector is_none_of v (w ∷ values) =
      not (is_null v) && all (λ x. not (same_value v x)) (w ∷ values)

  -- `re.compile`
  abbrev pub check_regex : ScalarOperator → ColumnValue → Result (Unit {0})
  check_regex regex (text s) = require (sql.is_regex s) invalid_query_error
  check_regex _ _ = ok tt

  unfoldable pub filter_of : SearchSpec → Result (JobRow → Bool)
  unfolding resolve resolve_all
  filter_of (scalar parameter operator value) = do
    require (is_column parameter) invalid_query_error
    x ← resolve_scalar parameter value
    check_regex operator x.1
    ok (λ r. compare_scalar operator (truncated x.0 (value_at r parameter)) x.1)
  filter_of (vector parameter operator values) = do
    require (is_column parameter) invalid_query_error
    x ← resolve_vector parameter values
    ok (λ r. compare_vector operator (truncated x.0 (value_at r parameter)) x.1)

  unfoldable pub apply_search_filters : List SearchSpec → Result (JobRow → Bool)
  unfolding filter_of
  apply_search_filters [] = ok (λ r. true)
  apply_search_filters (query ∷ search) = do
    p ← filter_of query
    q ← apply_search_filters search
    ok (λ r. p r && q r)
