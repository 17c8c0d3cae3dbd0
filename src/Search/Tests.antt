-- ===== src/Search/Tests.antt =====
-- Searches over two jobs.
use diracx.Prelude.{
  ℕ, String, true, false, none, some, List, [], ◌∷◌, ◌≡◌, refl, All, length, ◌≤◌, ◌==◌,
}
use diracx.Prelude.Table.{select}
use diracx.Prelude.Outcome.{ok}
use diracx.Config.{OperationsConfig}
use diracx.JobLogging.{get_records, history_of, fill_history, order_rows}
use diracx.Jobs.Db.{JobRow, text, number, time, job_of}
use diracx.Search.Times.{second, day, find_time_resolution, match_parts, take_digits, ends_fraction}
use diracx.Search.Filters.{scalar, equal, Sql, resolve, filter_of, apply_search_filters}
use diracx.Search.Query.{
  desc, SearchParams, FoundJob, answer, paginate, sort_rows, insert_row, distinct_rows, offset,
  search_db, histories, search,
}
use diracx.Search.OwnJobs.{ShowsOwn, search-own}

abbrev some_operations : List (String × OperationsConfig)
some_operations = ("lhcb", record { global_jobs_info = false; max_rescheduling = 3 }) ∷ []

abbrev some_sql : Sql
some_sql = record {
  text_less = λ s t. false;
  matches_like = λ s t. s == t;
  matches_regex = λ s t. s == t;
  is_regex = λ s. true;
  date_trunc = λ r t. "2024-01";
  sorts_before = λ v w. false;
}

abbrev owned_row : ℕ → String → JobRow
owned_row i owner =
    job_of i (("Owner", text owner) ∷ ("SubmissionTime", time 50) ∷ ("VO", text "lhcb") ∷ [])

abbrev some_rows : List JobRow
some_rows = owned_row 1 "chaen" ∷ owned_row 2 "fstagni" ∷ []

abbrev some_search : SearchParams
some_search = record {
  parameters = some ("Owner" ∷ "LoggingInfo" ∷ []);
  search = scalar "SubmissionTime" equal (text "2024-01") ∷ [];
  sort = ("JobID", desc) ∷ [];
  distinct = true;
}

abbrev some_found : List FoundJob
some_found =
    record { columns = ("JobID", number 1) ∷ ("Owner", text "chaen") ∷ []; logging_info = some [] }
    ∷ []

some_search_answered :
    search some_sql some_operations (some "chaen") "lhcb" 1 100 some_search some_rows []
    ≡ ok (1, some_found)
unfolding search search_db histories history_of answer paginate apply_search_filters filter_of
    resolve find_time_resolution match_parts take_digits sort_rows insert_row distinct_rows offset
    select get_records fill_history order_rows
some_search_answered = refl

search-own_example :
    All (λ (j : FoundJob). ShowsOwn some_rows "chaen" ("JobID" ∷ "Owner" ∷ []) j.columns) some_found
    × (length some_found ≤ 100)
    × (length some_found ≤ 10000)
unfolding select
search-own_example =
    search-own some_sql some_operations "chaen" "lhcb" 1 100 some_search some_rows []
      (record { global_jobs_info = false; max_rescheduling = 3 }) refl refl refl
      some_search_answered

resolutions :
    (find_time_resolution "2024-01-02T03:04:05.678Z" ≡ some (second, "2024-01-02 03:04:05"))
    × (find_time_resolution "2024-01-02" ≡ some (day, "2024-01-02"))
    × (find_time_resolution "2024-1" ≡ none)
unfolding find_time_resolution match_parts take_digits ends_fraction
resolutions = (refl, refl, refl)
