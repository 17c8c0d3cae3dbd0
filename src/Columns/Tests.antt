-- ===== src/Columns/Tests.antt =====
-- A column in UTC that returns times an hour east of it, where zones are numbers of seconds.
use diracx.Prelude.{ℕ, ◌+◌, ◌-◌, true, false, some, [], ◌∷◌, ◌≡◌, refl, arith}
use diracx.Prelude.Outcome.{value_error, ok, err}
use diracx.Prelude.Result.{◌>>=◌}
use diracx.Columns.{
  aware, naive, Clocks, text, datetime, SmarterDatetime, process_bind_param, process_result_value,
}
use diracx.Columns.Laws.{process_result_value-process_bind_param}

abbrev some_clocks : Clocks ℕ
some_clocks = record {
  local_zone = 7200;
  wall_of = λ zone instant. instant + zone;
  instant_of = λ zone wall. wall - zone;
  fromisoformat = λ _. some (aware 1000 3600);
}

abbrev some_column : SmarterDatetime ℕ
some_column = record {
  stored_tz = some 0;
  returned_tz = 3600;
  stored_naive_dialect = ("sqlite", true) ∷ ("mysql", true) ∷ ("postgres", false) ∷ [];
}

process_result_value-process_bind_param_example :
    (process_bind_param some_clocks some_column "sqlite" (text "1970-01-01T01:16:40+01:00")
      >>= process_result_value some_clocks some_column "sqlite")
    ≡ ok (some (aware 1000 3600))
process_result_value-process_bind_param_example =
    process_result_value-process_bind_param some_clocks some_column "sqlite"
      (text "1970-01-01T01:16:40+01:00") 1000 3600 true (λ j. omega arith) refl refl

process_bind_param_answers :
    (process_bind_param some_clocks some_column "mysql" (datetime (aware 500 7200))
      ≡ ok (some (naive 500)))
    × (process_bind_param some_clocks some_column "mysql" (datetime (naive 500)) ≡ err value_error)
    × (process_result_value some_clocks some_column "mysql" (some (aware 500 0)) ≡ err value_error)
unfolding process_bind_param process_result_value
process_bind_param_answers = (refl, refl, refl)
