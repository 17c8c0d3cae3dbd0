-- ===== src/Jobs/Tests.antt =====
-- Runs of the logic of jobs on a database with one job.
use diracx.Prelude.{true, List, [], ◌∷◌, ◌+◌, ◌≡◌, refl}
use diracx.Prelude.Table.{select, update, delete, exists, rowcount}
use diracx.Prelude.Outcome.{statement_error, invalid_query_error, returns, raises, ◌>>=◌}
use diracx.Jobs.Db.{
  text, number, time, flag, Attributes, JobDb, job_of, set_columns, create_job, delete_jobs, bind,
  bind_all, insert_jobs, insert_job_attributes, set_job_attributes,
}
use diracx.Jobs.View.{view}
use diracx.Jobs.Statements.{
  Statement, create, insert, set_at, remove, execute, execute_all, replay_all, execute_all_refines,
}
use diracx.Jobs.Commands.{
  JobCommand, insert_commands, set_job_commands, get_job_commands, add_heartbeat_data,
}
use diracx.Jobs.Delivery.{
  Request, fetch, store, serve, serve_all, count_of, waiting, serve_all-exactly_once,
}
mod Updates

abbrev empty_db : JobDb
empty_db = record {
  jdls = [];
  jobs = [];
  input_data = [];
  heart_beats = [];
  commands = [];
  next_job_id = 1;
}

abbrev in_lhcb : Attributes
in_lhcb = ("VO", text "lhcb") ∷ ("RescheduleCounter", number 3) ∷ ("VerifiedFlag", flag true) ∷ []

abbrev two_jobs : List Statement
two_jobs =
    create "jdl one"
    ∷ create "jdl two"
    ∷ insert ((1, in_lhcb) ∷ (2, in_lhcb) ∷ [])
    ∷ set_at 50 ((1, ("Status", text "Running") ∷ []) ∷ [])
    ∷ remove (2 ∷ [])
    ∷ []

-- the database after them
abbrev one_job : JobDb
one_job = record empty_db {
  jdls = record { job_id = 1; jdl = ""; job_requirements = ""; original_jdl = "jdl one" } ∷ [];
  jobs =
      set_columns ((1, ("LastUpdateTime", time 50) ∷ ("Status", text "Running") ∷ []) ∷ [])
        (job_of 1 in_lhcb)
      ∷ [];
  next_job_id = 3;
}

execute_two_jobs : execute_all two_jobs empty_db ≡ returns tt one_job
unfolding execute_all execute create_job bind bind_all insert_jobs insert_job_attributes
    set_job_attributes update delete delete_jobs exists ◌>>=◌
execute_two_jobs = refl

-- the second job lacks a column of the first, and the statement is refused
insert_uneven :
    insert_job_attributes
      ((1, ("VO", text "lhcb") ∷ ("Site", text "CERN") ∷ []) ∷ (2, ("VO", text "lhcb") ∷ []) ∷ [])
      one_job
    ≡ raises statement_error one_job
unfolding insert_job_attributes bind_all
insert_uneven = refl

execute_all_refines_example : view one_job ≡ replay_all two_jobs (view empty_db)
execute_all_refines_example = execute_all_refines two_jobs empty_db execute_two_jobs

abbrev kill_1 : JobCommand
kill_1 = record { job_id = 1; command = "Kill"; arguments = "" }

abbrev some_requests : List Request
some_requests =
    store ((kill_1, 60) ∷ []) ∷ fetch (1 ∷ 2 ∷ []) ∷ fetch (1 ∷ []) ∷ store ((kill_1, 70) ∷ []) ∷ []

-- the command is delivered once and waits once
some_requests_served :
    ((serve_all some_requests one_job).delivered ≡ kill_1 ∷ [])
    × (waiting kill_1 (serve_all some_requests one_job).db ≡ 1)
unfolding serve_all serve insert_commands set_job_commands get_job_commands select update exists
    rowcount
some_requests_served = (refl, refl)

serve_all-exactly_once_example :
    count_of kill_1 (serve_all some_requests one_job).delivered
      + waiting kill_1 (serve_all some_requests one_job).db
    ≡ waiting kill_1 one_job + count_of kill_1 (serve_all some_requests one_job).stored
serve_all-exactly_once_example = serve_all-exactly_once kill_1 some_requests one_job

add_heartbeat_data_refuses :
    add_heartbeat_data 60 1 (("Hostname", "x") ∷ []) one_job ≡ raises invalid_query_error one_job
unfolding add_heartbeat_data
add_heartbeat_data_refuses = refl
