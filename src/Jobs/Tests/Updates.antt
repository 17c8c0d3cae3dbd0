-- ===== src/Jobs/Tests/Updates.antt =====
-- Runs of the changes of the state, the parameters and the existence of one job.
use diracx.Prelude.{ℕ, String, true, false, none, some, List, [], ◌∷◌, ◌+◌, ◌≡◌, refl}
use diracx.Prelude.Table.{select, update, exists, rowcount}
use diracx.Prelude.Outcome.{
  value_error, not_implemented_error, key_error, ok, returns, raises, ◌>>=◌,
}
use diracx.Prelude.Floats.{thousandths}
use diracx.Config.{Config, OperationsConfig}
use diracx.TaskQueue.Db.{remove_jobs}
use diracx.Jobs.Db.{text, time, Attributes, JobDb, set_job_attributes}
use diracx.Jobs.Commands.{insert_heart_beats, add_heartbeat_data}
use diracx.Jobs.Wms.{Wms, StatusUpdate, StatusUtility, on_jobs}
use diracx.Jobs.Updates.{sort_updates, decide}
use diracx.Jobs.Status.{
  SetJobStatusReturn, StatusChanges, plan_job, plan_jobs, change_found, set_job_statuses,
}
use diracx.Jobs.Properties.{execute_many, set_properties}
use diracx.Jobs.Parameters.{
  upserts_of, insert_nonempty, set_job_parameters_or_attributes, store_beats, add_heartbeat,
}
use diracx.Jobs.Removal as Removal
use diracx.Jobs.Removal.{IsForgotten, remove_jobs_complete}
use diracx.Jobs.Jdl.{Jdls, refused}
use diracx.Jobs.Reschedule.{reschedule_jobs}
use diracx.Jobs.Limit.{reported, reschedule_jobs-exhausted}
use diracx.Jobs.Tests.{one_job}

abbrev some_wms : Wms ℕ
some_wms = record {
  jobs = one_job;
  logging =
      record {
        job_id = 1;
        seq_num = 1;
        status = "Running";
        minor_status = "idem";
        application_status = "idem";
        status_time = 50;
        status_time_order = 50;
        source = "JobManager";
      }
      ∷ [];
  queues = record {
    task_queues = [];
    jobs = record { tq_id = 1; job_id = 1; priority = 5; real_priority = 5000 } ∷ [];
    sites = [];
    grid_ces = [];
    banned_sites = [];
    platforms = [];
    job_types = [];
    tags = [];
  };
  sandboxes = record {
    owners = [];
    sandboxes = [];
    mappings = [];
    next_owner_id = 1;
    next_sb_id = 1;
  };
  upserts = [];
}

-- the last update decides
abbrev last_status : StatusUtility
last_status = record {
  get_start_and_end_time = λ start end updates first. (start, end);
  get_new_status = λ job_id updates last current force. ok record {
    status = "Killed";
    minor_status = "Marked for termination";
    application_status = "";
  };
}

abbrev no_config : Config
no_config = record { registry = [] }

abbrev clock : ℕ → ℕ
clock i = 100 + i

abbrev killed : ℕ → StatusUpdate
killed now = record {
  at = now;
  aware = true;
  status = some "Killed";
  minor_status = some "Marked for termination";
  application_status = none;
  source = "Heartbeat";
}

-- job 7 is unknown
abbrev some_changes : StatusChanges
some_changes = record {
  changes = (1, killed 80 ∷ []) ∷ (7, killed 80 ∷ []) ∷ [];
  additional_attributes = [];
  force = false;
}

abbrev killed_data : Attributes
killed_data =
    ("HeartBeatTime", time 80)
    ∷ ("MinorStatus", text "Marked for termination")
    ∷ ("LastUpdateTime", time 101)
    ∷ ("Status", text "Killed")
    ∷ []

abbrev some_answer : SetJobStatusReturn
some_answer = record { success = (1, killed_data) ∷ []; failed = 7 ∷ [] }

-- a job without logging records
set_job_statuses_unlogged :
    set_job_statuses last_status no_config clock some_changes (record some_wms { logging = [] })
    ≡ raises key_error (record some_wms { logging = [] })
unfolding set_job_statuses change_found plan_jobs plan_job sort_updates decide select ◌>>=◌
set_job_statuses_unlogged = refl

remove_jobs_complete_example :
    (s' : Wms ℕ) × (Removal.remove_jobs (1 ∷ []) no_config some_wms ≡ returns tt s')
    × IsForgotten 1 s'
remove_jobs_complete_example = remove_jobs_complete (1 ∷ []) no_config some_wms 1 refl

abbrev some_jdls : Jdls String
some_jdls = record {
  extract_jdl = λ s. s;
  compress_jdl = λ s. s;
  class_ad = λ s. s;
  insert_attribute_int = λ name n ad. ad;
  insert_attribute_jdl = λ name jdl ad. ad;
  get_attribute_int = λ name ad. none;
  get_list_from_expression = λ name ad. [];
  as_jdl = λ ad. ad;
  check_and_prepare = λ c job req. refused false [];
}

abbrev some_operations : List (String × OperationsConfig)
some_operations = ("lhcb", record { global_jobs_info = false; max_rescheduling = 3 }) ∷ []

reschedule_jobs-exhausted_example :
    reschedule_jobs last_status some_jdls no_config some_operations clock
      (1 ∷ 7 ∷ [])
      false
      some_wms
    ≡ returns record { failed = reported (1 ∷ 7 ∷ []) one_job.jobs; success = [] } some_wms
unfolding select
reschedule_jobs-exhausted_example =
    reschedule_jobs-exhausted last_status some_jdls no_config some_operations clock (1 ∷ 7 ∷ [])
      false some_wms refl

-- the two updates of the row are counted
set_properties_counts :
    (s' : JobDb) × (set_properties
        ((1, ("Site", text "CERN") ∷ []) ∷ (5, ("Site", text "IN2P3") ∷ []) ∷ [])
        true
        90
        one_job
      ≡ returns 1 s')
unfolding set_properties execute_many update rowcount
set_properties_counts = (_, refl)

set_properties_refuses :
    set_properties ((1, ("Site", text "CERN") ∷ []) ∷ (5, []) ∷ []) true 90 one_job
    ≡ raises not_implemented_error one_job
unfolding set_properties
set_properties_refuses = refl

-- a heartbeat stores its data and sets its time
heartbeat_stored :
    (s' : Wms ℕ) × (add_heartbeat last_status no_config clock 90
        ((1, ("LoadAverage", text "0.5") ∷ ("StandardOutput", text "x") ∷ []) ∷ [])
        some_wms
      ≡ returns tt s')
    × (s'.upserts
        ≡ record { vo = "lhcb"; job_id = 1; document = ("StandardOutput", text "x") ∷ [] } ∷ [])
unfolding add_heartbeat store_beats add_heartbeat_data insert_heart_beats insert_nonempty upserts_of
    set_job_attributes on_jobs select update exists ◌>>=◌
heartbeat_stored = (_, refl, refl)

heartbeat_of_unknown :
    add_heartbeat last_status no_config clock 90 ((1, []) ∷ (7, []) ∷ []) some_wms
    ≡ raises value_error some_wms
unfolding add_heartbeat select ◌>>=◌
heartbeat_of_unknown = refl

-- a job type is an attribute and a parameter
parameters_set :
    (s' : Wms ℕ) × (set_job_parameters_or_attributes 90
        ((1, ("JobType", text "User") ∷ []) ∷ [])
        some_wms
      ≡ returns tt s')
    × (s'.upserts
        ≡ record { vo = "lhcb"; job_id = 1; document = ("JobType", text "User") ∷ [] } ∷ [])
unfolding set_job_parameters_or_attributes insert_nonempty upserts_of set_job_attributes on_jobs
    select update ◌>>=◌
parameters_set = (_, refl, refl)
