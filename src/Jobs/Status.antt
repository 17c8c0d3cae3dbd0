-- ===== src/Jobs/Status.antt =====
-- `set_job_statuses` (diracx-logic/src/diracx/logic/jobs/status.py). The clock gives its reading for each job.
use diracx.Prelude.{
  ℕ, String, Bool, false, not, ◌||◌, Option, none, some, List, [], ◌∷◌, ◌++◌, ◌==◌, map, is_in, all,
  if◌then◌else◌,
}
use diracx.Prelude.Table.{select}
use diracx.Prelude.Outcome.{
  value_error, key_error, returns, Action, pure, query, lift, ensure, get_or_raise, ◌>>=◌, ◌>>◌,
}
use diracx.Prelude.Floats.{Float}
use diracx.Config.{Config}
use diracx.JobLogging.{JobLoggingRecord, prefix, insert_records}
use diracx.TaskQueue.Dicts.{find}
use diracx.TaskQueue.Recalculate.{remove_jobs_from_task_queue}
use diracx.Jobs.Db.{ColumnValue, text, time, Attributes, JobRow, job_keys, set_job_attributes}
use diracx.Jobs.Commands.{JobCommand, set_job_commands}
use diracx.Jobs.Wms.{Wms, on_jobs, on_logging, on_queues, StatusUpdate, NewStatus, StatusUtility}
use diracx.Jobs.Updates.{sort_updates, collect_stamps, Decision, decide, text_of, time_of}

-- `job_data[name] = value`, where the value is given
abbrev pub put_text : String → String → Attributes → Attributes
put_text name s attrs = if s == "" then attrs else (name, text s) ∷ attrs

-- a time that was null and is now known
abbrev pub put_time : String → ColumnValue → Option ℕ → Attributes → Attributes
put_time name old none attrs = attrs
put_time name old (some t) attrs = elim (time_of old) [
  | some _ ↦ attrs
  | none ↦ (name, time t) ∷ attrs
]

-- the new status, with the additional attributes and the time of the update where the status is not empty
abbrev pub status_data : ℕ → Attributes → NewStatus → Attributes
status_data now additional new = put_text "ApplicationStatus" new.application_status (
    put_text "MinorStatus" new.minor_status (
      if new.status == ""
      then []
      else ("LastUpdateTime", time now) ∷ ("Status", text new.status) ∷ additional))

abbrev pub is_heartbeat : StatusUpdate → Bool
is_heartbeat u = prefix 3 u.source == "Job" || u.source == "Heartbeat"

-- the time of the last update that tells of the job being alive
abbrev pub put_heartbeats : List StatusUpdate → Attributes → Attributes
put_heartbeats [] attrs = attrs
put_heartbeats (u ∷ updates) attrs =
    put_heartbeats updates (if is_heartbeat u then ("HeartBeatTime", time u.at) ∷ attrs else attrs)

-- `job_data`
unfoldable pub job_data : ℕ → Attributes → List StatusUpdate → JobRow → Decision → Attributes
unfolding prefix
job_data now additional updates r d = put_time "EndExecTime" (r.columns "EndExecTime") d.end_time (
    put_time "StartExecTime" (r.columns "StartExecTime") d.start_time (
      put_heartbeats updates
        (elim d.new [ none ↦ [] | some new ↦ status_data now additional new ])))

abbrev pub or_idem : Option String → String
or_idem none = "idem"
or_idem (some s) = s

abbrev pub record_of : ℕ → StatusUpdate → JobLoggingRecord
record_of job_id u = record {
  job_id = job_id;
  status = or_idem u.status;
  minor_status = or_idem u.minor_status;
  application_status = or_idem u.application_status;
  date = u.at;
  source = u.source;
}

-- what the loop over the jobs collects
pub record Plan : Type 0 where
  pub attribute_updates : List (ℕ × Attributes)
  pub skipped : List ℕ
  pub deletable_killable : List ℕ
  pub logging_updates : List JobLoggingRecord

abbrev pub is_final : Decision → Bool
is_final d = elim d.new [
  | none ↦ false
  | some new ↦ new.status == "Deleted" || new.status == "Killed"
]

abbrev pub add_update : ℕ → Attributes → Plan → Plan
add_update job_id [] plan = record plan { skipped = plan.skipped ++ job_id ∷ [] }
add_update job_id (x ∷ attrs) plan = record plan {
  attribute_updates = plan.attribute_updates ++ (job_id, x ∷ attrs) ∷ [];
}

unfoldable pub add_job : ℕ → Attributes → List StatusUpdate → Decision → Plan → Plan
add_job job_id attrs updates d plan =
    let planned = add_update job_id attrs plan in
    record planned {
      deletable_killable =
          if is_final d
          then planned.deletable_killable ++ job_id ∷ []
          else planned.deletable_killable;
      logging_updates = planned.logging_updates ++ map (record_of job_id) updates;
    }

-- `SetJobStatusReturn`, with the attributes that are set
pub record SetJobStatusReturn : Type 0 where
  pub success : List (ℕ × Attributes)
  pub failed : List ℕ

pub record StatusChanges : Type 0 where
  pub changes : List (ℕ × List StatusUpdate)
  pub additional_attributes : List (ℕ × Attributes)
  pub force : Bool

abbrev pub additional_of : List (ℕ × Attributes) → ℕ → Attributes
additional_of d job_id = elim (find job_id d) [ none ↦ [] | some attrs ↦ attrs ]

abbrev pub missing : List JobRow → List ℕ → List ℕ
missing rows job_ids = select (λ i. not (is_in (map (λ (r : JobRow). r.job_id) rows) i)) job_ids

abbrev pub kill_of : (ℕ → ℕ) → ℕ → JobCommand × ℕ
kill_of clock job_id = (record { job_id = job_id; command = "Kill"; arguments = "" }, clock job_id)

-- `{j: {} for j in skipped_job_attribute_updates}`
abbrev pub skipped_of : List ℕ → List (ℕ × Attributes)
skipped_of job_ids = map (λ j. (j, [])) job_ids

abbrev pub no_plan : Plan
no_plan = record {
  attribute_updates = [];
  skipped = [];
  deletable_killable = [];
  logging_updates = [];
}

-- no time lacks a zone
abbrev pub all_aware : List (ℕ × List StatusUpdate) → Bool
all_aware = all λ (x : ℕ × List StatusUpdate). all (λ (u : StatusUpdate). u.aware) x.1

module _ {W : Type 0} ⦃f : Float W⦄ (dirac : StatusUtility) (config : Config) (clock : ℕ → ℕ) where
  abbrev pub upsert : String → ℕ → Decision → Action (Wms W) (Unit {0})
  upsert vo job_id d s = elim d.new [
    | none ↦ returns tt s
    | some new ↦ returns tt (record s {
      upserts =
          s.upserts
          ++ record { vo = vo; job_id = job_id; document = ("Status", text new.status) ∷ [] } ∷ [];
    })
  ]

  -- the body of the loop
  unfoldable pub plan_job : StatusChanges → JobRow → Plan → Action (Wms W) Plan
  unfolding sort_updates decide job_data add_job
  plan_job c r plan = do
    status_dict ← get_or_raise key_error (find r.job_id c.changes)
    stamps ← query (λ (s : Wms W). collect_stamps r.job_id [] s.logging)
    d ← lift (decide dirac c.force stamps (sort_updates status_dict) r)
    upsert (text_of (r.columns "VO")) r.job_id d
    pure (
        add_job r.job_id
          (job_data (clock r.job_id) (additional_of c.additional_attributes r.job_id)
            (sort_updates status_dict) r d)
          (sort_updates status_dict) d plan)

  -- `for res in results`
  unfoldable pub plan_jobs : StatusChanges → List JobRow → Plan → Action (Wms W) Plan
  unfolding plan_job
  plan_jobs c [] plan = pure plan
  plan_jobs c (r ∷ rows) plan = do next ← plan_job c r plan; plan_jobs c rows next

  -- `if job_attribute_updates`
  abbrev pub set_attributes : List (ℕ × Attributes) → Action (Wms W) (Unit {0})
  set_attributes [] = pure tt
  set_attributes (x ∷ updates) = on_jobs (set_job_attributes (clock 0) (x ∷ updates))

  -- `if deletable_killable_jobs`
  abbrev pub kill : List ℕ → Action (Wms W) (Unit {0})
  kill [] = pure tt
  kill (job_id ∷ job_ids) = on_jobs (set_job_commands (map (kill_of clock) (job_id ∷ job_ids)))

  unfoldable pub apply_plan : Plan → List ℕ → Action (Wms W) SetJobStatusReturn
  apply_plan plan failed = do
    set_attributes plan.attribute_updates
    on_queues (remove_jobs_from_task_queue plan.deletable_killable config)
    kill plan.deletable_killable
    on_logging (insert_records plan.logging_updates)
    pure record { success = plan.attribute_updates ++ skipped_of plan.skipped; failed = failed }

  -- from the rows of the search on
  unfoldable pub change_found : StatusChanges → List JobRow → Action (Wms W) SetJobStatusReturn
  unfolding plan_jobs apply_plan
  change_found c [] = pure record { success = []; failed = job_keys c.changes }
  change_found c (r ∷ rows) = do
    plan ← plan_jobs c (r ∷ rows) no_plan
    apply_plan plan (missing (r ∷ rows) (job_keys c.changes))

  unfoldable pub set_job_statuses : StatusChanges → Action (Wms W) SetJobStatusReturn
  unfolding change_found
  set_job_statuses c = do
    ensure (all_aware c.changes) value_error
    rows ←
        query
          (λ (s : Wms W). select (λ (r : JobRow). is_in (job_keys c.changes) r.job_id) s.jobs.jobs)
    change_found c rows
