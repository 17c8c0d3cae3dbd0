-- ===== src/Jobs/Parameters.antt =====
-- `set_job_parameters_or_attributes`, `add_heartbeat` and `_insert_parameters`
-- (diracx-logic/src/diracx/logic/jobs/status.py). The tasks of a group run one after the other.
use diracx.Prelude.{
  ℕ, String, Bool, true, false, not, ◌||◌, Option, none, some, List, [], ◌∷◌, ◌++◌, ◌==◌, nat_eq,
  map, mem, is_in, length,
}
use diracx.Prelude.Table.{select}
use diracx.Prelude.Outcome.{
  value_error, key_error, returns, Action, pure, ensure, query, get_or_raise, ◌>>=◌, ◌>>◌,
}
use diracx.Prelude.Floats.{Float}
use diracx.Config.{Config}
use diracx.TaskQueue.Dicts.{find}
use diracx.Jobs.Db.{
  ColumnValue, time, Attributes, JobRow, JobDb, job_columns, job_keys, set_job_attributes,
}
use diracx.Jobs.Commands.{heartbeat_fields, add_heartbeat_data}
use diracx.Jobs.Wms.{Upsert, Wms, on_jobs, StatusUpdate, StatusUtility}
use diracx.Jobs.Updates.{text_of}
use diracx.Jobs.Status.{set_job_statuses}

-- `JOB_PARAMETERS_ALIASES`
abbrev pub job_parameters : List String
job_parameters =
    "CPUNormalizationFactor" ∷ "NormCPUTime(s)" ∷ "TotalCPUTime(s)" ∷ "HostName" ∷ "GridCE"
    ∷ "ModelName" ∷ "PilotAgent" ∷ "Pilot_Reference" ∷ "Memory(MB)" ∷ "LocalAccount" ∷ "PayloadPID"
    ∷ "CEQueue" ∷ "BatchSystem" ∷ "JobType" ∷ "JobStatus" ∷ []

-- the fields that are attributes, and those that are parameters or neither
abbrev pub attributes_of : Attributes → Attributes
attributes_of = select λ (x : String × ColumnValue). mem x.0 job_columns

abbrev pub parameters_of : Attributes → Attributes
parameters_of =
    select λ (x : String × ColumnValue). mem x.0 job_parameters || not (mem x.0 job_columns)

abbrev pub has_fields : ℕ × Attributes → Bool
has_fields (_, []) = false
has_fields (_, _ ∷ _) = true

-- the updates that are not empty
abbrev pub with_fields : List (ℕ × Attributes) → List (ℕ × Attributes)
with_fields = select has_fields

abbrev pub map_fields : (Attributes → Attributes) → List (ℕ × Attributes) → List (ℕ × Attributes)
map_fields f d = map (λ (x : ℕ × Attributes). (x.0, f x.1)) d

-- `job_id_to_vo`
abbrev pub vos_of : List ℕ → JobDb → List (ℕ × String)
vos_of job_ids s =
    map (λ (r : JobRow). (r.job_id, text_of (r.columns "VO")))
      (select (λ (r : JobRow). is_in job_ids r.job_id) s.jobs)

-- the calls of `upsert`, and `none` for the `KeyError` of a job without a VO
unfoldable pub upserts_of : List (ℕ × String) → List (ℕ × Attributes) → Option (List Upsert)
upserts_of vos [] = some []
upserts_of vos ((job_id, document) ∷ updates) =
    let rest = upserts_of vos updates in
    elim (find job_id vos) [
      | none ↦ none
      | some vo ↦ elim rest [
        | none ↦ none
        | some calls ↦ some (record { vo = vo; job_id = job_id; document = document } ∷ calls)
      ]
    ]

-- the jobs that are matched or stalled
abbrev pub wakes_up : JobRow → Bool
wakes_up r = let status = text_of (r.columns "Status") in status == "Matched" || status == "Stalled"

abbrev pub heartbeat_update : ℕ → List StatusUpdate
heartbeat_update now =
    record {
      at = now;
      aware = true;
      status = some "Running";
      minor_status = none;
      application_status = none;
      source = "Heartbeat";
    }
    ∷ []

-- the data for the table of heartbeats, and those for the database of parameters
abbrev pub sql_data : Attributes → List (String × String)
sql_data d =
    map (λ (x : String × ColumnValue). (x.0, text_of x.1))
      (select (λ (x : String × ColumnValue). mem x.0 heartbeat_fields) d)

abbrev pub os_data : Attributes → Attributes
os_data = select λ (x : String × ColumnValue). not (mem x.0 heartbeat_fields)

abbrev pub beat_changes : (ℕ → ℕ) → List JobRow → List (ℕ × List StatusUpdate)
beat_changes clock rows =
    map (λ (r : JobRow). (r.job_id, heartbeat_update (clock r.job_id))) (select wakes_up rows)

-- the jobs without a new status get the time of the heartbeat
abbrev pub other_beats :
    ℕ → List (ℕ × Attributes) → List (ℕ × List StatusUpdate) → List (ℕ × Attributes)
other_beats now beats changes =
    map (λ (x : ℕ × Attributes). (x.0, ("HeartBeatTime", time now) ∷ []))
      (select (λ (x : ℕ × Attributes). not (is_in (job_keys changes) x.0)) beats)

module _ {W : Type 0} where
  abbrev pub append_upserts : List Upsert → Action (Wms W) (Unit {0})
  append_upserts calls s = returns tt (record s { upserts = s.upserts ++ calls })

  unfoldable pub insert_nonempty : List (ℕ × Attributes) → Action (Wms W) (Unit {0})
  unfolding upserts_of
  insert_nonempty [] = pure tt
  insert_nonempty (u ∷ updates) = do
    vos ← query (λ (s : Wms W). vos_of (job_keys (u ∷ updates)) s.jobs)
    calls ← get_or_raise key_error (upserts_of vos (u ∷ updates))
    append_upserts calls

  -- `_insert_parameters`
  abbrev pub insert_parameters : List (ℕ × Attributes) → Action (Wms W) (Unit {0})
  insert_parameters updates = insert_nonempty (with_fields updates)

  -- the attributes of the jobs, if there is a job
  abbrev pub set_nonempty : ℕ → List (ℕ × Attributes) → Action (Wms W) (Unit {0})
  set_nonempty now [] = pure tt
  set_nonempty now (u ∷ updates) = on_jobs (set_job_attributes now (u ∷ updates))

  unfoldable pub set_job_parameters_or_attributes :
      ℕ → List (ℕ × Attributes) → Action (Wms W) (Unit {0})
  unfolding select insert_nonempty
  set_job_parameters_or_attributes now updates = do
    set_nonempty now (with_fields (map_fields attributes_of updates))
    insert_parameters (map_fields parameters_of updates)

  -- `if sql_data`
  abbrev pub store_beat : ℕ → ℕ → List (String × String) → Action (Wms W) (Unit {0})
  store_beat now job_id [] = pure tt
  store_beat now job_id (x ∷ d) = on_jobs (add_heartbeat_data now job_id (x ∷ d))

  unfoldable pub store_beats : ℕ → List (ℕ × Attributes) → Action (Wms W) (Unit {0})
  unfolding select
  store_beats now [] = pure tt
  store_beats now ((job_id, d) ∷ beats) = do
    store_beat now job_id (sql_data d)
    store_beats now beats

  module _ ⦃f : Float W⦄ (dirac : StatusUtility) (config : Config) (clock : ℕ → ℕ) where
    -- `if status_changes`
    abbrev pub change_statuses : List (ℕ × List StatusUpdate) → Action (Wms W) (Unit {0})
    change_statuses [] = pure tt
    change_statuses (c ∷ changes) =
        set_job_statuses dirac config clock
          (record { changes = c ∷ changes; additional_attributes = []; force = false })
        >>= λ _. pure tt

    unfoldable pub add_heartbeat : ℕ → List (ℕ × Attributes) → Action (Wms W) (Unit {0})
    unfolding select store_beats insert_nonempty
    add_heartbeat now beats = do
      rows ←
          query
            (λ (s : Wms W). select (λ (r : JobRow). is_in (job_keys beats) r.job_id) s.jobs.jobs)
      ensure (nat_eq (length rows) (length beats)) value_error
      change_statuses (beat_changes clock rows)
      set_nonempty now (other_beats now beats (beat_changes clock rows))
      store_beats now beats
      insert_parameters (map_fields os_data beats)
