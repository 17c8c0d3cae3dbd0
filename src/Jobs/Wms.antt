-- ===== src/Jobs/Wms.antt =====
-- The databases that the logic of jobs works on, with the package DIRACCommon as a parameter.
use diracx.Prelude.{ℕ, String, Bool, Option, List}
use diracx.Prelude.Outcome.{Result, Outcome, returns, raises, Action}
use diracx.JobLogging.{LoggingInfo}
use diracx.TaskQueue.Db.{TaskQueueDb}
use diracx.Sandbox.Db.{SandboxDb}
use diracx.Jobs.Db.{Attributes, JobDb}

-- `job_parameters_db.upsert(vo, job_id, document)`
pub record Upsert : Type 0 where
  pub vo : String
  pub job_id : ℕ
  pub document : Attributes

-- The databases, and the calls of `upsert` of the database of parameters.
pub record Wms (W : Type 0) : Type 0 where
  pub jobs : JobDb
  pub logging : List LoggingInfo
  pub queues : TaskQueueDb W
  pub sandboxes : SandboxDb
  pub upserts : List Upsert

module _ {W : Type 0} {A : Type 0} where
  abbrev pub outcome_jobs : Wms W → Outcome JobDb A → Outcome (Wms W) A
  outcome_jobs s (returns a t) = returns a (record s { jobs = t })
  outcome_jobs s (raises e t) = raises e (record s { jobs = t })

  -- an action on one of the databases
  unfoldable pub on_jobs : Action JobDb A → Action (Wms W) A
  on_jobs m s = outcome_jobs s (m s.jobs)

  abbrev pub outcome_logging : Wms W → Outcome (List LoggingInfo) A → Outcome (Wms W) A
  outcome_logging s (returns a t) = returns a (record s { logging = t })
  outcome_logging s (raises e t) = raises e (record s { logging = t })

  unfoldable pub on_logging : Action (List LoggingInfo) A → Action (Wms W) A
  on_logging m s = outcome_logging s (m s.logging)

  abbrev pub outcome_queues : Wms W → Outcome (TaskQueueDb W) A → Outcome (Wms W) A
  outcome_queues s (returns a t) = returns a (record s { queues = t })
  outcome_queues s (raises e t) = raises e (record s { queues = t })

  unfoldable pub on_queues : Action (TaskQueueDb W) A → Action (Wms W) A
  on_queues m s = outcome_queues s (m s.queues)

  abbrev pub outcome_sandboxes : Wms W → Outcome SandboxDb A → Outcome (Wms W) A
  outcome_sandboxes s (returns a t) = returns a (record s { sandboxes = t })
  outcome_sandboxes s (raises e t) = raises e (record s { sandboxes = t })

  unfoldable pub on_sandboxes : Action SandboxDb A → Action (Wms W) A
  on_sandboxes m s = outcome_sandboxes s (m s.sandboxes)

-- `JobStatusUpdate` with its time, and whether the time has a zone
pub record StatusUpdate : Type 0 where
  pub at : ℕ
  pub aware : Bool
  pub status : Option String
  pub minor_status : Option String
  pub application_status : Option String
  pub source : String

-- The statuses that `getNewStatus` decides on, empty for those that do not change.
pub record NewStatus : Type 0 where
  pub status : String
  pub minor_status : String
  pub application_status : String

-- What the code uses of DIRACCommon: the updates are in the order of time.
pub record StatusUtility : Type 0 where
  -- the times of the start and the end, the updates, and the status before them
  pub get_start_and_end_time :
      Option ℕ → Option ℕ → List StatusUpdate → String → Option ℕ × Option ℕ
  -- the job, the updates, the time of the last status, the status, and whether a change is forced
  pub get_new_status : ℕ → List StatusUpdate → ℕ → String → Bool → Result NewStatus
