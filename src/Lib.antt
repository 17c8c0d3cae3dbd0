-- ===== src/Lib.antt =====
-- DiracX: a verification of the authentication service, the sandbox store, the access policies, the jobs with
-- their logging and their task queues, and helpers that they use.
--
-- The program is a set of HTTP services. A route opens a transaction of a database, checks an access
-- policy, and runs one function of diracx-logic, which works through the methods of a database class of
-- diracx-db. The files here follow these layers.
--
-- Auth: the authentication service.
--   Auth/Db, Auth/Db/*: the tables of diracx-db/src/diracx/db/sql/auth/schema.py and the methods of `AuthDB` (db.py).
--   Auth/Scope, Auth/Authorize, Auth/Exchange: scopes, the checks on a subject and `exchange_token`
--     (diracx-logic/src/diracx/logic/auth/utils.py and token.py).
--   Auth/Token: the token endpoint with its three grants, and Auth/Flows: the device flow, the authorization
--     code flow and the management of refresh tokens (device_flow.py, authorize_code_flow.py, management.py).
--   Auth/Routes: the requests as data, `serve` for one request in its transaction
--     (diracx-db/src/diracx/db/sql/utils/base.py), and what sequences of requests keep.
-- Sandbox: the sandbox store.
--   Sandbox/Db, Sandbox/Mapping, Sandbox/Cleanup: `SandboxMetadataDB`
--     (diracx-db/src/diracx/db/sql/sandbox_metadata/db.py).
--   Sandbox/Store: diracx-logic/src/diracx/logic/jobs/sandboxes.py, with the retry loop of
--     diracx-core/src/diracx/core/s3.py; Sandbox/Requests: the requests and what they keep.
-- Access: `WMSAccessPolicy` and `SandboxAccessPolicy`
--   (diracx-routers/src/diracx/routers/jobs/access_policies.py).
-- Properties: expressions of security properties (diracx-core/src/diracx/core/properties.py), with their meaning as
--   Boolean expressions in Properties/Meaning.
-- Jobs: the jobs.
--   Jobs/Db, Jobs/Commands, Jobs/Properties: the tables and the methods of `JobDB` (diracx-db/src/diracx/db/sql/job/schema.py and db.py);
--     Jobs/View, Jobs/Refinement, Jobs/Statements: the attributes as a function, which the statements refine;
--     Jobs/Delivery: the commands over sequences of requests.
--   Jobs/Wms: the databases that the logic works on; Jobs/Updates, Jobs/Status, Jobs/Applied, Jobs/Partition: `set_job_statuses`;
--     Jobs/Parameters: `set_job_parameters_or_attributes` and `add_heartbeat`; Jobs/Removal: `remove_jobs`; Jobs/Jdl, Jobs/Reschedule, Jobs/Limit: `reschedule_jobs`
--     (diracx-logic/src/diracx/logic/jobs/status.py and utils.py).
-- Search: the search of jobs.
--   Search/Times, Search/Filters: the filters of diracx-db/src/diracx/db/sql/utils/base.py; Search/Query: `_search`, and
--     `search` of diracx-logic/src/diracx/logic/jobs/query.py; Search/Rows, Search/OwnJobs: whose jobs it shows.
-- TaskQueue: the task queues.
--   TaskQueue/Db: `TaskQueueDB` (diracx-db/src/diracx/db/sql/task_queue/schema.py and db.py).
--   TaskQueue/Dicts, TaskQueue/Shares, TaskQueue/Recalculate: the priorities
--     (diracx-logic/src/diracx/logic/task_queues/priority.py) and `remove_jobs_from_task_queue` (status.py), with their
--     bounds in TaskQueue/Bounds, the grouping in TaskQueue/Grouping, and TaskQueue/Removal.
-- Columns: `SmarterDateTime` (diracx-db/src/diracx/db/sql/utils/types.py).
-- JobLogging: `JobLoggingDB` (diracx-db/src/diracx/db/sql/job_logging/db.py), its numbering and its histories.
-- Utils: `batched_async` and `TwoLevelCache` (diracx-core/src/diracx/core/utils.py). The cache is a state machine for one key:
--   a step is what a thread does under the key's lock, or the expiry of an entry.
-- Config: the parts of the configuration that the code above reads.
-- Prelude: texts, lists, SQL statements over tables (a table is the list of its rows), coroutines over a state
--   that return or raise, and the rules for their invariants.
--
-- A method of a database is an action of a session: it returns a value or raises an exception, and the
-- session comes back either way. A session has the tables as the connection shows them and as they were committed
-- last; a route that returns commits, one that raises is rolled back, and an explicit commit stays. Exceptions are
-- constructors without their messages. A Python set is a list without repetitions, times are in seconds.
--
-- Other packages are parameters: the hash of a code, the PKCE transformation, the time in a UUID and the
-- decoding of a JWT (`Crypto`), the clock and fresh identifiers (`Call`), the draws of `secrets` (`Secrets`), the IAM
-- and its cipher (`Iam`), and the S3 client (`S3Client`). Nothing is assumed of them. In particular hashes may
-- collide: the results on codes are about the codes with one hash. The JDLs and the rules of statuses of DIRACCommon
-- (`Jdls`, `StatusUtility`) are parameters without assumptions too, and the calls of the database of parameters are
-- recorded. Floating-point numbers (`Float`) are a parameter whose laws, an order and sums without NaN, are assumed
-- where a result says so; time zones (`Clocks`) are one, and the zone of storage is assumed to have no reading of a
-- clock that stands for two points in time. What the database does with texts (`Sql`, and LIKE in `Server`) is a parameter without assumptions. A clock that the code reads once for each job is a function of the job.
--
-- Loops are structural recursion over their lists. The retry loops run for the five attempts of the source, and `decimal`
-- has one step more than the number, which is more than its digits.
--
-- Not modelled: concurrent transactions (the requests are served one after the other, as the row locks of
-- `with_for_update` order them), the signatures of tokens, partitions and other storage details, the HTTP layer, the
-- clients, the submission of jobs, whose work is done by DIRACCommon, and the OpenSearch database.
pub mod Prelude
pub mod Config
pub mod Auth
pub mod Sandbox
pub mod TaskQueue
pub mod Jobs
pub mod Search
pub mod Access
pub mod Properties
pub mod JobLogging
pub mod Utils
pub mod Columns
