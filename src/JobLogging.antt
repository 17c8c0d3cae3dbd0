-- ===== src/JobLogging.antt =====
-- The logging database of the jobs: `JobLoggingDB` (diracx-db/src/diracx/db/sql/job_logging/db.py). Times are in seconds.
pub mod Numbering
pub mod History
mod Tests
use Prim.Native.String
use diracx.Prelude.{
  ℕ, zero, suc, ◌+◌, String, Bool, true, false, not, ◌&&◌, ◌||◌, Option, none, some, List, [], ◌∷◌,
  ◌++◌, ◌==◌, nat_eq, ltb, leb, any, all, mem, map, if◌then◌else◌,
}
use diracx.Prelude.Table.{select, delete, exists}
use diracx.Prelude.Outcome.{
  integrity_error, statement_error, validation_error, Outcome, returns, raises, Action, Result, ok,
  err,
}

-- what is to be logged
pub record JobLoggingRecord : Type 0 where
  pub job_id : ℕ
  pub status : String
  pub minor_status : String
  pub application_status : String
  pub date : ℕ
  pub source : String

pub record LoggingInfo : Type 0 where
  pub job_id : ℕ
  pub seq_num : ℕ
  pub status : String
  pub minor_status : String
  pub application_status : String
  pub status_time : ℕ
  pub status_time_order : ℕ
  pub source : String

-- `s[:n]`
unfoldable pub prefix : ℕ → String → String
prefix zero s = ""
prefix (suc n) String.[] = ""
prefix (suc n) (String.◌∷◌ c s) = String.◌∷◌ c (prefix n s)

-- `coalesce(max(SeqNum) + 1, 1)` over the rows of a job, and 1 for a job without rows
unfoldable pub next_seq : List LoggingInfo → ℕ → ℕ
next_seq [] job_id = 1
next_seq (r ∷ rows) job_id =
    let n = next_seq rows job_id in
    if nat_eq r.job_id job_id && leb n r.seq_num then r.seq_num + 1 else n

-- `seqnums[job_id] = seqnums[job_id] + 1`
abbrev pub bump : ℕ → (ℕ → ℕ) → ℕ → ℕ
bump job_id seqnums j = if nat_eq j job_id then seqnums j + 1 else seqnums j

unfoldable pub row_of : ℕ → JobLoggingRecord → LoggingInfo
unfolding prefix
row_of seq_num r = record {
  job_id = r.job_id;
  seq_num = seq_num;
  status = r.status;
  minor_status = r.minor_status;
  application_status = prefix 255 r.application_status;
  status_time = r.date;
  status_time_order = r.date;
  source = prefix 32 r.source;
}

-- the values of the insertion
unfoldable pub values : (ℕ → ℕ) → List JobLoggingRecord → List LoggingInfo
unfolding row_of
values seqnums [] = []
values seqnums (r ∷ records) = row_of (seqnums r.job_id) r ∷ values (bump r.job_id seqnums) records

abbrev pub is_key : ℕ → ℕ → LoggingInfo → Bool
is_key job_id seq_num r = nat_eq r.job_id job_id && nat_eq r.seq_num seq_num

-- the insertion, with the primary key of the table
unfoldable pub insert_rows : List LoggingInfo → Action (List LoggingInfo) (Unit {0})
insert_rows [] s = returns tt s
insert_rows (v ∷ vs) s =
    let rest = insert_rows vs (s ++ v ∷ []) in
    if exists (is_key v.job_id v.seq_num) s then raises integrity_error s else rest

-- Without records the statement has no value for the key, and the database refuses it.
unfoldable pub insert_records : List JobLoggingRecord → Action (List LoggingInfo) (Unit {0})
unfolding next_seq values insert_rows
insert_records [] s = raises statement_error s
insert_records (r ∷ records) s = insert_rows (values (next_seq s) (r ∷ records)) s

pub record JobStatusReturn : Type 0 where
  pub status : String
  pub minor_status : String
  pub application_status : String
  pub status_time : ℕ
  pub source : String

-- `order_by(status_time_order, status_time)`
abbrev pub is_before : LoggingInfo → LoggingInfo → Bool
is_before r s =
    ltb r.status_time_order s.status_time_order
    || nat_eq r.status_time_order s.status_time_order && ltb r.status_time s.status_time

unfoldable pub insert_ordered : LoggingInfo → List LoggingInfo → List LoggingInfo
insert_ordered r [] = r ∷ []
insert_ordered r (s ∷ rows) =
    let rest = insert_ordered r rows in if is_before s r then s ∷ rest else r ∷ s ∷ rows

unfoldable pub order_rows : List LoggingInfo → List LoggingInfo
unfolding insert_ordered
order_rows [] = []
order_rows (r ∷ rows) = insert_ordered r (order_rows rows)

abbrev pub as_return : LoggingInfo → JobStatusReturn
as_return r = record {
  status = r.status;
  minor_status = r.minor_status;
  application_status = r.application_status;
  status_time = r.status_time;
  source = r.source;
}

abbrev pub replace_idem : String → String → String
replace_idem previous s = if s == "idem" then previous else s

-- the entry of a history after another
abbrev pub fill_from : JobStatusReturn → JobStatusReturn → JobStatusReturn
fill_from previous r = record r {
  status = replace_idem previous.status r.status;
  minor_status = replace_idem previous.minor_status r.minor_status;
  application_status = replace_idem previous.application_status r.application_status;
}

unfoldable pub fill_idem : JobStatusReturn → List JobStatusReturn → List JobStatusReturn
fill_idem previous [] = []
fill_idem previous (r ∷ history) = fill_from previous r ∷ fill_idem (fill_from previous r) history

abbrev pub fill_first : JobStatusReturn → JobStatusReturn
fill_first r = record r { application_status = replace_idem "Unknown" r.application_status }

unfoldable pub fill_history : List JobStatusReturn → List JobStatusReturn
unfolding fill_idem
fill_history [] = []
fill_history (r ∷ history) = fill_first r ∷ fill_idem (fill_first r) history

abbrev pub is_of : List ℕ → ℕ → LoggingInfo → Bool
is_of job_ids job_id r = any (λ i. nat_eq i r.job_id) job_ids && nat_eq r.job_id job_id

-- the values of `JobStatus`
abbrev pub job_statuses : List String
job_statuses =
    "Submitting" ∷ "Received" ∷ "Checking" ∷ "Staging" ∷ "Waiting" ∷ "Matched" ∷ "Running"
    ∷ "Stalled" ∷ "Completing" ∷ "Done" ∷ "Completed" ∷ "Failed" ∷ "Deleted" ∷ "Killed"
    ∷ "Rescheduled" ∷ []

-- the validation of the field `Status`
abbrev pub has_job_status : JobStatusReturn → Bool
has_job_status r = mem r.status job_statuses

-- the entries of a job before their validation, none for a job without rows
unfoldable pub history_of : List ℕ → List LoggingInfo → ℕ → List JobStatusReturn
unfolding order_rows fill_history
history_of job_ids s job_id =
    fill_history (map as_return (order_rows (select (is_of job_ids job_id) s)))

-- The result as a function of the job. One entry that `JobStatusReturn` does not take, a first status of `idem`
-- for instance, raises for all the jobs.
unfoldable pub get_records : List ℕ → List LoggingInfo → Result (ℕ → List JobStatusReturn)
unfolding history_of
get_records job_ids s =
    if all (λ i. all has_job_status (history_of job_ids s i)) job_ids
    then ok (history_of job_ids s)
    else err validation_error

unfoldable pub delete_records : List ℕ → Action (List LoggingInfo) (Unit {0})
delete_records job_ids s = returns tt (delete (λ r. any (λ i. nat_eq i r.job_id) job_ids) s)

-- `result[job_id][event] = etime`: the last row of the job with the status
unfoldable pub get_wms_time_stamps : List ℕ → List LoggingInfo → ℕ → String → Option ℕ
get_wms_time_stamps job_ids [] job_id event = none
get_wms_time_stamps job_ids (r ∷ s) job_id event =
    elim (get_wms_time_stamps job_ids s job_id event) [
      | some later ↦ some later
      | none ↦
          if is_of job_ids job_id r && r.status == event then some r.status_time_order else none
    ]
