-- ===== src/Jobs/Db.antt =====
-- The tables of schema.py and the methods of `JobDB` that write jobs, JDLs and attributes
-- (diracx-db/src/diracx/db/sql/job). Times are in seconds; a list of pairs stands for a `dict`.
use diracx.Prelude.{
  ℕ, ◌+◌, String, Bool, false, not, ◌&&◌, Option, none, some, List, [], ◌∷◌, ◌++◌, ◌==◌, nat_eq,
  map, is_in, all, any, is_empty, mem, lookup, has_key, if◌then◌else◌,
}
use diracx.Prelude.Table.{select, update, delete, exists}
use diracx.Prelude.Outcome.{
  value_error, key_error, integrity_error, statement_error, returns, raises, Action, query,
}

-- the value of a column
pub data ColumnValue : Type 0 where
  null : ColumnValue
  text : String → ColumnValue
  number time : ℕ → ColumnValue
  flag : Bool → ColumnValue

abbrev pub Attributes : Type 0
Attributes = List (String × ColumnValue)

pub record JobJdl : Type 0 where
  pub job_id : ℕ
  pub jdl : String
  pub job_requirements : String
  pub original_jdl : String

-- a row of `Jobs`: the identifier and the other columns by their names
pub record JobRow : Type 0 where
  pub job_id : ℕ
  pub columns : String → ColumnValue

pub record InputFile : Type 0 where
  pub job_id : ℕ
  pub lfn : String

pub record HeartBeat : Type 0 where
  pub job_id : ℕ
  pub name : String
  pub value : String
  pub heart_beat_time : ℕ

pub record Command : Type 0 where
  pub job_id : ℕ
  pub command : String
  pub arguments : String
  pub status : String
  pub reception_time : ℕ

-- The tables, and the next identifier of a job.
pub record JobDb : Type 0 where
  pub jdls : List JobJdl
  pub jobs : List JobRow
  pub input_data : List InputFile
  pub heart_beats : List HeartBeat
  pub commands : List Command
  pub next_job_id : ℕ

abbrev pub is_job : ℕ → JobRow → Bool
is_job job_id r = nat_eq r.job_id job_id

-- the columns of `Jobs` other than the identifier
abbrev pub job_columns : List String
job_columns =
    "JobType" ∷ "JobGroup" ∷ "Site" ∷ "JobName" ∷ "Owner" ∷ "OwnerGroup" ∷ "VO" ∷ "SubmissionTime"
    ∷ "RescheduleTime" ∷ "LastUpdateTime" ∷ "StartExecTime" ∷ "HeartBeatTime" ∷ "EndExecTime"
    ∷ "Status" ∷ "MinorStatus" ∷ "ApplicationStatus" ∷ "UserPriority" ∷ "RescheduleCounter"
    ∷ "VerifiedFlag" ∷ "AccountedFlag" ∷ []

abbrev pub column_defaults : Attributes
column_defaults =
    ("JobType", text "user")
    ∷ ("JobGroup", text "00000000")
    ∷ ("Site", text "ANY")
    ∷ ("JobName", text "Unknown")
    ∷ ("Owner", text "Unknown")
    ∷ ("OwnerGroup", text "Unknown")
    ∷ ("Status", text "Received")
    ∷ ("MinorStatus", text "Unknown")
    ∷ ("ApplicationStatus", text "Unknown")
    ∷ ("UserPriority", number 0)
    ∷ ("RescheduleCounter", number 0)
    ∷ ("VerifiedFlag", flag false)
    ∷ ("AccountedFlag", flag false)
    ∷ []

-- the value of a column in an insertion, with the default of the schema
abbrev pub value_or_default : Attributes → String → ColumnValue
value_or_default attrs column = elim (lookup column attrs) [
  | some v ↦ v
  | none ↦ elim (lookup column column_defaults) [ some v ↦ v | none ↦ null ]
]

unfoldable pub create_job : String → Action JobDb ℕ
create_job compressed_original_jdl s = returns s.next_job_id (record s {
  jdls =
      s.jdls
      ++ record {
        job_id = s.next_job_id;
        jdl = "";
        job_requirements = "";
        original_jdl = compressed_original_jdl;
      }
        ∷ [];
  next_job_id = s.next_job_id + 1;
})

-- the JDLs, and by `ondelete="CASCADE"` the jobs and what belongs to them
unfoldable pub delete_jobs : List ℕ → Action JobDb (Unit {0})
delete_jobs job_ids s = returns tt (record s {
  jdls = delete (λ (r : JobJdl). is_in job_ids r.job_id) s.jdls;
  jobs = delete (λ (r : JobRow). is_in job_ids r.job_id) s.jobs;
  input_data = delete (λ (r : InputFile). is_in job_ids r.job_id) s.input_data;
  heart_beats = delete (λ (r : HeartBeat). is_in job_ids r.job_id) s.heart_beats;
  commands = delete (λ (r : Command). is_in job_ids r.job_id) s.commands;
})

abbrev pub has_jdl : ℕ → JobDb → Bool
has_jdl job_id s = exists (λ (r : JobJdl). nat_eq r.job_id job_id) s.jdls

abbrev pub has_job : ℕ → JobDb → Bool
has_job job_id s = exists (is_job job_id) s.jobs

-- The insertion of a job: its identifier is that of a JDL and not yet of a job, and the VO, which has
-- no default, is given.
abbrev pub may_insert : ℕ → Attributes → JobDb → Bool
may_insert job_id attrs s = has_jdl job_id s && not (has_job job_id s) && has_key "VO" attrs

abbrev pub job_of : ℕ → Attributes → JobRow
job_of job_id attrs = record { job_id = job_id; columns = value_or_default attrs }

unfoldable pub insert_jobs : List (ℕ × Attributes) → Action JobDb (Unit {0})
insert_jobs [] s = returns tt s
insert_jobs ((job_id, attrs) ∷ jobs_to_update) s =
    let rest =
      insert_jobs jobs_to_update (record s { jobs = s.jobs ++ job_of job_id attrs ∷ [] }) in
    if may_insert job_id attrs s then rest else raises integrity_error s

abbrev pub names_of : Attributes → List String
names_of attrs = map (λ x. x.0) attrs

-- the values of the columns, if all are given
unfoldable pub bind : List String → Attributes → Option Attributes
bind [] attrs = some []
bind (column ∷ columns) attrs = elim (lookup column attrs) [
  | none ↦ none
  | some v ↦ elim (bind columns attrs) [ none ↦ none | some bound ↦ some ((column, v) ∷ bound) ]
]

unfoldable pub bind_all : List String → List (ℕ × Attributes) → Option (List (ℕ × Attributes))
unfolding bind
bind_all columns [] = some []
bind_all columns ((job_id, attrs) ∷ jobs_to_update) = elim (bind columns attrs) [
  | none ↦ none
  | some bound ↦ elim (bind_all columns jobs_to_update) [
    | none ↦ none
    | some rest ↦ some ((job_id, bound) ∷ rest)
  ]
]

-- One statement for all the jobs, which has the columns of the first: another job must give all of these, and what it
-- gives beyond them is not inserted. The names are columns of the table other than the identifier.
unfoldable pub insert_job_attributes : List (ℕ × Attributes) → Action JobDb (Unit {0})
unfolding bind_all insert_jobs
insert_job_attributes [] s = raises statement_error s
insert_job_attributes (d ∷ jobs_to_update) s = elim (bind_all (names_of d.1) (d ∷ jobs_to_update)) [
  | none ↦ raises statement_error s
  | some parameters ↦
      if all (λ column. mem column job_columns) (names_of d.1)
      then insert_jobs parameters s
      else raises statement_error s
]

abbrev pub has_file : ℕ → String → JobDb → Bool
has_file job_id lfn s =
    exists (λ (r : InputFile). nat_eq r.job_id job_id && r.lfn == lfn) s.input_data

-- the pairs of a job and a file
unfoldable pub insert_files : List (ℕ × String) → Action JobDb (Unit {0})
insert_files [] s = returns tt s
insert_files ((job_id, lfn) ∷ files) s =
    let rest =
      insert_files files
        (record s { input_data = s.input_data ++ record { job_id = job_id; lfn = lfn } ∷ [] }) in
    if has_job job_id s && not (has_file job_id lfn s) then rest else raises integrity_error s

abbrev pub pairs_of : ℕ → List String → List (ℕ × String)
pairs_of job_id lfns = map (λ lfn. (job_id, lfn)) lfns

abbrev pub file_pairs : List (ℕ × List String) → List (ℕ × String)
file_pairs [] = []
file_pairs ((job_id, lfns_) ∷ lfns) = pairs_of job_id lfns_ ++ file_pairs lfns

-- without files the statement has no value for the key
unfoldable pub insert_given : List (ℕ × String) → Action JobDb (Unit {0})
unfolding insert_files
insert_given [] s = raises statement_error s
insert_given (x ∷ files) s = insert_files (x ∷ files) s

unfoldable pub insert_input_data : List (ℕ × List String) → Action JobDb (Unit {0})
unfolding insert_given
insert_input_data lfns = insert_given (file_pairs lfns)

abbrev pub with_jdl : String → JobJdl → JobJdl
with_jdl compressed_jdl r = record r { jdl = compressed_jdl }

abbrev pub update_jdls : List (ℕ × String) → List JobJdl → List JobJdl
update_jdls [] jdls = jdls
update_jdls ((job_id, jdl) ∷ jdls_to_update) jdls =
    update_jdls jdls_to_update (update (λ (r : JobJdl). nat_eq r.job_id job_id) (with_jdl jdl) jdls)

-- One statement for each JDL that is given; without one the parameters of the statement have no values.
unfoldable pub update_job_jdls : List (ℕ × String) → Action JobDb (Unit {0})
unfolding update
update_job_jdls [] s = raises statement_error s
update_job_jdls (x ∷ jdls_to_update) s =
    returns tt (record s { jdls = update_jdls (x ∷ jdls_to_update) s.jdls })

-- `if "Status" in job_data[job_id]`: the time of the last update
abbrev pub stamp : ℕ → Attributes → Attributes
stamp now attrs = if has_key "Status" attrs then ("LastUpdateTime", time now) ∷ attrs else attrs

abbrev pub stamp_all : ℕ → List (ℕ × Attributes) → List (ℕ × Attributes)
stamp_all now [] = []
stamp_all now ((job_id, attrs) ∷ job_data) = (job_id, stamp now attrs) ∷ stamp_all now job_data

-- the names of `columns`; an identifier among the attributes is that of the job
abbrev pub has_known_columns : List (ℕ × Attributes) → Bool
has_known_columns = all (λ (d : ℕ × Attributes).
    all (λ (x : String × ColumnValue). mem x.0 ("JobID" ∷ job_columns)) d.1)

-- the `case` of a column: the first of the jobs that is this one and has the column, or the original value
abbrev pub case_of : List (ℕ × Attributes) → ℕ → String → ColumnValue → ColumnValue
case_of [] job_id column original = original
case_of ((j, attrs) ∷ job_data) job_id column original =
    let rest = case_of job_data job_id column original in
    if nat_eq j job_id then elim (lookup column attrs) [ some v ↦ v | none ↦ rest ] else rest

abbrev pub set_columns : List (ℕ × Attributes) → JobRow → JobRow
set_columns job_data r = record r {
  columns = λ column. case_of job_data r.job_id column (r.columns column);
}

abbrev pub job_keys : {A : Type 0} → List (ℕ × A) → List ℕ
job_keys d = map (λ x. x.0) d

abbrev pub update_jobs : List (ℕ × Attributes) → JobDb → JobDb
update_jobs job_data s = record s {
  jobs = update (λ (r : JobRow). is_in (job_keys job_data) r.job_id) (set_columns job_data) s.jobs;
}

-- some job has an attribute to set
abbrev pub has_columns : List (ℕ × Attributes) → Bool
has_columns = any (λ (d : ℕ × Attributes). not (is_empty d.1))

-- without attributes the statement has no values
unfoldable pub set_job_attributes : ℕ → List (ℕ × Attributes) → Action JobDb (Unit {0})
unfolding update
set_job_attributes now [] s = raises value_error s
set_job_attributes now (d ∷ job_data) s =
    if not (has_known_columns (d ∷ job_data))
    then raises key_error s
    else if has_columns (d ∷ job_data)
    then returns tt (update_jobs (stamp_all now (d ∷ job_data)) s)
    else raises statement_error s

-- the JDLs of the jobs that are not empty
unfoldable pub get_job_jdls : List ℕ → Bool → Action JobDb (List (ℕ × String))
unfolding select
get_job_jdls job_ids original = query λ s.
    select (λ (x : ℕ × String). not (x.1 == ""))
      (map (λ (r : JobJdl). (r.job_id, if original then r.original_jdl else r.jdl))
        (select (λ (r : JobJdl). is_in job_ids r.job_id) s.jdls))
