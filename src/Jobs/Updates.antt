-- ===== src/Jobs/Updates.antt =====
-- What the status updates of one job come to, in `set_job_statuses` (diracx-logic/src/diracx/logic/jobs/status.py).
use diracx.Prelude.{
  ℕ, String, Bool, Option, none, some, List, [], ◌∷◌, ◌==◌, nat_eq, ltb, leb, if◌then◌else◌,
}
use diracx.Prelude.Outcome.{key_error, index_error, Result, ok, err}
use diracx.Prelude.Result.{get_or, ◌>>=◌}
use diracx.JobLogging.{LoggingInfo}
use diracx.Jobs.Db.{ColumnValue, text, time, JobRow}
use diracx.Jobs.Wms.{StatusUpdate, NewStatus, StatusUtility}

-- `d[key] = value`
abbrev pub set_event : String → ℕ → List (String × ℕ) → List (String × ℕ)
set_event event etime [] = (event, etime) ∷ []
set_event event etime ((e, t) ∷ stamps) =
    let rest = set_event event etime stamps in
    if e == event then (e, etime) ∷ stamps else (e, t) ∷ rest

-- `wms_time_stamps[job_id]`, empty for a job that is no key
abbrev pub collect_stamps : ℕ → List (String × ℕ) → List LoggingInfo → List (String × ℕ)
collect_stamps job_id stamps [] = stamps
collect_stamps job_id stamps (r ∷ rows) =
    let here = collect_stamps job_id (set_event r.status r.status_time_order stamps) rows in
    let past = collect_stamps job_id stamps rows in if nat_eq r.job_id job_id then here else past

-- the first event with the least time, from one on
abbrev pub first_event : String × ℕ → List (String × ℕ) → String
first_event x [] = x.0
first_event x (y ∷ stamps) =
    let here = first_event y stamps in
    let past = first_event x stamps in if ltb y.1 x.1 then here else past

-- the greatest time
abbrev pub last_event : ℕ → List (String × ℕ) → ℕ
last_event n [] = n
last_event n (x ∷ stamps) =
    let here = last_event x.1 stamps in
    let past = last_event n stamps in if ltb n x.1 then here else past

abbrev pub insert_update : StatusUpdate → List StatusUpdate → List StatusUpdate
insert_update u [] = u ∷ []
insert_update u (v ∷ updates) =
    let rest = insert_update u updates in if ltb v.at u.at then v ∷ rest else u ∷ v ∷ updates

-- `sorted(status_dict)`, with the updates
unfoldable pub sort_updates : List StatusUpdate → List StatusUpdate
sort_updates [] = []
sort_updates (u ∷ updates) = insert_update u (sort_updates updates)

-- `update_times[-1]`
abbrev pub latest : List StatusUpdate → Option StatusUpdate
latest [] = none
latest (u ∷ []) = some u
latest (u ∷ v ∷ updates) = latest (v ∷ updates)

abbrev pub text_of : ColumnValue → String
text_of (text s) = s
text_of _ = ""

abbrev pub time_of : ColumnValue → Option ℕ
time_of (time t) = some t
time_of _ = none

-- `if current_status == JobStatus.STALLED`
abbrev pub current_status : JobRow → String
current_status r =
    let status = text_of (r.columns "Status") in if status == "Stalled" then "Running" else status

-- What the updates of a job come to: the new status, unless a later one is known, and the times of the
-- start and the end.
pub record Decision : Type 0 where
  pub new : Option NewStatus
  pub start_time : Option ℕ
  pub end_time : Option ℕ

unfoldable pub decide :
    StatusUtility → Bool → List (String × ℕ) → List StatusUpdate → JobRow → Result Decision
decide dirac force [] updates r = err key_error
decide dirac force (stamp ∷ stamps) updates r =
    let last_time = last_event stamp.1 stamps in
    let times =
      dirac.get_start_and_end_time (time_of (r.columns "StartExecTime"))
        (time_of (r.columns "EndExecTime")) updates (first_event stamp stamps) in
    do
      update ← get_or index_error (latest updates)
      new ←
          if leb last_time update.at
          then (dirac.get_new_status r.job_id updates last_time (current_status r) force >>= λ new.
              ok (some new))
          else ok none
      ok record { new = new; start_time = times.0; end_time = times.1 }
