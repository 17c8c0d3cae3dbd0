-- ===== src/Jobs/Reschedule.antt =====
-- `reschedule_jobs` (diracx-logic/src/diracx/logic/jobs/status.py).
use diracx.Prelude.{
  ℕ, ◌+◌, String, Bool, true, false, not, Option, none, some, List, [], ◌∷◌, ◌++◌, map, is_in, ltb,
  lookup, if◌then◌else◌,
}
use diracx.Prelude.Text.{decimal}
use diracx.Prelude.Table.{select}
use diracx.Prelude.Outcome.{key_error, Action, pure, query, get_or_raise, ◌>>=◌, ◌>>◌}
use diracx.Prelude.Floats.{Float}
use diracx.Config.{Config, OperationsConfig}
use diracx.TaskQueue.Dicts.{find}
use diracx.Jobs.Db.{
  ColumnValue, text, number, time, flag, Attributes, JobRow, get_job_jdls, update_job_jdls,
}
use diracx.Jobs.Wms.{Wms, on_jobs, StatusUpdate, StatusUtility}
use diracx.Jobs.Updates.{text_of}
use diracx.Jobs.Status.{StatusChanges, set_job_statuses, additional_of}
use diracx.Jobs.Jdl.{Candidate, Jdls, with_brackets, replace_id, check_and_prepare_job}

-- a job that may be rescheduled, with its new counter
pub record Survivor : Type 0 where
  pub row : JobRow
  pub counter : ℕ

-- what the two loops collect
pub record Rescheduling (C : Type 0) : Type 0 where
  pub failed : List ℕ
  pub status_changes : List (ℕ × List StatusUpdate)
  pub attribute_changes : List (ℕ × Attributes)
  pub jdl_changes : List (ℕ × String)
  pub class_ads : List (ℕ × C)
  pub survivors : List Survivor

abbrev pub is_verified : JobRow → Bool
is_verified r = elim (r.columns "VerifiedFlag") [ flag b ↦ b | _ ↦ false ]

abbrev pub number_of : ColumnValue → ℕ
number_of (number n) = n
number_of _ = 0

abbrev pub new_counter : Bool → JobRow → ℕ
new_counter reset_jobs r = if reset_jobs then 0 else number_of (r.columns "RescheduleCounter") + 1

abbrev pub status_update : ℕ → String → String → List StatusUpdate
status_update now status minor_status =
    record {
      at = now;
      aware = true;
      status = some status;
      minor_status = some minor_status;
      application_status = some "Unknown";
      source = "Unknown";
    }
    ∷ []

-- `"ANY"`, `"Multiple"` or the only site
abbrev pub site_of : List String → String
site_of [] = "ANY"
site_of (s ∷ []) = s
site_of (_ ∷ _ ∷ _) = "Multiple"

abbrev pub or_zero : Option ℕ → ℕ
or_zero none = 0
or_zero (some n) = n

abbrev pub candidate_of : Survivor → Candidate
candidate_of x = record {
  job_id = x.row.job_id;
  owner = text_of (x.row.columns "Owner");
  owner_group = text_of (x.row.columns "OwnerGroup");
  vo = text_of (x.row.columns "VO");
  attributes = ("RescheduleCounter", number x.counter) ∷ [];
}

-- an entry of the answer: the JDL, and the attributes that are set
pub record Rescheduled : Type 0 where
  pub job_id : ℕ
  pub input_data : Option String
  pub attributes : Attributes
  pub status : Attributes

pub record RescheduleReturn : Type 0 where
  pub failed : List ℕ
  pub success : List Rescheduled

module _ {C : Type 0} where
  abbrev pub nothing : Rescheduling C
  nothing = record {
    failed = [];
    status_changes = [];
    attribute_changes = [];
    jdl_changes = [];
    class_ads = [];
    survivors = [];
  }

  abbrev pub fail : ℕ → Rescheduling C → Rescheduling C
  fail job_id x = record x { failed = x.failed ++ job_id ∷ [] }

  abbrev pub survive : JobRow → ℕ → Rescheduling C → Rescheduling C
  survive r counter x = record x {
    survivors = x.survivors ++ record { row = r; counter = counter } ∷ [];
  }

  abbrev pub changes_of : Rescheduling C → StatusChanges
  changes_of x = record {
    changes = x.status_changes;
    additional_attributes = x.attribute_changes;
    force = false;
  }

  -- `if not results` all the jobs have failed
  abbrev pub not_found : List ℕ → List JobRow → Rescheduling C
  not_found job_ids [] = record nothing { failed = job_ids }
  not_found job_ids (_ ∷ _) = nothing

  abbrev pub give_up : (ℕ → ℕ) → ℕ → Rescheduling C → Rescheduling C
  give_up clock job_id x = record x {
    failed = x.failed ++ job_id ∷ [];
    status_changes =
        x.status_changes
        ++ (job_id, status_update (clock job_id) "Failed" "Maximum of reschedulings reached") ∷ [];
  }

module _ {C : Type 0} (jdls : Jdls C) where
  abbrev pub class_ad_of : ℕ → String → C
  class_ad_of job_id jdl =
      jdls.insert_attribute_int "JobID" job_id
        (jdls.class_ad (with_brackets (jdls.extract_jdl jdl)))

  abbrev pub class_ads_of : List (ℕ × String) → List (ℕ × C)
  class_ads_of [] = []
  class_ads_of ((job_id, jdl) ∷ d) = (job_id, class_ad_of job_id jdl) ∷ class_ads_of d

  abbrev pub rescheduled_entry : Rescheduling C → ℕ × Attributes → Rescheduled
  rescheduled_entry x (job_id, status) = record {
    job_id = job_id;
    input_data = elim (find job_id x.class_ads) [ none ↦ none | some ad ↦ some (jdls.as_jdl ad) ];
    attributes = additional_of x.attribute_changes job_id;
    status = status;
  }

  -- the new JDL, status and attributes of a job that is prepared
  abbrev pub accept : (ℕ → ℕ) → Survivor → C × C → Rescheduling C → Rescheduling C
  accept clock r (job, req) x =
      let i = r.row.job_id in
      let job_jdl = jdls.insert_attribute_jdl "JobRequirements" (jdls.as_jdl req) job in
      record x {
        class_ads = (i, job_jdl) ∷ x.class_ads;
        jdl_changes =
            x.jdl_changes
            ++ (i, jdls.compress_jdl (replace_id (decimal i) (jdls.as_jdl job_jdl))) ∷ [];
        status_changes =
            x.status_changes ++ (i, status_update (clock i) "Received" "Job Rescheduled") ∷ [];
        attribute_changes =
            x.attribute_changes
            ++ (
              i,
              ("Site", text (site_of (jdls.get_list_from_expression "Site" job)))
                  ∷ ("UserPriority", number (or_zero (jdls.get_attribute_int "Priority" job)))
                  ∷ ("RescheduleTime", time (clock i))
                  ∷ ("RescheduleCounter", number r.counter)
                  ∷ [],
            )
              ∷ [];
      }

  abbrev pub accept_or_fail : (ℕ → ℕ) → Survivor → Rescheduling C → Option (C × C) → Rescheduling C
  accept_or_fail clock r x none = fail r.row.job_id x
  accept_or_fail clock r x (some ads) = accept clock r ads x

module _ {W C : Type 0} ⦃f : Float W⦄ (dirac : StatusUtility) (jdls : Jdls C) (config : Config)
    (operations : List (String × OperationsConfig)) (clock : ℕ → ℕ) where
  -- the body of the first loop, from the counter on
  abbrev pub count_again : Bool → JobRow → Rescheduling C → Action (Wms W) (Rescheduling C)
  count_again reset_jobs r x = do
    ops ← get_or_raise key_error (lookup (text_of (r.columns "VO")) operations)
    pure (
        if ltb ops.max_rescheduling (new_counter reset_jobs r)
        then give_up clock r.job_id x
        else survive r (new_counter reset_jobs r) x)

  unfoldable pub triage : Bool → List JobRow → Rescheduling C → Action (Wms W) (Rescheduling C)
  triage reset_jobs [] x = pure x
  triage reset_jobs (r ∷ rows) x = do
    next ← if is_verified r then count_again reset_jobs r x else pure (fail r.job_id x)
    triage reset_jobs rows next

  -- the second loop
  unfoldable pub prepare : List Survivor → Rescheduling C → Action (Wms W) (Rescheduling C)
  prepare [] x = pure x
  prepare (r ∷ survivors) x = do
    ad ← get_or_raise key_error (find r.row.job_id x.class_ads)
    ads ← on_jobs (check_and_prepare_job jdls clock (candidate_of r) ad (jdls.class_ad "[]"))
    prepare survivors (accept_or_fail jdls clock r x ads)

  -- `if surviving_job_ids`
  unfoldable pub set_rescheduled : List Survivor → Rescheduling C → Action (Wms W) RescheduleReturn
  set_rescheduled [] x = pure record { failed = x.failed; success = [] }
  set_rescheduled (r ∷ survivors) x = do
    result ← set_job_statuses dirac config clock (changes_of x)
    on_jobs (update_job_jdls x.jdl_changes)
    pure record {
      failed = x.failed;
      success =
          map (rescheduled_entry jdls x)
            (select (λ (e : ℕ × Attributes). not (is_in x.failed e.0)) result.success);
    }

  -- from the first loop on
  unfoldable pub resume : Rescheduling C → Action (Wms W) RescheduleReturn
  unfolding prepare set_rescheduled
  resume x = do
    found ← on_jobs (get_job_jdls (map (λ (r : Survivor). r.row.job_id) x.survivors) true)
    y ← prepare x.survivors (record x { class_ads = class_ads_of jdls found })
    set_rescheduled x.survivors y

  unfoldable pub reschedule_jobs : List ℕ → Bool → Action (Wms W) RescheduleReturn
  unfolding triage resume
  reschedule_jobs job_ids reset_jobs = do
    rows ← query (λ (s : Wms W). select (λ (r : JobRow). is_in job_ids r.job_id) s.jobs.jobs)
    x ← triage reset_jobs rows (not_found job_ids rows)
    resume x
