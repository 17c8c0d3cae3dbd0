-- ===== src/Access/Jobs.antt =====
-- `WMSAccessPolicy` (diracx-routers/src/diracx/routers/jobs/access_policies.py), with the summary of the jobs that it
-- reads (`_summary` of diracx-db/src/diracx/db/sql/utils/base.py).
use diracx.Prelude.{
  ℕ, ◌+◌, String, Bool, true, false, ◌&&◌, ◌||◌, Option, none, some, List, [], ◌∷◌, ◌==◌, nat_eq,
  mem, length, if◌then◌else◌,
}
use diracx.Prelude.Table.{select}
use diracx.Prelude.Outcome.{assertion_error, not_implemented_error, http_forbidden, Result, ok, err}
use diracx.Prelude.Result.{require, get_or, ◌>>=◌, ◌>>◌}

pub data ActionType : Type 0 where
  create read manage query pilot : ActionType

abbrev pub normal_user : String
normal_user = "NormalUser"

abbrev pub job_administrator : String
job_administrator = "JobAdministrator"

abbrev pub generic_pilot : String
generic_pilot = "GenericPilot"

-- what a policy reads of the user
pub record AuthorizedUserInfo : Type 0 where
  pub preferred_username : String
  pub dirac_group : String
  pub vo : String
  pub properties : List String

-- the columns of a job that the policy reads
pub record Job : Type 0 where
  pub job_id : ℕ
  pub owner : String
  pub vo : String

-- a row of a summary by owner and VO
pub record OwnerCount : Type 0 where
  pub owner : String
  pub vo : String
  pub count : ℕ

abbrev pub same_owner : Job → OwnerCount → Bool
same_owner job c = c.owner == job.owner && c.vo == job.vo

-- `group_by`, with `count`
unfoldable pub count_job : Job → List OwnerCount → List OwnerCount
count_job job [] = record { owner = job.owner; vo = job.vo; count = 1 } ∷ []
count_job job (c ∷ cs) =
    if same_owner job c then record c { count = c.count + 1 } ∷ cs else c ∷ count_job job cs

unfoldable pub group_by_owner : List Job → List OwnerCount
unfolding count_job
group_by_owner [] = []
group_by_owner (job ∷ jobs) = count_job job (group_by_owner jobs)

-- `x in xs`, for identifiers
abbrev pub mem_id : ℕ → List ℕ → Bool
mem_id x [] = false
mem_id x (y ∷ ys) = nat_eq y x || mem_id x ys

-- `set(job_ids)`
abbrev pub distinct_ids : List ℕ → List ℕ
distinct_ids [] = []
distinct_ids (x ∷ xs) = let rest = distinct_ids xs in if mem_id x rest then rest else x ∷ rest

unfoldable pub summary : List ℕ → List Job → List OwnerCount
unfolding group_by_owner
summary job_ids jobs = group_by_owner (select (λ (job : Job). mem_id job.job_id job_ids) jobs)

-- `job_owners == [expected_owner]`
abbrev pub is_expected : OwnerCount → List OwnerCount → Bool
is_expected e [] = false
is_expected e (_ ∷ _ ∷ _) = false
is_expected e (c ∷ []) = c.owner == e.owner && c.vo == e.vo && nat_eq c.count e.count

abbrev pub is_none : Option (List ℕ) → Bool
is_none none = true
is_none (some _) = false

module _ (user : AuthorizedUserInfo) (jobs : List Job) where
  unfoldable pub check_owned : Option (List ℕ) → Result (Unit {0})
  unfolding summary
  check_owned none = err not_implemented_error
  check_owned (some job_ids) =
      require
        (is_expected
          (record {
            owner = user.preferred_username;
            vo = user.vo;
            count = length (distinct_ids job_ids);
          })
          (summary job_ids jobs))
        http_forbidden

  -- what is left to check of a normal user
  unfoldable pub check_normal_user : ActionType → Option (List ℕ) → Result (Unit {0})
  unfolding check_owned
  check_normal_user query job_ids = require (is_none job_ids) not_implemented_error
  check_normal_user _ job_ids = check_owned job_ids

  abbrev pub is_manage : ActionType → Bool
  is_manage manage = true
  is_manage _ = false

  -- the actions, once a pilot's is mapped
  unfoldable pub check_action : ActionType → Option (List ℕ) → Result (Unit {0})
  unfolding check_normal_user
  check_action create job_ids = do
    require (is_none job_ids) not_implemented_error
    require (mem normal_user user.properties) http_forbidden
  check_action action job_ids =
      if mem generic_pilot user.properties && is_manage action
      then ok tt
      else if mem job_administrator user.properties
      then ok tt
      else if mem normal_user user.properties
      then check_normal_user action job_ids
      else err http_forbidden

  abbrev pub as_manage : ActionType → ActionType
  as_manage pilot = manage
  as_manage action = action

unfoldable pub policy :
    AuthorizedUserInfo → Option ActionType → Option (List Job) → Option (List ℕ) → Result (Unit {0})
unfolding check_action
policy user action job_db job_ids = do
  given ← get_or assertion_error action
  jobs ← get_or assertion_error job_db
  check_action user jobs (as_manage user jobs given) job_ids
