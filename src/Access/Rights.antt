-- ===== src/Access/Rights.antt =====
-- Which properties `WMSAccessPolicy` asks for (diracx-routers/src/diracx/routers/jobs/access_policies.py).
use diracx.Prelude.{ℕ, String, Bool, true, ◌||◌, ◌≡◌, Option, some, List, arith, mem}
use diracx.Prelude.Outcome.{ok}
use diracx.Access.Jobs.{
  ActionType, create, read, manage, query, pilot, AuthorizedUserInfo, Job, policy, check_action,
  check_normal_user, normal_user, job_administrator, generic_pilot,
}

-- What a policy can be granted for without any job: creation by normal users, the rest also by
-- administrators, and management by pilots.
abbrev pub has_right : ActionType → List String → Bool
has_right create properties = mem normal_user properties
has_right manage properties =
    mem normal_user properties || mem job_administrator properties || mem generic_pilot properties
has_right pilot properties =
    mem normal_user properties || mem job_administrator properties || mem generic_pilot properties
has_right _ properties = mem normal_user properties || mem job_administrator properties

-- A creation is granted only to a normal user, the management of jobs and the actions of pilots only to a normal
-- user, an administrator or a pilot, and reading and queries only to a normal user or an administrator.
pub policy-has_right :
    (user : AuthorizedUserInfo) (jobs : List Job) (action : ActionType) (job_ids : Option (List ℕ))
    → policy user (some action) (some jobs) job_ids ≡ ok tt
    → has_right action user.properties ≡ true
unfolding policy check_action check_normal_user
policy-has_right user jobs create job_ids h = ground arith
policy-has_right user jobs query job_ids h = ground arith
policy-has_right user jobs read job_ids h = ground arith
policy-has_right user jobs manage job_ids h = ground arith
policy-has_right user jobs pilot job_ids h = ground arith
