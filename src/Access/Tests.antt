-- ===== src/Access/Tests.antt =====
-- Decisions of the access policies.
use diracx.Prelude.{◌≡◌, refl, true, false, some, List, [], ◌∷◌, ◌&&◌, All, arith}
use diracx.Prelude.Table.{select, exists, rowcount, join_on}
use diracx.Prelude.Outcome.{◌>>=◌}
use diracx.Sandbox.Db.{SandboxDb, get_owner_id, get_sandbox_owner_id}
use diracx.Access.Jobs.{
  read, manage, AuthorizedUserInfo, Job, policy, check_action, check_normal_user, check_owned,
  summary, group_by_owner, count_job,
}
use diracx.Access.Rights.{has_right, policy-has_right}
use diracx.Access.Owned.{HasUniqueIds, has_job_id, belongs_to, policy-owned}
use diracx.Access.Sandboxes.{
  sandbox_policy, check_sandbox_action, check_sandboxes, check_pfns, check_pfn,
}
use diracx.Access.SandboxOwners.{Owns, sandbox_policy-Owns}

abbrev alice : AuthorizedUserInfo
alice = record {
  preferred_username = "alice";
  dirac_group = "user";
  vo = "lhcb";
  properties = "NormalUser" ∷ [];
}

abbrev jobs : List Job
jobs =
    record { job_id = 1; owner = "alice"; vo = "lhcb" }
    ∷ record { job_id = 2; owner = "bob"; vo = "lhcb" }
    ∷ record { job_id = 3; owner = "alice"; vo = "lhcb" }
    ∷ []

jobs-HasUniqueIds : HasUniqueIds jobs
unfolding rowcount
jobs-HasUniqueIds = record { at = λ i. ground arith }

policy-owned_example : exists (λ job. has_job_id 3 job && belongs_to "alice" "lhcb" job) jobs ≡ true
unfolding policy check_action check_normal_user check_owned summary group_by_owner count_job select
policy-owned_example =
    policy-owned alice jobs manage (3 ∷ 1 ∷ 3 ∷ []) 3 jobs-HasUniqueIds refl refl refl refl

policy-has_right_example : has_right manage alice.properties ≡ true
unfolding policy check_action check_normal_user check_owned summary group_by_owner count_job select
policy-has_right_example = policy-has_right alice jobs manage (some (1 ∷ 3 ∷ [])) refl

abbrev sandbox_db : SandboxDb
sandbox_db = record {
  owners = record { owner_id = 7; owner = "alice"; owner_group = "user"; vo = "lhcb" } ∷ [];
  sandboxes =
      record {
        sb_id = 1;
        owner_id = 7;
        se_name = "SE";
        pfn = "/S3/bucket/lhcb/a";
        bytes = 1;
        registration_time = 0;
        last_access_time = 0;
        assigned = false;
      }
      ∷ [];
  mappings = [];
  next_owner_id = 8;
  next_sb_id = 2;
}

sandbox_policy-Owns_example :
    All (Owns alice sandbox_db "/S3/bucket/lhcb/" "SE") ("/S3/bucket/lhcb/a" ∷ [])
unfolding sandbox_policy check_sandbox_action check_sandboxes check_pfns check_pfn get_owner_id
    get_sandbox_owner_id select join_on ◌>>=◌
sandbox_policy-Owns_example =
    sandbox_policy-Owns alice read ("/S3/bucket/lhcb/a" ∷ []) "/S3/bucket/lhcb/" "SE" sandbox_db
      {s' = sandbox_db} refl refl refl
