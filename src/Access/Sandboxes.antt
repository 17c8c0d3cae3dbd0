-- ===== src/Access/Sandboxes.antt =====
-- `SandboxAccessPolicy` (diracx-routers/src/diracx/routers/jobs/access_policies.py).
use diracx.Prelude.{
  ℕ, String, Bool, true, false, not, ◌&&◌, Option, none, some, List, [], ◌∷◌, nat_eq, mem,
  if◌then◌else◌,
}
use diracx.Prelude.Outcome.{
  assertion_error, not_implemented_error, http_forbidden, Action, pure, raise, get_or_raise, ensure,
  ◌>>=◌, ◌>>◌,
}
use diracx.Sandbox.Db.{SandboxDb, UserInfo, get_owner_id, get_sandbox_owner_id}
use diracx.Access.Jobs.{ActionType, create, AuthorizedUserInfo, normal_user, job_administrator}
use text.Mathlib.Text.{starts_with}

abbrev pub user_of : AuthorizedUserInfo → UserInfo
user_of user = record {
  preferred_username = user.preferred_username;
  dirac_group = user.dirac_group;
  vo = user.vo;
}

-- `not (not owner_id or owner_id != sandbox_owner_id)`
abbrev pub is_owner_of : Option ℕ → Option ℕ → Bool
is_owner_of none _ = false
is_owner_of (some _) none = false
is_owner_of (some o) (some p) = not (nat_eq o 0) && nat_eq o p

abbrev pub is_create : ActionType → Bool
is_create create = true
is_create _ = false

module _ (user : AuthorizedUserInfo) where
  -- one round of the loop
  unfoldable pub check_pfn : String → String → String → Action SandboxDb (Unit {0})
  check_pfn required_prefix se_name pfn = do
    ensure (starts_with pfn required_prefix) http_forbidden
    owner_id ← get_owner_id (user_of user)
    sandbox_owner_id ← get_sandbox_owner_id pfn se_name
    ensure (is_owner_of owner_id sandbox_owner_id) http_forbidden

  unfoldable pub check_pfns : String → String → List String → Action SandboxDb (Unit {0})
  unfolding check_pfn
  check_pfns required_prefix se_name [] = pure tt
  check_pfns required_prefix se_name (pfn ∷ pfns) = do
    check_pfn required_prefix se_name pfn
    check_pfns required_prefix se_name pfns

  -- `if pfns:` is false of `None` and of the empty list
  unfoldable pub check_sandboxes :
      Option (List String) → Option String → Option String → Action SandboxDb (Unit {0})
  unfolding check_pfns
  check_sandboxes none required_prefix se_name = pure tt
  check_sandboxes (some []) required_prefix se_name = pure tt
  check_sandboxes (some (pfn ∷ pfns)) required_prefix se_name = do
    prefix ← get_or_raise not_implemented_error required_prefix
    se ← get_or_raise not_implemented_error se_name
    check_pfns prefix se (pfn ∷ pfns)

  unfoldable pub check_sandbox_action :
      ActionType
      → Option (List String)
      → Option String
      → Option String
      → Action SandboxDb (Unit {0})
  unfolding check_sandboxes
  check_sandbox_action create pfns required_prefix se_name =
      ensure (mem normal_user user.properties) http_forbidden
  check_sandbox_action action pfns required_prefix se_name =
      if mem job_administrator user.properties
      then pure tt
      else if mem normal_user user.properties
      then check_sandboxes pfns required_prefix se_name
      else raise http_forbidden

  unfoldable pub sandbox_policy :
      Option ActionType
      → Option (List String)
      → Option String
      → Option String
      → Action SandboxDb (Unit {0})
  unfolding check_sandbox_action
  sandbox_policy action pfns required_prefix se_name = do
    given ← get_or_raise assertion_error action
    check_sandbox_action given pfns required_prefix se_name
