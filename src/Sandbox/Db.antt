-- ===== src/Sandbox/Db.antt =====
-- The tables of schema.py and the methods of `SandboxMetadataDB` on owners and sandboxes
-- (diracx-db/src/diracx/db/sql/sandbox_metadata). Times are in seconds.
use diracx.Prelude.{
  ℕ, zero, suc, ◌+◌, String, Bool, true, false, ◌&&◌, Option, List, [], ◌∷◌, ◌++◌, ◌==◌, nat_eq,
  if◌then◌else◌, map,
}
use diracx.Prelude.Text.{append, join}
use diracx.Prelude.Table.{select, update, exists, rowcount, join_on}
use diracx.Prelude.Outcome.{
  Error, integrity_error, no_result_found, not_implemented_error, sandbox_not_found_error,
  sandbox_already_inserted_error, returns, raises, Action, raise, one, one_or_none, handle,
}

pub record UserInfo : Type 0 where
  pub preferred_username : String
  pub dirac_group : String
  pub vo : String

pub record Owner : Type 0 where
  pub owner_id : ℕ
  pub owner : String
  pub owner_group : String
  pub vo : String

pub record Sandbox : Type 0 where
  pub sb_id : ℕ
  pub owner_id : ℕ
  pub se_name : String
  pub pfn : String
  pub bytes : ℕ
  pub registration_time : ℕ
  pub last_access_time : ℕ
  pub assigned : Bool

pub data SandboxType : Type 0 where
  input output : SandboxType

abbrev pub same_type : SandboxType → SandboxType → Bool
same_type input input = true
same_type output output = true
same_type _ _ = false

pub record EntityMapping : Type 0 where
  pub sb_id : ℕ
  pub entity_id : String
  pub sb_type : SandboxType

-- The tables, and the next values of the two columns that count by themselves.
pub record SandboxDb : Type 0 where
  pub owners : List Owner
  pub sandboxes : List Sandbox
  pub mappings : List EntityMapping
  pub next_owner_id : ℕ
  pub next_sb_id : ℕ

abbrev pub is_owner : UserInfo → Owner → Bool
is_owner user r =
    r.owner == user.preferred_username && r.owner_group == user.dirac_group && r.vo == user.vo

unfoldable pub get_owner_id : UserInfo → Action SandboxDb (Option ℕ)
get_owner_id user s =
    one_or_none (map (λ (r : Owner). r.owner_id) (select (is_owner user) s.owners)) s

abbrev pub is_at : String → String → Sandbox → Bool
is_at se_name pfn r = r.se_name == se_name && r.pfn == pfn

unfoldable pub get_sandbox_owner_id : String → String → Action SandboxDb (Option ℕ)
get_sandbox_owner_id pfn se_name s =
    one_or_none
      (map (λ (r : Owner × Sandbox). r.0.owner_id)
        (join_on (λ (o : Owner) (b : Sandbox). nat_eq o.owner_id b.owner_id && is_at se_name pfn b)
          s.owners s.sandboxes))
      s

unfoldable pub insert_owner : UserInfo → Action SandboxDb ℕ
insert_owner user s =
    if exists (is_owner user) s.owners
    then raises integrity_error s
    else returns s.next_owner_id (record s {
      owners =
          s.owners
          ++ record {
            owner_id = s.next_owner_id;
            owner = user.preferred_username;
            owner_group = user.dirac_group;
            vo = user.vo;
          }
            ∷ [];
      next_owner_id = s.next_owner_id + 1;
    })

pub record SandboxInfo : Type 0 where
  pub checksum_algorithm : String
  pub checksum : String
  pub size : ℕ
  pub format : String

unfoldable pub get_pfn : String → UserInfo → SandboxInfo → String
get_pfn bucket_name user info = append "/" (
    join "/" (
      "S3"
      ∷ bucket_name
      ∷ user.vo
      ∷ user.dirac_group
      ∷ user.preferred_username
      ∷ append info.checksum_algorithm (append ":" (append info.checksum (append "." info.format)))
      ∷ []))

abbrev pub new_sandbox : ℕ → ℕ → ℕ → String → String → ℕ → Sandbox
new_sandbox sb_id now owner_id se_name pfn size = record {
  sb_id = sb_id;
  owner_id = owner_id;
  se_name = se_name;
  pfn = pfn;
  bytes = size;
  registration_time = now;
  last_access_time = now;
  assigned = false;
}

-- the unique constraint `Location`
unfoldable pub insert_sandbox : ℕ → ℕ → String → String → ℕ → Action SandboxDb (Unit {0})
insert_sandbox now owner_id se_name pfn size s =
    if exists (is_at se_name pfn) s.sandboxes
    then raises sandbox_already_inserted_error s
    else returns tt (record s {
      sandboxes = s.sandboxes ++ new_sandbox s.next_sb_id now owner_id se_name pfn size ∷ [];
      next_sb_id = s.next_sb_id + 1;
    })

-- what the `rowcount` of the update says
abbrev pub check_rowcount : ℕ → Action SandboxDb (Unit {0})
check_rowcount zero s = raises sandbox_not_found_error s
check_rowcount (suc zero) s = returns tt s
check_rowcount (suc (suc _)) s = raises not_implemented_error s

abbrev pub touch : ℕ → Sandbox → Sandbox
touch now r = record r { last_access_time = now }

unfoldable pub update_sandbox_last_access_time : ℕ → String → String → Action SandboxDb (Unit {0})
update_sandbox_last_access_time now se_name pfn s =
    check_rowcount (rowcount (is_at se_name pfn) s.sandboxes)
      (record s { sandboxes = update (is_at se_name pfn) (touch now) s.sandboxes })

-- `except NoResultFound as e: raise SandboxNotFoundError(pfn, se_name) from e`
abbrev pub as_sandbox_not_found : Error → Error
as_sandbox_not_found no_result_found = sandbox_not_found_error
as_sandbox_not_found e = e

unfoldable pub sandbox_is_assigned : String → String → Action SandboxDb Bool
sandbox_is_assigned pfn se_name =
    handle (λ s. one (map (λ (r : Sandbox). r.assigned) (select (is_at se_name pfn) s.sandboxes)) s)
      (λ e. raise (as_sandbox_not_found e))
