-- ===== src/Sandbox/Mapping.antt =====
-- The methods of `SandboxMetadataDB` that map sandboxes to jobs
-- (diracx-db/src/diracx/db/sql/sandbox_metadata/db.py).
use diracx.Prelude.{
  ℕ, zero, suc, String, Bool, true, false, ◌&&◌, Option, none, some, List, [], ◌∷◌, ◌++◌, ◌==◌,
  nat_eq, any, if◌then◌else◌, map,
}
use diracx.Prelude.Text.{append, decimal}
use diracx.Prelude.Table.{select, update, delete, exists, rowcount, join_on}
use diracx.Prelude.Outcome.{
  assertion_error, sandbox_not_found_error, sandbox_already_assigned_error, returns, raises, Action,
  pure, ◌>>◌,
}
use diracx.Sandbox.Db.{Sandbox, SandboxType, same_type, EntityMapping, SandboxDb, is_at}

unfoldable pub jobid_to_entity_id : ℕ → String
jobid_to_entity_id job_id = append "Job:" (decimal job_id)

abbrev is_mapping_of : String → SandboxType → EntityMapping → Bool
is_mapping_of entity_id sb_type m = m.entity_id == entity_id && same_type m.sb_type sb_type

-- `[result.scalar()]`
abbrev scalar : List String → Option String
scalar [] = none
scalar (pfn ∷ _) = some pfn

unfoldable pub get_sandbox_assigned_to_job :
    ℕ → SandboxType → Action SandboxDb (List (Option String))
unfolding jobid_to_entity_id
get_sandbox_assigned_to_job job_id sb_type s =
    let entity_id = jobid_to_entity_id job_id in
    returns
      (scalar (
          map (λ (r : Sandbox × EntityMapping). r.0.pfn)
            (join_on
              (λ (b : Sandbox) (m : EntityMapping).
                nat_eq b.sb_id m.sb_id && is_mapping_of entity_id sb_type m)
              s.sandboxes s.mappings))
        ∷ [])
      s

-- the row that the statement selects for a sandbox
abbrev pub mapping_to : String → SandboxType → Sandbox → EntityMapping
mapping_to entity_id sb_type b = record {
  sb_id = b.sb_id;
  entity_id = entity_id;
  sb_type = sb_type;
}

abbrev pub same_mapping : EntityMapping → EntityMapping → Bool
same_mapping m n =
    nat_eq m.sb_id n.sb_id && n.entity_id == m.entity_id && same_type m.sb_type n.sb_type

-- `insert(SBEntityMapping).from_select(...)`, with the unique constraint `Mapping`
unfoldable pub insert_mapping : String → String → SandboxType → String → Action SandboxDb (Unit {0})
insert_mapping entity_id pfn sb_type se_name s =
    let new = map (mapping_to entity_id sb_type) (select (is_at se_name pfn) s.sandboxes) in
    if any (λ m. exists (same_mapping m) s.mappings) new
    then raises sandbox_already_assigned_error s
    else returns tt (record s { mappings = s.mappings ++ new })

abbrev pub set_assigned : Bool → Sandbox → Sandbox
set_assigned b r = record r { assigned = b }

abbrev pub has_pfn : String → Sandbox → Bool
has_pfn pfn r = r.pfn == pfn

abbrev check_assigned : ℕ → Action SandboxDb (Unit {0})
check_assigned zero s = raises sandbox_not_found_error s
check_assigned (suc zero) s = returns tt s
check_assigned (suc (suc _)) s = raises assertion_error s

-- `update(SandBoxes).where(SandBoxes.SEPFN == pfn).values(Assigned=True)`, and what its `rowcount` says
unfoldable pub mark_assigned : String → Action SandboxDb (Unit {0})
mark_assigned pfn s =
    check_assigned (rowcount (has_pfn pfn) s.sandboxes)
      (record s { sandboxes = update (has_pfn pfn) (set_assigned true) s.sandboxes })

unfoldable pub assign_sandbox_to_jobs :
    List ℕ → String → SandboxType → String → Action SandboxDb (Unit {0})
unfolding jobid_to_entity_id
assign_sandbox_to_jobs [] pfn sb_type se_name = pure tt
assign_sandbox_to_jobs (job_id ∷ jobs_ids) pfn sb_type se_name = do
  insert_mapping (jobid_to_entity_id job_id) pfn sb_type se_name
  mark_assigned pfn
  assign_sandbox_to_jobs jobs_ids pfn sb_type se_name

abbrev pub is_mapped_to : String → EntityMapping → Bool
is_mapped_to entity_id m = m.entity_id == entity_id

-- `x in xs`, for identifiers
abbrev pub among : List ℕ → ℕ → Bool
among xs x = any (λ y. nat_eq y x) xs

-- the sandboxes of an entity, as the select with the join gives them
unfoldable pub sandboxes_of : String → SandboxDb → List ℕ
sandboxes_of entity_id s =
    map (λ (r : Sandbox × EntityMapping). r.0.sb_id)
      (join_on
        (λ (b : Sandbox) (m : EntityMapping). nat_eq m.sb_id b.sb_id && is_mapped_to entity_id m)
        s.sandboxes s.mappings)

unfoldable pub release : List ℕ → SandboxDb → SandboxDb
release sb_ids s =
    if exists (λ (m : EntityMapping). among sb_ids m.sb_id) s.mappings then s else record s {
      sandboxes = update (λ (b : Sandbox). among sb_ids b.sb_id) (set_assigned false) s.sandboxes;
    }

-- one round of the loop
unfoldable pub unassign_job : ℕ → SandboxDb → SandboxDb
unfolding jobid_to_entity_id sandboxes_of release
unassign_job job_id s =
    let entity_id = jobid_to_entity_id job_id in
    release (sandboxes_of entity_id s)
      (record s { mappings = delete (is_mapped_to entity_id) s.mappings })

unfoldable pub unassign_sandboxes_to_jobs : List ℕ → Action SandboxDb (Unit {0})
unfolding unassign_job
unassign_sandboxes_to_jobs [] s = returns tt s
unassign_sandboxes_to_jobs (job_id ∷ jobs_ids) s =
    unassign_sandboxes_to_jobs jobs_ids (unassign_job job_id s)
