-- ===== src/Sandbox/Steps.antt =====
-- What the operations of the sandbox store keep of its tables
-- (diracx-logic/src/diracx/logic/jobs/sandboxes.py).
use diracx.Prelude.{
  ℕ, zero, suc, String, Bool, true, false, ◌≡◌, refl, sym, subst, ◌∙◌, Option, none, some, List, [],
  ◌∷◌, ◌++◌, map, arith, Bool-cases, inl, inr,
}
use diracx.Prelude.Table.{select, update, exists}
use diracx.Prelude.Outcome.{
  Error, sandbox_already_inserted_error, Outcome, returns, raises, Action, one_or_none,
  sandbox_not_found_error, state_of, after, ◌>>=◌, ◌>>◌,
}
use diracx.Prelude.Keeps.{
  Keeps, Preserves, Preserves-bind, Preserves-of_Keeps, keeps_rules, Keeps-handle, Keeps-raise,
  Keeps-bind, Keeps-pure, state_of-one,
}
use diracx.Sandbox.Db
use diracx.Sandbox.Db.{
  Sandbox, SandboxType, SandboxInfo, EntityMapping, SandboxDb, UserInfo, is_at, touch, new_sandbox,
  insert_owner, get_owner_id, sandbox_is_assigned, check_rowcount, as_sandbox_not_found,
  update_sandbox_last_access_time,
}
use diracx.Sandbox.Mapping.{
  insert_mapping, mark_assigned, assign_sandbox_to_jobs, unassign_job, unassign_sandboxes_to_jobs,
  jobid_to_entity_id, mapping_to, has_pfn, set_assigned,
}
use diracx.Sandbox.Store.{
  S3Client, SandboxStoreSettings, owner_or_insert, on_already_inserted, insert_sandbox,
  find_assigned, on_not_found, answer_upload, initiate_sandbox_upload, get_sandbox_file,
}
use diracx.Sandbox.Linked.{
  IsLinked, update-IsLinkedAt, append-IsLinkedAt, assign-IsLinkedAt, delete-mapping-IsLinkedAt,
  release-IsLinkedAt,
}

owners-IsLinked :
    (owners : List Db.Owner) (next : ℕ) (s : SandboxDb)
    → IsLinked s
    → IsLinked (record s { owners = owners; next_owner_id = next })
owners-IsLinked owners next s b = record {
  at = λ i.
      let c = b.at i in
      record {
        unique = c.unique;
        stored = c.stored;
        assigned = c.assigned;
        unused_id = c.unused_id;
      };
}

insert_owner-IsLinked : (user : UserInfo) → Keeps IsLinked (insert_owner user)
unfolding insert_owner
insert_owner-IsLinked user = record {
  at = λ s b. elim (Bool-cases (exists (Db.is_owner user) s.owners)) [
    | inl known ↦ rw known b
    | inr new ↦ rw new (owners-IsLinked _ _ s b)
  ];
}

state_of-check_rowcount : (n : ℕ) (s : SandboxDb) → state_of (check_rowcount n s) ≡ s
state_of-check_rowcount zero s = refl
state_of-check_rowcount (suc zero) s = refl
state_of-check_rowcount (suc (suc _)) s = refl

touch-IsLinked :
    (now : ℕ) (se_name pfn : String)
    → Keeps IsLinked (update_sandbox_last_access_time now se_name pfn)
unfolding update_sandbox_last_access_time
touch-IsLinked now se_name pfn = record {
  at = λ s b. subst IsLinked (sym (state_of-check_rowcount _ _)) (record {
    at = λ i.
        update-IsLinkedAt i s (b.at i) (is_at se_name pfn) (touch now) (λ r. refl) (λ r p q. q);
  });
}

new-IsLinked :
    (now owner_id : ℕ) (se_name pfn : String) (size : ℕ)
    → Keeps IsLinked (Db.insert_sandbox now owner_id se_name pfn size)
unfolding Db.insert_sandbox
new-IsLinked now owner_id se_name pfn size = record {
  at = λ s b. elim (Bool-cases (exists (is_at se_name pfn) s.sandboxes)) [
    | inl known ↦ rw known b
    | inr new ↦ rw new (record {
      at = λ i.
          append-IsLinkedAt i s (b.at i) (new_sandbox s.next_sb_id now owner_id se_name pfn size)
            refl;
    })
  ];
}

-- actions that only read
get_owner_id-IsLinked : (user : UserInfo) → Keeps IsLinked (get_owner_id user)
unfolding get_owner_id ◌>>=◌
get_owner_id-IsLinked user = record { at = λ s b. one_or_none-state _ s b }
  where
    one_or_none-state :
        (l : List ℕ) (s : SandboxDb) → IsLinked s → IsLinked (state_of (one_or_none l s))
    one_or_none-state [] s b = b
    one_or_none-state (_ ∷ []) s b = b
    one_or_none-state (_ ∷ _ ∷ _) s b = b

assigned-IsLinked : (pfn se_name : String) → Keeps IsLinked (sandbox_is_assigned pfn se_name)
unfolding sandbox_is_assigned
assigned-IsLinked pfn se_name =
    Keeps-handle _ _ (record { at = λ s b. subst IsLinked (sym (state_of-one _ s)) b })
      (λ e. Keeps-raise _)

owner_or_insert-IsLinked :
    (user : UserInfo) (found : Option ℕ) → Keeps IsLinked (owner_or_insert user found)
unfolding owner_or_insert
owner_or_insert-IsLinked user none = insert_owner-IsLinked user
owner_or_insert-IsLinked user (some owner_id) = Keeps-pure owner_id

on_already_inserted-IsLinked :
    (m : Action SandboxDb (Unit {0})) (e : Error)
    → Keeps IsLinked m
    → Keeps IsLinked (on_already_inserted m e)
on_already_inserted-IsLinked m sandbox_already_inserted_error k = k
on_already_inserted-IsLinked m e k = Keeps-raise _

insert_sandbox-IsLinked :
    (now : ℕ) (se_name : String) (user : UserInfo) (pfn : String) (size : ℕ)
    → Keeps IsLinked (insert_sandbox now se_name user pfn size)
unfolding insert_sandbox
insert_sandbox-IsLinked now se_name user pfn size =
    Keeps-bind _ _ (get_owner_id-IsLinked user) (λ found.
      Keeps-bind _ _ (owner_or_insert-IsLinked user found) (λ owner_id.
        Keeps-handle _ _ (new-IsLinked now owner_id se_name pfn size)
          (λ e. on_already_inserted-IsLinked _ e (touch-IsLinked now se_name pfn))))

on_not_found-IsLinked : (e : Error) → Keeps IsLinked (on_not_found e)
on_not_found-IsLinked sandbox_not_found_error = Keeps-pure none
on_not_found-IsLinked e = Keeps-raise _

find_assigned-IsLinked : (pfn se_name : String) → Keeps IsLinked (find_assigned pfn se_name)
unfolding find_assigned
find_assigned-IsLinked pfn se_name =
    search (keeps_rules, assigned-IsLinked, on_not_found-IsLinked) depth 8

module _ (client : S3Client) (settings : SandboxStoreSettings) where
  answer_upload-IsLinked :
      (now : ℕ) (user : UserInfo) (info : SandboxInfo) (pfn full_pfn : String) (there : Bool)
      → Keeps IsLinked (answer_upload client settings now user info pfn full_pfn there)
  unfolding answer_upload
  answer_upload-IsLinked now user info pfn full_pfn true =
      search (keeps_rules, touch-IsLinked) depth 8
  answer_upload-IsLinked now user info pfn full_pfn false =
      search (keeps_rules, insert_sandbox-IsLinked) depth 8

  pub initiate_sandbox_upload-IsLinked :
      (now : ℕ) (user : UserInfo) (info : SandboxInfo)
      → Keeps IsLinked (initiate_sandbox_upload client settings now user info)
  unfolding initiate_sandbox_upload
  initiate_sandbox_upload-IsLinked now user info =
      search (keeps_rules, find_assigned-IsLinked, answer_upload-IsLinked) depth 10

  pub get_sandbox_file-IsLinked :
      (now : ℕ) (pfn : String) → Keeps IsLinked (get_sandbox_file client settings now pfn)
  unfolding get_sandbox_file
  get_sandbox_file-IsLinked now pfn = search (keeps_rules, touch-IsLinked) depth 8

-- an assignment that returns has added the mappings and marked the sandbox
pub assign_step-effect :
    (entity_id pfn : String) (sb_type : SandboxType) (se_name : String) (s : SandboxDb)
    {u : Unit {0}} {s' : SandboxDb}
    → (insert_mapping entity_id pfn sb_type se_name >> mark_assigned pfn) s ≡ returns u s'
    → record s {
      mappings =
          s.mappings ++ map (mapping_to entity_id sb_type) (select (is_at se_name pfn) s.sandboxes);
      sandboxes = update (has_pfn pfn) (set_assigned true) s.sandboxes;
    }
      ≡ s'
unfolding insert_mapping mark_assigned ◌>>=◌
assign_step-effect entity_id pfn sb_type se_name s h = ground arith

assign_step-IsLinked :
    (entity_id pfn : String) (sb_type : SandboxType) (se_name : String)
    → Preserves IsLinked (insert_mapping entity_id pfn sb_type se_name >> mark_assigned pfn)
assign_step-IsLinked entity_id pfn sb_type se_name = record {
  after_return = λ s e b.
      subst IsLinked (assign_step-effect entity_id pfn sb_type se_name s e)
        (record { at = λ i. assign-IsLinkedAt i s (b.at i) entity_id pfn se_name sb_type });
}

assign_cons :
    (job_id : ℕ) (jobs_ids : List ℕ) (pfn : String) (sb_type : SandboxType) (se_name : String)
    (s : SandboxDb)
    → assign_sandbox_to_jobs (job_id ∷ jobs_ids) pfn sb_type se_name s
      ≡ ((insert_mapping (jobid_to_entity_id job_id) pfn sb_type se_name >> mark_assigned pfn)
            >> assign_sandbox_to_jobs jobs_ids pfn sb_type se_name)
          s
unfolding assign_sandbox_to_jobs ◌>>=◌
assign_cons job_id jobs_ids pfn sb_type se_name s =
    assoc (insert_mapping (jobid_to_entity_id job_id) pfn sb_type se_name s)
  where
    assoc :
        (o : Outcome SandboxDb (Unit {0}))
        → after o (λ _. mark_assigned pfn >> assign_sandbox_to_jobs jobs_ids pfn sb_type se_name)
          ≡ after
              (after o (λ _. mark_assigned pfn))
              (λ _. assign_sandbox_to_jobs jobs_ids pfn sb_type se_name)
    assoc (returns a s) = refl
    assoc (raises e s) = refl

pub assign-IsLinked :
    (jobs_ids : List ℕ) (pfn : String) (sb_type : SandboxType) (se_name : String)
    → Preserves IsLinked (assign_sandbox_to_jobs jobs_ids pfn sb_type se_name)
unfolding assign_sandbox_to_jobs
assign-IsLinked [] pfn sb_type se_name = Preserves-of_Keeps _ _ (Keeps-pure tt)
assign-IsLinked (job_id ∷ jobs_ids) pfn sb_type se_name = record {
  after_return = λ s e b.
      (Preserves-bind _ _ (assign_step-IsLinked (jobid_to_entity_id job_id) pfn sb_type se_name)
          (λ _. assign-IsLinked jobs_ids pfn sb_type se_name)).after_return
        s (sym (assign_cons job_id jobs_ids pfn sb_type se_name s) ∙ e) b;
}

unassign_job-IsLinked : (job_id : ℕ) (s : SandboxDb) → IsLinked s → IsLinked (unassign_job job_id s)
unfolding unassign_job
unassign_job-IsLinked job_id s b = record {
  at = λ i. release-IsLinkedAt i _ (delete-mapping-IsLinkedAt i s (b.at i) _) _;
}

pub unassign-IsLinked : (jobs_ids : List ℕ) → Keeps IsLinked (unassign_sandboxes_to_jobs jobs_ids)
unfolding unassign_sandboxes_to_jobs
unassign-IsLinked [] = record { at = λ s b. b }
unassign-IsLinked (job_id ∷ jobs_ids) = record {
  at = λ s b.
      (unassign-IsLinked jobs_ids).at (unassign_job job_id s) (unassign_job-IsLinked job_id s b);
}
