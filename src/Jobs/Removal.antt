-- ===== src/Jobs/Removal.antt =====
-- `remove_jobs` (diracx-logic/src/diracx/logic/jobs/status.py).
use diracx.Prelude.{
  ℕ, Bool, true, false, List, [], ◌∷◌, ◌≡◌, refl, is_in, nat_eq, nat_eq_iff, arith, inl, inr,
  Bool-cases, subst, ◌⊎◌,
}
use diracx.Prelude.Table.{delete, exists}
use diracx.Prelude.Table.Counts.{exists-delete-false}
use diracx.Prelude.Outcome.{returns, Action, ◌>>=◌, ◌>>◌}
use diracx.Prelude.Floats.{Float}
use diracx.Config.{Config}
use diracx.JobLogging.{LoggingInfo, delete_records}
use diracx.Sandbox.Db.{SandboxDb, EntityMapping}
use diracx.Sandbox.Mapping.{
  jobid_to_entity_id, is_mapped_to, among, sandboxes_of, release, unassign_job,
  unassign_sandboxes_to_jobs,
}
use diracx.TaskQueue.Db.{QueuedJob, is_job_of}
use diracx.TaskQueue.Recalculate.{remove_jobs_from_task_queue}
use diracx.TaskQueue.Removal.{remove_jobs_from_task_queue-keeps_queues}
use diracx.Jobs.Db.{JobRow, JobJdl, InputFile, HeartBeat, Command, delete_jobs, has_job, has_jdl}
use diracx.Jobs.Wms.{Wms, on_jobs, on_logging, on_queues, on_sandboxes}

module _ {W : Type 0} ⦃f : Float W⦄ where
  unfoldable pub remove_jobs : List ℕ → Config → Action (Wms W) (Unit {0})
  remove_jobs job_ids config = do
    on_sandboxes (unassign_sandboxes_to_jobs job_ids)
    on_queues (remove_jobs_from_task_queue job_ids config)
    on_logging (delete_records job_ids)
    on_jobs (delete_jobs job_ids)

-- None of the tables that the removal deletes from has a row of the job.
pub record IsForgotten {W : Type 0} (job_id : ℕ) (s : Wms W) : Type 0 where
  pub no_jdl : has_jdl job_id s.jobs ≡ false
  pub no_job : has_job job_id s.jobs ≡ false
  pub no_input : exists (λ (r : InputFile). nat_eq r.job_id job_id) s.jobs.input_data ≡ false
  pub no_heart_beat : exists (λ (r : HeartBeat). nat_eq r.job_id job_id) s.jobs.heart_beats ≡ false
  pub no_command : exists (λ (r : Command). nat_eq r.job_id job_id) s.jobs.commands ≡ false
  pub no_logging : exists (λ (r : LoggingInfo). nat_eq r.job_id job_id) s.logging ≡ false
  pub no_queue : exists (λ (r : QueuedJob W). nat_eq r.job_id job_id) s.queues.jobs ≡ false
  pub no_sandbox :
      exists
        (λ (m : EntityMapping). is_mapped_to (jobid_to_entity_id job_id) m)
        s.sandboxes.mappings
      ≡ false

-- the rows of a removed job are gone
deleted_none :
    {A : Type 0} (job_of : A → ℕ) (job_ids : List ℕ) (j : ℕ) (t : List A)
    → is_in job_ids j ≡ true
    → exists (λ x. nat_eq (job_of x) j) (delete (λ x. is_in job_ids (job_of x)) t) ≡ false
unfolding exists delete
deleted_none job_of job_ids j [] h = refl
deleted_none job_of job_ids j (x ∷ t) h = ground (arith, deleted_none job_of job_ids j t)

deleted_self : {A : Type 0} (p : A → Bool) (t : List A) → exists p (delete p t) ≡ false
unfolding exists delete
deleted_self p [] = refl
deleted_self p (x ∷ t) = ground (arith, deleted_self p t)

mappings-release : (sb_ids : List ℕ) (s : SandboxDb) → (release sb_ids s).mappings ≡ s.mappings
unfolding release
mappings-release sb_ids s =
    elim (Bool-cases (exists (λ (m : EntityMapping). among sb_ids m.sb_id) s.mappings)) [
      | inl hit ↦ rw hit refl
      | inr miss ↦ rw miss refl
    ]

mappings-unassign_job :
    (i : ℕ) (s : SandboxDb)
    → (unassign_job i s).mappings ≡ delete (is_mapped_to (jobid_to_entity_id i)) s.mappings
unfolding unassign_job
mappings-unassign_job i s =
    mappings-release (sandboxes_of (jobid_to_entity_id i) s)
      (record s { mappings = delete (is_mapped_to (jobid_to_entity_id i)) s.mappings })

-- whether a job has a sandbox
abbrev has_sandbox : ℕ → SandboxDb → Bool
has_sandbox j s = exists (λ (m : EntityMapping). is_mapped_to (jobid_to_entity_id j) m) s.mappings

has_sandbox-unassign_job :
    (i j : ℕ) (s : SandboxDb) → has_sandbox j s ≡ false → has_sandbox j (unassign_job i s) ≡ false
has_sandbox-unassign_job i j s h = rw (mappings-unassign_job i s) (
    exists-delete-false (is_mapped_to (jobid_to_entity_id j)) (is_mapped_to (jobid_to_entity_id i))
      s.mappings h)

-- the loop returns, and at its end a job has no sandbox that had none or that it is for
unassigned :
    (job_ids : List ℕ) (j : ℕ) (s : SandboxDb)
    → (has_sandbox j s ≡ false) ⊎ (is_in job_ids j ≡ true)
    → (s' : SandboxDb) × (unassign_sandboxes_to_jobs job_ids s ≡ returns tt s')
      × (has_sandbox j s' ≡ false)
unfolding unassign_sandboxes_to_jobs
unassigned [] j s (inl h) = (s, refl, h)
unassigned [] j s (inr h) = cc
unassigned (i ∷ job_ids) j s (inl h) =
    unassigned job_ids j (unassign_job i s) (inl (has_sandbox-unassign_job i j s h))
unassigned (i ∷ job_ids) j s (inr h) = elim (Bool-cases (nat_eq i j)) [
  | inl same ↦ unassigned job_ids j (unassign_job i s) (
      inl (
        rw (mappings-unassign_job i s) (
          subst
            (λ k.
              exists (is_mapped_to (jobid_to_entity_id k))
                (delete (is_mapped_to (jobid_to_entity_id i)) s.mappings)
              ≡ false)
            ((nat_eq_iff i j).0 same)
            (deleted_self (is_mapped_to (jobid_to_entity_id i)) s.mappings))))
  | inr other ↦ unassigned job_ids j (unassign_job i s) (inr (ground arith))
]

module _ {W : Type 0} ⦃f : Float W⦄ where
  -- the databases without the rows of the jobs
  abbrev without : List ℕ → SandboxDb → Wms W → Wms W
  without job_ids sandboxes s = record s {
    sandboxes = sandboxes;
    queues = record s.queues { jobs = delete (is_job_of job_ids) s.queues.jobs };
    logging = delete (λ (r : LoggingInfo). is_in job_ids r.job_id) s.logging;
    jobs = record s.jobs {
      jdls = delete (λ (r : JobJdl). is_in job_ids r.job_id) s.jobs.jdls;
      jobs = delete (λ (r : JobRow). is_in job_ids r.job_id) s.jobs.jobs;
      input_data = delete (λ (r : InputFile). is_in job_ids r.job_id) s.jobs.input_data;
      heart_beats = delete (λ (r : HeartBeat). is_in job_ids r.job_id) s.jobs.heart_beats;
      commands = delete (λ (r : Command). is_in job_ids r.job_id) s.jobs.commands;
    };
  }

  -- The removal of jobs always returns, and after it a removed job has no JDL, attributes, input data, heartbeats or
  -- commands in the database of jobs, no logging record, no place in a task queue and no mapping to a sandbox.
  pub remove_jobs_complete :
      (job_ids : List ℕ) (config : Config) (s : Wms W) (j : ℕ)
      → is_in job_ids j ≡ true
      → (s' : Wms W) × (remove_jobs job_ids config s ≡ returns tt s') × IsForgotten j s'
  unfolding remove_jobs on_sandboxes on_queues on_logging on_jobs delete_records delete_jobs ◌>>=◌
  remove_jobs_complete job_ids config s j h =
      let (t, done, gone) = unassigned job_ids j s.sandboxes (inr h) in
      (
        without job_ids t s,
        rw (done, remove_jobs_from_task_queue-keeps_queues job_ids config s.queues) refl,
        record {
          no_jdl = deleted_none (λ (r : JobJdl). r.job_id) job_ids j s.jobs.jdls h;
          no_job = deleted_none (λ (r : JobRow). r.job_id) job_ids j s.jobs.jobs h;
          no_input = deleted_none (λ (r : InputFile). r.job_id) job_ids j s.jobs.input_data h;
          no_heart_beat = deleted_none (λ (r : HeartBeat). r.job_id) job_ids j s.jobs.heart_beats h;
          no_command = deleted_none (λ (r : Command). r.job_id) job_ids j s.jobs.commands h;
          no_logging = deleted_none (λ (r : LoggingInfo). r.job_id) job_ids j s.logging h;
          no_queue = deleted_none (λ (r : QueuedJob W). r.job_id) job_ids j s.queues.jobs h;
          no_sandbox = gone;
        },
      )
