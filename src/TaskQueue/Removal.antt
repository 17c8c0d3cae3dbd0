-- ===== src/TaskQueue/Removal.antt =====
-- What the removal of jobs does to the task queues (diracx-logic/src/diracx/logic/jobs/status.py).
use diracx.Prelude.{ℕ, Bool, ◌&&◌, List, [], ◌∷◌, ◌≡◌, refl, arith}
use diracx.Prelude.Table.{select, delete, join_on}
use diracx.Prelude.Outcome.{returns, ◌>>=◌}
use diracx.Prelude.Floats.{Float}
use diracx.Config.{Config}
use diracx.TaskQueue.Db.{
  TaskQueue, QueuedJob, TaskQueueDb, is_job_of, is_queued_in, remove_jobs, get_tq_infos_for_jobs,
}
use diracx.TaskQueue.Recalculate.{remove_empty, remove_jobs_from_task_queue}

-- a query that asks for what was deleted has no rows
select-delete_none :
    {A : Type 0} (p q : A → Bool) (t : List A) → select (λ x. p x && q x) (delete q t) ≡ []
unfolding select delete
select-delete_none p q [] = refl
select-delete_none p q (x ∷ t) = ground (arith, select-delete_none p q t)

module _ {W : Type 0} where
  join_on-delete_none :
      (job_ids : List ℕ) (queues : List (TaskQueue W)) (jobs : List (QueuedJob W))
      → join_on
          (λ (q : TaskQueue W) (j : QueuedJob W). is_queued_in q j && is_job_of job_ids j)
          queues
          (delete (is_job_of job_ids) jobs)
        ≡ []
  unfolding join_on
  join_on-delete_none job_ids [] jobs = refl
  join_on-delete_none job_ids (q ∷ queues) jobs =
      rw (select-delete_none (is_queued_in q) (is_job_of job_ids) jobs)
        (join_on-delete_none job_ids queues jobs)

  -- The removal of jobs from the task queues always returns, and changes nothing but that it deletes the rows of
  -- the jobs from the queued jobs: it finds no queue to look at, whichever were left empty, so that no queue is
  -- deleted and no share is recalculated.
  pub remove_jobs_from_task_queue-keeps_queues :
      ⦃f : Float W⦄ (job_ids : List ℕ) (config : Config) (s : TaskQueueDb W)
      → remove_jobs_from_task_queue job_ids config s
        ≡ returns tt (record s { jobs = delete (is_job_of job_ids) s.jobs })
  unfolding remove_jobs_from_task_queue remove_jobs get_tq_infos_for_jobs remove_empty ◌>>=◌
  remove_jobs_from_task_queue-keeps_queues job_ids config s =
      rw (join_on-delete_none job_ids s.task_queues s.jobs) refl
