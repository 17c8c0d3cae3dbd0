-- ===== src/TaskQueue/Db.antt =====
-- The tables of schema.py and the methods of `TaskQueueDB` (diracx-db/src/diracx/db/sql/task_queue).
use diracx.Prelude.{
  ℕ, ◌+◌, String, Bool, true, not, ◌&&◌, ◌||◌, Option, none, some, List, [], ◌∷◌, ◌==◌, nat_eq, map,
  any, is_in, length, if◌then◌else◌,
}
use diracx.Prelude.Table.{select, update, delete, rowcount, exists, join_on}
use diracx.Prelude.Outcome.{value_error, returns, raises, Action, query, one}
use diracx.Prelude.Floats.{Float, sum}

-- a row of one of the tables of sites, CEs, banned sites, platforms, job types and tags
pub record Entry : Type 0 where
  pub tq_id : ℕ
  pub value : String

pub record TaskQueue (W : Type 0) : Type 0 where
  pub tq_id : ℕ
  pub owner : String
  pub owner_group : String
  pub vo : String
  pub cpu_time : ℕ
  pub priority : W
  pub enabled : Bool

pub record QueuedJob (W : Type 0) : Type 0 where
  pub tq_id : ℕ
  pub job_id : ℕ
  pub priority : ℕ
  pub real_priority : W

pub record TaskQueueDb (W : Type 0) : Type 0 where
  pub task_queues : List (TaskQueue W)
  pub jobs : List (QueuedJob W)
  pub sites : List Entry
  pub grid_ces : List Entry
  pub banned_sites : List Entry
  pub platforms : List Entry
  pub job_types : List Entry
  pub tags : List Entry

-- the owner, the group and the VO of a queue
pub record QueueOwner : Type 0 where
  pub owner : String
  pub owner_group : String
  pub vo : String

abbrev pub same_info : ℕ × QueueOwner → ℕ × QueueOwner → Bool
same_info (i, o) (j, p) =
    nat_eq i j && (o.owner == p.owner && o.owner_group == p.owner_group && o.vo == p.vo)

-- the `set` of the rows, in their order
abbrev pub distinct : List (ℕ × QueueOwner) → List (ℕ × QueueOwner)
distinct [] = []
distinct (x ∷ xs) = let rest = distinct xs in if any (same_info x) rest then rest else x ∷ rest

-- `result[key] = result.get(key, 0) + 1`
abbrev pub count_owner : String → List (String × ℕ) → List (String × ℕ)
count_owner o [] = (o, 1) ∷ []
count_owner o ((p, n) ∷ counts) =
    let rest = count_owner o counts in if p == o then (p, n + 1) ∷ counts else (p, n) ∷ rest

abbrev pub count_owners : List (String × ℕ) → List String → List (String × ℕ)
count_owners counts [] = counts
count_owners counts (o ∷ owners) = count_owners (count_owner o counts) owners

abbrev pub keep_entries : ℕ → List Entry → List Entry
keep_entries tq_id = delete λ (e : Entry). nat_eq e.tq_id tq_id

module _ {W : Type 0} where
  abbrev pub owner_of : TaskQueue W → QueueOwner
  owner_of q = record { owner = q.owner; owner_group = q.owner_group; vo = q.vo }

  abbrev pub is_queued_in : TaskQueue W → QueuedJob W → Bool
  is_queued_in q j = nat_eq q.tq_id j.tq_id

  abbrev pub is_job_of : List ℕ → QueuedJob W → Bool
  is_job_of job_ids j = is_in job_ids j.job_id

  unfoldable pub get_tq_infos_for_jobs : List ℕ → Action (TaskQueueDb W) (List (ℕ × QueueOwner))
  get_tq_infos_for_jobs job_ids = query λ s. distinct (
      map (λ (r : TaskQueue W × QueuedJob W). (r.0.tq_id, owner_of r.0))
        (join_on (λ (q : TaskQueue W) (j : QueuedJob W). is_queued_in q j && is_job_of job_ids j)
          s.task_queues s.jobs))

  abbrev pub is_queue : ℕ → TaskQueue W → Bool
  is_queue tq_id q = nat_eq q.tq_id tq_id

  unfoldable pub get_owner_for_task_queue : ℕ → Action (TaskQueueDb W) QueueOwner
  get_owner_for_task_queue tq_id s = one (map owner_of (select (is_queue tq_id) s.task_queues)) s

  -- the owners of the group with the number of their queues, in the order of the first ones
  unfoldable pub get_task_queue_owners_by_group :
      String → Action (TaskQueueDb W) (List (String × ℕ))
  get_task_queue_owners_by_group group = query λ s. count_owners [] (
      map (λ (q : TaskQueue W). q.owner)
        (select (λ (q : TaskQueue W). q.owner_group == group) s.task_queues))

  unfoldable pub remove_jobs : List ℕ → Action (TaskQueueDb W) (Unit {0})
  remove_jobs job_ids s = returns tt (record s { jobs = delete (is_job_of job_ids) s.jobs })

  -- enabled, with the identifier and without a job
  abbrev pub is_idle : ℕ → List (QueuedJob W) → TaskQueue W → Bool
  is_idle tq_id jobs q = q.enabled && is_queue tq_id q && not (exists (is_queued_in q) jobs)

  -- the row count of the query is the number of its rows
  unfoldable pub is_task_queue_empty : ℕ → Action (TaskQueueDb W) Bool
  is_task_queue_empty tq_id = query λ s. nat_eq (rowcount (is_idle tq_id s.jobs) s.task_queues) 0

  -- the row of the queue, and by `ondelete="CASCADE"` those of the other tables
  unfoldable pub delete_task_queue : ℕ → Action (TaskQueueDb W) (Unit {0})
  delete_task_queue tq_id s = returns tt (record {
    task_queues = delete (is_queue tq_id) s.task_queues;
    jobs = delete (λ (j : QueuedJob W). nat_eq j.tq_id tq_id) s.jobs;
    sites = keep_entries tq_id s.sites;
    grid_ces = keep_entries tq_id s.grid_ces;
    banned_sites = keep_entries tq_id s.banned_sites;
    platforms = keep_entries tq_id s.platforms;
    job_types = keep_entries tq_id s.job_types;
    tags = keep_entries tq_id s.tags;
  })

  abbrev pub with_priority : W → TaskQueue W → TaskQueue W
  with_priority priority q = record q { priority = priority }

  unfoldable pub set_priorities : List ℕ → W → Action (TaskQueueDb W) (Unit {0})
  set_priorities tq_ids priority s = returns tt (record s {
    task_queues =
        update (λ (q : TaskQueue W). is_in tq_ids q.tq_id) (with_priority priority) s.task_queues;
  })

  -- `rows`: the queues that have a job, a site and a CE, of the identifiers that are given
  abbrev pub is_retrieved : Option (List ℕ) → TaskQueueDb W → TaskQueue W → Bool
  is_retrieved tq_id_list s q =
      exists (is_queued_in q) s.jobs
      && exists (λ (e : Entry). nat_eq q.tq_id e.tq_id) s.sites
      && exists (λ (e : Entry). nat_eq q.tq_id e.tq_id) s.grid_ces
      && elim tq_id_list [ none ↦ true | some ids ↦ is_in ids q.tq_id ]

  -- `dict(dict(row._mapping) for row in rows)`: each row is a `dict` of seven keys, where `dict`
  -- wants pairs, so that one row raises `ValueError`. Without rows the loops have no queue to fill.
  abbrev pub dict_of_rows :
      List (TaskQueue W) → Action (TaskQueueDb W) (List (ℕ × List (String × String)))
  dict_of_rows [] s = returns [] s
  dict_of_rows (_ ∷ _) s = raises value_error s

  unfoldable pub retrieve_task_queues :
      Option (List ℕ) → Action (TaskQueueDb W) (List (ℕ × List (String × String)))
  retrieve_task_queues (some []) s = returns [] s
  retrieve_task_queues (some (i ∷ ids)) s =
      dict_of_rows (select (is_retrieved (some (i ∷ ids)) s) s.task_queues) s
  retrieve_task_queues none s = dict_of_rows (select (is_retrieved none s) s.task_queues) s

  module _ ⦃f : Float W⦄ where
    -- the owner of a queue, where `if owner:` asks for one
    abbrev pub is_asked : String → Option String → TaskQueue W → Bool
    is_asked group none q = q.owner_group == group
    is_asked group (some o) q = q.owner_group == group && (o == "" || q.owner == o)

    -- the mean of the priorities of the jobs of a queue that has one
    abbrev pub mean_priority : List (QueuedJob W) → W
    mean_priority jobs =
        f.div (sum (map (λ (j : QueuedJob W). j.real_priority) jobs)) (f.of_nat (length jobs))

    abbrev pub priorities_of : List (QueuedJob W) → List (TaskQueue W) → List (ℕ × W)
    priorities_of jobs [] = []
    priorities_of jobs (q ∷ queues) =
        let rest = priorities_of jobs queues in
        if exists (is_queued_in q) jobs
        then (q.tq_id, mean_priority (select (is_queued_in q) jobs)) ∷ rest
        else rest

    unfoldable pub get_task_queue_priorities :
        String → Option String → Action (TaskQueueDb W) (List (ℕ × W))
    get_task_queue_priorities group owner =
        query λ s. priorities_of s.jobs (select (is_asked group owner) s.task_queues)
