-- ===== src/TaskQueue/Recalculate.antt =====
-- `recalculate_tq_shares_for_entity`, `set_priorities_for_entity` (diracx-logic/src/diracx/logic/task_queues/priority.py)
-- and `remove_jobs_from_task_queue` (diracx-logic/src/diracx/logic/jobs/status.py).
use diracx.Prelude.{
  ℕ, String, Bool, false, Option, none, some, List, [], ◌∷◌, mem, lookup, length, ltb,
  if◌then◌else◌,
}
use diracx.Prelude.Outcome.{Action, pure, lift, ◌>>=◌, ◌>>◌}
use diracx.Prelude.Floats.{Float}
use diracx.Config.{Config, group_of}
use diracx.TaskQueue.Db.{
  QueueOwner, TaskQueueDb, get_tq_infos_for_jobs, get_task_queue_owners_by_group, remove_jobs,
  is_task_queue_empty, delete_task_queue, set_priorities, retrieve_task_queues,
  get_task_queue_priorities,
}
use diracx.TaskQueue.Dicts.{keys}
use diracx.TaskQueue.Shares.{calculate_priority}

-- `owner in owners and owners[owner] > 1`
abbrev pub has_more_than_one : String → List (String × ℕ) → Bool
has_more_than_one owner owners = elim (lookup owner owners) [ none ↦ false | some n ↦ ltb 1 n ]

module _ {W : Type 0} ⦃f : Float W⦄ where
  unfoldable pub set_each : List (W × List ℕ) → Action (TaskQueueDb W) (Unit {0})
  set_each [] = pure tt
  set_each ((prio, tqs) ∷ prio_dict) = do set_priorities tqs prio; set_each prio_dict

  -- `set_priorities_for_entity`, from the priorities of the queues on
  unfoldable pub share_out : W → Bool → List (ℕ × W) → Action (TaskQueueDb W) (Unit {0})
  unfolding set_each
  share_out job_share allow_background_tqs [] = pure tt
  share_out job_share allow_background_tqs (x ∷ tq_dict) = do
    rows ← retrieve_task_queues (some (keys (x ∷ tq_dict)))
    prio_dict ← lift (calculate_priority (x ∷ tq_dict) rows job_share allow_background_tqs)
    set_each prio_dict

  unfoldable pub set_priorities_for_entity :
      String → W → Bool → Option String → Action (TaskQueueDb W) (Unit {0})
  unfolding share_out
  set_priorities_for_entity owner_group job_share allow_background_tqs owner = do
    tq_dict ← get_task_queue_priorities owner_group owner
    share_out job_share allow_background_tqs tq_dict

  -- `for owner in owners`
  unfoldable pub set_for_owners :
      String → W → Bool → List (String × ℕ) → Action (TaskQueueDb W) (Unit {0})
  unfolding set_priorities_for_entity
  set_for_owners owner_group share allow_background_tqs [] = pure tt
  set_for_owners owner_group share allow_background_tqs ((owner, _) ∷ owners) = do
    set_priorities_for_entity owner_group share allow_background_tqs (some owner)
    set_for_owners owner_group share allow_background_tqs owners

  -- the split of the share among the owners
  unfoldable pub split_share :
      String → String → W → Bool → List (String × ℕ) → Action (TaskQueueDb W) (Unit {0})
  unfolding set_for_owners
  split_share owner owner_group job_share allow_background_tqs [] = pure tt
  split_share owner owner_group job_share allow_background_tqs (o ∷ owners) =
      let share = f.div job_share (f.of_nat (length (o ∷ owners))) in
      if has_more_than_one owner (o ∷ owners)
      then set_priorities_for_entity owner_group share allow_background_tqs (some owner)
      else set_for_owners owner_group share allow_background_tqs (o ∷ owners)

  unfoldable pub recalculate_tq_shares_for_entity :
      String → String → String → Config → Action (TaskQueueDb W) (Unit {0})
  unfolding split_share
  recalculate_tq_shares_for_entity owner owner_group vo config = do
    group ← lift (group_of config vo owner_group)
    if mem "JobSharing" group.properties
        then set_priorities_for_entity owner_group (f.of_nat group.job_share)
            group.allow_background_tqs none
        else (get_task_queue_owners_by_group owner_group >>= λ owners.
            split_share owner owner_group (f.of_nat group.job_share) group.allow_background_tqs
              owners)

  -- the loop over the queues of the removed jobs
  unfoldable pub remove_empty : Config → List (ℕ × QueueOwner) → Action (TaskQueueDb W) (Unit {0})
  unfolding recalculate_tq_shares_for_entity
  remove_empty config [] = pure tt
  remove_empty config ((tq_id, o) ∷ tq_infos) = is_task_queue_empty tq_id >>= λ empty.
      if empty
      then (delete_task_queue tq_id
          >> recalculate_tq_shares_for_entity o.owner o.owner_group o.vo config
          >> remove_empty config tq_infos)
      else remove_empty config tq_infos

  unfoldable pub remove_jobs_from_task_queue : List ℕ → Config → Action (TaskQueueDb W) (Unit {0})
  unfolding remove_empty
  remove_jobs_from_task_queue job_ids config = do
    remove_jobs job_ids
    tq_infos ← get_tq_infos_for_jobs job_ids
    remove_empty config tq_infos
