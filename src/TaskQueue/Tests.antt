-- ===== src/TaskQueue/Tests.antt =====
-- Runs of the task queues, with priorities in thousandths.
use mathlib.Core.List.{Perm}
use diracx.Prelude.{ℕ, String, true, false, List, [], ◌∷◌, ◌≡◌, refl}
use diracx.Prelude.Text.{join}
use diracx.Prelude.Table.{select, delete, rowcount, exists, update}
use diracx.Prelude.Outcome.{value_error, ok, returns, raises, ◌>>=◌}
use diracx.Prelude.Floats.{thousandths, thousandths-IsOrdered}
use diracx.Config.{Config, registry_of, group_of}
use diracx.TaskQueue.Db.{
  Entry, TaskQueue, QueuedJob, TaskQueueDb, is_job_of, get_task_queue_owners_by_group,
  is_task_queue_empty, retrieve_task_queues, get_task_queue_priorities, set_priorities,
}
use diracx.TaskQueue.Dicts.{Fields, keys, members, text_lt, insert_field, sort_fields}
use diracx.TaskQueue.Shares.{
  tq_hash, group_by_hash, update_prios, prios_of, set_all, share_groups, group_by_priority,
  calculate_priority,
}
use diracx.TaskQueue.Recalculate.{
  set_each, share_out, set_priorities_for_entity, set_for_owners, split_share,
  recalculate_tq_shares_for_entity, remove_jobs_from_task_queue,
}
use diracx.TaskQueue.Bounds.{EnoughKeys, calculate_priority_bounded}
use diracx.TaskQueue.Grouping.{calculate_priority-perm}
use diracx.TaskQueue.Removal.{remove_jobs_from_task_queue-keeps_queues}

abbrev fields_of : String → Fields
fields_of owner = ("Owner", owner) ∷ ("CPUTime", "86400") ∷ ("Jobs", "1") ∷ ("Sites", owner) ∷ []

-- the first and the third queue are alike, the second is in the background
abbrev some_prios : List (ℕ × ℕ)
some_prios = (1, 6000) ∷ (2, 50) ∷ (3, 2000) ∷ []

abbrev some_data : List (ℕ × Fields)
some_data = (1, fields_of "chaen") ∷ (3, fields_of "chaen") ∷ (2, fields_of "fstagni") ∷ []

calculate_priority_groups :
    calculate_priority some_prios some_data 8000 true ≡ ok ((8000, 1 ∷ 3 ∷ []) ∷ (1, 2 ∷ []) ∷ [])
unfolding calculate_priority update_prios group_by_hash tq_hash share_groups prios_of set_all
    group_by_priority sort_fields insert_field text_lt select join
calculate_priority_groups = refl

calculate_priority_bounded_example :
    EnoughKeys thousandths-IsOrdered ((8000, 1 ∷ 3 ∷ []) ∷ (1, 2 ∷ []) ∷ [])
calculate_priority_bounded_example =
    calculate_priority_bounded thousandths-IsOrdered some_prios some_data 8000 true
      calculate_priority_groups

calculate_priority-perm_example :
    Perm (members {K = ℕ} ((8000, 1 ∷ 3 ∷ []) ∷ (1, 2 ∷ []) ∷ [])) (keys some_prios)
calculate_priority-perm_example =
    calculate_priority-perm some_prios some_data 8000 true calculate_priority_groups

abbrev queue_of : ℕ → String → TaskQueue ℕ
queue_of i owner = record {
  tq_id = i;
  owner = owner;
  owner_group = "lhcb_user";
  vo = "lhcb";
  cpu_time = 86400;
  priority = 1000;
  enabled = true;
}

abbrev job_in : ℕ → ℕ → QueuedJob ℕ
job_in i job = record { tq_id = i; job_id = job; priority = 5; real_priority = 5000 }

abbrev entry_of : ℕ → Entry
entry_of i = record { tq_id = i; value = "ANY" }

-- the second queue has a site and a CE, the first has none
abbrev some_queues : TaskQueueDb ℕ
some_queues = record {
  task_queues = queue_of 1 "chaen" ∷ queue_of 2 "fstagni" ∷ [];
  jobs = job_in 1 10 ∷ job_in 2 20 ∷ [];
  sites = entry_of 2 ∷ [];
  grid_ces = entry_of 2 ∷ [];
  banned_sites = [];
  platforms = [];
  job_types = [];
  tags = [];
}

abbrev some_config : Config
some_config = record {
  registry =
      (
        "lhcb",
        record {
          default_group = "lhcb_user";
          users = [];
          groups =
              (
                "lhcb_user",
                record {
                  job_share = 1000;
                  properties = [];
                  users = [];
                  allow_background_tqs = false;
                },
              )
              ∷ [];
        },
      )
      ∷ [];
}

remove_jobs_from_task_queue-keeps_queues_example :
    remove_jobs_from_task_queue (20 ∷ []) some_config some_queues
    ≡ returns tt (record some_queues { jobs = delete (is_job_of (20 ∷ [])) some_queues.jobs })
remove_jobs_from_task_queue-keeps_queues_example =
    remove_jobs_from_task_queue-keeps_queues (20 ∷ []) some_config some_queues

-- a queue with a job is said to be empty, one without is not
is_task_queue_empty_inverted :
    (is_task_queue_empty 1 some_queues ≡ returns true some_queues)
    × (is_task_queue_empty 1 (record some_queues { jobs = [] })
        ≡ returns false (record some_queues { jobs = [] }))
unfolding is_task_queue_empty rowcount exists ◌>>=◌
is_task_queue_empty_inverted = (refl, refl)

-- the queue without sites gets half of the share, and the other one makes the recalculation raise
recalculate_raises :
    recalculate_tq_shares_for_entity "fstagni" "lhcb_user" "lhcb" some_config some_queues
    ≡ raises value_error (record some_queues {
      task_queues = record (queue_of 1 "chaen") { priority = 500000 } ∷ queue_of 2 "fstagni" ∷ [];
    })
unfolding recalculate_tq_shares_for_entity split_share set_for_owners set_priorities_for_entity
    share_out get_task_queue_owners_by_group get_task_queue_priorities retrieve_task_queues group_of
    registry_of select update calculate_priority update_prios group_by_hash share_groups
    group_by_priority set_each set_priorities exists ◌>>=◌
recalculate_raises = refl
