-- ===== src/Jobs/Partition.antt =====
-- Which jobs `set_job_statuses` changes (diracx-logic/src/diracx/logic/jobs/status.py).
use diracx.Prelude.{ℕ, Bool, ◌||◌, List, map, is_in}
use diracx.Prelude.Table.{select}
use diracx.Prelude.Floats.{Float}
use diracx.Config.{Config}
use diracx.Jobs.Db.{JobRow, job_keys}
use diracx.Jobs.Wms.{Wms, StatusUtility}
use diracx.Jobs.Status.{Plan, StatusChanges}

abbrev job_ids_of : List JobRow → List ℕ
job_ids_of rows = map (λ (r : JobRow). r.job_id) rows

-- the jobs that a plan accounts for
abbrev is_planned : Plan → ℕ → Bool
is_planned plan j = is_in (job_keys plan.attribute_updates) j || is_in plan.skipped j

module _ {W : Type 0} ⦃f : Float W⦄ (dirac : StatusUtility) (config : Config) (clock : ℕ → ℕ) where
  abbrev found_rows : StatusChanges → Wms W → List JobRow
  found_rows c s = select (λ (r : JobRow). is_in (job_keys c.changes) r.job_id) s.jobs.jobs
