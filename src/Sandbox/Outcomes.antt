-- ===== src/Sandbox/Outcomes.antt =====
-- Outcomes of the operations of the sandbox store (diracx-logic/src/diracx/logic/jobs/sandboxes.py).
use diracx.Prelude.{ℕ, zero, suc, ◌+◌, String, Bool, true, false, ◌≡◌, List, [], ◌∷◌, arith}
use mathlib.Core.List.{append-nil}
use diracx.Prelude.Table.{select, update, rowcount}
use diracx.Prelude.Outcome.{runtime_error, returns, Result, ok, err, ◌>>=◌}
use diracx.Sandbox.Db.{SandboxDb, is_at}
use diracx.Sandbox.Mapping.{
  insert_mapping, mark_assigned, assign_sandbox_to_jobs, has_pfn, set_assigned,
}
use diracx.Sandbox.Store.{
  Attempt, deleted, refused, fails, S3Client, SandboxStoreSettings, assign_sandbox_to_job,
  short_pfn_of,
}

module _ (client : S3Client) (settings : SandboxStoreSettings) where
  -- An output sandbox is assigned to a job although the storage element has no sandbox at its path, if exactly one
  -- sandbox of any storage element has the path: that sandbox is marked as assigned and no mapping is stored.
  pub assign_sandbox_to_job-elsewhere :
      (job_id : ℕ) (pfn : String) (s : SandboxDb)
      → select (is_at settings.se_name (short_pfn_of pfn)) s.sandboxes ≡ []
      → rowcount (has_pfn (short_pfn_of pfn)) s.sandboxes ≡ 1
      → assign_sandbox_to_job client settings job_id pfn s
        ≡ returns tt (record s {
          sandboxes = update (has_pfn (short_pfn_of pfn)) (set_assigned true) s.sandboxes;
        })
  unfolding assign_sandbox_to_job assign_sandbox_to_jobs insert_mapping mark_assigned ◌>>=◌
  assign_sandbox_to_job-elsewhere job_id pfn s nowhere once = ground (arith, append-nil s.mappings)

  -- what the first attempt that is not refused means, and the failure where all are
  abbrev pub settled_by : List Attempt → Result (Unit {0})
  settled_by (deleted ∷ _) = ok tt
  settled_by (fails e ∷ _) = err e
  settled_by _ = err runtime_error

  abbrev pub is_settled : Attempt → Bool
  is_settled refused = false
  is_settled _ = true

  -- the answers of S3 to `n` attempts from `attempt` on
  abbrev pub answers : List String → ℕ → ℕ → List Attempt
  answers keys attempt zero = []
  answers keys attempt (suc n) =
      client.delete_objects settings.bucket_name keys attempt ∷ answers keys (attempt + 1) n
