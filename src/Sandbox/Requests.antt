-- ===== src/Sandbox/Requests.antt =====
-- The requests that the sandbox store serves, each in a transaction of its own
-- (diracx-logic/src/diracx/logic/jobs/sandboxes.py).
use diracx.Prelude.{ℕ, String, true, ◌≡◌, refl, subst, Option, List, [], ◌∷◌, arith}
use diracx.Prelude.Table.{select, delete}
use diracx.Prelude.Outcome.{Outcome, returns, raises, Action, ◌>>=◌}
use diracx.Prelude.Keeps.{Preserves, Preserves-of_Keeps}
use diracx.Sandbox.Db.{Sandbox, SandboxType, SandboxInfo, SandboxDb, UserInfo}
use diracx.Sandbox.Mapping.{assign_sandbox_to_jobs, among}
use diracx.Sandbox.Cleanup.{Server, select_unused, delete_sandboxes, delete_unused_sandboxes}
use diracx.Sandbox.Store.{
  S3Client, SandboxStoreSettings, initiate_sandbox_upload, get_sandbox_file, assign_sandbox_to_job,
  clean_sandboxes, delete_from_s3, unassign_jobs_sandboxes,
}
use diracx.Sandbox.Rows.{has_id}
use diracx.Sandbox.Linked.{IsLinked, is_mapped_id, unused-misses, keeps_mapped, cleanup-IsLinkedAt}
use diracx.Sandbox.Steps.{
  initiate_sandbox_upload-IsLinked, get_sandbox_file-IsLinked, assign-IsLinked, unassign-IsLinked,
}

-- A request, with the clock and the S3 answers where the store reads them.
pub data SandboxRequest : Type 0 where
  upload : S3Client → ℕ → UserInfo → SandboxInfo → SandboxRequest
  download : S3Client → ℕ → String → SandboxRequest
  assign_output : S3Client → ℕ → String → SandboxRequest
  assign_to_jobs : List ℕ → String → SandboxType → String → SandboxRequest
  unassign : List ℕ → SandboxRequest
  clean : S3Client → Server → Option ℕ → SandboxRequest

-- the state after a transaction: a request that raises is rolled back
abbrev pub commit_or_rollback : {A : Type 0} → Action SandboxDb A → SandboxDb → SandboxDb
commit_or_rollback m s = elim (m s) [ returns a s' ↦ s' | raises e s' ↦ s ]

module _ (settings : SandboxStoreSettings) where
  unfoldable pub serve : SandboxDb → SandboxRequest → SandboxDb
  serve s (upload client now user info) =
      commit_or_rollback (initiate_sandbox_upload client settings now user info) s
  serve s (download client now pfn) =
      commit_or_rollback (get_sandbox_file client settings now pfn) s
  serve s (assign_output client job_id pfn) =
      commit_or_rollback (assign_sandbox_to_job client settings job_id pfn) s
  serve s (assign_to_jobs jobs_ids pfn sb_type se_name) =
      commit_or_rollback (assign_sandbox_to_jobs jobs_ids pfn sb_type se_name) s
  serve s (unassign jobs_ids) = commit_or_rollback (unassign_jobs_sandboxes jobs_ids) s
  serve s (clean client server limit) =
      commit_or_rollback (clean_sandboxes client settings server limit) s

  unfoldable pub serve_all : SandboxDb → List SandboxRequest → SandboxDb
  unfolding serve
  serve_all s [] = s
  serve_all s (r ∷ rs) = serve_all (serve s r) rs

-- A cleanup that returns has deleted the sandboxes that it selected, and changed nothing else.
pub clean_sandboxes-effect :
    (client : S3Client) (settings : SandboxStoreSettings) (server : Server) (limit : Option ℕ)
    (s : SandboxDb) {n : ℕ} {s' : SandboxDb}
    → clean_sandboxes client settings server limit s ≡ returns n s'
    → record s {
      sandboxes =
          delete (λ (b : Sandbox). among (select_unused server limit s) b.sb_id) s.sandboxes;
    }
      ≡ s'
unfolding clean_sandboxes delete_unused_sandboxes delete_from_s3 delete_sandboxes ◌>>=◌
clean_sandboxes-effect client settings server limit s h = ground arith

clean-IsLinked :
    (client : S3Client) (settings : SandboxStoreSettings) (server : Server) (limit : Option ℕ)
    → Preserves IsLinked (clean_sandboxes client settings server limit)
clean-IsLinked client settings server limit = record {
  after_return = λ s e b.
      subst IsLinked (clean_sandboxes-effect client settings server limit s e)
        (record { at = λ i. cleanup-IsLinkedAt i s (b.at i) server limit });
}

commit_or_rollback-IsLinked :
    {A : Type 0} (m : Action SandboxDb A) (s : SandboxDb)
    → Preserves IsLinked m
    → IsLinked s
    → IsLinked (commit_or_rollback m s)
commit_or_rollback-IsLinked m s k b = by_outcome (m s) refl
  where
    by_outcome :
        (o : Outcome SandboxDb _)
        → m s ≡ o
        → IsLinked (elim o [ returns a s' ↦ s' | raises e s' ↦ s ])
    by_outcome (returns a s') e = k.after_return s e b
    by_outcome (raises e s') h = b

module _ (settings : SandboxStoreSettings) where
  serve-IsLinked : (s : SandboxDb) (r : SandboxRequest) → IsLinked s → IsLinked (serve settings s r)
  unfolding serve assign_sandbox_to_job unassign_jobs_sandboxes
  serve-IsLinked s (upload client now user info) =
      commit_or_rollback-IsLinked _ s
        (Preserves-of_Keeps _ _ (initiate_sandbox_upload-IsLinked client settings now user info))
  serve-IsLinked s (download client now pfn) =
      commit_or_rollback-IsLinked _ s
        (Preserves-of_Keeps _ _ (get_sandbox_file-IsLinked client settings now pfn))
  serve-IsLinked s (assign_output client job_id pfn) =
      commit_or_rollback-IsLinked _ s (assign-IsLinked (job_id ∷ []) _ _ settings.se_name)
  serve-IsLinked s (assign_to_jobs jobs_ids pfn sb_type se_name) =
      commit_or_rollback-IsLinked _ s (assign-IsLinked jobs_ids pfn sb_type se_name)
  serve-IsLinked s (unassign jobs_ids) =
      commit_or_rollback-IsLinked _ s (Preserves-of_Keeps _ _ (unassign-IsLinked jobs_ids))
  serve-IsLinked s (clean client server limit) =
      commit_or_rollback-IsLinked _ s (clean-IsLinked client settings server limit)

  -- From tables where it holds, and whatever requests are served in whatever order: identifiers of sandboxes stay
  -- unique, and a sandbox that a job is mapped to stays stored and assigned.
  pub serve_all-IsLinked :
      (s : SandboxDb) (rs : List SandboxRequest) → IsLinked s → IsLinked (serve_all settings s rs)
  unfolding serve_all
  serve_all-IsLinked s [] b = b
  serve_all-IsLinked s (r ∷ rs) b =
      serve_all-IsLinked (serve settings s r) rs (serve-IsLinked s r b)

-- On tables where identifiers are unique and mapped sandboxes assigned, a cleanup that returns keeps the row of every
-- sandbox that a job is mapped to as it was.
pub clean_sandboxes-keeps_mapped :
    (client : S3Client) (settings : SandboxStoreSettings) (server : Server) (limit : Option ℕ)
    (s : SandboxDb) (i : ℕ) {n : ℕ} {s' : SandboxDb}
    → IsLinked s
    → is_mapped_id i s ≡ true
    → clean_sandboxes client settings server limit s ≡ returns n s'
    → select (has_id i) s'.sandboxes ≡ select (has_id i) s.sandboxes
clean_sandboxes-keeps_mapped client settings server limit s i b mapped e =
    subst (λ (z : SandboxDb). select (has_id i) z.sandboxes ≡ select (has_id i) s.sandboxes)
      (clean_sandboxes-effect client settings server limit s e)
      (keeps_mapped i s (b.at i) (select_unused server limit s)
        (unused-misses i s (b.at i) server limit mapped))
