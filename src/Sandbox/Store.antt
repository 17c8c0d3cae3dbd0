-- ===== src/Sandbox/Store.antt =====
-- The sandbox store's logic (diracx-logic/src/diracx/logic/jobs/sandboxes.py).
use diracx.Prelude.{
  ℕ, zero, suc, ◌+◌, ◌*◌, String, Bool, true, false, not, ◌||◌, Option, none, some, List, [], ◌∷◌,
  ltb, length, map,
}
use diracx.Prelude.Text.{append, split, after_first, join}
use diracx.Prelude.Outcome.{
  Error, value_error, runtime_error, sandbox_not_found_error, sandbox_already_inserted_error,
  Action, Result, ok, err, pure, raise, lift, handle, ensure, ◌>>=◌, ◌>>◌,
}
use diracx.Sandbox.Db
use diracx.Sandbox.Db.{
  UserInfo, SandboxInfo, SandboxType, input, output, SandboxDb, get_owner_id, insert_owner, get_pfn,
  sandbox_is_assigned, update_sandbox_last_access_time,
}
use diracx.Sandbox.Mapping.{
  get_sandbox_assigned_to_job, assign_sandbox_to_jobs, unassign_sandboxes_to_jobs,
}
use diracx.Sandbox.Cleanup.{Server, delete_unused_sandboxes}
use diracx.Utils.Batched.{batched_async}

pub record SandboxStoreSettings : Type 0 where
  pub bucket_name : String
  pub se_name : String
  pub url_validity_seconds : ℕ

pub record Upload : Type 0 where
  pub url : String
  pub fields : List (String × String)

-- An attempt at a bulk deletion: it has no errors, it has some or raises ClientError, or it raises another exception.
pub data Attempt : Type 0 where
  deleted refused : Attempt
  fails : Error → Attempt

-- What the S3 client answers: whether an object is there, the presigned URLs, and the answers to
-- the attempts at a bulk deletion.
pub record S3Client : Type 0 where
  pub object_exists : String → String → Bool
  pub presigned_upload : String → String → String → String → ℕ → ℕ → Upload
  pub presigned_url : String → String → ℕ → String
  pub delete_objects : String → List String → ℕ → Attempt

pub record SandboxUploadResponse : Type 0 where
  pub pfn : String
  pub upload : Option Upload

pub record SandboxDownloadResponse : Type 0 where
  pub url : String
  pub expires_in : ℕ

abbrev pub max_sandbox_size_bytes : ℕ
max_sandbox_size_bytes = 100 * 1024 * 1024

-- `xs[n:]`
abbrev drop {ℓ} : {A : Type ℓ} → ℕ → List A → List A
drop zero xs = xs
drop (suc n) [] = []
drop (suc n) (_ ∷ xs) = drop n xs

unfoldable pub pfn_to_key : String → String
pfn_to_key pfn = join "/" (drop 3 (split b'/' pfn))

-- `pfn.split("|", 1)[-1]`
unfoldable pub short_pfn_of : String → String
short_pfn_of pfn = elim (after_first b'|' pfn) [ none ↦ pfn | some rest ↦ rest ]

-- `if owner_id is None: owner_id = await insert_owner(user)`
unfoldable pub owner_or_insert : UserInfo → Option ℕ → Action SandboxDb ℕ
owner_or_insert user none = insert_owner user
owner_or_insert user (some owner_id) = pure owner_id

-- `except SandboxAlreadyInsertedError`
abbrev pub on_already_inserted : Action SandboxDb (Unit {0}) → Error → Action SandboxDb (Unit {0})
on_already_inserted m sandbox_already_inserted_error = m
on_already_inserted m e = raise e

unfoldable pub insert_sandbox : ℕ → String → UserInfo → String → ℕ → Action SandboxDb (Unit {0})
unfolding owner_or_insert
insert_sandbox now se_name user pfn size = do
  found ← get_owner_id user
  owner_id ← owner_or_insert user found
  handle (Db.insert_sandbox now owner_id se_name pfn size)
      (on_already_inserted (update_sandbox_last_access_time now se_name pfn))

-- `except SandboxNotFoundError: pass`, with `none` for a sandbox that is not there
abbrev pub on_not_found : Error → Action SandboxDb (Option Bool)
on_not_found sandbox_not_found_error = pure none
on_not_found e = raise e

unfoldable pub find_assigned : String → String → Action SandboxDb (Option Bool)
find_assigned pfn se_name =
    handle (do assigned ← sandbox_is_assigned pfn se_name; pure (some assigned)) on_not_found

module _ (client : S3Client) (settings : SandboxStoreSettings) where
  unfoldable pub is_uploaded : String → Option Bool → Bool
  is_uploaded pfn none = false
  is_uploaded pfn (some assigned) =
      assigned || client.object_exists settings.bucket_name (pfn_to_key pfn)

  -- the two answers, by whether the sandbox is there
  unfoldable pub answer_upload :
      ℕ → UserInfo → SandboxInfo → String → String → Bool → Action SandboxDb SandboxUploadResponse
  answer_upload now user info pfn full_pfn true = do
    update_sandbox_last_access_time now settings.se_name pfn
    pure (record { pfn = full_pfn; upload = none })
  answer_upload now user info pfn full_pfn false = do
    insert_sandbox now settings.se_name user pfn info.size
    pure (record {
      pfn = full_pfn;
      upload = some (
          client.presigned_upload settings.bucket_name (pfn_to_key pfn) info.checksum_algorithm
            info.checksum info.size settings.url_validity_seconds);
    })

  unfoldable pub initiate_sandbox_upload :
      ℕ → UserInfo → SandboxInfo → Action SandboxDb SandboxUploadResponse
  unfolding find_assigned is_uploaded answer_upload
  initiate_sandbox_upload now user info = do
    let pfn = get_pfn settings.bucket_name user info
    ensure (not (ltb max_sandbox_size_bytes info.size)) value_error
    let full_pfn = append "SB:" (append settings.se_name (append "|" pfn))
    found ← find_assigned pfn settings.se_name
    answer_upload now user info pfn full_pfn (is_uploaded pfn found)

  unfoldable pub get_sandbox_file : ℕ → String → Action SandboxDb SandboxDownloadResponse
  get_sandbox_file now pfn = do
    let short_pfn = short_pfn_of pfn
    update_sandbox_last_access_time now settings.se_name short_pfn
    pure (record {
      url =
          client.presigned_url settings.bucket_name (pfn_to_key short_pfn)
            settings.url_validity_seconds;
      expires_in = settings.url_validity_seconds;
    })

  unfoldable pub assign_sandbox_to_job : ℕ → String → Action SandboxDb (Unit {0})
  assign_sandbox_to_job job_id pfn =
      assign_sandbox_to_jobs (job_id ∷ []) (short_pfn_of pfn) output settings.se_name

  abbrev pub max_attempts : ℕ
  max_attempts = 5

  -- `s3_bulk_delete_with_retry`: the attempts from `attempt` on, of which `left` are left
  unfoldable pub delete_attempts : List String → ℕ → ℕ → Result (Unit {0})
  delete_attempts keys attempt zero = err runtime_error
  delete_attempts keys attempt (suc left) =
      elim (client.delete_objects settings.bucket_name keys attempt) [
        | deleted ↦ ok tt
        | refused ↦ delete_attempts keys (attempt + 1) left
        | fails e ↦ err e
      ]

  unfoldable pub s3_bulk_delete_with_retry : List String → Result (Unit {0})
  unfolding delete_attempts
  s3_bulk_delete_with_retry keys = delete_attempts keys 1 max_attempts

  -- the batches of the task group, and the number of their objects
  unfoldable pub delete_batches : List (List String) → Result ℕ
  unfolding s3_bulk_delete_with_retry pfn_to_key
  delete_batches [] = ok 0
  delete_batches (batch ∷ batches) = elim (s3_bulk_delete_with_retry (map pfn_to_key batch)) [
    | err e ↦ err e
    | ok _ ↦ elim (delete_batches batches) [ err e ↦ err e | ok n ↦ ok (length batch + n) ]
  ]

  unfoldable pub delete_from_s3 : List String → Action SandboxDb ℕ
  unfolding delete_batches batched_async
  delete_from_s3 pfns = lift (delete_batches (batched_async 500 false pfns).yielded)

  unfoldable pub clean_sandboxes : Server → Option ℕ → Action SandboxDb ℕ
  unfolding delete_from_s3
  clean_sandboxes server limit = delete_unused_sandboxes server limit delete_from_s3

unfoldable pub get_job_sandboxes :
    ℕ → Action SandboxDb (List (Option String) × List (Option String))
get_job_sandboxes job_id = do
  input_sb ← get_sandbox_assigned_to_job job_id input
  output_sb ← get_sandbox_assigned_to_job job_id output
  pure (input_sb, output_sb)

unfoldable pub get_job_sandbox : ℕ → SandboxType → Action SandboxDb (List (Option String))
get_job_sandbox job_id sandbox_type = get_sandbox_assigned_to_job job_id sandbox_type

unfoldable pub unassign_jobs_sandboxes : List ℕ → Action SandboxDb (Unit {0})
unassign_jobs_sandboxes jobs_ids = unassign_sandboxes_to_jobs jobs_ids
