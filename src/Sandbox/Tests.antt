-- ===== src/Sandbox/Tests.antt =====
-- Runs of the sandbox store on a small database.
use diracx.Prelude.{ℕ, ◌≡◌, refl, String, Bool, true, false, none, List, [], ◌∷◌, nat_eq, arith}
use diracx.Prelude.Table.{update, select, delete, exists, rowcount, join_on}
use diracx.Prelude.Outcome.{◌>>=◌}
use diracx.Sandbox.Db.{Sandbox, input, SandboxDb, UserInfo, SandboxInfo}
use diracx.Sandbox.Cleanup.{select_unused, pfns_of, delete_sandboxes, delete_unused_sandboxes}
use diracx.Sandbox.Store.{
  deleted, refused, S3Client, SandboxStoreSettings, pfn_to_key, s3_bulk_delete_with_retry,
  delete_batches, delete_from_s3, clean_sandboxes,
}
use diracx.Utils.Batched.{batched_async}
use diracx.Sandbox.Rows.{has_id}
use diracx.Sandbox.Linked.{IsLinked}
use diracx.Sandbox.Requests.{
  SandboxRequest, upload, assign_to_jobs, unassign, clean, serve_all, serve_all-IsLinked,
  clean_sandboxes-keeps_mapped,
}
use diracx.Prelude.{if◌then◌else◌, ◌≤◌, some}
use diracx.Prelude.Text.{append, split, join, after_first}
use diracx.Prelude.Outcome.{returns}
use diracx.Sandbox.Db
use diracx.Sandbox.Db.{is_at, get_pfn, get_owner_id, insert_owner, sandbox_is_assigned}
use diracx.Sandbox.Mapping.{has_pfn, set_assigned}
use diracx.Sandbox.Cleanup.{Server, mysql, sqlite, days_since}
use text.Mathlib.Text.{starts_with}
use diracx.Sandbox.Store.{
  assign_sandbox_to_job, short_pfn_of, initiate_sandbox_upload, find_assigned, is_uploaded,
  answer_upload, insert_sandbox, owner_or_insert, max_sandbox_size_bytes,
}
use diracx.Sandbox.Outcomes.{assign_sandbox_to_job-elsewhere}
use diracx.Sandbox.Uploads.{initiate_sandbox_upload-stored}

abbrev client : S3Client
client = record {
  object_exists = λ bucket key. false;
  presigned_upload =
      λ bucket key algorithm checksum size validity. record { url = key; fields = [] };
  presigned_url = λ bucket key validity. key;
  delete_objects = λ bucket keys attempt. if nat_eq attempt 2 then deleted else refused;
}

-- the cleanup at a time
abbrev server_at : ℕ → Server
server_at now = record { dialect = mysql; now = now; like = λ s t. starts_with s "/S3/" }

abbrev settings : SandboxStoreSettings
settings = record { bucket_name = "bucket"; se_name = "SE"; url_validity_seconds = 60 }

abbrev alice : UserInfo
alice = record { preferred_username = "alice"; dirac_group = "user"; vo = "lhcb" }

abbrev info : SandboxInfo
info = record { checksum_algorithm = "sha256"; checksum = "c0"; size = 10; format = "tar.bz2" }

abbrev empty_db : SandboxDb
empty_db = record { owners = []; sandboxes = []; mappings = []; next_owner_id = 1; next_sb_id = 1 }

empty_db-IsLinked : IsLinked empty_db
unfolding exists rowcount
empty_db-IsLinked = record {
  at = λ i. record {
    unique = omega arith;
    stored = refl;
    assigned = refl;
    unused_id = ground arith;
  };
}

abbrev alice_pfn : String
alice_pfn = "/S3/bucket/lhcb/user/alice/sha256:c0.tar.bz2"

-- an upload, its assignment to two jobs, and the release of one, between two cleanups
abbrev requests : List SandboxRequest
requests =
    upload client 100 alice info
    ∷ clean client (server_at 200) none
    ∷ assign_to_jobs (1 ∷ 2 ∷ []) alice_pfn input "SE"
    ∷ unassign (1 ∷ [])
    ∷ clean client (server_at 9000000) none
    ∷ []

serve_all-IsLinked_example : IsLinked (serve_all settings empty_db requests)
serve_all-IsLinked_example = serve_all-IsLinked settings empty_db requests empty_db-IsLinked

abbrev sandbox : ℕ → Bool → String → Sandbox
sandbox i assigned pfn = record {
  sb_id = i;
  owner_id = 1;
  se_name = "SE";
  pfn = pfn;
  bytes = 10;
  registration_time = 100;
  last_access_time = 100;
  assigned = assigned;
}

-- the first sandbox is mapped, the second is not
abbrev db : SandboxDb
db = record {
  owners = record { owner_id = 1; owner = "alice"; owner_group = "user"; vo = "lhcb" } ∷ [];
  sandboxes = sandbox 1 true "/S3/b/a" ∷ sandbox 2 true "/S3/b/b" ∷ [];
  mappings = record { sb_id = 1; entity_id = "Job:1"; sb_type = input } ∷ [];
  next_owner_id = 2;
  next_sb_id = 3;
}

db-IsLinked : IsLinked db
unfolding exists rowcount
db-IsLinked = record {
  at = λ i. record {
    unique = ground arith;
    stored = ground arith;
    assigned = ground arith;
    unused_id = ground arith;
  };
}

abbrev cleaned : SandboxDb
cleaned = record db { sandboxes = sandbox 1 true "/S3/b/a" ∷ [] }

clean_sandboxes-keeps_mapped_example :
    select (has_id 1) cleaned.sandboxes ≡ select (has_id 1) db.sandboxes
unfolding clean_sandboxes delete_unused_sandboxes select_unused pfns_of delete_from_s3
    delete_batches s3_bulk_delete_with_retry batched_async delete_sandboxes pfn_to_key select delete
    exists join_on ◌>>=◌
clean_sandboxes-keeps_mapped_example =
    clean_sandboxes-keeps_mapped client settings (server_at 200) none db 1 {n = 1} {s' = cleaned}
      db-IsLinked refl refl

-- the storage element that the settings of another installation name
abbrev other_settings : SandboxStoreSettings
other_settings = record settings { se_name = "OtherSE" }

assign_sandbox_to_job-elsewhere_example :
    assign_sandbox_to_job client other_settings 4 "SB:OtherSE|/S3/b/b" db
    ≡ returns tt (record db {
      sandboxes =
          update (has_pfn (short_pfn_of "SB:OtherSE|/S3/b/b")) (set_assigned true) db.sandboxes;
    })
unfolding short_pfn_of select rowcount after_first
assign_sandbox_to_job-elsewhere_example =
    assign_sandbox_to_job-elsewhere client other_settings 4 "SB:OtherSE|/S3/b/b" db refl refl

abbrev uploaded : SandboxDb
uploaded = record {
  owners = record { owner_id = 1; owner = "alice"; owner_group = "user"; vo = "lhcb" } ∷ [];
  sandboxes =
      record (sandbox 1 false "/S3/bucket/lhcb/user/alice/sha256:c0.tar.bz2") { se_name = "SE" }
      ∷ [];
  mappings = [];
  next_owner_id = 2;
  next_sb_id = 2;
}

initiate_sandbox_upload-stored_example :
    (info.size ≤ max_sandbox_size_bytes)
    × (exists (is_at "SE" (get_pfn "bucket" alice info)) uploaded.sandboxes ≡ true)
    × ("SB:SE|/S3/bucket/lhcb/user/alice/sha256:c0.tar.bz2"
        ≡ append "SB:" (append "SE" (append "|" (get_pfn "bucket" alice info))))
unfolding initiate_sandbox_upload find_assigned is_uploaded answer_upload insert_sandbox
    owner_or_insert Db.insert_sandbox get_pfn get_owner_id insert_owner sandbox_is_assigned
    pfn_to_key select exists join split ◌>>=◌
initiate_sandbox_upload-stored_example =
    initiate_sandbox_upload-stored client settings 100 alice info empty_db
      {r = record {
        pfn = "SB:SE|/S3/bucket/lhcb/user/alice/sha256:c0.tar.bz2";
        upload = some (record { url = "lhcb/user/alice/sha256:c0.tar.bz2"; fields = [] });
      }}
      {s' = uploaded} refl

-- a day that begins counts on MySQL, and not on the others
days_counted :
    (days_since (server_at 86400) 86399 ≡ 1)
    × (days_since (record (server_at 86400) { dialect = sqlite }) 86399 ≡ 0)
unfolding days_since
days_counted = (refl, refl)
