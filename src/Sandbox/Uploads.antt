-- ===== src/Sandbox/Uploads.antt =====
-- What a request for an upload stores (diracx-logic/src/diracx/logic/jobs/sandboxes.py).
use diracx.Prelude.{
  ℕ, ◌≤◌, String, Bool, true, false, ◌≡◌, refl, sym, ap, subst, [], ◌∷◌, eq_refl, arith, Bool-cases,
  inl, inr,
}
use diracx.Prelude.Text.{append}
use diracx.Prelude.Table.{exists}
use diracx.Prelude.Table.Laws.{exists-append, exists-update}
use diracx.Prelude.Outcome.{
  handle, returns, ◌>>=◌, >>=-eq-returns, ensure-eq-returns, pure-eq-returns,
}
use diracx.Sandbox.Db
use diracx.Sandbox.Db.{
  Sandbox, SandboxDb, UserInfo, SandboxInfo, is_at, get_pfn, touch, new_sandbox, check_rowcount,
  update_sandbox_last_access_time,
}
use diracx.Sandbox.Store.{
  S3Client, SandboxStoreSettings, SandboxUploadResponse, initiate_sandbox_upload,
  max_sandbox_size_bytes, answer_upload, insert_sandbox, on_already_inserted,
}
use diracx.Prelude.Table.Counts.{rowcount_zero}

module _ (now : ℕ) (se_name pfn : String) where
  abbrev is_stored : SandboxDb → Bool
  is_stored s = exists (is_at se_name pfn) s.sandboxes

  touch-stored :
      (s : SandboxDb) {u : Unit {0}} {s' : SandboxDb}
      → update_sandbox_last_access_time now se_name pfn s ≡ returns u s'
      → is_stored s' ≡ true
  unfolding update_sandbox_last_access_time
  touch-stored s h = elim (Bool-cases (is_stored s)) [
    | inl stored ↦ ground (
      arith,
      exists-update (is_at se_name pfn) (is_at se_name pfn) (touch now) s.sandboxes (λ r. refl),
    )
    | inr free ↦ ground (arith, rowcount_zero (is_at se_name pfn) s.sandboxes free)
  ]

  insert-stored :
      (owner_id size : ℕ) (s : SandboxDb) {u : Unit {0}} {s' : SandboxDb}
      → handle
          (Db.insert_sandbox now owner_id se_name pfn size)
          (on_already_inserted (update_sandbox_last_access_time now se_name pfn))
          s
        ≡ returns u s'
      → is_stored s' ≡ true
  unfolding Db.insert_sandbox exists ◌>>=◌
  insert-stored owner_id size s {u} {s'} h = elim (Bool-cases (is_stored s)) [
    | inl stored ↦ touch-stored s {u = u} {s' = s'} (ground arith)
    | inr free ↦ ground (
      arith,
      eq_refl se_name,
      eq_refl pfn,
      exists-append (is_at se_name pfn) s.sandboxes
          (new_sandbox s.next_sb_id now owner_id se_name pfn size ∷ []),
    )
  ]

  insert_sandbox-stored :
      (user : UserInfo) (size : ℕ) (s : SandboxDb) {u : Unit {0}} {s' : SandboxDb}
      → insert_sandbox now se_name user pfn size s ≡ returns u s'
      → is_stored s' ≡ true
  unfolding insert_sandbox
  insert_sandbox-stored user size s h =
      let (found, s1, e1, k1) = >>=-eq-returns _ _ s h in
      let (owner_id, s2, e2, k2) = >>=-eq-returns _ _ s1 k1 in insert-stored owner_id size s2 k2

module _ (client : S3Client) (settings : SandboxStoreSettings) (now : ℕ) (user : UserInfo)
    (info : SandboxInfo) where
  answer_upload-stored :
      (pfn full_pfn : String) (there : Bool) (s : SandboxDb) {r : SandboxUploadResponse}
      {s' : SandboxDb}
      → answer_upload client settings now user info pfn full_pfn there s ≡ returns r s'
      → (is_stored now settings.se_name pfn s' ≡ true) × (r.pfn ≡ full_pfn)
  unfolding answer_upload
  answer_upload-stored pfn full_pfn true s {r} {s'} h =
      let (u, s1, e1, k1) = >>=-eq-returns _ _ s h in
      let (answer, same) = pure-eq-returns _ s1 k1 in
      (
        subst (λ (z : SandboxDb). is_stored now settings.se_name pfn z ≡ true) same
            (touch-stored now settings.se_name pfn s e1),
        sym (ap (λ (x : SandboxUploadResponse). x.pfn) answer),
      )
  answer_upload-stored pfn full_pfn false s {r} {s'} h =
      let (u, s1, e1, k1) = >>=-eq-returns _ _ s h in
      let (answer, same) = pure-eq-returns _ s1 k1 in
      (
        subst (λ (z : SandboxDb). is_stored now settings.se_name pfn z ≡ true) same
            (insert_sandbox-stored now settings.se_name pfn user info.size s e1),
        sym (ap (λ (x : SandboxUploadResponse). x.pfn) answer),
      )

  -- A request for an upload that returns is for at most the maximal size, answers with the path of the sandbox at the
  -- storage element, and leaves a sandbox stored there, whether it was there before or not.
  pub initiate_sandbox_upload-stored :
      (s : SandboxDb) {r : SandboxUploadResponse} {s' : SandboxDb}
      → initiate_sandbox_upload client settings now user info s ≡ returns r s'
      → (info.size ≤ max_sandbox_size_bytes)
        × (exists (is_at settings.se_name (get_pfn settings.bucket_name user info)) s'.sandboxes
            ≡ true)
        × (r.pfn
            ≡ append "SB:"
                (append settings.se_name (append "|" (get_pfn settings.bucket_name user info))))
  unfolding initiate_sandbox_upload
  initiate_sandbox_upload-stored s h =
      let (u, s1, e1, k1) = >>=-eq-returns _ _ s h in
      let (found, s2, e2, k2) = >>=-eq-returns _ _ s1 k1 in
      let (size, same) = ensure-eq-returns _ _ s e1 in
      let (stored, path) =
        answer_upload-stored (get_pfn settings.bucket_name user info) _ _ s2 k2 in
      (ground (arith, size), stored, path)
