-- ===== src/Sandbox/Cleanup.antt =====
-- The deletion of unused sandboxes: `delete_unused_sandboxes` (diracx-db/src/diracx/db/sql/sandbox_metadata/db.py).
use diracx.Prelude.{
  ℕ, ◌-◌, ◌/◌, String, Bool, not, ◌&&◌, ◌||◌, Option, none, some, List, nat_eq, leb, take,
  if◌then◌else◌, map,
}
use diracx.Prelude.Table.{select, delete, exists, join_on}
use diracx.Prelude.Outcome.{returns, Action, pure, ◌>>=◌, ◌>>◌}
use diracx.Sandbox.Db.{Sandbox, EntityMapping, SandboxDb}
use diracx.Sandbox.Mapping.{among}

pub data Dialect : Type 0 where
  postgresql mysql sqlite : Dialect

-- What runs the statements: its dialect, the reading of its clock, and its LIKE, which tells capital letters from
-- small ones or not.
pub record Server : Type 0 where
  pub dialect : Dialect
  pub now : ℕ
  pub like : String → String → Bool

-- `days_since(t)`: MySQL counts the calendar days between the dates, the others the time that went by. SQLite has
-- fractions of days, which are cut off here and which no comparison with a whole number sees.
unfoldable pub days_since : Server → ℕ → ℕ
days_since server t = elim server.dialect [
  | mysql ↦ server.now / 86400 - t / 86400
  | postgresql ↦ (server.now - t) / 86400
  | sqlite ↦ (server.now - t) / 86400
]

abbrev pub is_mapped : List EntityMapping → Sandbox → Bool
is_mapped mappings b = exists (λ (m : EntityMapping). nat_eq m.sb_id b.sb_id) mappings

abbrev pub is_unused : Server → List EntityMapping → Sandbox → Bool
is_unused server mappings b =
    server.like b.pfn "/S3/%"
    && (b.assigned && not (is_mapped mappings b)
        || not b.assigned && leb 15 (days_since server b.last_access_time))

-- `if limit: select_stmt = select_stmt.limit(limit)`
abbrev pub limited {ℓ} : {A : Type ℓ} → Option ℕ → List A → List A
limited none xs = xs
limited (some n) xs = if nat_eq n 0 then xs else take n xs

-- the rows of the temporary table
unfoldable pub select_unused : Server → Option ℕ → SandboxDb → List ℕ
select_unused server limit s =
    map (λ (b : Sandbox). b.sb_id)
      (limited limit (select (is_unused server s.mappings) s.sandboxes))

unfoldable pub pfns_of : List ℕ → SandboxDb → List String
pfns_of to_delete s =
    map (λ (r : Sandbox × ℕ). r.0.pfn)
      (join_on (λ (b : Sandbox) (sb_id : ℕ). nat_eq sb_id b.sb_id) s.sandboxes to_delete)

unfoldable pub delete_sandboxes : List ℕ → Action SandboxDb (Unit {0})
delete_sandboxes to_delete s =
    returns tt
      (record s { sandboxes = delete (λ (b : Sandbox). among to_delete b.sb_id) s.sandboxes })

-- The context manager around `body`, which consumes the PFNs that it yields: an exception of the body is
-- raised at the `yield`, so that nothing is deleted.
unfoldable pub delete_unused_sandboxes :
    {A : Type 0} → Server → Option ℕ → (List String → Action SandboxDb A) → Action SandboxDb A
unfolding select_unused pfns_of delete_sandboxes
delete_unused_sandboxes server limit body s =
    let to_delete = select_unused server limit s in
    (do a ← body (pfns_of to_delete s); delete_sandboxes to_delete; pure a) s
