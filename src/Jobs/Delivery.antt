-- ===== src/Jobs/Delivery.antt =====
-- The delivery of commands to jobs (diracx-db/src/diracx/db/sql/job/db.py).
use diracx.Prelude.{
  ℕ, suc, ◌+◌, Bool, not, ◌&&◌, List, [], ◌∷◌, ◌++◌, ◌≡◌, refl, sym, ap, ◌∙◌, ◌==◌, nat_eq, map,
  is_in, arith, inl, inr, Bool-cases, if◌then◌else◌,
}
use diracx.Prelude.Table.{select, update, rowcount}
use diracx.Prelude.Table.Counts.{rowcount-append}
use diracx.Prelude.Outcome.{Outcome, returns, raises, returns_state}
use diracx.Jobs.Db.{Command, JobDb, has_job}
use diracx.Jobs.Commands.{
  JobCommand, received_row, insert_commands, set_job_commands, has_command, is_waiting,
  insert_by_job, order_by_job, as_command, sent, get_job_commands,
}

-- Requests for the commands of jobs, and commands that are stored with the readings of the clock. A request
-- that raises leaves the database as it was, by the rollback of its transaction.
pub data Request : Type 0 where
  fetch : List ℕ → Request
  store : List (JobCommand × ℕ) → Request

-- what a request has delivered and stored, and the database after it
pub record Served : Type 0 where
  pub delivered : List JobCommand
  pub stored : List JobCommand
  pub db : JobDb

abbrev pub served_fetch : Outcome JobDb (List JobCommand) → JobDb → Served
served_fetch (returns commands s) _ = record { delivered = commands; stored = []; db = s }
served_fetch (raises e _) s = record { delivered = []; stored = []; db = s }

abbrev pub served_store : List (JobCommand × ℕ) → Outcome JobDb (Unit {0}) → JobDb → Served
served_store commands (returns _ s) _ = record {
  delivered = [];
  stored = map (λ (x : JobCommand × ℕ). x.0) commands;
  db = s;
}
served_store commands (raises e _) s = record { delivered = []; stored = []; db = s }

unfoldable pub serve : Request → JobDb → Served
serve (fetch job_ids) s = served_fetch (get_job_commands job_ids s) s
serve (store commands) s = served_store commands (set_job_commands commands s) s

unfoldable pub serve_all : List Request → JobDb → Served
unfolding serve
serve_all [] s = record { delivered = []; stored = []; db = s }
serve_all (r ∷ requests) s =
    let first = serve r s in
    let rest = serve_all requests first.db in
    record {
      delivered = first.delivered ++ rest.delivered;
      stored = first.stored ++ rest.stored;
      db = rest.db;
    }

abbrev pub same_command : JobCommand → JobCommand → Bool
same_command c d =
    nat_eq c.job_id d.job_id && (c.command == d.command && c.arguments == d.arguments)

-- how often a command is in a list
abbrev pub count_of : JobCommand → List JobCommand → ℕ
count_of c = rowcount (same_command c)

abbrev pub is_waiting_for : JobCommand → Command → Bool
is_waiting_for c r = same_command c (as_command r) && r.status == "Received"

-- how often a command is waiting to be delivered
abbrev pub waiting : JobCommand → JobDb → ℕ
waiting c s = rowcount (is_waiting_for c) s.commands

count_of-insert_by_job :
    (c : JobCommand) (r : Command) (rows : List Command)
    → count_of c (map as_command (insert_by_job r rows)) ≡ count_of c (map as_command (r ∷ rows))
unfolding insert_by_job rowcount
count_of-insert_by_job c r [] = refl
count_of-insert_by_job c r (t ∷ rows) = ground (arith, count_of-insert_by_job c r rows)

count_of-order_by_job :
    (c : JobCommand) (rows : List Command)
    → count_of c (map as_command (order_by_job rows)) ≡ count_of c (map as_command rows)
unfolding order_by_job rowcount
count_of-order_by_job c [] = refl
count_of-order_by_job c (r ∷ rows) =
    count_of-insert_by_job c r (order_by_job rows)
    ∙ ap (λ n. if same_command c (as_command r) then suc n else n) (count_of-order_by_job c rows)

-- a fetch delivers what it takes away
waiting_split :
    (c : JobCommand) (job_ids : List ℕ) (rows : List Command)
    → count_of c (map as_command (select (is_waiting job_ids) rows))
        + rowcount (is_waiting_for c) (update (λ (r : Command). is_in job_ids r.job_id) sent rows)
      ≡ rowcount (is_waiting_for c) rows
unfolding select update rowcount
waiting_split c job_ids [] = refl
waiting_split c job_ids (r ∷ rows) = elim (Bool-cases (is_in job_ids r.job_id)) [
  | inl hit ↦ elim (Bool-cases (r.status == "Received")) [
    | inl new ↦ rw (hit, new) (ground (arith, waiting_split c job_ids rows))
    | inr old ↦ rw (hit, old) (ground (arith, waiting_split c job_ids rows))
  ]
  | inr miss ↦ rw miss (ground (arith, waiting_split c job_ids rows))
]

insert_commands-waiting :
    (c : JobCommand) (commands : List (JobCommand × ℕ)) (s : JobDb) {s' : JobDb}
    → insert_commands commands s ≡ returns tt s'
    → waiting c s' ≡ waiting c s + count_of c (map (λ (x : JobCommand × ℕ). x.0) commands)
unfolding insert_commands rowcount
insert_commands-waiting c [] s h = rw (sym (returns_state h)) (omega arith)
insert_commands-waiting c ((d, now) ∷ commands) s h =
    elim (Bool-cases (has_job d.job_id s && not (has_command d.job_id now s))) [
      | inl may ↦
          let next = record s { commands = s.commands ++ received_row d now ∷ [] } in
          let rest = insert_commands-waiting c commands next (rw may at h) in
          let first = rowcount-append (is_waiting_for c) s.commands (received_row d now ∷ []) in
          ground arith
      | inr not_may ↦ cc
    ]

set_job_commands-waiting :
    (c : JobCommand) (commands : List (JobCommand × ℕ)) (s : JobDb) {s' : JobDb}
    → set_job_commands commands s ≡ returns tt s'
    → waiting c s' ≡ waiting c s + count_of c (map (λ (x : JobCommand × ℕ). x.0) commands)
unfolding set_job_commands
set_job_commands-waiting c [] s h = cc
set_job_commands-waiting c (x ∷ commands) s h = insert_commands-waiting c (x ∷ commands) s h

served_store-waiting :
    (c : JobCommand) (commands : List (JobCommand × ℕ)) (o : Outcome JobDb (Unit {0})) (s : JobDb)
    → ((s' : JobDb)
        → o ≡ returns tt s'
        → waiting c s' ≡ waiting c s + count_of c (map (λ (x : JobCommand × ℕ). x.0) commands))
    → count_of c (served_store commands o s).delivered + waiting c (served_store commands o s).db
      ≡ waiting c s + count_of c (served_store commands o s).stored
unfolding rowcount
served_store-waiting c commands (returns u s') s h = let after = h s' refl in omega arith
served_store-waiting c commands (raises e s') s h = omega arith

-- what one request delivers, and what it leaves
serve-waiting :
    (c : JobCommand) (r : Request) (s : JobDb)
    → count_of c (serve r s).delivered + waiting c (serve r s).db
      ≡ waiting c s + count_of c (serve r s).stored
unfolding serve get_job_commands rowcount
serve-waiting c (fetch job_ids) s =
    let same = count_of-order_by_job c (select (is_waiting job_ids) s.commands) in
    let split = waiting_split c job_ids s.commands in rw same (ground arith)
serve-waiting c (store commands) s =
    served_store-waiting c commands (set_job_commands commands s) s
      λ s' h. set_job_commands-waiting c commands s h

-- In any sequence of requests, each command is delivered exactly as often as it was waiting or was stored,
-- less what is still waiting at the end: no command is delivered twice and none is lost, whatever jobs the
-- requests ask for, whether or not some of them raise.
pub serve_all-exactly_once :
    (c : JobCommand) (requests : List Request) (s : JobDb)
    → count_of c (serve_all requests s).delivered + waiting c (serve_all requests s).db
      ≡ waiting c s + count_of c (serve_all requests s).stored
unfolding serve_all rowcount
serve_all-exactly_once c [] s = omega arith
serve_all-exactly_once c (r ∷ requests) s =
    let first = serve-waiting c r s in
    let rest = serve_all-exactly_once c requests (serve r s).db in
    let delivered =
      rowcount-append (same_command c) (serve r s).delivered
        (serve_all requests (serve r s).db).delivered in
    let stored =
      rowcount-append (same_command c) (serve r s).stored
        (serve_all requests (serve r s).db).stored in
    omega arith
