-- ===== src/Jobs/Commands.antt =====
-- The methods of `JobDB` on commands and heartbeats (diracx-db/src/diracx/db/sql/job/db.py).
use diracx.Prelude.{
  ℕ, String, Bool, not, ◌&&◌, List, [], ◌∷◌, ◌++◌, ◌==◌, nat_eq, ltb, map, is_in, mem, all,
  if◌then◌else◌,
}
use diracx.Prelude.Table.{select, update, exists}
use diracx.Prelude.Outcome.{
  integrity_error, statement_error, invalid_query_error, returns, raises, Action,
}
use diracx.Jobs.Db.{HeartBeat, Command, JobDb, has_job}

-- `JobCommand`
pub record JobCommand : Type 0 where
  pub job_id : ℕ
  pub command : String
  pub arguments : String

abbrev pub has_command : ℕ → ℕ → JobDb → Bool
has_command job_id reception_time s =
    exists (λ (r : Command). nat_eq r.job_id job_id && nat_eq r.reception_time reception_time)
      s.commands

abbrev pub received_row : JobCommand → ℕ → Command
received_row c reception_time = record {
  job_id = c.job_id;
  command = c.command;
  arguments = c.arguments;
  status = "Received";
  reception_time = reception_time;
}

unfoldable pub insert_commands : List (JobCommand × ℕ) → Action JobDb (Unit {0})
insert_commands [] s = returns tt s
insert_commands ((c, now) ∷ commands) s =
    let rest =
      insert_commands commands (record s { commands = s.commands ++ received_row c now ∷ [] }) in
    if has_job c.job_id s && not (has_command c.job_id now s)
    then rest
    else raises integrity_error s

-- The commands with the readings of the clock. Without commands the statement has no value for the key.
unfoldable pub set_job_commands : List (JobCommand × ℕ) → Action JobDb (Unit {0})
unfolding insert_commands
set_job_commands [] s = raises statement_error s
set_job_commands (c ∷ commands) s = insert_commands (c ∷ commands) s

abbrev pub is_waiting : List ℕ → Command → Bool
is_waiting job_ids r = is_in job_ids r.job_id && r.status == "Received"

unfoldable pub insert_by_job : Command → List Command → List Command
insert_by_job r [] = r ∷ []
insert_by_job r (t ∷ rows) =
    let rest = insert_by_job r rows in if ltb t.job_id r.job_id then t ∷ rest else r ∷ t ∷ rows

-- `order_by(JobCommands.job_id)`
unfoldable pub order_by_job : List Command → List Command
unfolding insert_by_job
order_by_job [] = []
order_by_job (r ∷ rows) = insert_by_job r (order_by_job rows)

abbrev pub as_command : Command → JobCommand
as_command r = record { job_id = r.job_id; command = r.command; arguments = r.arguments }

abbrev pub sent : Command → Command
sent r = record r { status = "Sent" }

unfoldable pub get_job_commands : List ℕ → Action JobDb (List JobCommand)
unfolding order_by_job
get_job_commands job_ids s =
    returns (map as_command (order_by_job (select (is_waiting job_ids) s.commands)))
      (record s { commands = update (λ (r : Command). is_in job_ids r.job_id) sent s.commands })

abbrev pub heartbeat_fields : List String
heartbeat_fields =
    "LoadAverage" ∷ "MemoryUsed" ∷ "Vsize" ∷ "AvailableDiskSpace" ∷ "CPUConsumed" ∷ "WallClockTime"
    ∷ []

abbrev pub has_heart_beat : ℕ → String → ℕ → JobDb → Bool
has_heart_beat job_id name now s =
    exists
      (λ (r : HeartBeat).
        nat_eq r.job_id job_id && (r.name == name && nat_eq r.heart_beat_time now))
      s.heart_beats

-- the rows of the insertion, at the time of the database
unfoldable pub insert_heart_beats : ℕ → ℕ → List (String × String) → Action JobDb (Unit {0})
insert_heart_beats now job_id [] s = returns tt s
insert_heart_beats now job_id ((name, value) ∷ dynamic_data) s =
    let rest = insert_heart_beats now job_id dynamic_data (record s {
      heart_beats =
          s.heart_beats
          ++ record { job_id = job_id; name = name; value = value; heart_beat_time = now } ∷ [];
    }) in
    if has_job job_id s && not (has_heart_beat job_id name now s)
    then rest
    else raises integrity_error s

abbrev pub are_heartbeat_fields : List (String × String) → Bool
are_heartbeat_fields = all (λ (x : String × String). mem x.0 heartbeat_fields)

unfoldable pub add_heartbeat_data : ℕ → ℕ → List (String × String) → Action JobDb (Unit {0})
unfolding insert_heart_beats
add_heartbeat_data now job_id [] s = raises statement_error s
add_heartbeat_data now job_id (x ∷ dynamic_data) s =
    if are_heartbeat_fields (x ∷ dynamic_data)
    then insert_heart_beats now job_id (x ∷ dynamic_data) s
    else raises invalid_query_error s
