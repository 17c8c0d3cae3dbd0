-- ===== src/JobLogging/Tests.antt =====
-- Runs of the logging database.
use diracx.Prelude.{◌≡◌, refl, List, [], ◌∷◌, ◌++◌, map}
use diracx.Prelude.Table.{select}
use diracx.Prelude.Outcome.{returns, err, validation_error}
use diracx.JobLogging.{
  JobLoggingRecord, LoggingInfo, next_seq, values, insert_records, history_of, order_rows,
  fill_history, get_records,
}
use diracx.JobLogging.Numbering.{insert_records-returns}
use diracx.JobLogging.History.{IsHistory, get_records-known}

abbrev received : JobLoggingRecord
received = record {
  job_id = 4;
  status = "Received";
  minor_status = "Job accepted";
  application_status = "idem";
  date = 10;
  source = "JobManager";
}

abbrev stored : List LoggingInfo
stored =
    record {
      job_id = 4;
      seq_num = 6;
      status = "Submitting";
      minor_status = "idem";
      application_status = "idem";
      status_time = 5;
      status_time_order = 5;
      source = "API";
    }
    ∷ []

insert_records-returns_example :
    insert_records (received ∷ received ∷ []) stored
    ≡ returns tt (stored ++ values (next_seq stored) (received ∷ received ∷ []))
insert_records-returns_example = insert_records-returns received (received ∷ []) stored

get_records-known_example : IsHistory (4 ∷ []) stored (history_of (4 ∷ []) stored)
unfolding get_records fill_history order_rows select
get_records-known_example = get_records-known (4 ∷ []) stored refl

-- the history of a job that begins with `idem`
get_records_idem :
    get_records (4 ∷ []) (map (λ (r : LoggingInfo). record r { status = "idem" }) stored)
    ≡ err validation_error
unfolding get_records fill_history order_rows select
get_records_idem = refl
