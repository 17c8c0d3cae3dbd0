-- ===== src/Columns/Laws.antt =====
-- What a column of times gives back (diracx-db/src/diracx/db/sql/utils/types.py).
use diracx.Prelude.{ℕ, String, Bool, true, false, some, ◌≡◌, refl, lookup}
use diracx.Prelude.Outcome.{ok, ok_inj}
use diracx.Prelude.Result.{◌>>=◌}
use diracx.Columns.{
  aware, Clocks, Input, null, other, text, datetime, SmarterDatetime, as_datetime, storage_zone,
  process_bind_param, process_result_value,
}

module _ {Z : Type 0} (clocks : Clocks Z) (column : SmarterDatetime Z) where
  -- A column gives back the point in time that it was given, in the zone that it returns: for a value that is a
  -- `datetime` with a zone or a text that parses as one, on a dialect that the column knows, whether the dialect
  -- stores readings of a clock or points in time, if in the zone of storage the reading of each point in time
  -- stands for that point, as in UTC.
  pub process_result_value-process_bind_param :
      (dialect : String) (value : Input Z) (i : ℕ) (zone : Z) (b : Bool)
      → ((j : ℕ)
          → clocks.instant_of
              (storage_zone clocks column)
              (clocks.wall_of (storage_zone clocks column) j)
            ≡ j)
      → as_datetime clocks value ≡ ok (aware i zone)
      → lookup dialect column.stored_naive_dialect ≡ some b
      → (process_bind_param clocks column dialect value
          >>= process_result_value clocks column dialect)
        ≡ ok (some (aware i column.returned_tz))
  unfolding process_bind_param process_result_value
  process_result_value-process_bind_param dialect null i zone b law given known = cc
  process_result_value-process_bind_param dialect other i zone b law given known = cc
  process_result_value-process_bind_param dialect (text s) i zone true law given known =
      rw (given, known) (rw known (rw (law i) refl))
  process_result_value-process_bind_param dialect (text s) i zone false law given known =
      rw (given, known) (rw known refl)
  process_result_value-process_bind_param dialect (datetime d) i zone true law given known =
      rw (ok_inj given, known) (rw known (rw (law i) refl))
  process_result_value-process_bind_param dialect (datetime d) i zone false law given known =
      rw (ok_inj given, known) (rw known refl)
