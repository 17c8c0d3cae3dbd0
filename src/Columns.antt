-- ===== src/Columns.antt =====
-- The column types of the databases: `SmarterDateTime` (diracx-db/src/diracx/db/sql/utils/types.py). Points in time
-- and the readings of clocks are numbers of seconds; time zones and the parser of texts are parameters.
pub mod Laws
mod Tests
use diracx.Prelude.{ℕ, String, Bool, true, false, Option, none, some, List, lookup}
use diracx.Prelude.Outcome.{value_error, not_implemented_error, Result, ok, err}
use diracx.Prelude.Result.{get_or, ◌>>=◌}

-- `datetime`, with or without a `tzinfo`
pub data Datetime (Z : Type 0) : Type 0 where
  aware : ℕ → Z → Datetime Z
  naive : ℕ → Datetime Z

-- What the code uses of time zones and of the class `datetime`.
pub record Clocks (Z : Type 0) : Type 0 where
  -- the zone of the machine
  pub local_zone : Z
  -- what a clock in the zone shows at a point in time, and the point that a reading stands for
  pub wall_of : Z → ℕ → ℕ
  pub instant_of : Z → ℕ → ℕ
  -- `datetime.fromisoformat`
  pub fromisoformat : String → Option (Datetime Z)

-- the values that reach a column
pub data Input (Z : Type 0) : Type 0 where
  null other : Input Z
  text : String → Input Z
  datetime : Datetime Z → Input Z

pub record SmarterDatetime (Z : Type 0) : Type 0 where
  pub stored_tz : Option Z
  pub returned_tz : Z
  pub stored_naive_dialect : List (String × Bool)

module _ {Z : Type 0} (clocks : Clocks Z) where
  -- `value.astimezone(zone)`
  abbrev pub astimezone : Z → Datetime Z → Datetime Z
  astimezone zone (aware instant _) = aware instant zone
  astimezone zone (naive wall) = aware (clocks.instant_of clocks.local_zone wall) zone

  -- `value.replace(tzinfo=None)`
  abbrev pub without_zone : Datetime Z → Datetime Z
  without_zone (aware instant zone) = naive (clocks.wall_of zone instant)
  without_zone (naive wall) = naive wall

  -- `if not value.tzinfo: raise`
  abbrev pub require_zone : Datetime Z → Result (Datetime Z)
  require_zone (aware instant zone) = ok (aware instant zone)
  require_zone (naive _) = err value_error

  -- the `datetime` of a value that is not null
  abbrev pub as_datetime : Input Z → Result (Datetime Z)
  as_datetime (text s) = get_or value_error (clocks.fromisoformat s)
  as_datetime (datetime d) = ok d
  as_datetime _ = err value_error

  module _ (column : SmarterDatetime Z) where
    abbrev pub stored_naive : String → Result Bool
    stored_naive dialect = get_or not_implemented_error (lookup dialect column.stored_naive_dialect)

    -- the zone of `astimezone(tz=stored_tz)`, where None is that of the machine
    abbrev pub storage_zone : Z
    storage_zone = elim column.stored_tz [ none ↦ clocks.local_zone | some zone ↦ zone ]

    abbrev pub to_storage : Bool → Datetime Z → Datetime Z
    to_storage true d = without_zone (astimezone storage_zone d)
    to_storage false d = d

    unfoldable pub process_bind_param : String → Input Z → Result (Option (Datetime Z))
    process_bind_param dialect null = ok none
    process_bind_param dialect value = do
      given ← as_datetime value
      d ← require_zone given
      is_naive ← stored_naive dialect
      ok (some (to_storage is_naive d))

    -- a naive value gets the zone back, an aware one is refused
    abbrev pub restore : Datetime Z → Result (Datetime Z)
    restore (aware _ _) = err value_error
    restore (naive wall) = ok (aware (clocks.instant_of storage_zone wall) storage_zone)

    abbrev pub from_storage : Bool → Datetime Z → Result (Datetime Z)
    from_storage true d = restore d
    from_storage false d = ok d

    unfoldable pub process_result_value :
        String → Option (Datetime Z) → Result (Option (Datetime Z))
    process_result_value dialect none = ok none
    process_result_value dialect (some value) = do
      is_naive ← stored_naive dialect
      d ← from_storage is_naive value
      ok (some (astimezone column.returned_tz d))
