-- ===== src/Auth/Db.antt =====
-- diracx-db/src/diracx/db/sql/auth: the tables of schema.py and the methods of `AuthDB` in db.py.
-- A method is an action of a session; a route's session is committed when the route returns and
-- rolled back when it raises (`BaseSQLDB.__aexit__`).
pub mod Device
pub mod Authorization
pub mod Refresh
use diracx.Prelude.{
  ℕ, zero, suc, ◌+◌, String, Bool, true, false, not, ◌&&◌, ◌||◌, Option, none, some, List, [], ◌∷◌,
  ◌++◌, ◌==◌, ltb, nat_eq, if◌then◌else◌, take, map,
}
use diracx.Prelude.Table.{select, update, exists, rowcount}
use diracx.Prelude.Outcome.{
  Error, integrity_error, no_result_found, authorization_error, not_implemented_error,
  token_not_found_error, Result, ok, err, Outcome, returns, raises, Action, pure, raise, one,
  handle, ensure, after, ◌>>=◌, ◌>>◌,
}
use Prim.Native.Char.{Char}
use Prim.Native.String
use diracx.Prelude.Text.{append}

pub data FlowStatus : Type 0 where
  pending ready done error : FlowStatus

pub data RefreshTokenStatus : Type 0 where
  created revoked : RefreshTokenStatus

abbrev pub is_pending : FlowStatus → Bool
is_pending pending = true
is_pending _ = false

abbrev pub is_ready : FlowStatus → Bool
is_ready ready = true
is_ready _ = false

abbrev pub is_revoked : RefreshTokenStatus → Bool
is_revoked revoked = true
is_revoked created = false

-- the claims of an ID token
abbrev pub IdToken : Type 0
IdToken = List (String × String)

pub record DeviceFlow : Type 0 where
  pub user_code : String
  pub status : FlowStatus
  pub creation_time : ℕ
  pub client_id : String
  pub scope : String
  pub device_code : String
  pub id_token : Option IdToken

pub record AuthorizationFlow : Type 0 where
  pub uuid : String
  pub status : FlowStatus
  pub client_id : String
  pub creation_time : ℕ
  pub scope : String
  pub code_challenge : String
  pub code_challenge_method : String
  pub redirect_uri : String
  pub code : Option String
  pub id_token : Option IdToken

pub record RefreshToken : Type 0 where
  pub jti : String
  pub status : RefreshTokenStatus
  pub scope : String
  pub sub : String

pub record AuthDb : Type 0 where
  pub device_flows : List DeviceFlow
  pub authorization_flows : List AuthorizationFlow
  pub refresh_tokens : List RefreshToken

-- What the connection shows to the route, and what was committed last.
pub record Session : Type 0 where
  pub db : AuthDb
  pub committed : AuthDb

-- `conn.commit()`
unfoldable pub commit : Action Session (Unit {0})
commit s = returns tt (record s { committed = s.db })

-- A route: `__aenter__`, the body, `__aexit__`.
abbrev pub finish : {A : Type 0} → Outcome Session A → AuthDb
finish (returns a s) = s.db
finish (raises e s) = s.committed

abbrev pub open_session : AuthDb → Session
open_session db = record { db = db; committed = db }

unfoldable pub transaction : {A : Type 0} → Action Session A → AuthDb → AuthDb
transaction m db = finish (m (open_session db))

abbrev pub put_device_flows : List DeviceFlow → Session → Session
put_device_flows t s = record s { db = record s.db { device_flows = t } }

abbrev pub put_authorization_flows : List AuthorizationFlow → Session → Session
put_authorization_flows t s = record s { db = record s.db { authorization_flows = t } }

abbrev pub put_refresh_tokens : List RefreshToken → Session → Session
put_refresh_tokens t s = record s { db = record s.db { refresh_tokens = t } }

-- `creation_time > substract_date(seconds=max_validity)`
abbrev pub is_fresh : ℕ → ℕ → ℕ → Bool
is_fresh now max_validity creation_time = ltb now (creation_time + max_validity)
