-- ===== src/Auth/Routes/Invariant.antt =====
-- What an invariant of the database is: the nine statements that write keep it.
use diracx.Prelude.{ℕ, String, Option}
use diracx.Prelude.Outcome.{Outcome, returns, raises, state_of}
use diracx.Prelude.Keeps.{Keeps, keeps_rules, state_of-one}
use diracx.Auth.Db.{AuthDb, Session, DeviceFlow, IdToken, done, commit, finish}
use diracx.Auth.Db.Device
use diracx.Auth.Db.Device.{
  Secrets, fill_device_flows, insert_device_row, update_device_flow_status,
  device_flow_validate_user_code, device_flow_insert_id_token, insert_attempts, insert_device_flow,
  on_integrity_error,
}
use diracx.Auth.Db.Authorization
use diracx.Auth.Db.Authorization.{
  insert_authorization_flow, find_flow, fill_authorization_flows,
  authorization_flow_insert_id_token, update_authorization_flow_status,
}
use diracx.Auth.Db.Refresh.{
  insert_refresh_token, find_refresh_token, get_refresh_token, get_user_refresh_tokens,
  revoke_refresh_token, revoke_user_refresh_tokens,
}

-- `P` holds of what the connection shows and of what is committed.
abbrev pub Both : (AuthDb → Type 0) → Session → Type 0
Both P s = P s.db × P s.committed

-- `P` holds of what the connection shows.
abbrev pub Live : (AuthDb → Type 0) → Session → Type 0
Live P s = P s.db

-- The statements that write, and the commit, keep the predicate `R` of sessions.
pub record IsInvariant (hash : String → String) (R : Session → Type 0) : Type 0 where
  pub on_commit : Keeps R commit
  pub on_fill_device :
      (now : ℕ) (user_code : String) (id_token : IdToken) (validity : ℕ)
      → Keeps R (fill_device_flows now user_code id_token validity)
  pub on_insert_device : (new : DeviceFlow) → Keeps R (insert_device_row new)
  pub on_redeem_device : (code : String) → Keeps R (update_device_flow_status hash code done)
  pub on_insert_authorization :
      (now : ℕ) (uuid client scope challenge method uri : String)
      → Keeps R (insert_authorization_flow now uuid client scope challenge method uri)
  pub on_fill_authorization :
      (now : ℕ) (code uuid : String) (id_token : IdToken) (validity : ℕ)
      → Keeps R (fill_authorization_flows hash now code uuid id_token validity)
  pub on_redeem_authorization :
      (code : String) → Keeps R (update_authorization_flow_status hash code done)
  pub on_insert_refresh :
      (jti subject scope : String) → Keeps R (insert_refresh_token jti subject scope)
  pub on_revoke : (jti : String) → Keeps R (revoke_refresh_token jti)
  pub on_revoke_user : (subject : String) → Keeps R (revoke_user_refresh_tokens subject)

pub finish-Both :
    (P : AuthDb → Type 0) {A : Type 0} (o : Outcome Session A) → Both P (state_of o) → P (finish o)
finish-Both P (returns a s) h = h.0
finish-Both P (raises e s) h = h.1

-- The statements that read change nothing.
module _ (P : Session → Type 0) where
  pub validate-Keeps :
      (now : ℕ) (user_code : String) (v : ℕ)
      → Keeps P (device_flow_validate_user_code now user_code v)
  unfolding device_flow_validate_user_code
  validate-Keeps now user_code v = record { at = λ s h. rw state_of-one h }

  pub read_device-Keeps :
      (hash : String → String) (c : String) → Keeps P (Device.get_device_flow hash c)
  unfolding Device.get_device_flow
  read_device-Keeps hash c = record { at = λ s h. rw state_of-one h }

  pub find_flow-Keeps : (uuid : String) → Keeps P (find_flow uuid)
  unfolding find_flow
  find_flow-Keeps uuid = record { at = λ s h. rw state_of-one h }

  pub read_authorization-Keeps :
      (hash : String → String) (now : ℕ) (c : String) (v : ℕ)
      → Keeps P (Authorization.get_authorization_flow hash now c v)
  unfolding Authorization.get_authorization_flow
  read_authorization-Keeps hash now c v = record { at = λ s h. rw state_of-one h }

  pub list_tokens-Keeps : (subject : Option String) → Keeps P (get_user_refresh_tokens subject)
  unfolding get_user_refresh_tokens
  list_tokens-Keeps subject = record { at = λ s h. h }

  pub find_refresh-Keeps : (jti : String) → Keeps P (find_refresh_token jti)
  unfolding find_refresh_token
  find_refresh-Keeps jti = record { at = λ s h. rw state_of-one h }

  pub get_refresh-Keeps : (jti : String) → Keeps P (get_refresh_token jti)
  unfolding get_refresh_token
  get_refresh-Keeps jti = search (keeps_rules, find_refresh-Keeps)

pub ruleset reads = (
  validate-Keeps, read_device-Keeps, find_flow-Keeps, read_authorization-Keeps, list_tokens-Keeps,
  get_refresh-Keeps,
)
