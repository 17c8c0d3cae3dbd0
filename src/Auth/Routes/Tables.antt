-- ===== src/Auth/Routes/Tables.antt =====
-- An invariant of one table: only the statements that write that table matter. The records say
-- what the statements do to the table; the modules below give the invariant of the session in both views.
pub mod Device
pub mod Authorization
pub mod Refresh
use diracx.Prelude.{
  ℕ, String, List, [], ◌∷◌, ◌++◌, false, ◌≡◌, refl, Bool-cases, inl, inr, some, none, ◌==◌,
}
use diracx.Prelude.Table.{update, exists}
use diracx.Auth.Db.{
  ready, pending, done, created, DeviceFlow, AuthorizationFlow, RefreshToken, IdToken, commit,
}
use diracx.Auth.Db.Device.{
  fill_device_flows, insert_device_row, update_device_flow_status, is_usable_user_code, clashes,
  has_device_code,
}
use diracx.Auth.Db.Authorization.{
  insert_authorization_flow, fill_authorization_flows, update_authorization_flow_status,
  is_usable_uuid, has_code,
}
use diracx.Auth.Db.Refresh.{
  insert_refresh_token, revoke_refresh_token, revoke_user_refresh_tokens, has_jti, revoke,
}
use diracx.Auth.Routes.Invariant.{Both, Live, IsInvariant}

-- What the statements do to DeviceFlows.
pub record DeviceFacts (hash : String → String) (Q : List DeviceFlow → Type 0) : Type 0 where
  pub fill :
      (now : ℕ) (user_code : String) (id_token : IdToken) (v : ℕ) (t : List DeviceFlow)
      → Q t
      → Q (
          update
            (is_usable_user_code now user_code v)
            (λ r. record r { id_token = some id_token; status = ready })
            t)
  pub insert :
      (new : DeviceFlow) (t : List DeviceFlow)
      → exists (clashes new) t ≡ false
      → Q t
      → Q (t ++ new ∷ [])
  pub redeem :
      (code : String) (t : List DeviceFlow)
      → Q t
      → Q (update (has_device_code hash code) (λ r. record r { status = done }) t)

-- What they do to AuthorizationFlows.
pub record AuthorizationFacts (hash : String → String) (Q : List AuthorizationFlow → Type 0)
    : Type 0 where
  pub fill :
      (now : ℕ) (code uuid : String) (id_token : IdToken) (v : ℕ) (t : List AuthorizationFlow)
      → Q t
      → Q (
          update
            (is_usable_uuid now uuid v)
            (λ r. record r { id_token = some id_token; code = some (hash code); status = ready })
            t)
  pub insert :
      (new : AuthorizationFlow) (t : List AuthorizationFlow)
      → exists (λ r. r.uuid == new.uuid) t ≡ false
      → new.status ≡ pending
      → new.code ≡ none
      → Q t
      → Q (t ++ new ∷ [])
  pub redeem :
      (code : String) (t : List AuthorizationFlow)
      → Q t
      → Q (update (has_code hash code) (λ r. record r { status = done }) t)

-- What they do to RefreshTokens.
pub record RefreshFacts (Q : List RefreshToken → Type 0) : Type 0 where
  pub insert :
      (new : RefreshToken) (t : List RefreshToken)
      → exists (has_jti new.jti) t ≡ false
      → new.status ≡ created
      → Q t
      → Q (t ++ new ∷ [])
  pub revoke_one : (jti : String) (t : List RefreshToken) → Q t → Q (update (has_jti jti) revoke t)
  pub revoke_all :
      (subject : String) (t : List RefreshToken) → Q t → Q (update (λ r. r.sub == subject) revoke t)
