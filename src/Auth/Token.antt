-- ===== src/Auth/Token.antt =====
-- The token endpoint (diracx-logic/src/diracx/logic/auth/token.py).
pub mod CodeFlow
use diracx.Prelude.{
  ℕ, ◌+◌, ◌-◌, String, Bool, true, false, not, Option, none, some, List, [], ◌∷◌, ◌==◌, ltb,
  if◌then◌else◌,
}
use diracx.Prelude.Text.{after_first}
use diracx.Prelude.Outcome.{
  value_error, key_error, index_error, assertion_error, authorization_error,
  pending_authorization_error, invalid_credentials_error, Action, pure, raise, lift, get_or_raise,
  ensure, ◌>>=◌, ◌>>◌,
}
use diracx.Config.{Config, AuthSettings}
use diracx.Auth.Db.{
  FlowStatus, pending, ready, done, error, is_ready, is_revoked, IdToken, DeviceFlow,
  AuthorizationFlow, RefreshToken, Session, commit,
}
use diracx.Auth.Db.Device
use diracx.Auth.Db.Device.{update_device_flow_status}
use diracx.Auth.Db.Authorization
use diracx.Auth.Db.Authorization.{update_authorization_flow_status}
use diracx.Auth.Db.Refresh.{get_refresh_token, revoke_refresh_token, revoke_user_refresh_tokens}
use diracx.Auth.Exchange.{Claims, Crypto, Call, Terms, Payloads, exchange_token}

-- what a flow hands to `exchange_token`
abbrev pub TokenInfo : Type 0
TokenInfo = Option IdToken × String

module _ (crypto : Crypto) (call : Call) where
  unfoldable pub redeem_device_flow : String → DeviceFlow → FlowStatus → Action Session DeviceFlow
  redeem_device_flow code res ready = do update_device_flow_status crypto.hash code done; pure res
  redeem_device_flow code res done = raise authorization_error
  redeem_device_flow code res pending = raise pending_authorization_error
  redeem_device_flow code res error = raise authorization_error

  unfoldable pub get_device_flow : String → ℕ → Action Session DeviceFlow
  unfolding redeem_device_flow
  get_device_flow code max_validity = do
    res ← Device.get_device_flow crypto.hash code
    ensure (not (ltb (res.creation_time + max_validity) call.now)) invalid_credentials_error
    redeem_device_flow code res res.status

  unfoldable pub redeem_authorization_flow :
      String → AuthorizationFlow → FlowStatus → Action Session AuthorizationFlow
  redeem_authorization_flow code res ready = do
    update_authorization_flow_status crypto.hash code done
    pure res
  redeem_authorization_flow code res done = raise authorization_error
  redeem_authorization_flow code res _ = raise authorization_error

  unfoldable pub get_authorization_flow : String → ℕ → Action Session AuthorizationFlow
  unfolding redeem_authorization_flow
  get_authorization_flow code max_validity = do
    res ← Authorization.get_authorization_flow crypto.hash call.now code max_validity
    redeem_authorization_flow code res res.status

  module _ (settings : AuthSettings) where
    unfoldable pub token_info_from_device_flow : String → String → Action Session TokenInfo
    token_info_from_device_flow code client_id = do
      info ← get_device_flow code settings.device_flow_expiration_seconds
      ensure (info.client_id == client_id) value_error
      ensure (is_ready info.status) key_error
      pure (info.id_token, info.scope)

    unfoldable pub token_info_from_authorization_flow :
        String → String → Option String → String → Action Session TokenInfo
    token_info_from_authorization_flow code client_id redirect_uri code_verifier = do
      info ← get_authorization_flow code settings.authorization_flow_expiration_seconds
      uri ← get_or_raise value_error redirect_uri
      ensure (uri == info.redirect_uri) value_error
      ensure (client_id == info.client_id) value_error
      challenge ← get_or_raise value_error (crypto.challenge_of code_verifier)
      ensure (challenge == info.code_challenge) value_error
      ensure (is_ready info.status) key_error
      pure (info.id_token, info.scope)

  -- a revoked token was presented: revoke all the tokens of the subject, and commit before the raise
  unfoldable pub reject_reuse : RefreshToken → Action Session Bool
  reject_reuse row = do revoke_user_refresh_tokens row.sub; commit; raise invalid_credentials_error

  unfoldable pub revoke_presented : Claims → Action Session Bool
  revoke_presented claims = do revoke_refresh_token claims.jti; pure true

  -- the rotation; the result is `include_refresh_token`
  unfoldable pub rotate : Claims → RefreshToken → Action Session Bool
  unfolding reject_reuse revoke_presented
  rotate claims row =
      if claims.legacy_exchange
      then pure false
      else if is_revoked row.status
      then reject_reuse row
      else revoke_presented claims

  unfoldable pub token_info_from_refresh_flow : String → Action Session (TokenInfo × Terms)
  unfolding rotate
  token_info_from_refresh_flow token = do
    claims ← lift (crypto.read_token call.now token)
    row ← get_refresh_token claims.jti
    include ← rotate claims row
    sub ← get_or_raise index_error (after_first b':' row.sub)
    pure (
      (some (("sub", sub) ∷ []), row.scope),
      record {
        -- the decoding refuses a token whose `exp` is over, so that nothing is cut off
        refresh_expiry = some (claims.exp - call.now);
        legacy_exchange = claims.legacy_exchange;
        include_refresh_token = include;
      },
    )

pub data GrantType : Type 0 where
  authorization_code device_code refresh_token : GrantType

-- the form of a request
pub record TokenRequest : Type 0 where
  pub grant_type : GrantType
  pub client_id : String
  pub device_code : Option String
  pub code : Option String
  pub redirect_uri : Option String
  pub code_verifier : Option String
  pub refresh_token : Option String

-- the terms of a token that no refresh token was given for
abbrev pub first_terms : Terms
first_terms = record {
  refresh_expiry = none;
  legacy_exchange = false;
  include_refresh_token = true;
}

module _ (crypto : Crypto) (call : Call) (settings : AuthSettings) where
  unfoldable pub token_info : GrantType → TokenRequest → Action Session (TokenInfo × Terms)
  token_info device_code r = do
    code ← get_or_raise assertion_error r.device_code
    info ← token_info_from_device_flow crypto call settings code r.client_id
    pure (info, first_terms)
  token_info authorization_code r = do
    code ← get_or_raise assertion_error r.code
    verifier ← get_or_raise assertion_error r.code_verifier
    info ←
        token_info_from_authorization_flow crypto call settings code r.client_id r.redirect_uri
          verifier
    pure (info, first_terms)
  token_info refresh_token r = do
    token ← get_or_raise assertion_error r.refresh_token
    token_info_from_refresh_flow crypto call token

  unfoldable pub get_oidc_token : Config → List String → TokenRequest → Action Session Payloads
  get_oidc_token config available r = do
    found ← token_info r.grant_type r
    exchange_token crypto call config settings available found.0.1 found.0.0 found.1
