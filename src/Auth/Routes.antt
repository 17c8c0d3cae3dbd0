-- ===== src/Auth/Routes.antt =====
-- The routes of the authentication service: each runs one function of diracx-logic/src/diracx/logic/auth
-- in a transaction of its own.
pub mod Invariant
pub mod TokenFrames
pub mod Frames
pub mod Tables
pub mod DeviceSpent
pub mod DeviceRedeemed
pub mod DeviceOnce
pub mod CodeClosed
pub mod RefreshDead
pub mod RefreshRotated
pub mod RefreshOnce
use diracx.Prelude.{
  ℕ, zero, suc, String, Bool, true, false, Option, none, some, List, [], ◌∷◌, if◌then◌else◌,
}
use diracx.Prelude.Outcome.{Action, Outcome, returns, raises, pure, ◌>>=◌, ◌>>◌, has_returned}
use diracx.Config.{Config, AuthSettings}
use diracx.Auth.Db.{AuthDb, Session, open_session, transaction}
use diracx.Auth.Db.Device.{Secrets}
use diracx.Auth.Exchange.{Crypto, Call, Payloads, perform_legacy_exchange}
use diracx.Auth.Token.{TokenRequest, get_oidc_token}
use diracx.Auth.Flows.{
  Iam, initiate_device_flow, do_device_flow, finish_device_flow, initiate_authorization_flow,
  complete_authorization_flow, get_refresh_tokens, revoke_refresh_token_by_jti,
  revoke_refresh_token_by_refresh_token,
}

-- A request, with what the service reads of the outside while it handles it.
pub data Route : Type 0 where
  token : Config → Call → List String → TokenRequest → Route
  legacy_exchange :
      Config
      → Call
      → List String
      → String
      → String
      → String
      → (String → Option String)
      → String
      → Option ℕ
      → Route
  initiate_device : Iam → Config → ℕ → Secrets → List String → String → String → String → Route
  do_device : Iam → Config → ℕ → List String → String → String → Route
  finish_device : Iam → Config → ℕ → String → String → String → Route
  initiate_authorization :
      Iam
      → Config
      → ℕ
      → String
      → List String
      → String
      → String
      → String
      → String
      → String
      → String
      → String
      → Route
  complete_authorization : Iam → Config → ℕ → String → String → String → String → Route
  list_refresh_tokens : Option String → Route
  revoke_by_jti : Option String → String → Route
  revoke_by_token : ℕ → Option String → String → Route

module _ (crypto : Crypto) (settings : AuthSettings) where
  -- a route's action, with the tokens that it issues
  unfoldable pub run : Route → Action Session (Option Payloads)
  run (token config call available r) = do
    issued ← get_oidc_token crypto call settings config available r
    pure (some issued)
  run (legacy_exchange config call available expected name scope key_of authorization expiry) = do
    issued ←
        perform_legacy_exchange crypto call config settings available expected name scope key_of
          authorization expiry
    pure (some issued)
  run (initiate_device iam config now secrets available client_id scope uri) = do
    initiate_device_flow crypto iam config settings now secrets available client_id scope uri
    pure none
  run (do_device iam config now available url user_code) = do
    do_device_flow crypto iam config settings now available url user_code
    pure none
  run (finish_device iam config now url code state) = do
    finish_device_flow crypto iam config settings now url code state
    pure none
  run
        (initiate_authorization iam config now uuid available url challenge method client uri scope
          state) =
      do
        initiate_authorization_flow crypto iam config settings now uuid available url challenge
            method client uri scope state
        pure none
  run (complete_authorization iam config now fresh code state url) = do
    complete_authorization_flow crypto iam config settings now fresh code state url
    pure none
  run (list_refresh_tokens subject) = do get_refresh_tokens subject; pure none
  run (revoke_by_jti subject jti) = do revoke_refresh_token_by_jti subject jti; pure none
  run (revoke_by_token now subject refresh) = do
    revoke_refresh_token_by_refresh_token crypto now subject refresh
    pure none

  unfoldable pub serve : AuthDb → Route → AuthDb
  unfolding transaction
  serve db r = transaction (run r) db

  unfoldable pub serve_all : AuthDb → List Route → AuthDb
  serve_all db [] = db
  serve_all db (r ∷ rs) = serve_all (serve db r) rs
