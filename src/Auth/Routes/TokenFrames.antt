-- ===== src/Auth/Routes/TokenFrames.antt =====
-- The functions of token.py keep every invariant of the database.
use diracx.Prelude.{ℕ, zero, suc, ◌+◌, String, Option, List}
use diracx.Prelude.Outcome.{Error, integrity_error, invalid_credentials_error, Action, raise}
use diracx.Prelude.Keeps.{Keeps, Keeps-handle, Keeps-bind, Keeps-raise, keeps_rules}
use diracx.Config.{Config, AuthSettings}
use diracx.Auth.Db.{
  Session, DeviceFlow, AuthorizationFlow, RefreshToken, IdToken, FlowStatus, ready,
}
use diracx.Auth.Db.Device.{
  Secrets, device_flow_insert_id_token, insert_attempts, insert_device_flow, on_integrity_error,
}
use diracx.Auth.Db.Authorization.{authorization_flow_insert_id_token}
use diracx.Auth.Exchange.{
  Crypto, Call, Claims, Terms, issue_refresh, exchange_token, perform_legacy_exchange,
}
use diracx.Auth.Token.{
  GrantType, authorization_code, device_code, refresh_token, TokenRequest, get_device_flow,
  redeem_device_flow, redeem_authorization_flow, get_authorization_flow,
  token_info_from_device_flow, token_info_from_authorization_flow, rotate, reject_reuse,
  revoke_presented, token_info_from_refresh_flow, token_info, get_oidc_token,
}
use diracx.Auth.Routes.Invariant.{IsInvariant, reads}

module _ (crypto : Crypto) {P : Session → Type 0} (inv : IsInvariant crypto.hash P) where
  on_integrity_error-Keeps :
      (rest : Action Session (String × String)) (e : Error)
      → Keeps P rest
      → Keeps P (on_integrity_error rest raise e)
  on_integrity_error-Keeps rest integrity_error k = k
  on_integrity_error-Keeps rest _ k = search keeps_rules

  insert_attempts-Keeps :
      (now : ℕ) (secrets : Secrets) (client scope : String) (n i : ℕ)
      → Keeps P (insert_attempts crypto.hash now secrets client scope n i)
  unfolding insert_attempts
  insert_attempts-Keeps now secrets client scope zero i = search keeps_rules
  insert_attempts-Keeps now secrets client scope (suc n) i =
      Keeps-handle _ _ (search (keeps_rules, inv.on_insert_device)) (λ e.
        on_integrity_error-Keeps _ e (insert_attempts-Keeps now secrets client scope n (i + 1)))

  pub insert_device_flow-Keeps :
      (now : ℕ) (secrets : Secrets) (client scope : String)
      → Keeps P (insert_device_flow crypto.hash now secrets client scope)
  unfolding insert_device_flow
  insert_device_flow-Keeps now secrets client scope =
      insert_attempts-Keeps now secrets client scope 5 0

  pub fill_device-Keeps :
      (now : ℕ) (user_code : String) (id_token : IdToken) (v : ℕ)
      → Keeps P (device_flow_insert_id_token now user_code id_token v)
  unfolding device_flow_insert_id_token
  fill_device-Keeps now user_code id_token v = search (keeps_rules, inv.on_fill_device)

  pub fill_authorization-Keeps :
      (now : ℕ) (code uuid : String) (id_token : IdToken) (v : ℕ)
      → Keeps P (authorization_flow_insert_id_token crypto.hash now code uuid id_token v)
  unfolding authorization_flow_insert_id_token
  fill_authorization-Keeps now code uuid id_token v =
      search (keeps_rules, reads, inv.on_fill_authorization) depth 8

  module _ (call : Call) (settings : AuthSettings) where
    module _ (config : Config) (available : List String) where
      issue_refresh-Keeps :
          (subject scope : String) (terms : Terms)
          → Keeps P (issue_refresh crypto call config settings available subject scope terms)
      unfolding issue_refresh
      issue_refresh-Keeps subject scope terms = search (keeps_rules, inv.on_insert_refresh)

      pub exchange_token-Keeps :
          (scope : String) (oidc : Option IdToken) (terms : Terms)
          → Keeps P (exchange_token crypto call config settings available scope oidc terms)
      unfolding exchange_token
      exchange_token-Keeps scope oidc terms = search (keeps_rules, issue_refresh-Keeps) depth 8

      pub legacy-Keeps :
          (expected name scope : String) (key_of : String → Option String) (auth : String)
          (expiry : Option ℕ)
          → Keeps P (
              perform_legacy_exchange crypto call config settings available expected name scope
                key_of auth expiry)
      unfolding perform_legacy_exchange
      legacy-Keeps expected name scope key_of auth expiry =
          search (keeps_rules, exchange_token-Keeps) depth 10

    redeem_device-Keeps :
        (code : String) (res : DeviceFlow) (status : FlowStatus)
        → Keeps P (redeem_device_flow crypto call code res status)
    unfolding redeem_device_flow
    redeem_device-Keeps code res ready = search (keeps_rules, inv.on_redeem_device)
    redeem_device-Keeps code res _ = search keeps_rules

    redeem_authorization-Keeps :
        (code : String) (res : AuthorizationFlow) (status : FlowStatus)
        → Keeps P (redeem_authorization_flow crypto call code res status)
    unfolding redeem_authorization_flow
    redeem_authorization-Keeps code res ready = search (keeps_rules, inv.on_redeem_authorization)
    redeem_authorization-Keeps code res _ = search keeps_rules

    get_device-Keeps : (code : String) (v : ℕ) → Keeps P (get_device_flow crypto call code v)
    unfolding get_device_flow
    get_device-Keeps code v = search (keeps_rules, reads, redeem_device-Keeps) depth 8

    get_authorization-Keeps :
        (code : String) (v : ℕ) → Keeps P (get_authorization_flow crypto call code v)
    unfolding get_authorization_flow
    get_authorization-Keeps code v = search (keeps_rules, reads, redeem_authorization-Keeps) depth 8

    device_info-Keeps :
        (code client : String)
        → Keeps P (token_info_from_device_flow crypto call settings code client)
    unfolding token_info_from_device_flow
    device_info-Keeps code client = search (keeps_rules, get_device-Keeps) depth 8

    authorization_info-Keeps :
        (code client : String) (uri : Option String) (verifier : String)
        → Keeps P (token_info_from_authorization_flow crypto call settings code client uri verifier)
    unfolding token_info_from_authorization_flow
    authorization_info-Keeps code client uri verifier =
        search (keeps_rules, get_authorization-Keeps) depth 14

    reject_reuse-Keeps : (row : RefreshToken) → Keeps P (reject_reuse crypto call row)
    unfolding reject_reuse
    reject_reuse-Keeps row =
        Keeps-bind _ _ (inv.on_revoke_user row.sub)
          (λ _. Keeps-bind _ _ inv.on_commit (λ _. Keeps-raise invalid_credentials_error))

    revoke_presented-Keeps : (claims : Claims) → Keeps P (revoke_presented crypto call claims)
    unfolding revoke_presented
    revoke_presented-Keeps claims = search (keeps_rules, inv.on_revoke)

    rotate-Keeps : (claims : Claims) (row : RefreshToken) → Keeps P (rotate crypto call claims row)
    unfolding rotate
    rotate-Keeps claims row = search (keeps_rules, reject_reuse-Keeps, revoke_presented-Keeps)

    refresh_info-Keeps :
        (refresh : String) → Keeps P (token_info_from_refresh_flow crypto call refresh)
    unfolding token_info_from_refresh_flow
    refresh_info-Keeps refresh = search (keeps_rules, reads, rotate-Keeps) depth 12

    token_info-Keeps :
        (grant : GrantType) (r : TokenRequest) → Keeps P (token_info crypto call settings grant r)
    unfolding token_info
    token_info-Keeps device_code r = search (keeps_rules, device_info-Keeps) depth 8
    token_info-Keeps authorization_code r = search (keeps_rules, authorization_info-Keeps) depth 8
    token_info-Keeps refresh_token r = search (keeps_rules, refresh_info-Keeps) depth 8

    pub get_oidc_token-Keeps :
        (config : Config) (available : List String) (r : TokenRequest)
        → Keeps P (get_oidc_token crypto call settings config available r)
    unfolding get_oidc_token
    get_oidc_token-Keeps config available r =
        search (keeps_rules, token_info-Keeps, exchange_token-Keeps)
