-- ===== src/Auth/Flows.antt =====
-- The device flow, the authorization code flow and the management of refresh tokens
-- (device_flow.py, authorize_code_flow.py and management.py of diracx-logic/src/diracx/logic/auth).
pub mod Revocation
use diracx.Prelude.{
  ℕ, String, Bool, false, not, Option, none, some, List, [], ◌∷◌, ◌==◌, ◌&&◌, mem, lookup,
}
use diracx.Prelude.Text.{append, join}
use diracx.Prelude.Outcome.{
  value_error, key_error, assertion_error, permission_error, authorization_error, Result, Action,
  pure, lift, get_or_raise, ensure, ◌>>=◌, ◌>>◌,
}
use diracx.Config.{Config, AuthSettings}
use diracx.Auth.Db.{IdToken, RefreshToken, Session}
use diracx.Auth.Db.Device.{
  Secrets, device_flow_validate_user_code, device_flow_insert_id_token, insert_device_flow,
}
use diracx.Auth.Db.Authorization.{insert_authorization_flow, authorization_flow_insert_id_token}
use diracx.Auth.Db.Refresh.{get_refresh_token, get_user_refresh_tokens, revoke_refresh_token}
use diracx.Auth.Scope.{parse_and_validate_scope}
use diracx.Auth.Exchange.{Crypto}

-- The state that travels through the IAM, as a dictionary.
abbrev pub IamState : Type 0
IamState = List (String × String)

-- The IAM and the ciphers: its authorization endpoint and client for a VO, the exchange of its code
-- for an ID token, the encryption of the state and the PKCE challenge of a fresh verifier.
pub record Iam : Type 0 where
  pub authorization_endpoint : String → Result String
  pub iam_client_id : String → Result String
  pub get_token : String → String → IamState → String → Result IdToken
  pub encrypt_state : IamState → String
  pub decrypt_state : String → Option IamState
  pub code_verifier : String
  pub code_challenge : String

abbrev pub device_grant : String
device_grant = "urn:ietf:params:oauth:grant-type:device_code"

abbrev pub authorization_grant : String
authorization_grant = "authorization_code"

pub record DeviceFlowResponse : Type 0 where
  pub user_code : String
  pub device_code : String
  pub verification_uri_complete : String
  pub verification_uri : String
  pub expires_in : ℕ

module _ (crypto : Crypto) (iam : Iam) (config : Config) (settings : AuthSettings) where
  unfoldable pub initiate_authorization_flow_with_iam :
      String → String → IamState → Action Session String
  initiate_authorization_flow_with_iam vo redirect_uri state = do
    endpoint ← lift (iam.authorization_endpoint vo)
    client_id ← lift (iam.iam_client_id vo)
    let encrypted = iam.encrypt_state (("vo", vo) ∷ ("code_verifier", iam.code_verifier) ∷ state)
    let params =
        "response_type=code"
        ∷ append "code_challenge=" iam.code_challenge
        ∷ "code_challenge_method=S256"
        ∷ append "client_id=" client_id
        ∷ append "redirect_uri=" redirect_uri
        ∷ "scope=openid%20profile"
        ∷ append "state=" encrypted
        ∷ []
    pure (append endpoint (append "?" (join "&" params)))

  unfoldable pub initiate_device_flow :
      ℕ → Secrets → List String → String → String → String → Action Session DeviceFlowResponse
  initiate_device_flow now secrets available client_id scope verification_uri = do
    ensure (settings.dirac_client_id == client_id) value_error
    info ← lift (parse_and_validate_scope scope config available)
    codes ← insert_device_flow crypto.hash now secrets client_id scope
    pure (record {
      user_code = codes.0;
      device_code = codes.1;
      verification_uri_complete = append verification_uri (append "?user_code=" codes.0);
      verification_uri = verification_uri;
      expires_in = settings.device_flow_expiration_seconds;
    })

  unfoldable pub do_device_flow : ℕ → List String → String → String → Action Session String
  do_device_flow now available request_url user_code = do
    scope ← device_flow_validate_user_code now user_code settings.device_flow_expiration_seconds
    info ← lift (parse_and_validate_scope scope config available)
    initiate_authorization_flow_with_iam info.vo (append request_url "/complete")
        (("grant_type", device_grant) ∷ ("user_code", user_code) ∷ [])

  -- the decrypted state, if it is of the grant type, and the ID token
  unfoldable pub token_from_state :
      String → String → String → String → Action Session (IamState × IdToken)
  token_from_state grant request_url code state = do
    decrypted ← get_or_raise authorization_error (iam.decrypt_state state)
    grant_type ← get_or_raise key_error (lookup "grant_type" decrypted)
    ensure (grant_type == grant) assertion_error
    vo ← get_or_raise key_error (lookup "vo" decrypted)
    id_token ← lift (iam.get_token vo code decrypted request_url)
    pure (decrypted, id_token)

  unfoldable pub finish_device_flow : ℕ → String → String → String → Action Session (Unit {0})
  finish_device_flow now request_url code state = do
    found ← token_from_state device_grant request_url code state
    user_code ← get_or_raise key_error (lookup "user_code" found.0)
    device_flow_insert_id_token now user_code found.1 settings.device_flow_expiration_seconds

  unfoldable pub initiate_authorization_flow :
      ℕ
      → String
      → List String
      → String
      → String
      → String
      → String
      → String
      → String
      → String
      → Action Session String
  initiate_authorization_flow now uuid available request_url challenge challenge_method client_id
        redirect_uri scope state =
      do
        ensure (settings.dirac_client_id == client_id) value_error
        ensure (mem redirect_uri settings.allowed_redirects) value_error
        info ← lift (parse_and_validate_scope scope config available)
        id ←
            insert_authorization_flow now uuid client_id scope challenge challenge_method
              redirect_uri
        initiate_authorization_flow_with_iam info.vo (append request_url "/complete")
            (("external_state", state) ∷ ("uuid", id) ∷ ("grant_type", authorization_grant) ∷ [])

  unfoldable pub complete_authorization_flow :
      ℕ → String → String → String → String → Action Session String
  complete_authorization_flow now fresh_code code state request_url = do
    found ← token_from_state authorization_grant request_url code state
    uuid ← get_or_raise key_error (lookup "uuid" found.0)
    redirect ←
        authorization_flow_insert_id_token crypto.hash now fresh_code uuid found.1
          settings.authorization_flow_expiration_seconds
    external ← get_or_raise key_error (lookup "external_state" found.0)
    pure (append redirect.1 (append "?code=" (append redirect.0 (append "&state=" external))))

unfoldable pub get_refresh_tokens : Option String → Action Session (List RefreshToken)
get_refresh_tokens subject = get_user_refresh_tokens subject

-- `subject and subject != res["Sub"]`
abbrev pub is_someone_else : Option String → RefreshToken → Bool
is_someone_else none r = false
is_someone_else (some subject) r = not (subject == "") && not (subject == r.sub)

unfoldable pub revoke_refresh_token_by_jti : Option String → String → Action Session (Unit {0})
revoke_refresh_token_by_jti subject jti = do
  res ← get_refresh_token jti
  ensure (not (is_someone_else subject res)) permission_error
  revoke_refresh_token jti

unfoldable pub revoke_refresh_token_by_refresh_token :
    Crypto → ℕ → Option String → String → Action Session (Unit {0})
revoke_refresh_token_by_refresh_token crypto now subject token = do
  claims ← lift (crypto.read_token now token)
  revoke_refresh_token_by_jti subject claims.jti
