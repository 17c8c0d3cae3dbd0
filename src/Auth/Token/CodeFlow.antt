-- ===== src/Auth/Token/CodeFlow.antt =====
-- The authorization code flow at the token endpoint (diracx-logic/src/diracx/logic/auth/token.py).
use diracx.Prelude.{
  ℕ, ◌+◌, ◌<◌, String, ◌&&◌, ◌≡◌, ap, subst, ◌≢◌, ◌≤◌, ◌⊎◌, ◌∙◌, Option, some, [], ◌∷◌, eq_iff,
  arith,
}
use diracx.Prelude.Table.{select, update}
use diracx.Prelude.Outcome.{
  Error, returns, raises, ◌>>=◌, >>=-eq-returns, get_or_raise-eq-returns, ensure-eq-returns,
  pure-eq-returns, authorization_error, pending_authorization_error, invalid_credentials_error,
}
use diracx.Config.{AuthSettings}
use diracx.Auth.Db.{
  FlowStatus, pending, ready, done, AuthorizationFlow, DeviceFlow, Session, put_authorization_flows,
  put_device_flows, is_fresh,
}
use diracx.Auth.Db.Authorization
use diracx.Auth.Db.Authorization.{has_code, update_authorization_flow_status}
use diracx.Auth.Db.Device
use diracx.Auth.Db.Device.{has_device_code, update_device_flow_status}
use diracx.Auth.Exchange.{Crypto, Call}
use diracx.Auth.Token.{
  TokenInfo, get_authorization_flow, redeem_authorization_flow, token_info_from_authorization_flow,
  get_device_flow, redeem_device_flow,
}

-- what a device that polls is told when its row is not ready
abbrev pub poll_error : FlowStatus → Error
poll_error pending = pending_authorization_error
poll_error _ = authorization_error

-- the code is in one fresh row, which was ready and is now done
pub record IsCodeRedeemed (crypto : Crypto) (now v : ℕ) (code : String) (s : Session)
    (r : AuthorizationFlow) (s' : Session) : Type 0 where
  pub unique :
      select
        (λ x. has_code crypto.hash code x && is_fresh now v x.creation_time)
        s.db.authorization_flows
      ≡ r ∷ []
  pub was_ready : r.status ≡ ready
  pub effect :
      put_authorization_flows
        (update
          (has_code crypto.hash code)
          (λ r. record r { status = done })
          s.db.authorization_flows)
        s
      ≡ s'

-- What the flow has checked when it hands out an identity.
pub record IsProved (crypto : Crypto) (now : ℕ) (settings : AuthSettings) (code client_id : String)
    (redirect_uri : Option String) (code_verifier : String) (s : Session) (info : TokenInfo)
    (s' : Session) : Type 0 where
  pub row : AuthorizationFlow
  pub redeemed :
      IsCodeRedeemed crypto now settings.authorization_flow_expiration_seconds code s row s'
  pub same_uri : redirect_uri ≡ some row.redirect_uri
  pub same_client : client_id ≡ row.client_id
  pub proved : crypto.challenge_of code_verifier ≡ some row.code_challenge
  pub identity : (row.id_token, row.scope) ≡ info

module _ (crypto : Crypto) (call : Call) where
  get_authorization_flow-IsCodeRedeemed :
      (code : String) (v : ℕ) (s : Session) {r : AuthorizationFlow} {s' : Session}
      → get_authorization_flow crypto call code v s ≡ returns r s'
      → IsCodeRedeemed crypto call.now v code s r s'
  unfolding get_authorization_flow Authorization.get_authorization_flow redeem_authorization_flow
      update_authorization_flow_status ◌>>=◌
  get_authorization_flow-IsCodeRedeemed code v s h = record {
    unique = ground arith;
    was_ready = ground arith;
    effect = ground arith;
  }

  module _ (settings : AuthSettings) where
    -- An authorization code gives an identity only if its row is fresh and ready, the client and the redirect URI are those
    -- of the row and the verifier answers the row's challenge; then the row is done.
    pub token_info_from_authorization_flow-IsProved :
        (code client_id : String) (redirect_uri : Option String) (code_verifier : String)
        (s : Session) {info : TokenInfo} {s' : Session}
        → token_info_from_authorization_flow crypto call settings code client_id redirect_uri
            code_verifier s
          ≡ returns info s'
        → IsProved crypto call.now settings code client_id redirect_uri code_verifier s info s'
    unfolding token_info_from_authorization_flow
    token_info_from_authorization_flow-IsProved code client_id redirect_uri code_verifier s h =
        let (r, s1, e1, k1) = >>=-eq-returns _ _ s h in
        let (uri, s2, e2, k2) = >>=-eq-returns _ _ s1 k1 in
        let (_, s3, e3, k3) = >>=-eq-returns _ _ s2 k2 in
        let (_, s4, e4, k4) = >>=-eq-returns _ _ s3 k3 in
        let (challenge, s5, e5, k5) = >>=-eq-returns _ _ s4 k4 in
        let (_, s6, e6, k6) = >>=-eq-returns _ _ s5 k5 in
        let (_, s7, e7, k7) = >>=-eq-returns _ _ s6 k6 in
        let (given, p2) = get_or_raise-eq-returns _ _ s1 e2 in
        let (uri_ok, p3) = ensure-eq-returns _ _ s2 e3 in
        let (client_ok, p4) = ensure-eq-returns _ _ s3 e4 in
        let (computed, p5) = get_or_raise-eq-returns _ _ s4 e5 in
        let (challenge_ok, p6) = ensure-eq-returns _ _ s5 e6 in
        let (_, p7) = ensure-eq-returns _ _ s6 e7 in
        let (it, p8) = pure-eq-returns _ s7 k7 in
        record {
          row = r;
          redeemed =
              subst
                (λ (z : Session).
                  IsCodeRedeemed crypto call.now settings.authorization_flow_expiration_seconds code
                    s r z)
                (p2 ∙ p3 ∙ p4 ∙ p5 ∙ p6 ∙ p7 ∙ p8)
                (get_authorization_flow-IsCodeRedeemed code
                  settings.authorization_flow_expiration_seconds s e1);
          same_uri = given ∙ ap some ((eq_iff uri r.redirect_uri).0 uri_ok);
          same_client = (eq_iff client_id r.client_id).0 client_ok;
          proved = computed ∙ ap some ((eq_iff challenge r.code_challenge).0 challenge_ok);
          identity = it;
        }

  -- A device that polls with a known code is told that the code expired once its validity is over; before, it is
  -- told whether to wait or that it was refused, by the status of its row, and nothing changes; a ready row is
  -- handed out and is then done.
  pub get_device_flow-answers :
      (code : String) (v : ℕ) (s : Session) (r : DeviceFlow)
      → select (has_device_code crypto.hash code) s.db.device_flows ≡ r ∷ []
      → (r.creation_time + v < call.now)
          × (get_device_flow crypto call code v s ≡ raises invalid_credentials_error s)
        ⊎ (call.now ≤ r.creation_time + v)
          × (r.status ≢ ready)
          × (get_device_flow crypto call code v s ≡ raises (poll_error r.status) s)
        ⊎ (call.now ≤ r.creation_time + v)
          × (r.status ≡ ready)
          × (get_device_flow crypto call code v s
              ≡ returns r (
                  put_device_flows
                    (update
                      (has_device_code crypto.hash code)
                      (λ x. record x { status = done })
                      s.db.device_flows)
                    s))
  unfolding get_device_flow Device.get_device_flow redeem_device_flow update_device_flow_status
      ◌>>=◌
  get_device_flow-answers code v s r h = ground arith
