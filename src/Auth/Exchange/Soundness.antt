-- ===== src/Auth/Exchange/Soundness.antt =====
-- For whom `exchange_token` issues tokens, and what it stores.
use diracx.Prelude.{
  ◌+◌, ◌*◌, String, true, false, ◌≡◌, refl, sym, subst, ◌∙◌, Option, none, some, List, [], ◌∷◌,
  ◌++◌, arith, ◌⊎◌,
}
use diracx.Prelude.Table.{exists}
use diracx.Prelude.Outcome.{ok, returns, ◌>>=◌, >>=-eq-returns, pure-eq-returns, lift-eq-returns}
use diracx.Config.{Config, AuthSettings}
use diracx.Auth.Db.{IdToken, Session, created, put_refresh_tokens}
use diracx.Auth.Db.Refresh.{insert_refresh_token, has_jti}
use mathlib.Core.Path.{subst₂}
use diracx.Auth.Authorize.{IsAuthorized, authorize-IsAuthorized}
use diracx.Auth.Scope.{ScopeInfo, parse_and_validate_scope}
use diracx.Auth.Exchange.{
  Crypto, Call, Terms, RefreshTokenPayload, Payloads, issue_refresh, access_payload, exchange_token,
  expiry_or,
}

-- How the refresh token of an exchange and the stored rows go together.
abbrev pub Stored :
    Crypto
    → Call
    → AuthSettings
    → String
    → String
    → Terms
    → Option RefreshTokenPayload
    → Session
    → Session
    → Type 0
Stored crypto call settings subject scope terms o s s' =
    (terms.include_refresh_token ≡ false) × (o ≡ none) × (s ≡ s')
    ⊎ (terms.include_refresh_token ≡ true)
      × (o
          ≡ some (record {
            jti = call.refresh_jti;
            exp =
                crypto.uuid_time call.refresh_jti
                + expiry_or (settings.refresh_token_expire_minutes * 60) terms.refresh_expiry;
            legacy_exchange = terms.legacy_exchange;
          }))
      × (exists (has_jti call.refresh_jti) s.db.refresh_tokens ≡ false)
      × (s'
          ≡ put_refresh_tokens
              (s.db.refresh_tokens
                ++ (record {
                  jti = call.refresh_jti;
                  status = created;
                  scope = scope;
                  sub = subject;
                })
                  ∷ [])
              s)

-- The scope is valid, its subject is authorized, and the payload says what was checked.
pub record IsIssued (crypto : Crypto) (call : Call) (config : Config) (settings : AuthSettings)
    (available : List String) (scope : String) (oidc : Option IdToken) (terms : Terms)
    (out : Payloads) (s s' : Session) : Type 0 where
  pub info : ScopeInfo
  pub scope_valid : parse_and_validate_scope scope config available ≡ ok info
  pub authorized : IsAuthorized config oidc info out.0.sub out.0.preferred_username
  pub vo_is : out.0.vo ≡ info.vo
  pub group_is : out.0.dirac_group ≡ info.group
  pub properties_are : out.0.dirac_properties ≡ info.properties
  pub expires :
      out.0.exp ≡ crypto.uuid_time call.access_jti + settings.access_token_expire_minutes * 60
  pub stored : Stored crypto call settings out.0.sub scope terms out.1 s s'

module _ (crypto : Crypto) (call : Call) (config : Config) (settings : AuthSettings)
    (available : List String) where
  issue_refresh-Stored :
      (subject scope : String) (terms : Terms) (s : Session) {o : Option RefreshTokenPayload}
      {s' : Session}
      → issue_refresh crypto call config settings available subject scope terms s ≡ returns o s'
      → Stored crypto call settings subject scope terms o s s'
  unfolding issue_refresh insert_refresh_token ◌>>=◌
  issue_refresh-Stored subject scope terms s h = ground arith

  -- Tokens are issued only to an authorized subject, with the rights of its scope, and a refresh token
  -- is stored exactly when one is issued.
  pub exchange_token-IsIssued :
      (scope : String) (oidc : Option IdToken) (terms : Terms) (s : Session) {out : Payloads}
      {s' : Session}
      → exchange_token crypto call config settings available scope oidc terms s ≡ returns out s'
      → IsIssued crypto call config settings available scope oidc terms out s s'
  unfolding exchange_token access_payload
  exchange_token-IsIssued scope oidc terms s {out} {s'} h =
      let (info, s1, e1, k1) = >>=-eq-returns _ _ s h in
      let (who, s2, e2, k2) = >>=-eq-returns _ _ s1 k1 in
      let (refresh, s3, e3, k3) = >>=-eq-returns _ _ s2 k2 in
      let (valid, p1) = lift-eq-returns _ s e1 in
      let (allowed, p2) = lift-eq-returns _ s1 e2 in
      let (it, p3) = pure-eq-returns _ s3 k3 in
      let stored = issue_refresh-Stored who.0 scope terms s2 e3 in
      subst₂
        (λ (o : Payloads) (z : Session).
          IsIssued crypto call config settings available scope oidc terms o s z)
        it p3
        (record {
          info = info;
          scope_valid = valid;
          authorized = authorize-IsAuthorized config oidc info allowed;
          vo_is = refl;
          group_is = refl;
          properties_are = refl;
          expires = refl;
          stored =
              subst (λ (z : Session). Stored crypto call settings who.0 scope terms refresh z s3)
                (sym (p1 ∙ p2)) stored;
        })
